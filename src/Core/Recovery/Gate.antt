-- ===== src/Core/Recovery/Gate.antt =====
-- Atomic batches on recovery: a batch that is whole is applied whole, a batch that a crash has torn
-- is not applied at all.
use skeg.Prelude.{
  ℕ, ◌+◌, ◌<◌, ◌≡◌, refl, ap, sym, ◌∙◌, arith, List, [], ◌∷◌, ◌++◌, some, true, false, length,
  length-append, length-take, take, append_assoc, append-nil, All, All-take, lt→ltb, lt→==, ==_iff,
}
use skeg.Core.Record.{Record}
use skeg.Core.Recovery.{is_batch_begin, batch_count, BatchGate, fresh, feed, feed_all}

abbrev pub Placed : Type 0
Placed = ℕ × Record

-- One write of the store: a record, or a batch header with the members behind it.
pub data Write : Type 0 where
  single : Placed → Write
  batch : Placed → List Placed → Write

abbrev pub IsPlain : Placed → Type 0
IsPlain p = is_batch_begin (p.1).kind ≡ false

abbrev pub IsWritten : Write → Type 0
IsWritten (single p) = IsPlain p
IsWritten (batch h ms) =
    (is_batch_begin (h.1).kind ≡ true)
    × (batch_count (h.1).value ≡ length ms)
    × (0 < length ms)
    × All IsPlain ms

abbrev pub layout : List Write → List Placed
layout [] = []
layout (single p ∷ ws) = p ∷ layout ws
layout (batch h ms ∷ ws) = h ∷ (ms ++ layout ws)

-- What the writes are to leave behind.
abbrev pub effects : List Write → List Placed
effects [] = []
effects (single p ∷ ws) = p ∷ effects ws
effects (batch h ms ∷ ws) = ms ++ effects ws

abbrev waiting : ℕ → List Placed → BatchGate
waiting n held = record { expect = some n; pending = held }

feed_plain :
    (p : Placed) (rest : List Placed)
    → IsPlain p
    → feed_all fresh (p ∷ rest) ≡ p ∷ feed_all fresh rest
unfolding feed_all feed
feed_plain (o, r) rest h = rw h

feed_header :
    (gate : BatchGate) (p : Placed) (rest : List Placed)
    → is_batch_begin (p.1).kind ≡ true
    → 0 < batch_count (p.1).value
    → feed_all gate (p ∷ rest) ≡ feed_all (waiting (batch_count (p.1).value) []) rest
unfolding feed_all feed
feed_header gate (o, r) rest h n = rw (h, lt→ltb 0 (batch_count r.value) n)

feed_held :
    (n : ℕ) (held : List Placed) (p : Placed) (rest : List Placed)
    → IsPlain p
    → length held + 1 < n
    → feed_all (waiting n held) (p ∷ rest) ≡ feed_all (waiting n (held ++ (p ∷ []))) rest
unfolding feed_all feed
feed_held n held (o, r) rest h k =
    rw (
      h,
      lt→== (length (held ++ ((o, r) ∷ []))) n (omega (arith, length-append held ((o, r) ∷ []))),
    )

feed_last :
    (n : ℕ) (held : List Placed) (p : Placed) (rest : List Placed)
    → IsPlain p
    → length held + 1 ≡ n
    → feed_all (waiting n held) (p ∷ rest) ≡ (held ++ (p ∷ [])) ++ feed_all fresh rest
unfolding feed_all feed
feed_last n held (o, r) rest h k = rw (
  h,
  (==_iff (length (held ++ ((o, r) ∷ []))) n).1 (omega (arith, length-append held ((o, r) ∷ []))),
)

feed_members :
    (n : ℕ) (held ms rest : List Placed)
    → All IsPlain ms
    → 0 < length ms
    → length held + length ms ≡ n
    → feed_all (waiting n held) (ms ++ rest) ≡ (held ++ ms) ++ feed_all fresh rest
feed_members n held [] rest h p k = absurd (omega arith)
feed_members n held (m ∷ []) rest (hm, h) p k = feed_last n held m rest hm (omega arith)
feed_members n held (m ∷ (m' ∷ ms)) rest (hm, h) p k =
    feed_held n held m ((m' ∷ ms) ++ rest) hm (omega arith)
    ∙ feed_members n (held ++ (m ∷ [])) (m' ∷ ms) rest h (omega arith)
        (omega (arith, length-append held (m ∷ [])))
    ∙ ap (λ l. l ++ feed_all fresh rest) (append_assoc held (m ∷ []) (m' ∷ ms))

feed_torn :
    (n : ℕ) (held ms : List Placed)
    → All IsPlain ms
    → length held + length ms < n
    → feed_all (waiting n held) ms ≡ []
feed_torn n held [] h k = unfold feed_all in refl
feed_torn n held (m ∷ ms) (hm, h) k =
    feed_held n held m ms hm (omega arith)
    ∙ feed_torn n (held ++ (m ∷ [])) ms h (omega (arith, length-append held (m ∷ [])))

feed_writes :
    (ws : List Write) (tail : List Placed)
    → All IsWritten ws
    → feed_all fresh (layout ws ++ tail) ≡ effects ws ++ feed_all fresh tail
feed_writes [] tail h = refl
feed_writes (single p ∷ ws) tail (hp, h) =
    feed_plain p (layout ws ++ tail) hp ∙ ap (λ l. p ∷ l) (feed_writes ws tail h)
feed_writes (batch p ms ∷ ws) tail ((hk, hn, pos, hms), h) =
    feed_header fresh p ((ms ++ layout ws) ++ tail) hk (omega arith)
    ∙ rw (append_assoc ms (layout ws) tail) (
        feed_members (batch_count (p.1).value) [] ms (layout ws ++ tail) hms pos (omega arith)
        ∙ rw (feed_writes ws tail h, append_assoc ms (effects ws) (feed_all fresh tail)))

-- Over a segment of whole writes the gate releases every record and every member of every batch, in
-- order, and no header.
pub feed_all_whole : (ws : List Write) → All IsWritten ws → feed_all fresh (layout ws) ≡ effects ws
feed_all_whole ws h =
    sym (ap (feed_all fresh) (append-nil (layout ws)))
    ∙ feed_writes ws [] h
    ∙ (unfold feed_all in append-nil (effects ws))

-- A segment whose last batch was cut short, after any number of its members, releases what the writes
-- before that batch left, and none of its members.
pub feed_all_torn :
    (ws : List Write) (header : Placed) (members : List Placed) (kept : ℕ)
    → All IsWritten ws
    → IsWritten (batch header members)
    → kept < length members
    → feed_all fresh (layout ws ++ (header ∷ take kept members)) ≡ effects ws
feed_all_torn ws header members kept h (hk, hn, pos, hms) k =
    feed_writes ws (header ∷ take kept members) h
    ∙ rw
        (
          feed_header fresh header (take kept members) hk (omega arith),
          feed_torn (batch_count (header.1).value) [] (take kept members)
              (All-take IsPlain kept members hms) (omega (arith, length-take kept members)),
        )
        (append-nil (effects ws))
