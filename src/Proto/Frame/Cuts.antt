-- ===== src/Proto/Frame/Cuts.antt =====
-- How the network cuts a stream does not change the frames that the server reads:
-- crates/skeg-server/src/handler.rs, the loop of handle_connection.
use skeg.Prelude.{
  List, ◌∷◌, refl, some, ◌≡◌, ap, ap₂, sym, ◌∙◌, Bytes, [], ◌++◌, none, Bool-cases, inl, inr,
  length, ltb, ltb→le,
}
use skeg.Proto.Error.{Parsed, ok, err}
use skeg.Proto.Frame.{
  Frame, Fed, FrameHeader, ParseState, in_header, in_payload, header_len, fill, parse_header,
  end_payload, feed_payload, feed_parsed, end_header, feed,
}
use skeg.Proto.Frame.Fill.{fill-full}
use skeg.Proto.Frame.Stream.{feed-append}

-- A call's result with `b` behind the input that is left.
abbrev with_rest : Bytes → Fed → Fed
with_rest b (result, state, rest) = (result, state, rest ++ b)

end_payload-rest :
    (header : FrameHeader) (buf a b : Bytes) (f : Frame)
    → (end_payload header (buf, a)).0 ≡ ok (some f)
    → end_payload header (buf, a ++ b) ≡ with_rest b (end_payload header (buf, a))
unfolding end_payload
end_payload-rest header buf a b f h = elim (Bool-cases (ltb (length buf) header.payload_len)) [
  | inl short ↦ absurd (cc (rw short at h))
  | inr whole ↦ rw whole refl
]

feed_payload-rest :
    (header : FrameHeader) (buf a b : Bytes) (f : Frame)
    → (feed_payload header buf a).0 ≡ ok (some f)
    → feed_payload header buf (a ++ b) ≡ with_rest b (feed_payload header buf a)
unfolding feed_payload end_payload
feed_payload-rest header buf a b f h =
    let cap = header.payload_len in
    elim (Bool-cases (ltb (length (fill cap buf a).0) cap)) [
      | inl short ↦ absurd (cc (rw short at h))
      | inr whole ↦
          ap (end_payload header)
            (fill-full cap buf a b (ltb→le (length (fill cap buf a).0) cap whole))
          ∙ end_payload-rest header (fill cap buf a).0 (fill cap buf a).1 b f h
    ]

feed_parsed-rest :
    (parsed : Parsed FrameHeader) (buf a b : Bytes) (f : Frame)
    → (feed_parsed parsed buf a).0 ≡ ok (some f)
    → feed_parsed parsed buf (a ++ b) ≡ with_rest b (feed_parsed parsed buf a)
unfolding feed_parsed
feed_parsed-rest (err e) buf a b f h = absurd cc
feed_parsed-rest (ok header) buf a b f h = feed_payload-rest header [] a b f h

-- A call that returns a frame does not look at what lies behind it.
feed-rest :
    (state : ParseState) (a b : Bytes) (f : Frame)
    → (feed state a).0 ≡ ok (some f)
    → feed state (a ++ b) ≡ with_rest b (feed state a)
unfolding feed end_header
feed-rest (in_payload header buf) a b f h = feed_payload-rest header buf a b f h
feed-rest (in_header buf) a b f h =
    let head = fill header_len buf a in
    elim (Bool-cases (ltb (length head.0) header_len)) [
      | inl short ↦ absurd (cc (rw short at h))
      | inr whole ↦
          let more = fill-full header_len buf a b (ltb→le (length head.0) header_len whole) in
          ap end_header more
          ∙ rw whole (feed_parsed-rest (parse_header head.0) head.0 head.1 b f (rw whole at h))
    ]

-- The loop of `handle_connection` on what it has of the stream: it asks for a frame until there is none; the
-- frames that come out, and the state that is left.
pub data Reads : ParseState → Bytes → List Frame → ParseState → Type 0 where
  stops : (s t : ParseState) (a : Bytes) → feed s a ≡ (ok none, t, []) → Reads s a [] t
  frame :
      (s t u : ParseState) (a rest : Bytes) (f : Frame) (fs : List Frame)
      → feed s a ≡ (ok (some f), t, rest)
      → Reads t rest fs u
      → Reads s a (f ∷ fs) u

Reads-same :
    {s t u : ParseState} {a b : Bytes} {fs : List Frame}
    → feed s a ≡ feed t b
    → Reads t b fs u
    → Reads s a fs u
Reads-same e (stops t u b h) = stops _ u _ (e ∙ h)
Reads-same e (frame t t' u b rest f fs h r) = frame _ t' u _ rest f fs (e ∙ h) r

Reads-append :
    {s t u : ParseState} {a : Bytes} (b : Bytes) {fs gs : List Frame}
    → Reads s a fs t
    → Reads t b gs u
    → Reads s (a ++ b) (fs ++ gs) u
Reads-append b (stops s t a h) second =
    let (taken, more) = feed-append s a b (ap (λ r. r.0) h) in
    Reads-same (more ∙ ap (λ r. feed r.1 b) h) second
Reads-append b (frame s t u a rest f fs h first) second =
    frame s t _ (a ++ b) (rest ++ b) f _ (feed-rest s a b f (ap (λ r. r.0) h) ∙ ap (with_rest b) h)
      (Reads-append b first second)

Fed_inj :
    (f g : Frame) (s t : ParseState) (a b : Bytes)
    → ◌≡◌ {A = Fed} (ok (some f), s, a) (ok (some g), t, b)
    → (f ≡ g) × (s ≡ t) × (a ≡ b)
Fed_inj f g s t a b e =
    let results : ok (some f) ≡ ok (some g) = ap (λ r. r.0) e in
    (cc, ap (λ r. r.1) e, ap (λ r. r.2) e)

Reads-unique :
    {s t u : ParseState} {a : Bytes} {fs gs : List Frame}
    → Reads s a fs t
    → Reads s a gs u
    → (fs ≡ gs) × (t ≡ u)
Reads-unique (stops s t a h) (stops _ u _ k) = (refl, ap (λ r. r.1) (sym h ∙ k))
Reads-unique (stops s t a h) (frame _ t' u _ rest f fs k r) =
    let clash : ok none ≡ ok (some f) = ap (λ r. r.0) (sym h ∙ k) in absurd cc
Reads-unique (frame s t u a rest f fs h r) (stops _ v _ k) =
    let clash : ok (some f) ≡ ok none = ap (λ r. r.0) (sym h ∙ k) in absurd cc
Reads-unique (frame s t u a rest f fs h r) (frame _ t' u' _ rest' g gs k r') =
    let (same, states, left) = Fed_inj f g t t' rest rest' (sym h ∙ k) in
    let (later, ends) = Reads-unique r (Reads-same (ap₂ feed states left) r') in
    (ap₂ (λ x xs. x ∷ xs) same later, ends)

-- When the frames of a first part of a stream are `fs` and those of the next part, with the state that is
-- left, are `gs`, then the two parts in one give the frames `fs ++ gs` and the same state, and no others:
-- the frames do not depend on how the stream is cut, where the parser refuses nothing.
pub Reads-cut :
    (s t u : ParseState) (a b : Bytes) (fs gs : List Frame)
    → Reads s a fs t
    → Reads t b gs u
    → Reads s (a ++ b) (fs ++ gs) u
      × ((v : ParseState) (hs : List Frame) → Reads s (a ++ b) hs v → (fs ++ gs ≡ hs) × (u ≡ v))
Reads-cut s t u a b fs gs first second =
    let whole = Reads-append b first second in (whole, λ v hs other. Reads-unique whole other)
