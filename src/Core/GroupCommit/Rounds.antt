-- ===== src/Core/GroupCommit/Rounds.antt =====
-- The rounds of the committer's task: the batch stays bounded.
use skeg.Prelude.{
  ℕ, ◌+◌, ◌<◌, ◌≤◌, ◌≡◌, refl, ap, sym, arith, inl, inr, Bytes, List, [], ◌∷◌, ◌++◌, Bool, true,
  false, Bool-cases, take, drop, length, length-append, length-take, if◌then◌else◌,
}
use skeg.Core.GroupCommit.{
  max_batch_bytes, max_batch_entries, WriteReq, Outcome, Committer, Reply, Msg, write, flush, timer,
  FlushReply, no_flush, write_at, chunks, batch_durability, sync_result, is_empty_batch,
  after_write, flush_batch, flush_and_reset, push, is_full, on_msg,
}
use skeg.Core.GroupCommit.Acked.{is_empty_batch-nil, synced_same}

-- Between rounds: the write offset is in the file, the count of bytes is right, and the batch is below
-- both of its limits.
pub record IsReady (c : Committer) : Type 0 where
  pub inside : c.w_offset ≤ length c.file
  pub counted : c.batch_bytes ≡ length (chunks c.batch)
  pub few_bytes : c.batch_bytes < max_batch_bytes
  pub few_entries : length c.batch < max_batch_entries

length-write_at :
    (offset : ℕ) (bytes file : Bytes)
    → offset ≤ length file
    → offset + length bytes ≤ length (write_at offset bytes file)
unfolding write_at
length-write_at offset bytes file h =
    let rest = drop (offset + length bytes) file in
    omega (
      arith,
      length-append (take offset file) (bytes ++ rest),
      length-append bytes rest,
      length-take offset file,
    )

-- What every flush leaves: no batch, and the write offset inside the file.
flush_batch-empties :
    (env : Outcome) (c : Committer)
    → c.w_offset ≤ length c.file
    → ((flush_batch env c).0.batch ≡ [])
      × ((flush_batch env c).0.w_offset ≤ length (flush_batch env c).0.file)
unfolding flush_batch after_write
flush_batch-empties env c h =
    let whole = length-write_at c.w_offset (chunks c.batch) c.file h in
    let part = length-write_at c.w_offset (take env.partial (chunks c.batch)) c.file h in
    elim (Bool-cases (is_empty_batch c.batch)) [
      | inl none_waits ↦ rw none_waits (is_empty_batch-nil c.batch none_waits, h)
      | inr some_wait ↦ elim (Bool-cases env.write_ok) [
        | inr refused ↦ rw (some_wait, refused) (refl, omega (arith, part))
        | inl done ↦ elim (Bool-cases (sync_result env (batch_durability c.batch))) [
          | inr unsafe ↦ rw (some_wait, done, unsafe) (refl, omega (arith, whole))
          | inl safe ↦
              let c' : Committer = record c {
                file = write_at c.w_offset (chunks c.batch) c.file;
                batch = [];
                w_offset = c.w_offset + length (chunks c.batch);
              } in
              let (file, offset, batch) = synced_same (batch_durability c.batch) c' in
              rw (some_wait, done, safe) (batch, omega (arith, whole, ap length file, offset))
        ]
      ]
    ]

flush_and_reset-IsReady :
    (env : Outcome) (c : Committer) → c.w_offset ≤ length c.file → IsReady (flush_and_reset env c).0
unfolding flush_and_reset
flush_and_reset-IsReady env c h =
    let (gone, inside) = flush_batch-empties env c h in
    record {
      inside = inside;
      counted = sym (ap (λ b. length (chunks b)) gone);
      few_bytes = omega arith;
      few_entries = omega (arith, ap (λ b. length b) gone);
    }

chunks-append :
    (rs : List WriteReq) (r : WriteReq)
    → length (chunks (rs ++ (r ∷ []))) ≡ length (chunks rs) + length r.bytes
chunks-append [] r = omega (arith, length-append r.bytes [])
chunks-append (x ∷ rs) r = omega (
  arith,
  length-append x.bytes (chunks (rs ++ (r ∷ []))),
  length-append x.bytes (chunks rs),
  chunks-append rs r,
)

push-IsReady :
    (req : WriteReq) (c : Committer)
    → IsReady c
    → is_full (push req c) ≡ false
    → IsReady (push req c)
unfolding push is_full
push-IsReady req c h room = record {
  inside = h.inside;
  counted = omega (arith, h.counted, chunks-append c.batch req);
  few_bytes = ground (arith, room);
  few_entries = ground (arith, room);
}

-- Every round of the task keeps the write offset inside the file, the count of the batch's bytes
-- right, and the batch below 256 KiB and 256 entries, whatever the system calls answer.
pub on_msg-IsReady :
    (env : Outcome) (msg : Msg) (c : Committer) → IsReady c → IsReady (on_msg env msg c).0
unfolding on_msg
on_msg-IsReady env (write req) c h = elim (Bool-cases (is_full (push req c))) [
  | inl full ↦ rw full (flush_and_reset-IsReady env (push req c) (unfold push in h.inside))
  | inr room ↦ rw room (push-IsReady req c h room)
]
on_msg-IsReady env flush c h = flush_and_reset-IsReady env c h.inside
on_msg-IsReady env timer c h =
    let flushed = flush_and_reset-IsReady env c h.inside in
    if_ready (is_empty_batch c.batch) c (flush_and_reset env c).0 [] (flush_and_reset env c).1 h
      flushed
  where
    if_ready :
        (b : Bool) (x y : Committer) (rs qs : List Reply)
        → IsReady x
        → IsReady y
        → IsReady
            (if◌then◌else◌ {A = Committer × List Reply × FlushReply} b
              (x, rs, no_flush)
              (y, qs, no_flush)).0
    if_ready true x y rs qs hx hy = hx
    if_ready false x y rs qs hx hy = hy
