-- ===== src/Core/GroupCommit/Acked.antt =====
-- Nobody is told that a write is done whose bytes are not where the reply says.
use skeg.Prelude.{
  ℕ, All, subst, ◌+◌, ◌≤◌, ◌≡◌, ◌⊎◌, inl, inr, refl, ap, sym, ◌∙◌, arith, Bytes, List, [], ◌∷◌,
  ◌++◌, true, Bool-cases, take, drop, slice, length, length-take, append_assoc, take-append_length,
  drop-append_length, drop-next, slice-at,
}
use skeg.Core.GroupCommit.{
  WriteReq, Reply, Outcome, Committer, write_at, chunks, offsets, all_failed, Durability, relaxed,
  kernel, power, stronger, batch_durability, sync_result, synced, is_empty_batch, after_write,
  flush_batch,
}

-- Every request's bytes stand in the file, one behind the other from `pos` on.
abbrev pub Stands : ℕ → List WriteReq → Bytes → Type 0
Stands pos [] file = Unit
Stands pos (r ∷ rs) file =
    (slice pos (length r.bytes) file ≡ r.bytes) × Stands (pos + length r.bytes) rs file

chunks-Stands :
    (rs : List WriteReq) (pos : ℕ) (file rest : Bytes)
    → drop pos file ≡ chunks rs ++ rest
    → Stands pos rs file
chunks-Stands [] pos file rest at_pos = tt
chunks-Stands (r ∷ rs) pos file rest at_pos =
    let at0 = at_pos ∙ append_assoc r.bytes (chunks rs) rest in
    (
      slice-at pos (length r.bytes) file r.bytes (chunks rs ++ rest) at0 refl,
      chunks-Stands rs (pos + length r.bytes) file rest
          (drop-next pos (length r.bytes) file r.bytes (chunks rs ++ rest) at0 refl),
    )

write_at-drop :
    (offset : ℕ) (bytes file : Bytes)
    → offset ≤ length file
    → (drop offset (write_at offset bytes file) ≡ bytes ++ drop (offset + length bytes) file)
      × (take offset (write_at offset bytes file) ≡ take offset file)
unfolding write_at
write_at-drop offset bytes file h =
    let n : length (take offset file) ≡ offset = omega (arith, length-take offset file) in
    let rest = bytes ++ drop (offset + length bytes) file in
    (
      drop-append_length offset (take offset file) rest n,
      take-append_length offset (take offset file) rest n,
    )

-- The whole file is as safe as a tier asks.
abbrev pub Kept : Durability → Committer → Type 0
Kept relaxed c = Unit
Kept kernel c = c.flushed ≡ c.file
Kept power c = (c.flushed ≡ c.file) × (c.durable ≡ c.file)

-- What a flush of a batch has done that did not fail: it told every waiter an offset, one behind the
-- other from the old write offset on, at which the file holds the request's bytes; the next batch starts
-- behind the last one; what stood before is untouched; and the file is as safe as each request asked.
pub record Flushed (c c' : Committer) (replies : List Reply) : Type 0 where
  pub replies_at : replies ≡ offsets c.w_offset c.batch
  pub stands : Stands c.w_offset c.batch c'.file
  pub next : c'.w_offset ≡ c.w_offset + length (chunks c.batch)
  pub kept : take c.w_offset c'.file ≡ take c.w_offset c.file
  pub safe : All (λ r. Kept r.durability c') c.batch

stronger-Kept : (a b : Durability) (c : Committer) → Kept (stronger a b) c → Kept a c × Kept b c
unfolding stronger
stronger-Kept relaxed b c h = (tt, h)
stronger-Kept kernel relaxed c h = (h, tt)
stronger-Kept kernel kernel c h = (h, h)
stronger-Kept kernel power c h = (h.0, h)
stronger-Kept power relaxed c h = (h, tt)
stronger-Kept power kernel c h = (h, h.0)
stronger-Kept power power c h = (h, h)

-- The strongest tier serves every request.
batch_durability-Kept :
    (rs : List WriteReq) (c : Committer)
    → Kept (batch_durability rs) c
    → All (λ r. Kept r.durability c) rs
unfolding batch_durability
batch_durability-Kept [] c h = tt
batch_durability-Kept (r ∷ rs) c h =
    let (mine, rest) = stronger-Kept r.durability (batch_durability rs) c h in
    (mine, batch_durability-Kept rs c rest)

synced-Kept : (tier : Durability) (c : Committer) → Kept tier (synced tier c)
unfolding synced
synced-Kept relaxed c = tt
synced-Kept kernel c = refl
synced-Kept power c = (refl, refl)

-- A sync leaves the file, the write offset and the batch.
pub synced_same :
    (tier : Durability) (c : Committer)
    → ((synced tier c).file ≡ c.file)
      × ((synced tier c).w_offset ≡ c.w_offset)
      × ((synced tier c).batch ≡ c.batch)
unfolding synced
synced_same relaxed c = (refl, refl, refl)
synced_same kernel c = (refl, refl, refl)
synced_same power c = (refl, refl, refl)

pub is_empty_batch-nil : (rs : List WriteReq) → is_empty_batch rs ≡ true → rs ≡ []
unfolding is_empty_batch
is_empty_batch-nil [] h = refl
is_empty_batch-nil (r ∷ rs) h = absurd (cc)

acked :
    (env : Outcome) (c : Committer)
    → c.w_offset ≤ length c.file
    → Flushed c
        (synced (batch_durability c.batch) (record c {
          file = write_at c.w_offset (chunks c.batch) c.file;
          batch = [];
          w_offset = c.w_offset + length (chunks c.batch);
        }))
        (offsets c.w_offset c.batch)
acked env c h =
    let bytes = chunks c.batch in
    let file' = write_at c.w_offset bytes c.file in
    let c' : Committer = record c {
      file = file';
      batch = [];
      w_offset = c.w_offset + length bytes;
    } in
    let tier = batch_durability c.batch in
    let (file_same, offset_same, batch_same) = synced_same tier c' in
    let (placed, before) = write_at-drop c.w_offset bytes c.file h in
    record {
      replies_at = refl;
      stands =
          subst (Stands c.w_offset c.batch) (sym file_same) (
            chunks-Stands c.batch c.w_offset file' (drop (c.w_offset + length bytes) c.file)
              placed);
      next = offset_same;
      kept = ap (take c.w_offset) file_same ∙ before;
      safe = batch_durability-Kept c.batch (synced tier c') (synced-Kept tier c');
    }

-- A flush tells every waiter of a failure and leaves the write offset and what the syncs have made safe as
-- they were, or it tells every waiter an offset, one behind the other from the write offset on, at which
-- the file holds the bytes of the request, leaves what stood before the write offset as it was, moves the
-- write offset behind the last request, and has made the whole file safe in the tier of each request:
-- against a kernel panic for `Kernel`, and against a power loss as well for `Power`. The write offset
-- lies inside the file or at its end.
pub flush_batch-Flushed :
    (env : Outcome) (c : Committer)
    → c.w_offset ≤ length c.file
    → Flushed c (flush_batch env c).0 (flush_batch env c).1
      ⊎ (((flush_batch env c).1 ≡ all_failed c.batch)
          × ((flush_batch env c).0.w_offset ≡ c.w_offset)
          × ((flush_batch env c).0.flushed ≡ c.flushed)
          × ((flush_batch env c).0.durable ≡ c.durable))
unfolding flush_batch after_write
flush_batch-Flushed env c h = elim (Bool-cases (is_empty_batch c.batch)) [
  | inl none_waits ↦
      let nobody = sym (ap all_failed (is_empty_batch-nil c.batch none_waits)) in
      rw none_waits (inr (nobody, refl, refl, refl))
  | inr some_wait ↦ elim (Bool-cases env.write_ok) [
    | inr refused ↦ rw (some_wait, refused) (inr (refl, refl, refl, refl))
    | inl done ↦ elim (Bool-cases (sync_result env (batch_durability c.batch))) [
      | inl safe ↦ rw (some_wait, done, safe) (inl (acked env c h))
      | inr unsafe ↦ rw (some_wait, done, unsafe) (inr (refl, refl, refl, refl))
    ]
  ]
]
