-- ===== src/Tests/Commits.antt =====
-- The committer on a concrete file.
use skeg.Prelude.{◌≡◌, ◌⊎◌, refl, arith, [], ◌∷◌, true}
use skeg.Core.GroupCommit.{
  relaxed, power, Outcome, Committer, write, all_failed, flush_batch, on_msg,
}
use skeg.Core.GroupCommit.Acked.{Flushed, flush_batch-Flushed}
use skeg.Core.GroupCommit.Rounds.{IsReady, on_msg-IsReady}

abbrev waiting : Committer
waiting = record {
  file = 1 ∷ (2 ∷ (3 ∷ []));
  flushed = 1 ∷ (2 ∷ (3 ∷ []));
  durable = 1 ∷ (2 ∷ (3 ∷ []));
  w_offset = 3;
  batch = record { bytes = 4 ∷ (5 ∷ []); durability = power } ∷ [];
  batch_bytes = 2;
}

abbrev fine : Outcome
fine = record { write_ok = true; sync_data_ok = true; sync_durable_ok = true; partial = 0 }

flush_batch-Flushed_example :
    Flushed waiting (flush_batch fine waiting).0 (flush_batch fine waiting).1
    ⊎ (((flush_batch fine waiting).1 ≡ all_failed waiting.batch)
        × ((flush_batch fine waiting).0.w_offset ≡ 3)
        × ((flush_batch fine waiting).0.flushed ≡ waiting.flushed)
        × ((flush_batch fine waiting).0.durable ≡ waiting.durable))
flush_batch-Flushed_example = flush_batch-Flushed fine waiting (omega arith)

waiting-IsReady : IsReady waiting
waiting-IsReady = record {
  inside = omega arith;
  counted = refl;
  few_bytes = omega arith;
  few_entries = omega arith;
}

on_msg-IsReady_example :
    IsReady (on_msg fine (write (record { bytes = 6 ∷ []; durability = relaxed })) waiting).0
on_msg-IsReady_example =
    on_msg-IsReady fine (write (record { bytes = 6 ∷ []; durability = relaxed })) waiting
      waiting-IsReady
