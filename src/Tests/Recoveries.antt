-- ===== src/Tests/Recoveries.antt =====
-- Batches and recoveries on concrete segments. The hash is a toy: the length.
use skeg.Prelude.{ℕ, ◌≡◌, refl, arith, Bytes, List, [], ◌∷◌, length}
use skeg.Core.Record.{Record, scalar, batch_begin}
use skeg.Core.Index
use skeg.Core.Index.{Index}
use skeg.Core.Recovery.{
  Scanned, fresh, feed_all, full_scan, rescan, is_batch_begin, batch_count, feed, hold,
}
use skeg.Core.Recovery.Gate.{Placed, single, batch, IsWritten}
use skeg.Core.Recovery.Gate.{feed_all_torn}
use skeg.Core.Recovery.Newest.{applied, Decides, full_scan_newest}
use skeg.Core.Recovery.Rescan.{rescan-eq-full_scan}

abbrev a : Record
a = record { ts = 5; kind = scalar; key = 1 ∷ []; value = 10 ∷ [] }

abbrev b : Record
b = record { ts = 6; kind = scalar; key = 2 ∷ []; value = 20 ∷ [] }

abbrev header : Placed
header = (128, record { ts = 9; kind = batch_begin; key = []; value = 2 ∷ 0 ∷ 0 ∷ 0 ∷ [] })

abbrev members : List Placed
members = (256, a) ∷ ((384, b) ∷ [])

first-IsWritten : IsWritten (single (0, b))
unfolding is_batch_begin
first-IsWritten = refl

pair-IsWritten : IsWritten (batch header members)
unfolding is_batch_begin batch_count
pair-IsWritten = (refl, refl, omega arith, (refl, (refl, tt)))

feed_all_torn_example : feed_all fresh ((0, b) ∷ (header ∷ ((256, a) ∷ []))) ≡ (0, b) ∷ []
feed_all_torn_example =
    feed_all_torn (single (0, b) ∷ []) header members 1 (first-IsWritten, tt) pair-IsWritten
      (omega arith)

abbrev hash : Bytes → ℕ
hash bs = length bs

abbrev old_seg : Scanned
old_seg = record { id = 0; records = (0, a) ∷ [] }

abbrev new_seg : Scanned
new_seg = record { id = 1; records = (0, b) ∷ [] }

full_scan_newest_example :
    Decides hash
      (1 ∷ [])
      (applied (old_seg ∷ (new_seg ∷ [])))
      (Index.get (full_scan hash (old_seg ∷ (new_seg ∷ []))) (1 ∷ []))
full_scan_newest_example = full_scan_newest hash (old_seg ∷ (new_seg ∷ [])) (1 ∷ [])

rescan-eq-full_scan_example :
    Index.get (rescan hash 1 (full_scan hash (old_seg ∷ [])) (old_seg ∷ (new_seg ∷ []))) (1 ∷ [])
    ≡ Index.get (full_scan hash (old_seg ∷ (new_seg ∷ []))) (1 ∷ [])
unfolding feed_all feed is_batch_begin hold
rescan-eq-full_scan_example =
    rescan-eq-full_scan hash 1 (full_scan hash (old_seg ∷ [])) (old_seg ∷ []) (new_seg ∷ []) refl
      (λ k none_above. refl) (ground arith) (ground arith) (1 ∷ [])

abbrev relocated : Record
relocated = record { ts = 3; kind = scalar; key = 1 ∷ []; value = 30 ∷ [] }
