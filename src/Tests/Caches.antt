-- ===== src/Tests/Caches.antt =====
-- The cache on concrete states of a few entries. The hash is a toy: the length. Values are numbers.
use skeg.Prelude.{
  ℕ, ◌≤◌, ◌≡◌, refl, arith, Bytes, [], ◌∷◌, Option, none, some, true, bytes_key, lookup, length,
}
use skeg.Core.Cache.{
  S3Fifo, CacheEntry, new, insert_for, make_room, sub_usize, add_tenant_bytes, sub_known,
  sub_tenant_bytes, drop_entry, trim_ghost, ghost_push, drop_small, evict_small, evict_from_small,
  evict_from_main, evict_one, place, insert_new, insert_at,
}
use skeg.Core.Cache.Accounting.{IsAccounted}
use skeg.Core.Cache.Operations.{entry_size, Reach, created, inserted, Reach-IsAccounted}
use skeg.Core.Cache.Budget.{insert_for_within_budget}
use skeg.Core.Cache.Fuel.{evict_from_main-total}
use skeg.Core.Cache.Hang.{insert_for_hangs}

abbrev hash : Bytes → ℕ
hash bs = length bs

abbrev after : Option (S3Fifo ℕ) → S3Fifo ℕ
after none = new ℕ 0
after (some s) = s

-- One entry of 95 bytes under a budget of 200.
abbrev one : S3Fifo ℕ
one = after (insert_for hash (1 ∷ []) 5 30 0 (new ℕ 200))

one-inserted : insert_for hash (1 ∷ []) 5 30 0 (new ℕ 200) ≡ some one
unfolding insert_for insert_at insert_new make_room place add_tenant_bytes new
one-inserted = refl

one-Reach : Reach ℕ hash one
one-Reach = inserted (1 ∷ []) 5 30 0 (created 200) one-inserted

Reach-IsAccounted_example : IsAccounted one
Reach-IsAccounted_example = Reach-IsAccounted ℕ hash one one-Reach

-- An entry of 165 bytes for tenant 7 evicts it.
abbrev two : S3Fifo ℕ
two = after (insert_for hash (2 ∷ []) 6 100 7 one)

two-inserted : insert_for hash (2 ∷ []) 6 100 7 one ≡ some two
unfolding insert_for insert_at insert_new make_room place add_tenant_bytes new evict_one
    evict_from_small evict_small drop_small drop_entry ghost_push trim_ghost sub_tenant_bytes
    sub_known sub_usize
two-inserted = refl

absent-two : lookup (2 ∷ []) one.map ≡ none
unfolding insert_for insert_at insert_new make_room place add_tenant_bytes new
absent-two = refl

fits-two : entry_size (2 ∷ []) 100 ≤ one.budget_bytes
unfolding insert_for insert_at insert_new make_room place add_tenant_bytes new
fits-two = omega arith

insert_for_within_budget_example :
    (two.total_bytes ≤ two.budget_bytes) × (two.budget_bytes ≡ one.budget_bytes)
insert_for_within_budget_example =
    insert_for_within_budget hash (2 ∷ []) 6 100 7 one two (Reach-IsAccounted ℕ hash one one-Reach)
      absent-two fits-two two-inserted

abbrev one_entry : CacheEntry ℕ
one_entry = record { value = 5; size = 95; freq = 0; in_small = true; tenant = 0 }

evict_from_main-total_example : (t : S3Fifo ℕ) × (evict_from_main hash two ≡ some t)
evict_from_main-total_example =
    evict_from_main-total hash two
      (Reach-IsAccounted ℕ hash two (inserted (2 ∷ []) 6 100 7 one-Reach two-inserted)).unique

-- Under a budget of 2000 an entry of 95 bytes is below the small queue's share of 200.
abbrev idle : S3Fifo ℕ
idle = after (insert_for hash (1 ∷ []) 5 30 0 (new ℕ 2000))

insert_for_hangs_example :
    ((rounds : ℕ) → make_room hash rounds (entry_size (2 ∷ []) 1900) idle ≡ none)
    × (insert_for hash (2 ∷ []) 6 1900 0 idle ≡ none)
unfolding insert_for insert_at insert_new make_room place add_tenant_bytes new
insert_for_hangs_example =
    insert_for_hangs hash (2 ∷ []) 6 1900 0 idle (omega arith, refl) refl refl (omega arith)
