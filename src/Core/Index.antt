-- ===== src/Core/Index.antt =====
-- crates/skeg-core/src/index.rs: where the newest record of a key stands. `xxh3` is the function
-- `xxh3_64` of the xxhash crate, a parameter.
use skeg.Prelude.{
  ◌≡◌, if◌then◌else◌, bytes_beq, lookup-insert, lookup-remove, ℕ, ◌%◌, ◌^◌, Bytes, Bool, true,
  false, Option, none, some, Assoc, bytes_key, lookup, insert, remove, [], length,
}

pub record IndexEntry : Type 0 where
  pub fingerprint : ℕ
  pub segment_id : ℕ
  pub pad : ℕ
  pub offset : ℕ
  pub size : ℕ

pub record Index : Type 0 where
  pub map : Assoc Bytes IndexEntry

unfoldable pub new : Index
new = record { map = [] }

unfoldable pub set : Index → Bytes → IndexEntry → Index
set index key entry = record { map = insert key entry index.map }

unfoldable pub get : Index → Bytes → Option IndexEntry
get index key = lookup key index.map

abbrev pub is_some {ℓ} : {A : Type ℓ} → Option A → Bool
is_some none = false
is_some (some a) = true

-- `remove` also tells whether the key was there.
unfoldable pub remove_key : Index → Bytes → Index × Bool
remove_key index key = (record { map = remove key index.map }, is_some (lookup key index.map))

unfoldable pub len : Index → ℕ
len index = length index.map

-- The low 32 bits of the hash.
unfoldable pub fingerprint : (Bytes → ℕ) → Bytes → ℕ
fingerprint xxh3 key = xxh3 key % 2 ^ 32

pub get-set :
    (index : Index) (j k : Bytes) (entry : IndexEntry)
    → get (set index j entry) k ≡ (if bytes_beq j k then some entry else get index k)
unfolding get set
get-set index j k entry = lookup-insert j k entry index.map

pub get-remove_key :
    (index : Index) (j k : Bytes)
    → get (remove_key index j).0 k ≡ (if bytes_beq j k then none else get index k)
unfolding get remove_key
get-remove_key index j k = lookup-remove j k index.map
