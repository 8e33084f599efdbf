-- ===== src/Core/Cache.antt =====
-- crates/skeg-core/src/cache.rs: the S3-FIFO cache. `xxh3` is `xxh3_64` of the xxhash crate, a
-- parameter. A `usize` subtraction wraps, as it does in the release profile. A sum of sizes is plain:
-- it counts bytes that the process holds at once. Telemetry counters are left out.
pub mod State
pub mod Evict
pub mod Accounting
pub mod Keeps
pub mod Preserve
pub mod Forget
pub mod Operations
pub mod Budget
pub mod Fuel
pub mod Hang
unfoldable pub use State.*
unfoldable pub use Evict.*
use skeg.Prelude.{
  ℕ, ◌+◌, ◌%◌, ◌^◌, min, Bytes, List, [], ◌∷◌, ◌++◌, Option, none, some, Bool, true, false,
  if◌then◌else◌, length, bytes_key, nat_key, lookup, insert, remove,
}

abbrev pub map_some : {A B : Type 0} → (A → B) → Option A → Option B
map_some f none = none
map_some f (some a) = some (f a)

module _ {V : Type 0} where
  unfoldable pub hit : Bytes → Option (CacheEntry V) → S3Fifo V → Option V × S3Fifo V
  hit key none s = (none, record s { misses = s.misses + 1 })
  hit key (some e) s = (
    some e.value,
    record s { map = insert key (record e { freq = min (e.freq + 1) 3 }) s.map; hits = s.hits + 1 },
  )

  unfoldable pub get : Bytes → S3Fifo V → Option V × S3Fifo V
  unfolding hit
  get key s = hit key (lookup key s.map) s

  -- An overwrite evicts nothing.
  unfoldable pub overwrite : Bytes → V → ℕ → ℕ → CacheEntry V → S3Fifo V → S3Fifo V
  overwrite key value entry_size tenant e s = add_tenant_bytes tenant entry_size (
      sub_tenant_bytes e.tenant e.size (record s {
        map = insert key (record e { value = value; size = entry_size; tenant = tenant }) s.map;
        total_bytes = sub_usize (s.total_bytes + entry_size) e.size;
        small_bytes =
            (if e.in_small then sub_usize (s.small_bytes + entry_size) e.size else s.small_bytes);
      }))

  -- The new entry goes to the small queue, or to the main queue if its hash was evicted before.
  unfoldable pub place : (Bytes → ℕ) → Bytes → V → ℕ → ℕ → S3Fifo V → S3Fifo V
  place xxh3 key value entry_size tenant s =
      let in_small = is_none (lookup (xxh3 key) s.ghost_set) in
      add_tenant_bytes tenant entry_size (record s {
        ghost_set = remove (xxh3 key) s.ghost_set;
        small = (if in_small then s.small ++ (key ∷ []) else s.small);
        small_bytes = (if in_small then s.small_bytes + entry_size else s.small_bytes);
        main = (if in_small then s.main else s.main ++ (key ∷ []));
        map =
            insert key
              (record {
                value = value;
                size = entry_size;
                freq = 0;
                in_small = in_small;
                tenant = tenant;
              })
              s.map;
        total_bytes = s.total_bytes + entry_size;
      })

  -- One round of eviction for each entry, one that finds nothing, and one more.
  unfoldable pub insert_new : (Bytes → ℕ) → Bytes → V → ℕ → ℕ → S3Fifo V → Option (S3Fifo V)
  unfolding place
  insert_new xxh3 key value entry_size tenant s =
      map_some (place xxh3 key value entry_size tenant)
        (make_room xxh3 (length s.map + 2) entry_size s)

  unfoldable pub insert_at :
      (Bytes → ℕ) → Bytes → V → ℕ → ℕ → Option (CacheEntry V) → S3Fifo V → Option (S3Fifo V)
  unfolding overwrite insert_new
  insert_at xxh3 key value entry_size tenant (some e) s =
      some (overwrite key value entry_size tenant e s)
  insert_at xxh3 key value entry_size tenant none s = insert_new xxh3 key value entry_size tenant s

  -- `none` means that the call does not return.
  unfoldable pub insert_for : (Bytes → ℕ) → Bytes → V → ℕ → ℕ → S3Fifo V → Option (S3Fifo V)
  unfolding insert_at
  insert_for xxh3 key value value_bytes tenant s =
      insert_at xxh3 key value (length key + value_bytes + entry_overhead) (tenant % 2 ^ 64)
        (lookup key s.map) s

  unfoldable pub remove_found : Bytes → Option (CacheEntry V) → S3Fifo V → S3Fifo V × Bool
  remove_found key none s = (s, false)
  remove_found key (some e) s = (
    drop_entry key e (record s {
      small_bytes = (if e.in_small then sub_usize s.small_bytes e.size else s.small_bytes);
    }),
    true,
  )

  -- The key stays in its queue, and is skipped when it comes up.
  unfoldable pub remove_key : Bytes → S3Fifo V → S3Fifo V × Bool
  unfolding remove_found
  remove_key key s = remove_found key (lookup key s.map) s
