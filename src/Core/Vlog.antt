-- ===== src/Core/Vlog.antt =====
-- crates/skeg-core/src/vlog.rs: the calls that write, one at a time: `set`, `del`, and what they change
-- of the store. The committer's answer to an append is a parameter: `none` for an I/O error, or the
-- offset of the record; with it comes whether the file of a next segment could be made. `xxh3` is `xxh3_64` of the xxhash crate.
pub mod Disk
pub mod Limit
pub mod Race
use skeg.Prelude.{
  ℕ, ◌+◌, ◌-◌, ◌%◌, ◌^◌, Bytes, List, [], ◌∷◌, ◌++◌, Option, none, some, Bool, true, false, from_le,
  min, take, length, ltb, leb, ◌==◌, if◌then◌else◌, Assoc, nat_key, bytes_key, lookup, insert,
  remove,
}
use skeg.Core.Error.{Result, ok, err, disk_quota, io, invalid_record, segment_id_overflow, ◌>>=◌}
use skeg.Core.Record.{padded_record_size}
use skeg.Core.Index
use skeg.Core.Index.{Index, IndexEntry, fingerprint}
use skeg.Core.Cache
use skeg.Core.Cache.{S3Fifo}

-- What the system answers to a call: whether a new segment file is created and preallocated, if one is
-- needed, and the offset of the record, or none for an I/O error.
pub record Answer : Type 0 where
  pub created : Bool
  pub offset : Option ℕ

pub record ReadSegment : Type 0 where
  pub id : ℕ
  pub live : ℕ

-- The files themselves are the committer's; the clock is the next timestamp. `tenant_disk` is the map that
-- the stores of all shards share, as it is while the call runs.
pub record VLog : Type 0 where
  pub max_seg_size : ℕ
  pub read_segments : List ReadSegment
  pub index : Index
  pub cache : S3Fifo Bytes
  pub tenant_disk : Assoc ℕ ℕ
  pub active_id : ℕ
  pub active_size : ℕ
  pub clock : ℕ

unfoldable pub tenant_from_key : Bytes → ℕ
tenant_from_key key = if leb 16 (length key) then from_le (take 16 key) else 0

abbrev pub or_zero : Option ℕ → ℕ
or_zero none = 0
or_zero (some n) = n

unfoldable pub tenant_disk_bytes : ℕ → VLog → ℕ
tenant_disk_bytes tenant v = or_zero (lookup tenant v.tenant_disk)

abbrev pub size_or_zero : Option IndexEntry → ℕ
size_or_zero none = 0
size_or_zero (some e) = e.size

unfoldable pub adjust : (ℕ → ℕ) → ℕ → List ReadSegment → List ReadSegment
adjust f id [] = []
adjust f id (s ∷ segs) =
    let rest = adjust f id segs in
    if s.id == id then record s { live = f s.live } ∷ segs else s ∷ rest

unfoldable pub inc_live : ℕ → ℕ → List ReadSegment → List ReadSegment
unfolding adjust
inc_live id n segs = adjust (λ live. live + n) id segs

-- `saturating_sub` is the subtraction of ℕ.
unfoldable pub dec_live : ℕ → ℕ → List ReadSegment → List ReadSegment
unfolding adjust
dec_live id n segs = adjust (λ live. live - n) id segs

unfoldable pub dec_prev : Option IndexEntry → List ReadSegment → List ReadSegment
unfolding dec_live
dec_prev none segs = segs
dec_prev (some p) segs = dec_live p.segment_id p.size segs

unfoldable pub maybe_rotate : Bool → ℕ → VLog → Result VLog
maybe_rotate created incoming v =
    if ltb v.max_seg_size (v.active_size + incoming)
    then (if ltb (v.active_id + 1) (2 ^ 16)
        then (if created
            then ok (record v {
              read_segments = v.read_segments ++ (record { id = v.active_id + 1; live = 0 } ∷ []);
              active_id = v.active_id + 1;
              active_size = 0;
            })
            else err io)
        else err (invalid_record segment_id_overflow))
    else ok v

-- The committer's answer, cut to 32 bits.
unfoldable pub answered : Option ℕ → Result ℕ
answered none = err io
answered (some offset) = ok (offset % 2 ^ 32)

-- The size is reserved before the write.
unfoldable pub reserve : Option ℕ → ℕ → VLog → Result VLog → VLog × Result ℕ
unfolding answered
reserve answer incoming v (err e) = (v, err e)
reserve answer incoming v (ok u) =
    (record u { active_size = u.active_size + incoming }, answered answer)

unfoldable pub append_raw : Answer → Bytes → Bytes → VLog → VLog × Result ℕ
unfolding maybe_rotate reserve
append_raw answer key value v =
    let incoming = padded_record_size (length key) (length value) in
    reserve answer.offset incoming v (maybe_rotate answer.created incoming v)

unfoldable pub charge_set : Bytes → ℕ → ℕ → Assoc ℕ ℕ → Assoc ℕ ℕ
unfolding tenant_from_key
charge_set key old_disk padded disk =
    let t = tenant_from_key key in insert t (or_zero (lookup t disk) - old_disk + padded) disk

-- Whether a set of `new_disk` bytes is refused.
unfoldable pub over_quota : Option ℕ → Bytes → ℕ → VLog → Bool
unfolding tenant_disk_bytes tenant_from_key
over_quota none key new_disk v = false
over_quota (some limit) key new_disk v = ltb limit (
    min
      (tenant_disk_bytes (tenant_from_key key) v - size_or_zero (Index.get v.index key) + new_disk)
      (2 ^ 64 - 1))

-- The index, the live counts and the disk charge after the record stands at `offset` of `seg_id`;
-- `prev` is what the index held for the key when the call began.
unfoldable pub apply_set : (Bytes → ℕ) → Bytes → Option IndexEntry → ℕ → ℕ → ℕ → VLog → VLog
unfolding inc_live dec_prev charge_set
apply_set xxh3 key prev seg_id offset padded v = record v {
  read_segments = inc_live seg_id padded (dec_prev prev v.read_segments);
  index = Index.set v.index key (record {
    fingerprint = fingerprint xxh3 key;
    segment_id = seg_id;
    pad = 0;
    offset = offset;
    size = padded;
  });
  tenant_disk = charge_set key (size_or_zero prev) padded v.tenant_disk;
}

-- `none` means that the call does not return: the insertion into the cache does not.
unfoldable pub with_cache : VLog → Option (S3Fifo Bytes) → Option (VLog × Result (Unit {0}))
with_cache v none = none
with_cache v (some c) = some (record v { cache = c }, ok tt)

unfoldable pub finish_set :
    (Bytes → ℕ)
    → Bytes
    → Bytes
    → ℕ
    → Option IndexEntry
    → VLog × Result ℕ
    → Option (VLog × Result (Unit {0}))
unfolding apply_set with_cache
finish_set xxh3 key value tenant prev (v, err e) = some (v, err e)
finish_set xxh3 key value tenant prev (v, ok offset) =
    with_cache
      (apply_set xxh3 key prev v.active_id offset
        (padded_record_size (length key) (length value) % 2 ^ 32) v)
      (Cache.insert_for xxh3 key value (length value) tenant v.cache)

abbrev pub ticked : VLog → VLog
ticked v = record v { clock = v.clock + 1 }

unfoldable pub set_scoped :
    (Bytes → ℕ) → Answer → Bytes → Bytes → ℕ → Option ℕ → VLog → Option (VLog × Result (Unit {0}))
unfolding over_quota append_raw finish_set
set_scoped xxh3 answer key value tenant disk_limit v =
    if over_quota disk_limit key (padded_record_size (length key) (length value)) v
    then some (v, err disk_quota)
    else finish_set xxh3 key value tenant (Index.get v.index key)
        (append_raw answer key value (ticked v))

-- An entry that comes to 0 is removed.
unfoldable pub sub_disk : ℕ → ℕ → Option ℕ → Assoc ℕ ℕ → Assoc ℕ ℕ
sub_disk t size none disk = disk
sub_disk t size (some n) disk = if n - size == 0 then remove t disk else insert t (n - size) disk

unfoldable pub charge_del : Bytes → ℕ → Assoc ℕ ℕ → Assoc ℕ ℕ
unfolding tenant_from_key sub_disk
charge_del key size disk = let t = tenant_from_key key in sub_disk t size (lookup t disk) disk

-- After the tombstone of a key that was there.
unfoldable pub apply_del : Bytes → IndexEntry → VLog → VLog
unfolding dec_live charge_del
apply_del key prev v = record v {
  read_segments = dec_live prev.segment_id prev.size v.read_segments;
  index = (Index.remove_key v.index key).0;
  cache = (Cache.remove_key key v.cache).0;
  tenant_disk = charge_del key prev.size v.tenant_disk;
}

unfoldable pub finish_del : Bytes → IndexEntry → VLog × Result ℕ → VLog × Result Bool
unfolding apply_del
finish_del key prev (v, err e) = (v, err e)
finish_del key prev (v, ok offset) = (apply_del key prev v, ok true)

unfoldable pub del_found : Answer → Bytes → Option IndexEntry → VLog → VLog × Result Bool
unfolding append_raw finish_del
del_found answer key none v = (v, ok false)
del_found answer key (some prev) v = finish_del key prev (append_raw answer key [] (ticked v))

unfoldable pub del : Answer → Bytes → VLog → VLog × Result Bool
unfolding del_found
del answer key v = del_found answer key (Index.get v.index key) v
