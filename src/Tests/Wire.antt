-- ===== src/Tests/Wire.antt =====
-- Frames, requests and responses on concrete bytes.
use skeg.Prelude.{ℕ, ◌≡◌, refl, arith, Bytes, List, [], ◌∷◌, ◌++◌, none, some, inr}
use skeg.Proto.Error.{ok}
use skeg.Proto.Op
use skeg.Proto.Flags.{set_nx, empty}
use skeg.Proto.Flags
use skeg.Proto.Frame.{
  Frame, ParseState, in_header, new, fill, end_header, feed, feed_parsed, parse_header,
  feed_payload, end_payload, encode_frame_versioned,
}
use skeg.Proto.Frame.Cuts.{Reads, stops, frame, Reads-cut}
use skeg.Proto.Frame.RoundTrip.{IsHeader, header_of, feed-encode_frame_versioned}
use skeg.Proto.Response.{ShardStats, VindexInfo}
use skeg.Proto.Response.RoundTrip.{IsShard}
use skeg.Proto.Response.Listing.{IsInfo}

abbrev body : Bytes
body = 5 ∷ 6 ∷ 7 ∷ []

body-IsHeader : IsHeader (header_of 2 Op.native_hello set_nx 9 body)
body-IsHeader = record {
  version_known = inr refl;
  flags_known = omega arith;
  req_id_fits = omega arith;
  payload_fits = omega arith;
}

feed-encode_frame_versioned_example :
    feed new (encode_frame_versioned 2 Op.native_hello set_nx 9 body ++ (1 ∷ [])) ≡ (
      ok (some (record { header = header_of 2 Op.native_hello set_nx 9 body; payload = body })),
      new,
      1 ∷ [],
    )
feed-encode_frame_versioned_example =
    feed-encode_frame_versioned 2 Op.native_hello set_nx 9 body (1 ∷ []) body-IsHeader

-- A frame of three bytes in two parts, and the start of a next one.
abbrev part : Bytes
part = 0x4B ∷ 0x56 ∷ 2 ∷ Op.to_u8 Op.native_hello ∷ 0 ∷ 0 ∷ 0 ∷ 0 ∷ 9 ∷ 0 ∷ []

abbrev part_state : ParseState
part_state = in_header part

abbrev other_part : Bytes
other_part = 0 ∷ 0 ∷ 0 ∷ 0 ∷ 0 ∷ 0 ∷ 3 ∷ 0 ∷ 0 ∷ 0 ∷ 0 ∷ 0 ∷ 0 ∷ 0 ∷ 5 ∷ 6 ∷ 7 ∷ 0x4B ∷ []

abbrev hello : Frame
hello = record { header = header_of 2 Op.native_hello empty 9 body; payload = body }

part_fed : feed new part ≡ (ok none, part_state, [])
unfolding feed end_header fill Op.to_u8
part_fed = refl

other_part_fed : feed part_state other_part ≡ (ok (some hello), new, 0x4B ∷ [])
unfolding feed end_header fill feed_parsed parse_header feed_payload end_payload Op.to_u8 Op.from_u8
    Flags.from_bits
other_part_fed = refl

start_fed : feed new (0x4B ∷ []) ≡ (ok none, in_header (0x4B ∷ []), [])
unfolding feed end_header fill
start_fed = refl

Reads-cut_example :
    Reads new (part ++ other_part) (hello ∷ []) (in_header (0x4B ∷ []))
    × ((v : ParseState) (hs : List Frame)
        → Reads new (part ++ other_part) hs v
        → (hello ∷ [] ≡ hs) × (in_header (0x4B ∷ []) ≡ v))
Reads-cut_example =
    Reads-cut new part_state (in_header (0x4B ∷ [])) part other_part [] (hello ∷ [])
      (stops new part_state part part_fed)
      (frame part_state new (in_header (0x4B ∷ [])) other_part (0x4B ∷ []) hello [] other_part_fed
        (stops new (in_header (0x4B ∷ [])) (0x4B ∷ []) start_fed))

abbrev numbers : List ℕ
numbers = 0x3F800000 ∷ (0x40000000 ∷ [])

abbrev shard : ShardStats
shard = record {
  shard_id = 1;
  cache_bytes = 1000;
  cache_evictions = 2;
  n_keys = 40;
  cache_budget = 5000;
}

shard-IsShard : IsShard shard
shard-IsShard = ground arith

abbrev keep : Bytes → Bytes
keep bs = bs

abbrev info : VindexInfo
info = record { name = body; dim = 128; kind = 2; backend = 1; n_vectors = 12 }

info-IsInfo : IsInfo keep info
info-IsInfo = record {
  name_fits = omega arith;
  name_text = refl;
  dim_fits = omega arith;
  kind_fits = omega arith;
  backend_fits = omega arith;
  n_vectors_fits = omega arith;
}
