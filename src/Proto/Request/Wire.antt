-- ===== src/Proto/Request/Wire.antt =====
-- A request over the wire: encoded by the client, taken by the server's parser, decoded.
use skeg.Prelude.{
  ℕ, ◌+◌, ◌^◌, ◌<◌, ◌≤◌, ◌≡◌, refl, arith, Bytes, ◌++◌, some, inl, length, length-append, to_le,
}
use skeg.Proto.Error.{ok}
use skeg.Proto.Op
use skeg.Proto.Flags.{Flags, empty}
use skeg.Proto.Frame.{Frame, new, feed, max_frame_size, version_v1, encode_frame}
use skeg.Proto.Frame.RoundTrip.{header_of, feed-encode_frame_versioned}
use skeg.Proto.Request.{
  key_payload, set_payload, encode_get, encode_set, decode_key_payload, decode_set_payload,
}
use skeg.Proto.Request.RoundTrip.{decode_key_payload-key_payload, decode_set_payload-set_payload}

-- A SET request comes out of a fresh parser as one SET frame with the request's id and flags, and its
-- payload decodes to the key and the value; whatever follows on the wire is left. The flags are known,
-- the key is shorter than 64 KiB, and the payload is at most 16 MiB.
pub feed-encode_set :
    (req_id : ℕ) (key value : Bytes) (flags : Flags) (rest : Bytes)
    → req_id < 2 ^ 64
    → flags.bits < 256
    → length key < 2 ^ 16
    → 6 + length key + length value ≤ max_frame_size
    → (frame : Frame) × (feed new (encode_set req_id key value flags ++ rest)
        ≡ (ok (some frame), new, rest))
      × (frame.header.op ≡ Op.set)
      × (frame.header.req_id ≡ req_id)
      × (frame.header.flags ≡ flags)
      × (decode_set_payload frame.payload ≡ ok (key, value))
unfolding encode_set set_payload encode_frame
feed-encode_set req_id key value flags rest hi hf hk hs =
    let payload = to_le 2 (length key) ++ (to_le 4 (length value) ++ (key ++ value)) in
    (
      record { header = header_of version_v1 Op.set flags req_id payload; payload = payload },
      feed-encode_frame_versioned version_v1 Op.set flags req_id payload rest (record {
        version_known = inl refl;
        flags_known = hf;
        req_id_fits = hi;
        payload_fits = omega (arith, length-append key value);
      }),
      refl,
      refl,
      refl,
      decode_set_payload-set_payload key value hk (omega arith),
    )

-- A GET request comes out of a fresh parser as one GET frame with the request's id, and its payload
-- decodes to the key, for a key shorter than 64 KiB.
pub feed-encode_get :
    (req_id : ℕ) (key rest : Bytes)
    → req_id < 2 ^ 64
    → length key < 2 ^ 16
    → (frame : Frame) × (feed new (encode_get req_id key ++ rest) ≡ (ok (some frame), new, rest))
      × (frame.header.op ≡ Op.get)
      × (frame.header.req_id ≡ req_id)
      × (decode_key_payload frame.payload ≡ ok key)
unfolding encode_get key_payload encode_frame
feed-encode_get req_id key rest hi hk =
    let payload = to_le 2 (length key) ++ key in
    (
      record { header = header_of version_v1 Op.get empty req_id payload; payload = payload },
      feed-encode_frame_versioned version_v1 Op.get empty req_id payload rest (record {
        version_known = inl refl;
        flags_known = omega arith;
        req_id_fits = hi;
        payload_fits = omega arith;
      }),
      refl,
      refl,
      decode_key_payload-key_payload key hk,
    )
