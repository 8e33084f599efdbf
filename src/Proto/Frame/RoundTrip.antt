-- ===== src/Proto/Frame/RoundTrip.antt =====
-- A frame that was encoded comes out of the parser.
use skeg.Prelude.{
  ℕ, ◌^◌, ◌<◌, ◌≤◌, ◌≡◌, ◌⊎◌, refl, ap, ◌∙◌, arith, Bytes, [], ◌++◌, some, true, false, inl, inr,
  length, ltb, le→ltb, ◌||◌, ◌==◌, append_assoc, from_le, to_le, slice, from_le-at,
}
use skeg.Proto.Error.{ok}
use skeg.Proto.Op
use skeg.Proto.Op.{Op}
use skeg.Proto.Flags
use skeg.Proto.Flags.{Flags}
use skeg.Proto.Frame.{
  FrameHeader, new, header_len, magic, max_frame_size, version_v1, version_v2, fill, parse_header,
  end_payload, feed_payload, feed_parsed, end_header, feed, encode_header, encode_frame_versioned,
}
use skeg.Proto.Frame.Fill.{fill-exact}

-- The headers that the parser takes.
pub record IsHeader (h : FrameHeader) : Type 0 where
  pub version_known : (h.version ≡ version_v1) ⊎ (h.version ≡ version_v2)
  pub flags_known : h.flags.bits < 256
  pub req_id_fits : h.req_id < 2 ^ 64
  pub payload_fits : h.payload_len ≤ max_frame_size

abbrev encoded : FrameHeader → Bytes
encoded h = encode_header h.version h.op h.flags h.req_id h.payload_len

length-encoded : (h : FrameHeader) → length (encoded h) ≡ header_len
unfolding encode_header
length-encoded h = refl

-- The fields at their offsets.
record Fields (buf : Bytes) (h : FrameHeader) : Type 0 where
  has_magic : from_le (slice 0 2 buf) ≡ magic
  has_version : from_le (slice 2 1 buf) ≡ h.version
  has_op : from_le (slice 3 1 buf) ≡ Op.to_u8 h.op
  has_flags : from_le (slice 4 4 buf) ≡ h.flags.bits
  has_req_id : from_le (slice 8 8 buf) ≡ h.req_id
  has_len : from_le (slice 16 4 buf) ≡ h.payload_len

version-lt : (h : FrameHeader) → IsHeader h → h.version < 256
version-lt h ok_h = elim ok_h.version_known [ inl e ↦ omega arith | inr e ↦ omega arith ]

encoded-Fields : (h : FrameHeader) → IsHeader h → Fields (encoded h) h
unfolding encode_header
encoded-Fields h ok_h =
    let buf = encoded h in
    let f6 = to_le 4 h.payload_len ++ to_le 4 0 in
    let f5 = to_le 8 h.req_id ++ f6 in
    let f4 = to_le 4 h.flags.bits ++ f5 in
    let f3 = to_le 1 (Op.to_u8 h.op) ++ f4 in
    record {
      has_magic = refl;
      has_version = from_le-at 2 1 h.version buf f3 refl (version-lt h ok_h);
      has_op = from_le-at 3 1 (Op.to_u8 h.op) buf f4 refl (Op.to_u8-lt h.op);
      has_flags = from_le-at 4 4 h.flags.bits buf f5 refl (omega (arith, ok_h.flags_known));
      has_req_id = from_le-at 8 8 h.req_id buf f6 refl ok_h.req_id_fits;
      has_len =
          from_le-at 16 4 h.payload_len buf (to_le 4 0) refl (omega (arith, ok_h.payload_fits));
    }

version-known :
    (h : FrameHeader) → IsHeader h → ((h.version == version_v1) || (h.version == version_v2)) ≡ true
version-known h ok_h = elim ok_h.version_known [ inl e ↦ rw e refl | inr e ↦ rw e refl ]

parse_header-Fields :
    (buf : Bytes) (h : FrameHeader) → IsHeader h → Fields buf h → parse_header buf ≡ ok h
unfolding parse_header
parse_header-Fields buf h ok_h f =
    let small : ltb max_frame_size h.payload_len ≡ false =
      le→ltb max_frame_size h.payload_len ok_h.payload_fits in
    rw
      (
        f.has_magic,
        f.has_version,
        f.has_op,
        f.has_flags,
        f.has_len,
        f.has_req_id,
        version-known h ok_h,
        Op.from_u8-to_u8 h.op,
        Flags.from_bits-known h.flags ok_h.flags_known,
        small,
      )
      refl

-- The header with the length of a payload.
abbrev pub header_of : ℕ → Op → Flags → ℕ → Bytes → FrameHeader
header_of version op flags req_id payload = record {
  version = version;
  op = op;
  flags = flags;
  req_id = req_id;
  payload_len = length payload;
}

-- A frame that was encoded comes out of one call of a fresh parser, whatever follows it: the header's
-- fields and the payload as they were given, the parser fresh again, and the rest of the input left.
-- The version is supported, the flags are known, and the payload is at most 16 MiB.
pub feed-encode_frame_versioned :
    (version : ℕ) (op : Op) (flags : Flags) (req_id : ℕ) (payload rest : Bytes)
    → IsHeader (header_of version op flags req_id payload)
    → feed new (encode_frame_versioned version op flags req_id payload ++ rest) ≡ (
      ok (some (record { header = header_of version op flags req_id payload; payload = payload })),
      new,
      rest,
    )
unfolding encode_frame_versioned feed end_header feed_parsed feed_payload end_payload
feed-encode_frame_versioned version op flags req_id payload rest ok_h =
    let h = header_of version op flags req_id payload in
    let parsed = parse_header-Fields (encoded h) h ok_h (encoded-Fields h ok_h) in
    let first =
      ap (fill header_len []) (append_assoc (encoded h) payload rest)
      ∙ fill-exact header_len [] (encoded h) (payload ++ rest) (length-encoded h) in
    let second = fill-exact (length payload) [] payload rest (omega arith) in
    ap end_header first
    ∙ ap (λ p. feed_parsed p (encoded h) (payload ++ rest)) parsed
    ∙ ap (end_payload h) second
    ∙ rw (le→ltb (length payload) (length payload) (omega arith)) refl
