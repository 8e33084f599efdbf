-- ===== src/Proto/Frame.antt =====
-- crates/skeg-proto/src/frame.rs: the frame header and the streaming parser. The parser's header
-- buffer is the bytes filled so far.
pub mod Fill
pub mod Stream
pub mod Cuts
pub mod RoundTrip
use skeg.Prelude.{
  ℕ, ◌+◌, ◌-◌, ◌*◌, min, Bytes, List, [], ◌∷◌, ◌++◌, Option, none, some, not, ◌||◌, from_le, to_le,
  slice, take, drop, length, ltb, ◌==◌, if◌then◌else◌,
}
use skeg.Proto.Error.{
  invalid_magic, invalid_version, unknown_op, frame_too_large, invalid_flags, Parsed, ok, err,
  ◌>>=◌, ensure, ok_or,
}
use skeg.Proto.Op
use skeg.Proto.Op.{Op}
use skeg.Proto.Flags
use skeg.Proto.Flags.{Flags}

abbrev pub magic : ℕ
magic = 0x564B

abbrev pub version_v1 : ℕ
version_v1 = 1

abbrev pub version_v2 : ℕ
version_v2 = 2

abbrev pub header_len : ℕ
header_len = 24

abbrev pub max_frame_size : ℕ
max_frame_size = 16 * 1024 * 1024

pub record FrameHeader : Type 0 where
  pub version : ℕ
  pub op : Op
  pub flags : Flags
  pub req_id : ℕ
  pub payload_len : ℕ

pub record Frame : Type 0 where
  pub header : FrameHeader
  pub payload : Bytes

pub data ParseState : Type 0 where
  in_header : Bytes → ParseState
  in_payload : FrameHeader → Bytes → ParseState

abbrev pub new : ParseState
new = in_header []

-- Move bytes of the input into a buffer until it holds `cap` bytes.
unfoldable pub fill : ℕ → Bytes → Bytes → Bytes × Bytes
fill cap buf input =
    let n = min (length input) (cap - length buf) in (buf ++ take n input, drop n input)

unfoldable pub parse_header : Bytes → Parsed FrameHeader
parse_header buf =
    let got = from_le (slice 0 2 buf) in
    let version = from_le (slice 2 1 buf) in
    let op_byte = from_le (slice 3 1 buf) in
    let flags_raw = from_le (slice 4 4 buf) in
    let req_id = from_le (slice 8 8 buf) in
    let payload_len = from_le (slice 16 4 buf) in
    ensure (got == magic) (invalid_magic magic got) >>= λ _.
    ensure ((version == version_v1) || (version == version_v2)) (invalid_version version) >>= λ _.
    ok_or (Op.from_u8 op_byte) (unknown_op op_byte) >>= λ op.
    ok_or (Flags.from_bits flags_raw) (invalid_flags flags_raw) >>= λ flags.
    ensure (not (ltb max_frame_size payload_len)) (frame_too_large payload_len max_frame_size)
    >>= λ _. ok (record {
      version = version;
      op = op;
      flags = flags;
      req_id = req_id;
      payload_len = payload_len;
    })

-- The result of a call, the parser's state and the input that is left.
abbrev pub Fed : Type 0
Fed = Parsed (Option Frame) × ParseState × Bytes

unfoldable pub end_payload : FrameHeader → Bytes × Bytes → Fed
end_payload header (buf, input) =
    if ltb (length buf) header.payload_len
    then (ok none, in_payload header buf, input)
    else (ok (some (record { header = header; payload = buf })), new, input)

-- The arm of the loop for the payload.
unfoldable pub feed_payload : FrameHeader → Bytes → Bytes → Fed
unfolding fill end_payload
feed_payload header buf input = end_payload header (fill header.payload_len buf input)

-- A header that is refused stays in the buffer.
unfoldable pub feed_parsed : Parsed FrameHeader → Bytes → Bytes → Fed
unfolding feed_payload
feed_parsed (err e) buf input = (err e, in_header buf, input)
feed_parsed (ok header) buf input = feed_payload header [] input

unfoldable pub end_header : Bytes × Bytes → Fed
unfolding parse_header feed_parsed
end_header (buf, input) =
    if ltb (length buf) header_len
    then (ok none, in_header buf, input)
    else feed_parsed (parse_header buf) buf input

-- The loop goes round twice at most: from the header to the payload.
unfoldable pub feed : ParseState → Bytes → Fed
unfolding end_header feed_payload
feed (in_header buf) input = end_header (fill header_len buf input)
feed (in_payload header buf) input = feed_payload header buf input

-- The 24 bytes of the header, the last four reserved.
unfoldable pub encode_header : ℕ → Op → Flags → ℕ → ℕ → Bytes
encode_header version op flags req_id payload_len =
    to_le 2 magic
    ++ (to_le 1 version
        ++ (to_le 1 (Op.to_u8 op)
            ++ (to_le 4 flags.bits ++ (to_le 8 req_id ++ (to_le 4 payload_len ++ to_le 4 0)))))

unfoldable pub encode_frame_versioned : ℕ → Op → Flags → ℕ → Bytes → Bytes
unfolding encode_header
encode_frame_versioned version op flags req_id payload =
    encode_header version op flags req_id (length payload) ++ payload

unfoldable pub encode_frame : Op → Flags → ℕ → Bytes → Bytes
unfolding encode_frame_versioned
encode_frame op flags req_id payload = encode_frame_versioned version_v1 op flags req_id payload
