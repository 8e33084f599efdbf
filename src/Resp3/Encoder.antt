-- ===== src/Resp3/Encoder.antt =====
-- crates/skeg-resp3/src/encoder.rs: `encode_frame` and its writers, as the bytes they append.
-- `display_f64` is the standard library's text of a finite f64.
use skeg.Prelude.{
  ℕ, ◌+◌, ◌*◌, ◌%◌, ◌^◌, [], ◌∷◌, ◌++◌, length, Bool, true, false, ltb, ◌==◌, if◌then◌else◌, Bytes,
  show_nat, show_int,
}
use skeg.Resp3.Frame.{
  Frame, Frames, Pairs, simple, error, integer, bulk, null, array, blob_error, boolean, double,
  map_of, set_of, push, verbatim, big_number, no_frames, frame, no_pairs, pair, ProtoVersion,
  is_resp3, frames_len, pairs_len,
}
use skeg.Resp3.Scan.{crlf}

abbrev pub write_line : ℕ → Bytes → Bytes
write_line marker line = marker ∷ line ++ crlf

unfoldable pub write_bulk : Bytes → Bytes
write_bulk bytes = 36 ∷ show_nat (length bytes) ++ crlf ++ (bytes ++ crlf)

abbrev pub is_nil : Bytes → Bool
is_nil [] = true
is_nil (c ∷ s) = false

-- The code, and a space and the message where there is one.
abbrev pub blob_payload : Bytes → Bytes → Bytes
blob_payload code message = code ++ (if is_nil message then [] else 32 ∷ message)

unfoldable pub write_blob_error : Bytes → Bytes → ProtoVersion → Bytes
write_blob_error code message version =
    let payload_len = if is_nil message then length code else length code + 1 + length message in
    if is_resp3 version
    then 33 ∷ show_nat payload_len ++ crlf ++ (blob_payload code message ++ crlf)
    else 45 ∷ blob_payload code message ++ crlf

unfoldable pub write_verbatim : ℕ → ℕ → ℕ → Bytes → ProtoVersion → Bytes
unfolding write_bulk
write_verbatim a b c bytes version =
    if is_resp3 version
    then 61 ∷ show_nat (3 + 1 + length bytes) ++ crlf ++ ((a ∷ b ∷ c ∷ 58 ∷ bytes) ++ crlf)
    else write_bulk bytes

-- The bits of an f64 without its sign.
abbrev magnitude : ℕ → ℕ
magnitude d = d % 2 ^ 63

abbrev infinity : ℕ
infinity = 2047 * 2 ^ 52

abbrev pub marker : ProtoVersion → ℕ → ℕ
marker version m = if is_resp3 version then m else 42

module _ (display_f64 : ℕ → Bytes) where
  unfoldable pub format_double : ℕ → Bytes
  format_double d =
      if ltb infinity (magnitude d)
      then 110 ∷ 97 ∷ 110 ∷ []
      else if magnitude d == infinity
      then if ltb d (2 ^ 63) then 105 ∷ 110 ∷ 102 ∷ [] else 45 ∷ 105 ∷ 110 ∷ 102 ∷ []
      else display_f64 d

  unfoldable mutual
    unfolding format_double write_bulk write_blob_error write_verbatim

    pub encode_frame : Frame → ProtoVersion → Bytes
    encode_frame (simple s) version = write_line 43 s
    encode_frame (error s) version = write_line 45 s
    encode_frame (integer n) version = write_line 58 (show_int n)
    encode_frame (bulk b) version = write_bulk b
    encode_frame null version = if is_resp3 version then 95 ∷ crlf else 36 ∷ 45 ∷ 49 ∷ crlf
    encode_frame (array items) version =
        42 ∷ show_nat (frames_len items) ++ crlf ++ encode_frames items version
    encode_frame (blob_error code message) version = write_blob_error code message version
    encode_frame (boolean v) version =
        if is_resp3 version
        then 35 ∷ (if v then 116 else 102) ∷ crlf
        else 58 ∷ (if v then 49 else 48) ∷ crlf
    encode_frame (double d) version =
        if is_resp3 version then write_line 44 (format_double d) else write_bulk (format_double d)
    encode_frame (map_of pairs) version =
        (if is_resp3 version then 37 else 42)
          ∷ show_nat (if is_resp3 version then pairs_len pairs else pairs_len pairs * 2)
        ++ crlf
        ++ encode_pairs pairs version
    encode_frame (set_of items) version =
        marker version 126 ∷ show_nat (frames_len items) ++ crlf ++ encode_frames items version
    encode_frame (push items) version =
        marker version 62 ∷ show_nat (frames_len items) ++ crlf ++ encode_frames items version
    encode_frame (verbatim a b c bytes) version = write_verbatim a b c bytes version
    encode_frame (big_number s) version = if is_resp3 version then write_line 40 s else write_bulk s

    pub encode_frames : Frames → ProtoVersion → Bytes
    encode_frames no_frames version = []
    encode_frames (frame f fs) version = encode_frame f version ++ encode_frames fs version

    pub encode_pairs : Pairs → ProtoVersion → Bytes
    encode_pairs no_pairs version = []
    encode_pairs (pair k v ps) version =
        encode_frame k version ++ encode_frame v version ++ encode_pairs ps version
