-- ===== src/Resp3/Decoder/Stream.antt =====
-- crates/skeg-resp3/src/decoder.rs: frames come out of the decoder in the order they were sent, however
-- the connection cuts their bytes.
use skeg.Prelude.{
  ℕ, zero, suc, ◌≤◌, ◌≡◌, ◌∙◌, sym, refl, ap, List, [], ◌∷◌, ◌++◌, append_assoc, append-nil, length,
  drop-append_length, All, Option, Bytes,
}
use skeg.Resp3.Frame.{Frame, ProtoVersion}
use skeg.Resp3.Scan.{max_nesting_depth}
use skeg.Resp3.Encoder.{encode_frame}
use skeg.Resp3.Parser.Received.{height, IsSendable, received}
use skeg.Resp3.Parser.RoundTrip.{parse_frame-encode_frame}
use skeg.Resp3.Decoder.{FrameDecoder, new, feed, Decoded, frame, decoded, decode}

-- The chunks that the connection delivers, one after the other.
abbrev pub feed_all : FrameDecoder → List Bytes → FrameDecoder
feed_all d [] = d
feed_all d (chunk ∷ chunks) = feed_all (feed d chunk) chunks

abbrev pub concat : List Bytes → Bytes
concat [] = []
concat (chunk ∷ chunks) = chunk ++ concat chunks

buf-feed_all :
    (chunks : List Bytes) (d : FrameDecoder) → (feed_all d chunks).buf ≡ d.buf ++ concat chunks
unfolding feed
buf-feed_all [] d = sym (append-nil d.buf)
buf-feed_all (chunk ∷ chunks) d =
    buf-feed_all chunks (feed d chunk) ∙ append_assoc d.buf chunk (concat chunks)

module _ (parse_f64 : Bytes → Option ℕ) (display_f64 : ℕ → Bytes) (version : ProtoVersion) where
  -- `count` calls of `decode`.
  abbrev pub decode_times : ℕ → FrameDecoder → List Decoded × FrameDecoder
  decode_times zero d = ([], d)
  decode_times (suc count) d =
      let first = decode parse_f64 d in
      let later = decode_times count first.1 in (first.0 ∷ later.0, later.1)

  abbrev pub encode_all : List Frame → Bytes
  encode_all [] = []
  encode_all (f ∷ fs) = encode_frame display_f64 f version ++ encode_all fs

  abbrev pub received_frames : List Frame → List Decoded
  received_frames [] = []
  received_frames (f ∷ fs) = frame (received display_f64 f version) ∷ received_frames fs

  abbrev pub IsCarried : Frame → Type 0
  IsCarried f = IsSendable parse_f64 display_f64 f × (height f ≤ max_nesting_depth)

  decode-encoded :
      (f : Frame) (rest : Bytes)
      → IsCarried f
      → decode parse_f64 (record { buf = encode_frame display_f64 f version ++ rest })
        ≡ (frame (received display_f64 f version), record { buf = rest })
  unfolding decode
  decode-encoded f rest (h, le) =
      let enc = encode_frame display_f64 f version in
      ap (decoded (record { buf = enc ++ rest }))
        (parse_frame-encode_frame parse_f64 display_f64 f version rest h le)
      ∙ ap (λ b. (frame (received display_f64 f version), record { buf = b }))
          (drop-append_length (length enc) enc rest refl)

  decode_times-encoded :
      (fs : List Frame) (rest : Bytes)
      → All IsCarried fs
      → decode_times (length fs) (record { buf = encode_all fs ++ rest })
        ≡ (received_frames fs, record { buf = rest })
  decode_times-encoded [] rest h = refl
  decode_times-encoded (f ∷ fs) rest (hf, h) =
      let enc = encode_frame display_f64 f version in
      ap (λ b. decode_times (suc (length fs)) (record { buf = b }))
        (append_assoc enc (encode_all fs) rest)
      ∙ ap (λ r. (r.0 ∷ (decode_times (length fs) r.1).0, (decode_times (length fs) r.1).1))
          (decode-encoded f (encode_all fs ++ rest) hf)
      ∙ ap (λ r. (frame (received display_f64 f version) ∷ r.0, r.1))
          (decode_times-encoded fs rest h)

-- When the chunks that a new decoder is fed make up the encodings of frames that both versions can carry,
-- nested no deeper than 128, and some further bytes, then as many calls of `decode` give what the
-- encoder's table says of these frames in the version of the encoder, in their order, and leave the
-- further bytes.
pub decode-feed_all :
    (parse_f64 : Bytes → Option ℕ) (display_f64 : ℕ → Bytes) (version : ProtoVersion)
    (fs : List Frame) (rest : Bytes) (chunks : List Bytes)
    → All (IsCarried parse_f64 display_f64 version) fs
    → concat chunks ≡ encode_all parse_f64 display_f64 version fs ++ rest
    → decode_times parse_f64 display_f64 version (length fs) (feed_all new chunks)
      ≡ (received_frames parse_f64 display_f64 version fs, record { buf = rest })
decode-feed_all parse_f64 display_f64 version fs rest chunks h e =
    ap (λ b. decode_times parse_f64 display_f64 version (length fs) (record { buf = b }))
      (buf-feed_all chunks new ∙ e)
    ∙ decode_times-encoded parse_f64 display_f64 version fs rest h
