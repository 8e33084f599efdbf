-- ===== src/Resp3/Parser/RoundTrip.antt =====
-- crates/skeg-resp3: the parser reads back what the encoder writes, downgraded for RESP2 as the encoder's
-- table says.
use skeg.Prelude.{
  ℕ, zero, suc, ◌+◌, ◌*◌, ◌≤◌, ◌≡◌, ◌∙◌, refl, ap, arith, ◌∷◌, ◌++◌, append_assoc, length,
  length-append, drop, Option, Bytes, ap₂, drop-append_length,
}
use skeg.Resp3.Frame.{
  Frame, Frames, Pairs, simple, error, integer, bulk, null, array, blob_error, boolean, double,
  map_of, set_of, push, verbatim, big_number, no_frames, frame, no_pairs, pair, frames_len,
  pairs_len, ProtoVersion, resp2, resp3,
}
use skeg.Resp3.Scan.{done, crlf, max_nesting_depth}
use skeg.Resp3.Encoder.{format_double, encode_frame, encode_frames, encode_pairs}
use skeg.Resp3.Parser.{parse_frame_left, parse_frame}
use skeg.Resp3.Parser.Written.{IsLine}
use skeg.Resp3.Parser.Received.{
  height, height_all, height_pairs, IsSendable, AreSendable, PairsSendable, received, received_all,
  received_pairs, received_flat,
}
use skeg.Resp3.Parser.Aggregates.{pair_up-received_flat, length-encode_frame}
use skeg.Resp3.Parser.Scalars.{
  ReadAs, simple-ReadAs, error-ReadAs, integer-ReadAs, bulk-ReadAs, null3-ReadAs, null2-ReadAs,
  boolean3-ReadAs, boolean2-ReadAs, double-ReadAs, big_number-ReadAs, blob_error3-ReadAs,
  verbatim3-ReadAs,
}
use skeg.Resp3.Parser.Kinds.{
  ItemsRead, array-ReadAs, blob_error2-ReadAs, map-ReadAs, no-items, one-more, push-ReadAs,
  set-ReadAs, two-more, verbatim2-ReadAs,
}

mutual
  unfolding encode_frame received IsSendable height

  frame-ReadAs :
      (f : Frame) (parse_f64 : Bytes → Option ℕ) (display_f64 : ℕ → Bytes) (version : ProtoVersion)
      (left : ℕ)
      → IsSendable parse_f64 display_f64 f
      → height f ≤ left
      → ReadAs parse_f64 left (encode_frame display_f64 f version) (received display_f64 f version)
  frame-ReadAs (simple s) p d v left h le = simple-ReadAs p left s h
  frame-ReadAs (error s) p d v left h le = error-ReadAs p left s h
  frame-ReadAs (integer i) p d v left h le = integer-ReadAs p left i h
  frame-ReadAs (bulk s) p d v left h le = bulk-ReadAs p left s h
  frame-ReadAs null p d resp2 left h le = null2-ReadAs p left
  frame-ReadAs null p d resp3 left h le = null3-ReadAs p left
  frame-ReadAs (boolean b) p d resp2 left h le = boolean2-ReadAs p left b
  frame-ReadAs (boolean b) p d resp3 left h le = boolean3-ReadAs p left b
  frame-ReadAs (double x) p d resp2 left (hl, hp, hm) le = bulk-ReadAs p left (format_double d x) hm
  frame-ReadAs (double x) p d resp3 left (hl, hp, hm) le =
      double-ReadAs p left x (format_double d x) hl hp
  frame-ReadAs (big_number s) p d resp2 left (hl, hb, hm) le = bulk-ReadAs p left s hm
  frame-ReadAs (big_number s) p d resp3 left (hl, hb, hm) le = big_number-ReadAs p left s hl hb
  frame-ReadAs (blob_error code message) p d resp2 left (hl, hc, hm) le =
      blob_error2-ReadAs p d left code message hl
  frame-ReadAs (blob_error code message) p d resp3 left (hl, hc, hm) le =
      blob_error3-ReadAs p left code message hc hl.utf8 hm
  frame-ReadAs (verbatim a b c s) p d resp2 left h le = verbatim2-ReadAs p d left a b c s h
  frame-ReadAs (verbatim a b c s) p d resp3 left h le = verbatim3-ReadAs p left a b c s h
  frame-ReadAs (array fs) p d v zero (hn, h) le = absurd (omega arith)
  frame-ReadAs (array fs) p d v (suc left) (hn, h) le =
      array-ReadAs p d (suc left) (frames_len fs) (encode_frames d fs v) (received_all d fs v) hn
        (frames-ItemsRead fs p d v left h (omega arith))
  frame-ReadAs (set_of fs) p d v zero (hn, h) le = absurd (omega arith)
  frame-ReadAs (set_of fs) p d resp2 (suc left) (hn, h) le =
      array-ReadAs p d (suc left) (frames_len fs) (encode_frames d fs resp2)
        (received_all d fs resp2) hn (frames-ItemsRead fs p d resp2 left h (omega arith))
  frame-ReadAs (set_of fs) p d resp3 (suc left) (hn, h) le =
      set-ReadAs p d (suc left) (frames_len fs) (encode_frames d fs resp3) (received_all d fs resp3)
        hn (frames-ItemsRead fs p d resp3 left h (omega arith))
  frame-ReadAs (push fs) p d v zero (hn, h) le = absurd (omega arith)
  frame-ReadAs (push fs) p d resp2 (suc left) (hn, h) le =
      array-ReadAs p d (suc left) (frames_len fs) (encode_frames d fs resp2)
        (received_all d fs resp2) hn (frames-ItemsRead fs p d resp2 left h (omega arith))
  frame-ReadAs (push fs) p d resp3 (suc left) (hn, h) le =
      push-ReadAs p d (suc left) (frames_len fs) (encode_frames d fs resp3)
        (received_all d fs resp3) hn (frames-ItemsRead fs p d resp3 left h (omega arith))
  frame-ReadAs (map_of ps) p d v zero (hn, h) le = absurd (omega arith)
  frame-ReadAs (map_of ps) p d resp2 (suc left) (hn, h) le =
      array-ReadAs p d (suc left) (pairs_len ps * 2) (encode_pairs d ps resp2)
        (received_flat d ps resp2) hn (pairs-ItemsRead ps p d resp2 left h (omega arith))
  frame-ReadAs (map_of ps) p d resp3 (suc left) (hn, h) le =
      map-ReadAs p d (suc left) (pairs_len ps) (encode_pairs d ps resp3) (received_flat d ps resp3)
        (received_pairs d ps resp3) (omega arith)
        (pairs-ItemsRead ps p d resp3 left h (omega arith)) (pair_up-received_flat d ps resp3)

  frames-ItemsRead :
      (fs : Frames) (parse_f64 : Bytes → Option ℕ) (display_f64 : ℕ → Bytes)
      (version : ProtoVersion) (left : ℕ)
      → AreSendable parse_f64 display_f64 fs
      → height_all fs ≤ left
      → ItemsRead parse_f64 display_f64
          (suc left)
          (frames_len fs)
          (encode_frames display_f64 fs version)
          (received_all display_f64 fs version)
  frames-ItemsRead no_frames p d v left h le = no-items p d (suc left)
  frames-ItemsRead (frame f fs) p d v left (hf, h) le =
      one-more p d left (frames_len fs) (encode_frame d f v) (encode_frames d fs v) (received d f v)
        (received_all d fs v) (length-encode_frame d f v)
        (frame-ReadAs f p d v left hf (omega arith))
        (frames-ItemsRead fs p d v left h (omega arith))

  pairs-ItemsRead :
      (ps : Pairs) (parse_f64 : Bytes → Option ℕ) (display_f64 : ℕ → Bytes) (version : ProtoVersion)
      (left : ℕ)
      → PairsSendable parse_f64 display_f64 ps
      → height_pairs ps ≤ left
      → ItemsRead parse_f64 display_f64
          (suc left)
          (pairs_len ps * 2)
          (encode_pairs display_f64 ps version)
          (received_flat display_f64 ps version)
  pairs-ItemsRead no_pairs p d v left h le = no-items p d (suc left)
  pairs-ItemsRead (pair k w ps) p d v left (hk, hw, h) le =
      two-more p d left (pairs_len ps) (encode_frame d k v) (encode_frame d w v)
        (encode_pairs d ps v) (received d k v) (received d w v) (received_flat d ps v)
        (length-encode_frame d k v) (length-encode_frame d w v)
        (frame-ReadAs k p d v left hk (omega arith)) (frame-ReadAs w p d v left hw (omega arith))
        (pairs-ItemsRead ps p d v left h (omega arith))

-- A frame that both versions can carry, nested no deeper than 128, is parsed from the front of what the
-- encoder writes for it, as what the encoder's table gives the version, and takes all of its bytes; the
-- text of an f64 has to be parsed to the same f64.
pub parse_frame-encode_frame :
    (parse_f64 : Bytes → Option ℕ) (display_f64 : ℕ → Bytes) (f : Frame) (version : ProtoVersion)
    (rest : Bytes)
    → IsSendable parse_f64 display_f64 f
    → height f ≤ max_nesting_depth
    → parse_frame parse_f64 (encode_frame display_f64 f version ++ rest)
      ≡ done (received display_f64 f version) (length (encode_frame display_f64 f version))
unfolding parse_frame
parse_frame-encode_frame parse_f64 display_f64 f version rest h le =
    frame-ReadAs f parse_f64 display_f64 version max_nesting_depth h le rest

mutual
  unfolding received

  received-resp3 : (f : Frame) (display_f64 : ℕ → Bytes) → received display_f64 f resp3 ≡ f
  received-resp3 (simple s) d = refl
  received-resp3 (error s) d = refl
  received-resp3 (integer i) d = refl
  received-resp3 (bulk s) d = refl
  received-resp3 null d = refl
  received-resp3 (array fs) d = ap array (received_all-resp3 fs d)
  received-resp3 (blob_error code message) d = refl
  received-resp3 (boolean b) d = refl
  received-resp3 (double x) d = refl
  received-resp3 (map_of ps) d = ap map_of (received_pairs-resp3 ps d)
  received-resp3 (set_of fs) d = ap set_of (received_all-resp3 fs d)
  received-resp3 (push fs) d = ap push (received_all-resp3 fs d)
  received-resp3 (verbatim a b c s) d = refl
  received-resp3 (big_number s) d = refl

  received_all-resp3 :
      (fs : Frames) (display_f64 : ℕ → Bytes) → received_all display_f64 fs resp3 ≡ fs
  received_all-resp3 no_frames d = refl
  received_all-resp3 (frame f fs) d = ap₂ frame (received-resp3 f d) (received_all-resp3 fs d)

  received_pairs-resp3 :
      (ps : Pairs) (display_f64 : ℕ → Bytes) → received_pairs display_f64 ps resp3 ≡ ps
  received_pairs-resp3 no_pairs d = refl
  received_pairs-resp3 (pair k v ps) d =
      λ i. pair (received-resp3 k d i) (received-resp3 v d i) (received_pairs-resp3 ps d i)

-- Under the same conditions a RESP3 client gets the frame itself.
pub parse_frame-encode_frame_resp3 :
    (parse_f64 : Bytes → Option ℕ) (display_f64 : ℕ → Bytes) (f : Frame) (rest : Bytes)
    → IsSendable parse_f64 display_f64 f
    → height f ≤ max_nesting_depth
    → parse_frame parse_f64 (encode_frame display_f64 f resp3 ++ rest)
      ≡ done f (length (encode_frame display_f64 f resp3))
parse_frame-encode_frame_resp3 parse_f64 display_f64 f rest h le =
    parse_frame-encode_frame parse_f64 display_f64 f resp3 rest h le
    ∙ ap (λ g. done g (length (encode_frame display_f64 f resp3))) (received-resp3 f display_f64)

-- An error whose text has a CRLF is parsed by the client as an error that ends there, and the rest of
-- the text stands in front of whatever the server sends next.
pub parse_frame-encode_frame_split :
    (parse_f64 : Bytes → Option ℕ) (display_f64 : ℕ → Bytes) (s injected : Bytes)
    (version : ProtoVersion)
    → IsLine s
    → (parse_frame parse_f64 (encode_frame display_f64 (error (s ++ crlf ++ injected)) version)
        ≡ done (error s) (length s + 3))
      × (drop (length s + 3) (encode_frame display_f64 (error (s ++ crlf ++ injected)) version)
          ≡ injected ++ crlf)
unfolding encode_frame parse_frame
parse_frame-encode_frame_split parse_f64 display_f64 s injected version h =
    let whole : 45 ∷ s ++ crlf ++ injected ++ crlf ≡ (45 ∷ s ++ crlf) ++ (injected ++ crlf) =
      ap (λ t. 45 ∷ t) (append_assoc (s ++ crlf) injected crlf) in
    let size : length (45 ∷ s ++ crlf) ≡ length s + 3 = omega (arith, length-append s crlf) in
    (
      ap (parse_frame_left parse_f64 (max_nesting_depth + 1)) whole
          ∙ error-ReadAs parse_f64 max_nesting_depth s h (injected ++ crlf)
          ∙ ap (done (error s)) size,
      ap (drop (length s + 3)) whole
          ∙ drop-append_length (length s + 3) (45 ∷ s ++ crlf) (injected ++ crlf) size,
    )
