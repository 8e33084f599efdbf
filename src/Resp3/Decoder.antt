-- ===== src/Resp3/Decoder.antt =====
-- crates/skeg-resp3/src/decoder.rs: `FrameDecoder`, which keeps the bytes that it has not decoded yet.
pub mod Stream
use skeg.Prelude.{ℕ, [], ◌++◌, length, drop, Option, none, some, Bytes}
use skeg.Resp3.Frame.{Frame}
use skeg.Resp3.Scan.{ParseError, Parsed, incomplete, done, err, panic}
use skeg.Resp3.Parser.{parse_frame}

pub record FrameDecoder : Type 0 where
  pub buf : Bytes

abbrev pub new : FrameDecoder
new = record { buf = [] }

unfoldable pub feed : FrameDecoder → Bytes → FrameDecoder
feed d bytes = record { buf = d.buf ++ bytes }

unfoldable pub buffered : FrameDecoder → ℕ
buffered d = length d.buf

-- `Ok(None)`, `Ok(Some(frame))`, `Err(e)`, or a panic of the parser.
pub data Decoded : Type 0 where
  more : Decoded
  frame : Frame → Decoded
  failed : ParseError → Decoded
  panicked : Decoded

-- `decode` after `parse_frame`: only a frame takes bytes off the buffer.
abbrev pub decoded : FrameDecoder → Parsed Frame → Decoded × FrameDecoder
decoded d incomplete = (more, d)
decoded d (done f n) = (frame f, record { buf = drop n d.buf })
decoded d (err e) = (failed e, d)
decoded d panic = (panicked, d)

unfoldable pub decode : (Bytes → Option ℕ) → FrameDecoder → Decoded × FrameDecoder
unfolding parse_frame
decode parse_f64 d = decoded d (parse_frame parse_f64 d.buf)
