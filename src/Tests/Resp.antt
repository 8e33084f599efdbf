-- ===== src/Tests/Resp.antt =====
-- RESP frames on concrete bytes.
use skeg.Prelude.{
  ℕ, ◌+◌, ◌≡◌, refl, arith, List, [], ◌∷◌, ◌++◌, length, drop, Option, none, some, true, Bytes,
  is_utf8-ascii, ℤ, show_nat, show_loop, codes, is_utf8, from_utf8, lead, to_ascii_uppercase,
  ascii_upper, show_int,
}
use skeg.Resp3.Frame.{
  Frame, simple, error, integer, bulk, array, boolean, map_of, no_frames, frame, no_pairs, pair,
  resp2, resp3,
}
use skeg.Resp3.Scan.{done, crlf}
use skeg.Resp3.Encoder.{encode_frame, write_bulk}
use skeg.Resp3.Parser.{parse_frame}
use skeg.Resp3.Parser.ScalarFits.{Fits}
use skeg.Resp3.Parser.Fits.{parse_frame-Fits}
use skeg.Resp3.Parser.Received.{IsSendable, height, received}
use skeg.Resp3.Parser.RoundTrip.{parse_frame-encode_frame, parse_frame-encode_frame_split}
use skeg.Resp3.Decoder.{new}
use skeg.Resp3.Decoder.Stream.{
  feed_all, concat, decode_times, encode_all, received_frames, decode-feed_all,
}
use skeg.Resp3.Command.{Command, ok}
use skeg.Resp3.Dispatch.{parse_command}
use skeg.Resp3.Dispatch.Request.{request, IsRequest}
use skeg.Resp3.Dispatch.Wire.{command_frame, parse_frame-command}
use skeg.Resp3.Connection
use skeg.Resp3.Connection.{apply_hello, greeted}

-- No f64 is sent here.
abbrev no_f64 : Bytes → Option ℕ
no_f64 s = none

abbrev no_text : ℕ → Bytes
no_text d = []

-- `{k: [7, true]}`
abbrev nested : Frame
nested = map_of (
    pair (simple (107 ∷ [])) (array (frame (integer (ℤ.pos 7)) (frame (boolean true) no_frames)))
      no_pairs)

nested-IsSendable : IsSendable no_f64 no_text nested
unfolding IsSendable
nested-IsSendable = (
  omega arith,
  (
    record { utf8 = is_utf8-ascii (107 ∷ []) (omega arith, tt); no_return = (refl, tt) },
    (omega arith, (omega arith, (tt, tt))),
    tt,
  ),
)

parse_frame-encode_frame_example :
    parse_frame no_f64 (encode_frame no_text nested resp2 ++ (43 ∷ []))
    ≡ done (received no_text nested resp2) (length (encode_frame no_text nested resp2))
unfolding height
parse_frame-encode_frame_example =
    parse_frame-encode_frame no_f64 no_text nested resp2 (43 ∷ []) nested-IsSendable (omega arith)

-- `*1` and a part that is cut off.
abbrev cut : Bytes
cut = 42 ∷ 49 ∷ 13 ∷ 10 ∷ 36 ∷ []

parse_frame-Fits_example : Fits (parse_frame no_f64 cut) (length cut)
parse_frame-Fits_example = parse_frame-Fits no_f64 cut

abbrev a : Bytes
a = 97 ∷ []

-- `+b`
abbrev plus_b : Bytes
plus_b = 43 ∷ 98 ∷ []

parse_frame-encode_frame_split_example :
    (parse_frame no_f64 (encode_frame no_text (error (a ++ crlf ++ plus_b)) resp3)
      ≡ done (error a) (length a + 3))
    × (drop (length a + 3) (encode_frame no_text (error (a ++ crlf ++ plus_b)) resp3)
        ≡ plus_b ++ crlf)
parse_frame-encode_frame_split_example =
    parse_frame-encode_frame_split no_f64 no_text a plus_b resp3
      (record { utf8 = is_utf8-ascii a (omega arith, tt); no_return = (refl, tt) })

abbrev two_frames : List Frame
two_frames = bulk (104 ∷ 105 ∷ []) ∷ boolean true ∷ []

-- `$2 hi`, cut behind its length, and `#t`, with one byte of a third frame.
abbrev chunks : List Bytes
chunks = (36 ∷ 50 ∷ 13 ∷ 10 ∷ []) ∷ (104 ∷ 105 ∷ 13 ∷ []) ∷ (10 ∷ 35 ∷ 116 ∷ 13 ∷ 10 ∷ 58 ∷ []) ∷ []

chunks-encode : concat chunks ≡ encode_all no_f64 no_text resp3 two_frames ++ (58 ∷ [])
unfolding encode_frame write_bulk show_nat show_loop
chunks-encode = refl

decode-feed_all_example :
    decode_times no_f64 no_text resp3 (length two_frames) (feed_all new chunks)
    ≡ (received_frames no_f64 no_text resp3 two_frames, record { buf = 58 ∷ [] })
unfolding IsSendable height
decode-feed_all_example =
    decode-feed_all no_f64 no_text resp3 two_frames (58 ∷ []) chunks
      ((omega arith, omega arith), ((tt, omega arith), tt)) chunks-encode

-- `incrBY k -7`
abbrev minus_seven : Command
minus_seven = Command.incr_by (107 ∷ []) (ℤ.negsuc 6)

abbrev small_name : Bytes
small_name = codes "incrBY"

parse_frame-command_example :
    (parse_frame no_f64 (encode_frame no_text (command_frame minus_seven small_name) resp2 ++ [])
      ≡ done
          (command_frame minus_seven small_name)
          (length (encode_frame no_text (command_frame minus_seven small_name) resp2)))
    × (parse_command (command_frame minus_seven small_name) ≡ ok minus_seven)
unfolding request IsRequest is_utf8 from_utf8 lead to_ascii_uppercase ascii_upper show_int show_nat
    show_loop
parse_frame-command_example =
    parse_frame-command no_f64 no_text minus_seven small_name resp2 [] (omega arith) refl refl
      (omega arith, (omega arith, (omega arith, tt))) (omega arith)

-- A HELLO with the version 3 answers with it.
hello_three :
    (apply_hello
      (Connection.new (ℤ.pos 9))
      (record { protover = some 3; auth = none; setname = none })
      (codes "1")).1.version
    ≡ resp3
unfolding apply_hello greeted Connection.new
hello_three = refl
