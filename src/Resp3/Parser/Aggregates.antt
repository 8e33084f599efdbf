-- ===== src/Resp3/Parser/Aggregates.antt =====
-- crates/skeg-resp3: the parser on the items of an aggregate that the encoder writes.
use skeg.Prelude.{
  ℕ, suc, ◌+◌, ◌≤◌, ◌<◌, ◌≡◌, ◌∙◌, refl, ap, arith, ◌++◌, length, drop, length-at, some, false, ltb,
  le→ltb, Bytes, show_nat,
}
use skeg.Resp3.Frame.{
  Frame, Frames, Pairs, simple, error, integer, bulk, null, array, blob_error, boolean, double,
  map_of, set_of, push, verbatim, big_number, frame, no_pairs, pair, ProtoVersion, resp2, resp3,
}
use skeg.Resp3.Scan.{Parsed, done, ◌>>=◌, crlf, max_aggregate_len}
use skeg.Resp3.Encoder.{write_bulk, write_blob_error, write_verbatim, encode_frame}
use skeg.Resp3.Parser.{
  AggKind, frame_count, pair_up, add_pair, build, parse_items, aggregate_of, parse_aggregate,
}
use skeg.Resp3.Parser.Written.{header-written}
use skeg.Resp3.Parser.Received.{received, received_pairs, received_flat}

pub items-step :
    (parse : Bytes → Parsed Frame) (count m : ℕ) (body : Bytes) (consumed : ℕ) (enc rest : Bytes)
    (f : Frame) (fs : Frames)
    → 0 < length enc
    → drop consumed body ≡ enc ++ rest
    → parse (enc ++ rest) ≡ done f (length enc)
    → parse_items parse count body (consumed + length enc) ≡ done fs m
    → parse_items parse (suc count) body consumed ≡ done (frame f fs) m
unfolding parse_items
items-step parse count m body consumed enc rest f fs pos_enc at one later =
    let whole = length-at consumed body enc rest at pos_enc in
    let inside : ltb (length body) consumed ≡ false = le→ltb (length body) consumed (omega arith) in
    rw (inside, at)
      (ap
          (λ o. o >>= λ g n.
            parse_items parse count body (consumed + n) >>= λ gs k. done (frame g gs) k)
          one
        ∙ ap (λ o. o >>= λ gs k. done (frame f gs) k) later)

pub aggregate-reads :
    (parse : Bytes → Parsed Frame) (kind : AggKind) (n m : ℕ) (field rest : Bytes) (items : Frames)
    → n ≤ max_aggregate_len
    → parse_items parse
        (frame_count kind n)
        ((show_nat n ++ crlf ++ field) ++ rest)
        (length (show_nat n) + 2)
      ≡ done items m
    → parse_aggregate parse kind ((show_nat n ++ crlf ++ field) ++ rest) ≡ build kind items m
unfolding parse_aggregate aggregate_of
aggregate-reads parse kind n m field rest items le e =
    let body = (show_nat n ++ crlf ++ field) ++ rest in
    let start = length (show_nat n) + 2 in
    let small : ltb max_aggregate_len n ≡ false = le→ltb max_aggregate_len n le in
    ap (λ o. o >>= λ count from. aggregate_of parse kind body from count)
      (header-written n field rest (omega arith))
    ∙ rw small (ap (λ o. o >>= λ gs k. build kind gs k) e)

pub pair_up-received_flat :
    (display_f64 : ℕ → Bytes) (ps : Pairs) (version : ProtoVersion)
    → pair_up (received_flat display_f64 ps version) ≡ some (received_pairs display_f64 ps version)
unfolding pair_up received
pair_up-received_flat display_f64 no_pairs version = refl
pair_up-received_flat display_f64 (pair k v ps) version =
    ap (add_pair (received display_f64 k version) (received display_f64 v version))
      (pair_up-received_flat display_f64 ps version)

pub length-encode_frame :
    (display_f64 : ℕ → Bytes) (f : Frame) (version : ProtoVersion)
    → 0 < length (encode_frame display_f64 f version)
unfolding encode_frame write_bulk write_blob_error write_verbatim
length-encode_frame display_f64 (simple s) version = omega arith
length-encode_frame display_f64 (error s) version = omega arith
length-encode_frame display_f64 (integer i) version = omega arith
length-encode_frame display_f64 (bulk s) version = omega arith
length-encode_frame display_f64 null resp2 = omega arith
length-encode_frame display_f64 null resp3 = omega arith
length-encode_frame display_f64 (array items) version = omega arith
length-encode_frame display_f64 (blob_error code message) resp2 = omega arith
length-encode_frame display_f64 (blob_error code message) resp3 = omega arith
length-encode_frame display_f64 (boolean v) resp2 = omega arith
length-encode_frame display_f64 (boolean v) resp3 = omega arith
length-encode_frame display_f64 (double d) resp2 = omega arith
length-encode_frame display_f64 (double d) resp3 = omega arith
length-encode_frame display_f64 (map_of pairs) version = omega arith
length-encode_frame display_f64 (set_of items) version = omega arith
length-encode_frame display_f64 (push items) version = omega arith
length-encode_frame display_f64 (verbatim a b c s) resp2 = omega arith
length-encode_frame display_f64 (verbatim a b c s) resp3 = omega arith
length-encode_frame display_f64 (big_number s) resp2 = omega arith
length-encode_frame display_f64 (big_number s) resp3 = omega arith
