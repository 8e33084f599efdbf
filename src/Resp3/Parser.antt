-- ===== src/Resp3/Parser.antt =====
-- crates/skeg-resp3/src/parser.rs: aggregates, and `parse_frame`. `parse_f64` is the standard library's
-- parser of f64. The recursion is on the depth that is left.
pub mod ScalarFits
pub mod Fits
pub mod Written
pub mod Reads
pub mod Received
pub mod Aggregates
pub mod Scalars
pub mod Kinds
pub mod RoundTrip
use skeg.Prelude.{
  ℕ, zero, suc, ◌+◌, ◌*◌, [], ◌∷◌, length, drop, Option, none, some, Bool, true, false, ltb, ◌==◌,
  if◌then◌else◌, Bytes, ℤ,
}
use skeg.Resp3.Frame.{
  Frame, Frames, Pairs, simple, error, integer, null, array, map_of, set_of, push, no_frames, frame,
  no_pairs, pair,
}
use skeg.Resp3.Scan.{
  unknown_type_marker, invalid_length, aggregate_too_large, nesting_too_deep, Parsed, incomplete,
  done, err, panic, ◌>>=◌, shift, max_aggregate_len, max_nesting_depth, parse_line,
  parse_integer_line, parse_bulk, parse_null_resp3, parse_boolean, parse_double, parse_blob_error,
  parse_verbatim, parse_big_number,
}

pub data AggKind : Type 0 where
  agg_array agg_set agg_push agg_map : AggKind

-- A map of `count` pairs is twice as many frames.
abbrev pub frame_count : AggKind → ℕ → ℕ
frame_count agg_map count = count * 2
frame_count _ count = count

abbrev pub add_pair : Frame → Frame → Option Pairs → Option Pairs
add_pair k v none = none
add_pair k v (some ps) = some (pair k v ps)

-- The loop over the items of a map; none where `expect` panics.
unfoldable pub pair_up : Frames → Option Pairs
pair_up no_frames = some no_pairs
pair_up (frame k no_frames) = none
pair_up (frame k (frame v items)) = add_pair k v (pair_up items)

abbrev pub map_or_panic : Option Pairs → ℕ → Parsed Frame
map_or_panic none n = panic
map_or_panic (some ps) n = done (map_of ps) n

unfoldable pub build : AggKind → Frames → ℕ → Parsed Frame
unfolding pair_up
build agg_array items n = done (array items) n
build agg_set items n = done (set_of items) n
build agg_push items n = done (push items) n
build agg_map items n = map_or_panic (pair_up items) n

-- The loop over the items: `parse` is the parser one level deeper, and the slice of the body from
-- `consumed` on panics where the body is shorter.
unfoldable pub parse_items : (Bytes → Parsed Frame) → ℕ → Bytes → ℕ → Parsed Frames
parse_items parse zero body consumed = done no_frames consumed
parse_items parse (suc count) body consumed =
    if ltb (length body) consumed
    then panic
    else (parse (drop consumed body) >>= λ f n.
        parse_items parse count body (consumed + n) >>= λ fs m. done (frame f fs) m)

-- Only an array has a null, with the count -1.
unfoldable pub aggregate_of : (Bytes → Parsed Frame) → AggKind → Bytes → ℕ → ℤ → Parsed Frame
unfolding parse_items build
aggregate_of parse agg_array body start (ℤ.negsuc zero) = done null start
aggregate_of parse kind body start (ℤ.negsuc n) = err (invalid_length (ℤ.negsuc n))
aggregate_of parse kind body start (ℤ.pos count) =
    if ltb max_aggregate_len count
    then err (aggregate_too_large count)
    else parse_items parse (frame_count kind count) body start >>= λ items n. build kind items n

unfoldable pub parse_aggregate : (Bytes → Parsed Frame) → AggKind → Bytes → Parsed Frame
unfolding parse_integer_line aggregate_of
parse_aggregate parse kind body =
    parse_integer_line body >>= λ count start. aggregate_of parse kind body start count

abbrev pub simple_line : Bytes → Parsed Frame
simple_line body = parse_line body >>= λ s n. done (simple s) n

abbrev pub error_line : Bytes → Parsed Frame
error_line body = parse_line body >>= λ s n. done (error s) n

abbrev pub integer_of_line : Bytes → Parsed Frame
integer_of_line body = parse_integer_line body >>= λ i n. done (integer i) n

module _ (parse_f64 : Bytes → Option ℕ) where
  -- The match on the type's marker.
  unfoldable pub dispatch : (Bytes → Parsed Frame) → ℕ → Bytes → Parsed Frame
  unfolding parse_line parse_integer_line parse_bulk parse_aggregate parse_null_resp3 parse_boolean
      parse_double parse_blob_error parse_verbatim parse_big_number
  dispatch parse c body =
      if c == 43
      then shift (simple_line body)
      else if c == 45
      then shift (error_line body)
      else if c == 58
      then shift (integer_of_line body)
      else if c == 36
      then shift (parse_bulk body)
      else if c == 42
      then shift (parse_aggregate parse agg_array body)
      else if c == 95
      then shift (parse_null_resp3 body)
      else if c == 35
      then shift (parse_boolean body)
      else if c == 44
      then shift (parse_double parse_f64 body)
      else if c == 37
      then shift (parse_aggregate parse agg_map body)
      else if c == 126
      then shift (parse_aggregate parse agg_set body)
      else if c == 62
      then shift (parse_aggregate parse agg_push body)
      else if c == 33
      then shift (parse_blob_error body)
      else if c == 61
      then shift (parse_verbatim body)
      else if c == 40
      then shift (parse_big_number body)
      else err (unknown_type_marker c)

  -- `parse_frame_depth` at the depth 129 - left.
  unfoldable pub parse_frame_left : ℕ → Bytes → Parsed Frame
  unfolding dispatch
  parse_frame_left zero [] = incomplete
  parse_frame_left zero (c ∷ body) = err (nesting_too_deep (max_nesting_depth + 1))
  parse_frame_left (suc left) [] = incomplete
  parse_frame_left (suc left) (c ∷ body) = dispatch (parse_frame_left left) c body

  unfoldable pub parse_frame : Bytes → Parsed Frame
  unfolding parse_frame_left
  parse_frame input = parse_frame_left (max_nesting_depth + 1) input
