-- ===== src/Resp3/Parser/Fits.antt =====
-- crates/skeg-resp3/src/parser.rs: the parser never panics, and never consumes more than its input.
use skeg.Prelude.{
  ℕ, zero, suc, ◌+◌, ◌*◌, ◌-◌, ◌≤◌, ◌≡◌, ◌≢◌, refl, ap, arith, [], ◌∷◌, length, drop, length-drop,
  Option, none, false, ltb, ◌==◌, inl, inr, le→ltb, Option-cases, Bytes, ℤ,
}
use skeg.Resp3.Frame.{Frame, Frames, frames_len, no_frames, frame}
use skeg.Resp3.Scan.{
  Parsed, incomplete, done, err, panic, ◌>>=◌, max_aggregate_len, max_nesting_depth,
  parse_integer_line,
}
use skeg.Resp3.Parser.{
  AggKind, agg_array, agg_set, agg_push, agg_map, frame_count, pair_up, build, parse_items,
  aggregate_of, parse_aggregate, dispatch, parse_frame_left, parse_frame,
}
use skeg.Resp3.Parser.ScalarFits.{
  Fits, Fits-bind, Fits-shift, choose, error_line-Fits, integer_of_line-Fits, parse_big_number-Fits,
  parse_blob_error-Fits, parse_boolean-Fits, parse_bulk-Fits, parse_double-Fits,
  parse_integer_line-Fits, parse_null-Fits, parse_verbatim-Fits, simple_line-Fits,
}

-- The items of an aggregate are as many as it says.
abbrev Items : Parsed Frames → ℕ → ℕ → Type 0
Items (done fs m) n count = (m ≤ n) × (frames_len fs ≡ count)
Items incomplete n count = Unit
Items (err e) n count = Unit
Items panic n count = 1 ≤ 0

Items-bind :
    {B : Type 0} (o : Parsed Frames) (k : Frames → ℕ → Parsed B) (n count : ℕ)
    → Items o n count
    → ((fs : Frames) (m : ℕ) → m ≤ n → frames_len fs ≡ count → Fits (k fs m) n)
    → Fits (o >>= k) n
Items-bind (done fs m) k n count (h, e) f = f fs m h e
Items-bind incomplete k n count h f = tt
Items-bind (err e) k n count h f = tt
Items-bind panic k n count h f = h

frame-Items :
    (f : Frame) (o : Parsed Frames) (n count : ℕ)
    → Items o n count
    → Items (o >>= λ fs m. done (frame f fs) m) n (suc count)
frame-Items f (done fs m) n count (h, e) = (h, ap suc e)
frame-Items f incomplete n count h = tt
frame-Items f (err e) n count h = tt
frame-Items f panic n count h = h

Items-step :
    (o : Parsed Frame) (k : Frame → ℕ → Parsed Frames) (room n count : ℕ)
    → Fits o room
    → ((f : Frame) (m : ℕ) → m ≤ room → Items (k f m) n count)
    → Items (o >>= k) n count
Items-step (done f m) k room n count h g = g f m h
Items-step incomplete k room n count h g = tt
Items-step (err e) k room n count h g = tt
Items-step panic k room n count h g = h

parse_items-Items :
    (parse : Bytes → Parsed Frame) (count : ℕ) (body : Bytes) (consumed : ℕ)
    → ((s : Bytes) → Fits (parse s) (length s))
    → consumed ≤ length body
    → Items (parse_items parse count body consumed) (length body) count
unfolding parse_items
parse_items-Items parse zero body consumed fits h = (h, refl)
parse_items-Items parse (suc count) body consumed fits h =
    let inside : ltb (length body) consumed ≡ false = le→ltb (length body) consumed h in
    let room = length-drop consumed body in
    rw inside (
      Items-step (parse (drop consumed body)) _ (length (drop consumed body)) (length body)
        (suc count) (fits (drop consumed body))
        (λ f n hn.
          frame-Items f (parse_items parse count body (consumed + n)) (length body) count
            (parse_items-Items parse count body (consumed + n) fits (omega arith))))

pair_up-even : (items : Frames) (n : ℕ) → frames_len items ≡ n * 2 → pair_up items ≢ none
unfolding pair_up
pair_up-even no_frames n h e = cc
pair_up-even (frame k no_frames) n h e = omega arith
pair_up-even (frame k (frame v items)) n h e = elim (Option-cases (pair_up items)) [
  | inl odd ↦ pair_up-even items (n - 1) (omega arith) odd
  | inr (ps, even) ↦ absurd (ground arith)
]

build-Fits :
    (kind : AggKind) (items : Frames) (count m n : ℕ)
    → frames_len items ≡ frame_count kind count
    → m ≤ n
    → Fits (build kind items m) n
unfolding build
build-Fits agg_array items count m n e h = h
build-Fits agg_set items count m n e h = h
build-Fits agg_push items count m n e h = h
build-Fits agg_map items count m n e h = elim (Option-cases (pair_up items)) [
  | inl odd ↦ absurd (pair_up-even items count e odd)
  | inr (ps, even) ↦ rw even h
]

aggregate_of-Fits :
    (parse : Bytes → Parsed Frame) (kind : AggKind) (body : Bytes) (start : ℕ) (i : ℤ)
    → ((s : Bytes) → Fits (parse s) (length s))
    → start ≤ length body
    → Fits (aggregate_of parse kind body start i) (length body)
unfolding aggregate_of
aggregate_of-Fits parse agg_array body start (ℤ.negsuc zero) fits h = h
aggregate_of-Fits parse agg_array body start (ℤ.negsuc (suc n)) fits h = tt
aggregate_of-Fits parse agg_set body start (ℤ.negsuc n) fits h = tt
aggregate_of-Fits parse agg_push body start (ℤ.negsuc n) fits h = tt
aggregate_of-Fits parse agg_map body start (ℤ.negsuc n) fits h = tt
aggregate_of-Fits parse kind body start (ℤ.pos count) fits h =
    choose (length body) _ _ (ltb max_aggregate_len count) tt (
      Items-bind (parse_items parse (frame_count kind count) body start) _ (length body)
        (frame_count kind count)
        (parse_items-Items parse (frame_count kind count) body start fits h)
        (λ items n hn e. build-Fits kind items count n (length body) e hn))

parse_aggregate-Fits :
    (parse : Bytes → Parsed Frame) (kind : AggKind) (body : Bytes)
    → ((s : Bytes) → Fits (parse s) (length s))
    → Fits (parse_aggregate parse kind body) (length body)
unfolding parse_aggregate
parse_aggregate-Fits parse kind body fits =
    Fits-bind (parse_integer_line body) _ (length body) (parse_integer_line-Fits body)
      (λ i start h. aggregate_of-Fits parse kind body start i fits h)

parse_frame_left-Fits :
    (parse_f64 : Bytes → Option ℕ) (left : ℕ) (s : Bytes)
    → Fits (parse_frame_left parse_f64 left s) (length s)
unfolding parse_frame_left dispatch
parse_frame_left-Fits parse_f64 zero [] = tt
parse_frame_left-Fits parse_f64 zero (c ∷ body) = tt
parse_frame_left-Fits parse_f64 (suc left) [] = tt
parse_frame_left-Fits parse_f64 (suc left) (c ∷ body) =
    let parse = parse_frame_left parse_f64 left in
    let fits = parse_frame_left-Fits parse_f64 left in
    let n = length body in
    choose (suc n) _ _ (c == 43) (Fits-shift _ n (simple_line-Fits body)) (
      choose (suc n) _ _ (c == 45) (Fits-shift _ n (error_line-Fits body)) (
        choose (suc n) _ _ (c == 58) (Fits-shift _ n (integer_of_line-Fits body)) (
          choose (suc n) _ _ (c == 36) (Fits-shift _ n (parse_bulk-Fits body)) (
            choose (suc n) _ _ (c == 42)
              (Fits-shift _ n (parse_aggregate-Fits parse agg_array body fits))
              (choose (suc n) _ _ (c == 95) (Fits-shift _ n (parse_null-Fits body)) (
                choose (suc n) _ _ (c == 35) (Fits-shift _ n (parse_boolean-Fits body)) (
                  choose (suc n) _ _ (c == 44) (Fits-shift _ n (parse_double-Fits body parse_f64)) (
                    choose (suc n) _ _ (c == 37)
                      (Fits-shift _ n (parse_aggregate-Fits parse agg_map body fits))
                      (choose (suc n) _ _ (c == 126)
                        (Fits-shift _ n (parse_aggregate-Fits parse agg_set body fits))
                        (choose (suc n) _ _ (c == 62)
                          (Fits-shift _ n (parse_aggregate-Fits parse agg_push body fits))
                          (choose (suc n) _ _ (c == 33)
                            (Fits-shift _ n (parse_blob_error-Fits body))
                            (choose (suc n) _ _ (c == 61)
                              (Fits-shift _ n (parse_verbatim-Fits body))
                              (choose (suc n) _ _ (c == 40)
                                (Fits-shift _ n (parse_big_number-Fits body)) tt)))))))))))))

-- On every input the parser of frames does not panic, and a frame that it finds takes no more bytes than
-- the input has.
pub parse_frame-Fits :
    (parse_f64 : Bytes → Option ℕ) (input : Bytes)
    → Fits (parse_frame parse_f64 input) (length input)
unfolding parse_frame
parse_frame-Fits parse_f64 input = parse_frame_left-Fits parse_f64 (max_nesting_depth + 1) input
