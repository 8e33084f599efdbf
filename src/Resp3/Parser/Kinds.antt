-- ===== src/Resp3/Parser/Kinds.antt =====
-- crates/skeg-resp3: the parser reads back each kind of aggregate, when it reads its items.
use skeg.Prelude.{
  ℕ, suc, ◌+◌, ◌*◌, ◌≤◌, ◌<◌, ◌≡◌, ◌∙◌, sym, refl, ap, subst, arith, [], ◌∷◌, ◌++◌, append_assoc,
  length, length-append, drop, drop-next, Option, some, Bytes, show_nat,
}
use skeg.Resp3.Frame.{
  Frame, Frames, Pairs, error, bulk, array, map_of, set_of, push, no_frames, frame, resp2,
}
use skeg.Resp3.Scan.{done, shift, crlf, max_bulk_len, max_aggregate_len}
use skeg.Resp3.Encoder.{write_blob_error, write_verbatim, blob_payload}
use skeg.Resp3.Parser.{
  AggKind, agg_array, agg_set, agg_push, agg_map, frame_count, pair_up, map_or_panic, build,
  parse_items, parse_aggregate, dispatch, parse_frame_left,
}
use skeg.Resp3.Parser.Written.{drop-header, IsLine}
use skeg.Resp3.Parser.Aggregates.{items-step, aggregate-reads}
use skeg.Resp3.Parser.Scalars.{ReadAs, error-ReadAs, bulk-ReadAs}

module _ (parse_f64 : Bytes → Option ℕ) (display_f64 : ℕ → Bytes) where
  -- The items are read from every place where they stand.
  abbrev pub ItemsRead : ℕ → ℕ → Bytes → Frames → Type 0
  ItemsRead left count enc items =
      (body : Bytes) (consumed : ℕ) (rest : Bytes)
      → drop consumed body ≡ enc ++ rest
      → parse_items (parse_frame_left parse_f64 left) count body consumed
        ≡ done items (consumed + length enc)

  pub array-reads :
      (kind : AggKind) (left n : ℕ) (enc rest : Bytes) (items : Frames)
      → n ≤ max_aggregate_len
      → ItemsRead left (frame_count kind n) enc items
      → parse_aggregate (parse_frame_left parse_f64 left) kind ((show_nat n ++ crlf ++ enc) ++ rest)
        ≡ build kind items (length (show_nat n) + 2 + length enc)
  array-reads kind left n enc rest items le h =
      aggregate-reads (parse_frame_left parse_f64 left) kind n
        (length (show_nat n) + 2 + length enc) enc rest items le
        (h ((show_nat n ++ crlf ++ enc) ++ rest) (length (show_nat n) + 2) rest
          (drop-header n enc rest))

  pub counted :
      (m : ℕ) (enc : Bytes) (f : Frame) (n : ℕ)
      → done f (length (show_nat n) + 2 + length enc + 1)
        ≡ done f (length (m ∷ show_nat n ++ crlf ++ enc))
  counted m enc f n =
      ap (done f)
        (omega (arith, length-append (show_nat n ++ crlf) enc, length-append (show_nat n) crlf))

  -- The four kinds of aggregates, one level above their items.
  pub array-ReadAs :
      (left n : ℕ) (enc : Bytes) (items : Frames)
      → n ≤ max_aggregate_len
      → ItemsRead left n enc items
      → ReadAs parse_f64 left (42 ∷ show_nat n ++ crlf ++ enc) (array items)
  unfolding parse_frame_left dispatch build
  array-ReadAs left n enc items le h rest =
      ap shift (array-reads agg_array left n enc rest items le h) ∙ counted 42 enc (array items) n

  pub set-ReadAs :
      (left n : ℕ) (enc : Bytes) (items : Frames)
      → n ≤ max_aggregate_len
      → ItemsRead left n enc items
      → ReadAs parse_f64 left (126 ∷ show_nat n ++ crlf ++ enc) (set_of items)
  unfolding parse_frame_left dispatch build
  set-ReadAs left n enc items le h rest =
      ap shift (array-reads agg_set left n enc rest items le h) ∙ counted 126 enc (set_of items) n

  pub push-ReadAs :
      (left n : ℕ) (enc : Bytes) (items : Frames)
      → n ≤ max_aggregate_len
      → ItemsRead left n enc items
      → ReadAs parse_f64 left (62 ∷ show_nat n ++ crlf ++ enc) (push items)
  unfolding parse_frame_left dispatch build
  push-ReadAs left n enc items le h rest =
      ap shift (array-reads agg_push left n enc rest items le h) ∙ counted 62 enc (push items) n

  pub map-ReadAs :
      (left n : ℕ) (enc : Bytes) (items : Frames) (ps : Pairs)
      → n ≤ max_aggregate_len
      → ItemsRead left (n * 2) enc items
      → pair_up items ≡ some ps
      → ReadAs parse_f64 left (37 ∷ show_nat n ++ crlf ++ enc) (map_of ps)
  unfolding parse_frame_left dispatch build
  map-ReadAs left n enc items ps le h e rest =
      let m = length (show_nat n) + 2 + length enc in
      ap shift (array-reads agg_map left n enc rest items le h ∙ ap (λ o. map_or_panic o m) e)
      ∙ counted 37 enc (map_of ps) n

  pub no-items : (left : ℕ) → ItemsRead left 0 [] no_frames
  unfolding parse_items
  no-items left body consumed rest at = ap (done no_frames) (omega arith)

  pub one-more :
      (left count : ℕ) (enc later : Bytes) (f : Frame) (fs : Frames)
      → 0 < length enc
      → ReadAs parse_f64 left enc f
      → ItemsRead (suc left) count later fs
      → ItemsRead (suc left) (suc count) (enc ++ later) (frame f fs)
  one-more left count enc later f fs nonempty one more body consumed rest at =
      let at_enc : drop consumed body ≡ enc ++ (later ++ rest) = at ∙ append_assoc enc later rest in
      items-step (parse_frame_left parse_f64 (suc left)) count (consumed + length (enc ++ later))
        body consumed enc (later ++ rest) f fs nonempty at_enc (one (later ++ rest))
        (more body (consumed + length enc) rest
            (drop-next consumed (length enc) body enc (later ++ rest) at_enc refl)
          ∙ ap (done fs) (omega (arith, length-append enc later)))

  pub two-more :
      (left n : ℕ) (enc enc' later : Bytes) (f g : Frame) (fs : Frames)
      → 0 < length enc
      → 0 < length enc'
      → ReadAs parse_f64 left enc f
      → ReadAs parse_f64 left enc' g
      → ItemsRead (suc left) (n * 2) later fs
      → ItemsRead (suc left) (suc n * 2) (enc ++ enc' ++ later) (frame f (frame g fs))
  two-more left n enc enc' later f g fs pe pe' one two more =
      let both =
        one-more left (suc (n * 2)) enc (enc' ++ later) f (frame g fs) pe one
          (one-more left (n * 2) enc' later g fs pe' two more) in
      let count : suc (suc (n * 2)) ≡ suc n * 2 = omega arith in
      subst (λ k. ItemsRead (suc left) k (enc ++ enc' ++ later) (frame f (frame g fs))) count
        (subst (λ e. ItemsRead (suc left) (suc (suc (n * 2))) e (frame f (frame g fs)))
          (sym (append_assoc enc enc' later)) both)

  -- Two downgrades.
  pub blob_error2-ReadAs :
      (left : ℕ) (code message : Bytes)
      → IsLine (blob_payload code message)
      → ReadAs parse_f64 left
          (write_blob_error code message resp2)
          (error (blob_payload code message))
  unfolding write_blob_error
  blob_error2-ReadAs left code message h = error-ReadAs parse_f64 left (blob_payload code message) h

  pub verbatim2-ReadAs :
      (left a b c : ℕ) (s : Bytes)
      → length s + 4 ≤ max_bulk_len
      → ReadAs parse_f64 left (write_verbatim a b c s resp2) (bulk s)
  unfolding write_verbatim
  verbatim2-ReadAs left a b c s h = bulk-ReadAs parse_f64 left s (omega arith)
