-- ===== src/Resp3/Parser/Scalars.antt =====
-- crates/skeg-resp3: the parser reads back every frame without parts, in both versions.
use skeg.Prelude.{
  ℕ, suc, ◌+◌, ◌≤◌, ◌≡◌, ◌∙◌, ap, arith, [], ◌∷◌, ◌++◌, length, length-append, All, Option, some,
  Bool, true, false, ◌==◌, if◌then◌else◌, Bytes, ℤ, show_nat, show_loop, show_int, IsI64, is_utf8,
}
use skeg.Resp3.Frame.{
  Frame, simple, error, integer, bulk, null, blob_error, boolean, double, verbatim, big_number,
  resp3,
}
use skeg.Resp3.Scan.{
  done, ◌>>=◌, shift, crlf, max_bulk_len, bulk_of_len, parse_bulk, parse_null_resp3, is_big_number,
  null_of,
}
use skeg.Resp3.Encoder.{
  write_line, write_bulk, write_blob_error, write_verbatim, is_nil, blob_payload,
}
use skeg.Resp3.Parser.{dispatch, parse_frame_left}
use skeg.Resp3.Parser.Written.{IsLine, raw_line-written, parse_line-written, integer_line-written}
use skeg.Resp3.Parser.Reads.{
  bulk-reads, boolean-reads, double-reads, big_number-reads, blob_error-reads, verbatim-reads,
}

module _ (parse_f64 : Bytes → Option ℕ) (left : ℕ) where
  -- The bytes of a frame are read as the frame, all of them.
  abbrev pub ReadAs : Bytes → Frame → Type 0
  ReadAs enc f =
      (rest : Bytes) → parse_frame_left parse_f64 (suc left) (enc ++ rest) ≡ done f (length enc)

  counted : (f : Frame) (n m : ℕ) → n ≡ m → done f n ≡ done f m
  counted f n m e = ap (done f) e

  pub simple-ReadAs : (s : Bytes) → IsLine s → ReadAs (write_line 43 s) (simple s)
  unfolding parse_frame_left dispatch
  simple-ReadAs s h rest =
      ap (λ o. shift (o >>= λ t n. done (simple t) n)) (parse_line-written s rest h)
      ∙ counted (simple s) (length s + 2 + 1) (length (write_line 43 s))
          (omega (arith, length-append s crlf))

  pub error-ReadAs : (s : Bytes) → IsLine s → ReadAs (write_line 45 s) (error s)
  unfolding parse_frame_left dispatch
  error-ReadAs s h rest =
      ap (λ o. shift (o >>= λ t n. done (error t) n)) (parse_line-written s rest h)
      ∙ counted (error s) (length s + 2 + 1) (length (write_line 45 s))
          (omega (arith, length-append s crlf))

  pub integer-ReadAs : (i : ℤ) → IsI64 i → ReadAs (write_line 58 (show_int i)) (integer i)
  unfolding parse_frame_left dispatch
  integer-ReadAs i h rest =
      ap (λ o. shift (o >>= λ t n. done (integer t) n)) (integer_line-written i rest h)
      ∙ counted (integer i) (length (show_int i) + 2 + 1) (length (write_line 58 (show_int i)))
          (omega (arith, length-append (show_int i) crlf))

  pub bulk-ReadAs : (s : Bytes) → length s ≤ max_bulk_len → ReadAs (write_bulk s) (bulk s)
  unfolding parse_frame_left dispatch write_bulk
  bulk-ReadAs s h rest =
      let n = show_nat (length s) in
      ap shift (bulk-reads s rest h)
      ∙ counted (bulk s) (length n + 2 + length s + 2 + 1) (length (write_bulk s)) (
          omega (
            arith,
            length-append (n ++ crlf) (s ++ crlf),
            length-append n crlf,
            length-append s crlf,
          ))

  pub null3-ReadAs : ReadAs (95 ∷ crlf) null
  unfolding parse_frame_left dispatch parse_null_resp3
  null3-ReadAs rest = ap (λ o. shift (o >>= λ line n. null_of line)) (raw_line-written [] rest tt)

  pub null2-ReadAs : ReadAs (36 ∷ 45 ∷ 49 ∷ crlf) null
  unfolding parse_frame_left dispatch parse_bulk bulk_of_len show_int show_nat show_loop
  null2-ReadAs rest =
      let body = ((45 ∷ 49 ∷ []) ++ crlf) ++ rest in
      ap (λ o. shift (o >>= λ len start. bulk_of_len body start len))
        (integer_line-written (ℤ.negsuc 0) rest (omega arith))

  pub boolean3-ReadAs : (v : Bool) → ReadAs (35 ∷ (if v then 116 else 102) ∷ crlf) (boolean v)
  unfolding parse_frame_left dispatch
  boolean3-ReadAs v rest = ap shift (boolean-reads v rest)

  pub boolean2-ReadAs :
      (v : Bool)
      → ReadAs (58 ∷ (if v then 49 else 48) ∷ crlf) (integer (ℤ.pos (if v then 1 else 0)))
  unfolding show_int show_nat show_loop
  boolean2-ReadAs true rest = integer-ReadAs (ℤ.pos 1) (omega arith) rest
  boolean2-ReadAs false rest = integer-ReadAs (ℤ.pos 0) (omega arith) rest

  pub double-ReadAs :
      (d : ℕ) (s : Bytes) → IsLine s → parse_f64 s ≡ some d → ReadAs (write_line 44 s) (double d)
  unfolding parse_frame_left dispatch
  double-ReadAs d s h e rest =
      ap shift (double-reads parse_f64 d s rest h e)
      ∙ counted (double d) (length s + 2 + 1) (length (write_line 44 s))
          (omega (arith, length-append s crlf))

  pub big_number-ReadAs :
      (s : Bytes) → IsLine s → is_big_number s ≡ true → ReadAs (write_line 40 s) (big_number s)
  unfolding parse_frame_left dispatch
  big_number-ReadAs s h e rest =
      ap shift (big_number-reads s rest h e)
      ∙ counted (big_number s) (length s + 2 + 1) (length (write_line 40 s))
          (omega (arith, length-append s crlf))

  length-blob_payload :
      (code message : Bytes)
      → (if is_nil message then length code else length code + 1 + length message)
        ≡ length (blob_payload code message)
  length-blob_payload code [] = omega (arith, length-append code [])
  length-blob_payload code (c ∷ message) = omega (arith, length-append code (32 ∷ c ∷ message))

  pub blob_error3-ReadAs :
      (code message : Bytes)
      → All (λ c. (c == 32) ≡ false) code
      → is_utf8 (blob_payload code message) ≡ true
      → length (blob_payload code message) ≤ max_bulk_len
      → ReadAs (write_blob_error code message resp3) (blob_error code message)
  unfolding parse_frame_left dispatch write_blob_error
  blob_error3-ReadAs code message h u le rest =
      let s = blob_payload code message in
      let n = show_nat (length s) in
      rw (length-blob_payload code message) (
        ap shift (blob_error-reads code message rest h u le)
        ∙ counted (blob_error code message) (length n + 2 + length s + 2 + 1) _ (
            omega (
              arith,
              length-append (n ++ crlf) (s ++ crlf),
              length-append n crlf,
              length-append s crlf,
            )))

  pub verbatim3-ReadAs :
      (a b c : ℕ) (s : Bytes)
      → length s + 4 ≤ max_bulk_len
      → ReadAs (write_verbatim a b c s resp3) (verbatim a b c s)
  unfolding parse_frame_left dispatch write_verbatim
  verbatim3-ReadAs a b c s le rest =
      let t = a ∷ b ∷ c ∷ 58 ∷ s in
      let n = show_nat (3 + 1 + length s) in
      ap shift (verbatim-reads a b c s rest le)
      ∙ counted (verbatim a b c s) (length n + 2 + (3 + 1 + length s) + 2 + 1) _ (
          omega (
            arith,
            length-append (n ++ crlf) (t ++ crlf),
            length-append n crlf,
            length-append t crlf,
          ))
