-- ===== src/Resp3/Parser/Reads.antt =====
-- crates/skeg-resp3: the parser on each frame without parts that the encoder writes.
use skeg.Prelude.{
  ℕ, ◌+◌, ◌≤◌, ◌≡◌, ◌∙◌, refl, ap, arith, [], ◌∷◌, ◌++◌, append-nil, length, All, Option, some,
  Bool, true, false, ltb, le→ltb, ◌==◌, if◌then◌else◌, Bytes, show_nat, is_utf8, subst,
}
use skeg.Resp3.Frame.{bulk, blob_error, double, verbatim, big_number, boolean}
use skeg.Resp3.Scan.{
  done, ◌>>=◌, crlf, max_bulk_len, payload, with_len, bulk_of_len, parse_bulk, parse_boolean,
  double_or_err, parse_double, split_space, cons_front, blob_error_of, parse_blob_error,
  verbatim_of, parse_verbatim, is_big_number, parse_big_number, verbatim_at, blob_of, boolean_of,
  big_number_of,
}
use skeg.Resp3.Parser.Written.{
  IsLine, raw_line-written, parse_line-written, header-written, drop-header, payload-written,
}
use skeg.Resp3.Encoder.{blob_payload}

pub bulk-reads :
    (s rest : Bytes)
    → length s ≤ max_bulk_len
    → parse_bulk ((show_nat (length s) ++ crlf ++ (s ++ crlf)) ++ rest)
      ≡ done (bulk s) (length (show_nat (length s)) + 2 + length s + 2)
unfolding parse_bulk bulk_of_len with_len
bulk-reads s rest h =
    let n = length s in
    let body = (show_nat n ++ crlf ++ (s ++ crlf)) ++ rest in
    let start = length (show_nat n) + 2 in
    let small : ltb max_bulk_len n ≡ false = le→ltb max_bulk_len n h in
    ap (λ o. o >>= λ len from. bulk_of_len body from len)
      (header-written n (s ++ crlf) rest (omega arith))
    ∙ rw small (
        ap (λ o. o >>= λ t m. done (bulk t) m)
          (payload-written body start s rest (drop-header n (s ++ crlf) rest)))

pub boolean-reads :
    (v : Bool) (rest : Bytes)
    → parse_boolean ((((if v then 116 else 102) ∷ []) ++ crlf) ++ rest) ≡ done (boolean v) 3
unfolding parse_boolean
boolean-reads true rest =
    ap (λ o. o >>= λ line n. boolean_of line n) (raw_line-written (116 ∷ []) rest (refl, tt))
boolean-reads false rest =
    ap (λ o. o >>= λ line n. boolean_of line n) (raw_line-written (102 ∷ []) rest (refl, tt))

pub double-reads :
    (parse_f64 : Bytes → Option ℕ) (d : ℕ) (s rest : Bytes)
    → IsLine s
    → parse_f64 s ≡ some d
    → parse_double parse_f64 ((s ++ crlf) ++ rest) ≡ done (double d) (length s + 2)
unfolding parse_double
double-reads parse_f64 d s rest h e =
    ap (λ o. o >>= λ t n. double_or_err t n (parse_f64 t)) (parse_line-written s rest h)
    ∙ ap (double_or_err s (length s + 2)) e

pub big_number-reads :
    (s rest : Bytes)
    → IsLine s
    → is_big_number s ≡ true
    → parse_big_number ((s ++ crlf) ++ rest) ≡ done (big_number s) (length s + 2)
unfolding parse_big_number
big_number-reads s rest h e =
    ap (λ o. o >>= λ t n. big_number_of t n) (parse_line-written s rest h) ∙ rw e refl

split_space-code :
    (code message : Bytes)
    → All (λ c. (c == 32) ≡ false) code
    → split_space (code ++ 32 ∷ message) ≡ (code, message)
unfolding split_space
split_space-code [] message h = refl
split_space-code (c ∷ code) message (hc, h) =
    rw hc (ap (cons_front c) (split_space-code code message h))

split_space-none :
    (code : Bytes) → All (λ c. (c == 32) ≡ false) code → split_space code ≡ (code, [])
unfolding split_space
split_space-none [] h = refl
split_space-none (c ∷ code) (hc, h) = rw hc (ap (cons_front c) (split_space-none code h))

split_space-payload :
    (code message : Bytes)
    → All (λ c. (c == 32) ≡ false) code
    → split_space (blob_payload code message) ≡ (code, message)
split_space-payload code [] h = ap split_space (append-nil code) ∙ split_space-none code h
split_space-payload code (c ∷ message) h = split_space-code code (c ∷ message) h

pub blob_error-reads :
    (code message rest : Bytes)
    → All (λ c. (c == 32) ≡ false) code
    → is_utf8 (blob_payload code message) ≡ true
    → length (blob_payload code message) ≤ max_bulk_len
    → parse_blob_error (
        (show_nat (length (blob_payload code message))
          ++ crlf
          ++ (blob_payload code message ++ crlf))
        ++ rest)
      ≡ done (blob_error code message) (
          length (show_nat (length (blob_payload code message)))
          + 2
          + length (blob_payload code message)
          + 2)
unfolding parse_blob_error with_len
blob_error-reads code message rest h u le =
    let s = blob_payload code message in
    let n = length s in
    let body = (show_nat n ++ crlf ++ (s ++ crlf)) ++ rest in
    let start = length (show_nat n) + 2 in
    let small : ltb max_bulk_len n ≡ false = le→ltb max_bulk_len n le in
    ap (λ o. o >>= λ i from. with_len i (λ len. payload body from len >>= λ t m. blob_of t m))
      (header-written n (s ++ crlf) rest (omega arith))
    ∙ rw small (
        ap (λ o. o >>= λ t m. blob_of t m)
          (payload-written body start s rest (drop-header n (s ++ crlf) rest))
        ∙ rw u
            (ap (λ p. done (blob_error_of p) (start + n + 2)) (split_space-payload code message h)))

pub verbatim-reads :
    (a b c : ℕ) (s rest : Bytes)
    → length s + 4 ≤ max_bulk_len
    → parse_verbatim
        ((show_nat (3 + 1 + length s) ++ crlf ++ ((a ∷ b ∷ c ∷ 58 ∷ s) ++ crlf)) ++ rest)
      ≡ done (verbatim a b c s) (length (show_nat (3 + 1 + length s)) + 2 + (3 + 1 + length s) + 2)
unfolding parse_verbatim with_len verbatim_of
verbatim-reads a b c s rest le =
    let t = a ∷ b ∷ c ∷ 58 ∷ s in
    let n = 3 + 1 + length s in
    let body = (show_nat n ++ crlf ++ (t ++ crlf)) ++ rest in
    let start = length (show_nat n) + 2 in
    let small : ltb max_bulk_len n ≡ false = le→ltb max_bulk_len n (omega arith) in
    let enough : ltb n 4 ≡ false = le→ltb n 4 (omega arith) in
    ap (λ o. o >>= λ i from. with_len i (λ len. verbatim_at body from len))
      (header-written n (t ++ crlf) rest (omega arith))
    ∙ rw (small, enough)
        (ap (λ o. o >>= λ u m. verbatim_of u m)
          (subst (λ k. payload body start k ≡ done t (start + k + 2)) (omega arith)
            (payload-written body start t rest (drop-header n (t ++ crlf) rest))))
