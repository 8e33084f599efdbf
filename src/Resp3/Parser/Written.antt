-- ===== src/Resp3/Parser/Written.antt =====
-- crates/skeg-resp3: the parser on the lines, lengths and payloads that the encoder writes.
use skeg.Prelude.{
  ℕ, suc, ◌+◌, ◌^◌, ◌<◌, ◌≡◌, ◌∙◌, refl, ap, arith, [], ◌∷◌, ◌++◌, append_assoc, length, take, drop,
  length-append, take-append_length, drop-append_length, All, All-map, some, true, false, ltb, ◌==◌,
  Bytes, drop-next, slice-at, length-at, ℤ, parse_i64, show_nat, show_int, IsI64, IsDigit,
  parse_i64-show_int, show_nat-digits, is_utf8, is_utf8-ascii, le→ltb,
}
use skeg.Resp3.Scan.{
  done, ◌>>=◌, crlf, find_crlf, raw_line, parse_line, parse_integer_line, payload, next,
  utf8_or_err, int_or_err,
}

-- A text of one line: UTF-8, and no carriage return.
pub record IsLine (s : Bytes) : Type 0 where
  pub utf8 : is_utf8 s ≡ true
  pub no_return : All (λ c. (c == 13) ≡ false) s

find_crlf-written :
    (s rest : Bytes)
    → All (λ c. (c == 13) ≡ false) s
    → find_crlf ((s ++ crlf) ++ rest) ≡ some (length s)
unfolding find_crlf
find_crlf-written [] rest h = refl
find_crlf-written (a ∷ []) rest (ha, h) = rw ha (ap next (find_crlf-written [] rest tt))
find_crlf-written (a ∷ b ∷ s) rest (ha, h) = rw ha (ap next (find_crlf-written (b ∷ s) rest h))

pub raw_line-written :
    (s rest : Bytes)
    → All (λ c. (c == 13) ≡ false) s
    → raw_line ((s ++ crlf) ++ rest) ≡ done s (length s + 2)
unfolding raw_line
raw_line-written s rest h = rw (find_crlf-written s rest h) (
    ap (λ t. done t (length s + 2))
      (ap (take (length s)) (append_assoc s crlf rest)
        ∙ take-append_length (length s) s (crlf ++ rest) refl))

pub parse_line-written :
    (s rest : Bytes) → IsLine s → parse_line ((s ++ crlf) ++ rest) ≡ done s (length s + 2)
unfolding parse_line
parse_line-written s rest h =
    ap (λ o. o >>= λ line n. utf8_or_err line n) (raw_line-written s rest h.no_return)
    ∙ rw h.utf8 refl

digits-IsLine : (s : Bytes) → All IsDigit s → IsLine s
digits-IsLine s h = record {
  utf8 = is_utf8-ascii s (All-map (λ c d. omega arith) s h);
  no_return = All-map (λ c d. ground arith) s h;
}

pub show_int-IsLine : (i : ℤ) → IsLine (show_int i)
unfolding show_int
show_int-IsLine (ℤ.pos n) = digits-IsLine (show_nat n) (show_nat-digits n)
show_int-IsLine (ℤ.negsuc n) = record {
  utf8 =
      is_utf8-ascii (45 ∷ show_nat (suc n))
        (omega arith, All-map (λ c d. omega arith) (show_nat (suc n)) (show_nat-digits (suc n)));
  no_return = (refl, (digits-IsLine (show_nat (suc n)) (show_nat-digits (suc n))).no_return);
}

pub integer_line-written :
    (i : ℤ) (rest : Bytes)
    → IsI64 i
    → parse_integer_line ((show_int i ++ crlf) ++ rest) ≡ done i (length (show_int i) + 2)
unfolding parse_integer_line
integer_line-written i rest h =
    ap (λ o. o >>= λ s n. int_or_err s n (parse_i64 s))
      (parse_line-written (show_int i) rest (show_int-IsLine i))
    ∙ ap (int_or_err (show_int i) (length (show_int i) + 2)) (parse_i64-show_int i h)

regroup : (a field rest : Bytes) → (a ++ crlf ++ field) ++ rest ≡ (a ++ crlf) ++ (field ++ rest)
regroup a field rest = append_assoc (a ++ crlf) field rest

-- A length, its CRLF, and what follows.
pub header-written :
    (n : ℕ) (field rest : Bytes)
    → n < 2 ^ 63
    → parse_integer_line ((show_nat n ++ crlf ++ field) ++ rest)
      ≡ done (ℤ.pos n) (length (show_nat n) + 2)
unfolding show_int
header-written n field rest h =
    ap parse_integer_line (regroup (show_nat n) field rest)
    ∙ integer_line-written (ℤ.pos n) (field ++ rest) h

pub drop-header :
    (n : ℕ) (field rest : Bytes)
    → drop (length (show_nat n) + 2) ((show_nat n ++ crlf ++ field) ++ rest) ≡ field ++ rest
drop-header n field rest =
    ap (drop (length (show_nat n) + 2)) (regroup (show_nat n) field rest)
    ∙ drop-append_length (length (show_nat n) + 2) (show_nat n ++ crlf) (field ++ rest)
        (length-append (show_nat n) crlf)

pub payload-written :
    (body : Bytes) (start : ℕ) (s rest : Bytes)
    → drop start body ≡ (s ++ crlf) ++ rest
    → payload body start (length s) ≡ done s (start + length s + 2)
unfolding payload
payload-written body start s rest at =
    let at_s : drop start body ≡ s ++ (crlf ++ rest) = at ∙ append_assoc s crlf rest in
    let at_end = drop-next start (length s) body s (crlf ++ rest) at_s refl in
    let whole = length-at start body (s ++ crlf) rest at (omega (arith, length-append s crlf)) in
    let inside : ltb (length body) (start + length s + 2) ≡ false =
      le→ltb (length body) (start + length s + 2) (omega (arith, length-append s crlf)) in
    let end = slice-at (start + length s) 2 body crlf rest at_end refl in
    rw (inside, end)
      (ap (λ t. done t (start + length s + 2))
        (slice-at start (length s) body s (crlf ++ rest) at_s refl))
