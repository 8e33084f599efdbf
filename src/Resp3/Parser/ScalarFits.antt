-- ===== src/Resp3/Parser/ScalarFits.antt =====
-- crates/skeg-resp3/src/parser.rs: no frame without parts panics or consumes more than its input.
use skeg.Prelude.{
  ℕ, zero, suc, ◌+◌, ◌≤◌, ◌≡◌, arith, [], ◌∷◌, length, take, drop, slice, length-take, length-drop,
  Option, some, Bool, true, false, ◌&&◌, ltb, ◌==◌, if◌then◌else◌, ◌⊎◌, inl, inr, Bool-cases,
  ltb→le, Option-cases, Bytes, bytes_beq, ℤ, parse_i64, is_utf8,
}
use skeg.Resp3.Frame.{Frame}
use skeg.Resp3.Scan.{
  Parsed, incomplete, done, err, panic, ◌>>=◌, shift, find_crlf, raw_line, parse_line,
  parse_integer_line, payload, with_len, bulk_of_len, parse_bulk, parse_null_resp3, parse_boolean,
  parse_double, parse_blob_error, verbatim_of, parse_verbatim, is_big_number, parse_big_number,
  max_bulk_len, verbatim_at, blob_of,
}
use skeg.Resp3.Parser.{simple_line, error_line, integer_of_line}

-- No panic, and at most `n` bytes consumed.
abbrev pub Fits : {A : Type 0} → Parsed A → ℕ → Type 0
Fits (done a m) n = m ≤ n
Fits incomplete n = Unit
Fits (err e) n = Unit
Fits panic n = 1 ≤ 0

pub Fits-bind :
    {A B : Type 0} (o : Parsed A) (k : A → ℕ → Parsed B) (n : ℕ)
    → Fits o n
    → ((a : A) (m : ℕ) → m ≤ n → Fits (k a m) n)
    → Fits (o >>= k) n
Fits-bind (done a m) k n h f = f a m h
Fits-bind incomplete k n h f = tt
Fits-bind (err e) k n h f = tt
Fits-bind panic k n h f = h

pub Fits-shift : {A : Type 0} (o : Parsed A) (n : ℕ) → Fits o n → Fits (shift o) (suc n)
Fits-shift (done a m) n h = omega arith
Fits-shift incomplete n h = tt
Fits-shift (err e) n h = tt
Fits-shift panic n h = h

pub choose :
    {A : Type 0} (n : ℕ) (x y : Parsed A) (b : Bool)
    → Fits x n
    → Fits y n
    → Fits (if b then x else y) n
choose n x y true hx hy = hx
choose n x y false hx hy = hy

pub find_crlf-fits : (s : Bytes) (e : ℕ) → find_crlf s ≡ some e → e + 2 ≤ length s
unfolding find_crlf
find_crlf-fits [] e h = absurd (cc)
find_crlf-fits (a ∷ []) e h = absurd (cc)
find_crlf-fits (a ∷ b ∷ s) e h = elim (Bool-cases ((a == 13) && (b == 10))) [
  | inl here ↦ ground arith
  | inr later ↦ elim (Option-cases (find_crlf (b ∷ s))) [
    | inl missing ↦ absurd (ground arith)
    | inr (n, found) ↦ let shorter = find_crlf-fits (b ∷ s) n found in ground arith
  ]
]

pub raw_line-Fits : (body : Bytes) → Fits (raw_line body) (length body)
unfolding raw_line
raw_line-Fits body = elim (Option-cases (find_crlf body)) [
  | inl missing ↦ rw missing tt
  | inr (e, found) ↦ rw found (find_crlf-fits body e found)
]

pub parse_line-Fits : (body : Bytes) → Fits (parse_line body) (length body)
unfolding parse_line
parse_line-Fits body =
    Fits-bind (raw_line body) _ (length body) (raw_line-Fits body)
      (λ line n h. choose (length body) _ _ (is_utf8 line) h tt)

pub parse_integer_line-Fits : (body : Bytes) → Fits (parse_integer_line body) (length body)
unfolding parse_integer_line
parse_integer_line-Fits body =
    Fits-bind (parse_line body) _ (length body) (parse_line-Fits body) (λ s n h.
      elim (Option-cases (parse_i64 s)) [ inl bad ↦ rw bad tt | inr (i, good) ↦ rw good h ])

-- A payload is as long as it says, and within the body.
pub payload-cases :
    (body : Bytes) (start len : ℕ)
    → (payload body start len ≡ incomplete)
      ⊎ ((payload body start len ≡ done (slice start len body) (start + len + 2))
          × (start + len + 2 ≤ length body))
unfolding payload
payload-cases body start len = ground arith

pub payload-Fits :
    {B : Type 0} (body : Bytes) (start len : ℕ) (k : Bytes → ℕ → Parsed B)
    → ((s : Bytes) (n : ℕ) → length s ≡ len → n ≤ length body → Fits (k s n) (length body))
    → Fits (payload body start len >>= k) (length body)
payload-Fits body start len k f = elim (payload-cases body start len) [
  | inl short ↦ rw short tt
  | inr (whole, le) ↦ rw whole (
      f (slice start len body) (start + len + 2)
        (omega (arith, length-take len (drop start body), length-drop start body)) le)
]

pub with_len-Fits :
    {A : Type 0} (i : ℤ) (k : ℕ → Parsed A) (n : ℕ)
    → ((len : ℕ) → Fits (k len) n)
    → Fits (with_len i k) n
unfolding with_len
with_len-Fits (ℤ.negsuc m) k n f = tt
with_len-Fits (ℤ.pos len) k n f = choose n _ _ (ltb max_bulk_len len) tt (f len)

pub bulk_of_len-Fits :
    (body : Bytes) (start : ℕ) (i : ℤ)
    → start ≤ length body
    → Fits (bulk_of_len body start i) (length body)
unfolding bulk_of_len
bulk_of_len-Fits body start (ℤ.negsuc zero) h = h
bulk_of_len-Fits body start (ℤ.negsuc (suc n)) h = tt
bulk_of_len-Fits body start (ℤ.pos n) h =
    with_len-Fits (ℤ.pos n) _ (length body)
      (λ len. payload-Fits body start len (λ s m. done (Frame.bulk s) m) (λ s m es hm. hm))

pub verbatim_of-Fits : (s : Bytes) (n m : ℕ) → 4 ≤ length s → n ≤ m → Fits (verbatim_of s n) m
unfolding verbatim_of
verbatim_of-Fits [] n m h le = absurd (omega arith)
verbatim_of-Fits (a ∷ []) n m h le = absurd (omega arith)
verbatim_of-Fits (a ∷ b ∷ []) n m h le = absurd (omega arith)
verbatim_of-Fits (a ∷ b ∷ c ∷ []) n m h le = absurd (omega arith)
verbatim_of-Fits (a ∷ b ∷ c ∷ colon ∷ s) n m h le = choose m _ _ (colon == 58) le tt

pub verbatim-Fits : (body : Bytes) (start len : ℕ) → Fits (verbatim_at body start len) (length body)
unfolding verbatim_at
verbatim-Fits body start len = elim (Bool-cases (ltb len 4)) [
  | inl short ↦ rw short tt
  | inr enough ↦
      let at_least : 4 ≤ len = ltb→le len 4 enough in
      rw enough (
        payload-Fits body start len verbatim_of
          (λ s n es hn. verbatim_of-Fits s n (length body) (omega arith) hn))
]

module _ (body : Bytes) where
  pub simple_line-Fits : Fits (simple_line body) (length body)
  simple_line-Fits = Fits-bind (parse_line body) _ (length body) (parse_line-Fits body) (λ s n h. h)

  pub error_line-Fits : Fits (error_line body) (length body)
  error_line-Fits = Fits-bind (parse_line body) _ (length body) (parse_line-Fits body) (λ s n h. h)

  pub integer_of_line-Fits : Fits (integer_of_line body) (length body)
  integer_of_line-Fits =
      Fits-bind (parse_integer_line body) _ (length body) (parse_integer_line-Fits body)
        (λ i n h. h)

  pub parse_bulk-Fits : Fits (parse_bulk body) (length body)
  unfolding parse_bulk
  parse_bulk-Fits =
      Fits-bind (parse_integer_line body) _ (length body) (parse_integer_line-Fits body)
        (λ i start h. bulk_of_len-Fits body start i h)

  pub parse_null-Fits : Fits (parse_null_resp3 body) (length body)
  unfolding parse_null_resp3 raw_line
  parse_null-Fits = elim (Option-cases (find_crlf body)) [
    | inl missing ↦ rw missing tt
    | inr (e, found) ↦
        let fits = find_crlf-fits body e found in
        rw found (choose (length body) _ _ (length (take e body) == 0) (omega arith) tt)
  ]

  pub parse_boolean-Fits : Fits (parse_boolean body) (length body)
  unfolding parse_boolean
  parse_boolean-Fits = Fits-bind (raw_line body) _ (length body) (raw_line-Fits body) (λ line n h.
      choose (length body) _ _ (bytes_beq line (116 ∷ [])) h
        (choose (length body) _ _ (bytes_beq line (102 ∷ [])) h tt))

  pub parse_double-Fits :
      (parse_f64 : Bytes → Option ℕ) → Fits (parse_double parse_f64 body) (length body)
  unfolding parse_double
  parse_double-Fits parse_f64 =
      Fits-bind (parse_line body) _ (length body) (parse_line-Fits body) (λ s n h.
        elim (Option-cases (parse_f64 s)) [ inl bad ↦ rw bad tt | inr (d, good) ↦ rw good h ])

  pub parse_blob_error-Fits : Fits (parse_blob_error body) (length body)
  unfolding parse_blob_error blob_of
  parse_blob_error-Fits =
      Fits-bind (parse_integer_line body) _ (length body) (parse_integer_line-Fits body)
        (λ i start h. with_len-Fits i _ (length body) (λ len.
          payload-Fits body start len _ (λ s n es hn. choose (length body) _ _ (is_utf8 s) hn tt)))

  pub parse_verbatim-Fits : Fits (parse_verbatim body) (length body)
  unfolding parse_verbatim
  parse_verbatim-Fits =
      Fits-bind (parse_integer_line body) _ (length body) (parse_integer_line-Fits body)
        (λ i start h. with_len-Fits i _ (length body) (λ len. verbatim-Fits body start len))

  pub parse_big_number-Fits : Fits (parse_big_number body) (length body)
  unfolding parse_big_number
  parse_big_number-Fits =
      Fits-bind (parse_line body) _ (length body) (parse_line-Fits body)
        (λ s n h. choose (length body) _ _ (is_big_number s) h tt)
