-- ===== src/Resp3/Scan.antt =====
-- crates/skeg-resp3/src/parser.rs: the results of the parser, and the frames without parts. A result has
-- the number of bytes it consumed.
use skeg.Prelude.{
  ℕ, zero, suc, ◌+◌, ◌*◌, [], ◌∷◌, length, take, slice, Option, none, some, Bool, true, false, not,
  ◌&&◌, ◌||◌, ltb, leb, ◌==◌, if◌then◌else◌, Bytes, bytes_beq, ℤ, parse_i64, is_utf8,
}
use skeg.Resp3.Frame.{Frame, bulk, null, blob_error, boolean, double, verbatim, big_number}

abbrev pub max_aggregate_len : ℕ
max_aggregate_len = 1048576

abbrev pub max_bulk_len : ℕ
max_bulk_len = 512 * 1024 * 1024

abbrev pub max_nesting_depth : ℕ
max_nesting_depth = 128

pub data ParseError : Type 0 where
  unknown_type_marker : ℕ → ParseError
  invalid_utf8 : ParseError
  invalid_integer : Bytes → ParseError
  invalid_length : ℤ → ParseError
  aggregate_too_large : ℕ → ParseError
  nesting_too_deep : ℕ → ParseError
  bulk_too_large : ℕ → ParseError
  invalid_boolean : Bytes → ParseError
  invalid_double : Bytes → ParseError
  invalid_verbatim : ParseError
  unexpected_payload : ParseError

-- `Ok(None)`, `Ok(Some((a, n)))` and `Err(e)`; a panic is a result too.
pub data Parsed (A : Type 0) : Type 0 where
  incomplete : Parsed A
  done : A → ℕ → Parsed A
  err : ParseError → Parsed A
  panic : Parsed A

infixl 20 ◌>>=◌
abbrev pub ◌>>=◌ : {A B : Type 0} → Parsed A → (A → ℕ → Parsed B) → Parsed B
incomplete >>= k = incomplete
done a n >>= k = k a n
err e >>= k = err e
panic >>= k = panic

-- `shift`
abbrev pub shift : {A : Type 0} → Parsed A → Parsed A
shift incomplete = incomplete
shift (done a n) = done a (n + 1)
shift (err e) = err e
shift panic = panic

abbrev pub crlf : Bytes
crlf = 13 ∷ 10 ∷ []

abbrev pub next : Option ℕ → Option ℕ
next none = none
next (some n) = some (suc n)

unfoldable pub find_crlf : Bytes → Option ℕ
find_crlf [] = none
find_crlf (a ∷ []) = none
find_crlf (a ∷ b ∷ s) =
    let later = next (find_crlf (b ∷ s)) in if (a == 13) && (b == 10) then some 0 else later

-- The bytes before the first CRLF.
abbrev pub raw_at : Bytes → Option ℕ → Parsed Bytes
raw_at body none = incomplete
raw_at body (some end) = done (take end body) (end + 2)

unfoldable pub raw_line : Bytes → Parsed Bytes
unfolding find_crlf
raw_line body = raw_at body (find_crlf body)

abbrev pub utf8_or_err : Bytes → ℕ → Parsed Bytes
utf8_or_err line n = if is_utf8 line then done line n else err invalid_utf8

unfoldable pub parse_line : Bytes → Parsed Bytes
unfolding raw_line
parse_line body = raw_line body >>= λ line n. utf8_or_err line n

abbrev pub int_or_err : Bytes → ℕ → Option ℤ → Parsed ℤ
int_or_err s n none = err (invalid_integer s)
int_or_err s n (some i) = done i n

unfoldable pub parse_integer_line : Bytes → Parsed ℤ
unfolding parse_line
parse_integer_line body = parse_line body >>= λ s n. int_or_err s n (parse_i64 s)

-- A payload of `len` bytes from `start` on, with its CRLF.
unfoldable pub payload : Bytes → ℕ → ℕ → Parsed Bytes
payload body start len =
    if ltb (length body) (start + len + 2)
    then incomplete
    else if bytes_beq (slice (start + len) 2 body) crlf
    then done (slice start len body) (start + len + 2)
    else incomplete

-- The length of a payload, by `usize::try_from` and the bound on it.
unfoldable pub with_len : {A : Type 0} → ℤ → (ℕ → Parsed A) → Parsed A
with_len (ℤ.negsuc n) k = err (invalid_length (ℤ.negsuc n))
with_len (ℤ.pos len) k = if ltb max_bulk_len len then err (bulk_too_large len) else k len

-- A RESP2 null bulk has the length -1.
unfoldable pub bulk_of_len : Bytes → ℕ → ℤ → Parsed Frame
unfolding payload with_len
bulk_of_len body start (ℤ.negsuc zero) = done null start
bulk_of_len body start (ℤ.negsuc (suc n)) = err (invalid_length (ℤ.negsuc (suc n)))
bulk_of_len body start (ℤ.pos n) =
    with_len (ℤ.pos n) (λ len. payload body start len >>= λ s m. done (bulk s) m)

unfoldable pub parse_bulk : Bytes → Parsed Frame
unfolding parse_integer_line bulk_of_len
parse_bulk body = parse_integer_line body >>= λ len start. bulk_of_len body start len

abbrev pub null_of : Bytes → Parsed Frame
null_of line = if length line == 0 then done null 2 else err unexpected_payload

unfoldable pub parse_null_resp3 : Bytes → Parsed Frame
unfolding raw_line
parse_null_resp3 body = raw_line body >>= λ line n. null_of line

abbrev pub boolean_of : Bytes → ℕ → Parsed Frame
boolean_of line n =
    if bytes_beq line (116 ∷ [])
    then done (boolean true) n
    else if bytes_beq line (102 ∷ [])
    then done (boolean false) n
    else err (invalid_boolean line)

unfoldable pub parse_boolean : Bytes → Parsed Frame
unfolding raw_line
parse_boolean body = raw_line body >>= λ line n. boolean_of line n

abbrev pub double_or_err : Bytes → ℕ → Option ℕ → Parsed Frame
double_or_err s n none = err (invalid_double s)
double_or_err s n (some d) = done (double d) n

unfoldable pub parse_double : (Bytes → Option ℕ) → Bytes → Parsed Frame
unfolding parse_line
parse_double parse_f64 body = parse_line body >>= λ s n. double_or_err s n (parse_f64 s)

abbrev pub cons_front : ℕ → Bytes × Bytes → Bytes × Bytes
cons_front c (front, back) = (c ∷ front, back)

-- The code before the first space, and the message behind it.
unfoldable pub split_space : Bytes → Bytes × Bytes
split_space [] = ([], [])
split_space (c ∷ s) = let rest = split_space s in if c == 32 then ([], s) else cons_front c rest

abbrev pub blob_error_of : Bytes × Bytes → Frame
blob_error_of (code, message) = blob_error code message

unfoldable pub blob_of : Bytes → ℕ → Parsed Frame
unfolding split_space
blob_of s n = if is_utf8 s then done (blob_error_of (split_space s)) n else err invalid_utf8

unfoldable pub parse_blob_error : Bytes → Parsed Frame
unfolding parse_integer_line with_len payload blob_of
parse_blob_error body = parse_integer_line body >>= λ i start.
    with_len i (λ len. payload body start len >>= λ s n. blob_of s n)

unfoldable pub verbatim_of : Bytes → ℕ → Parsed Frame
verbatim_of (a ∷ b ∷ c ∷ colon ∷ s) n =
    if colon == 58 then done (verbatim a b c s) n else err invalid_verbatim
verbatim_of _ n = panic

unfoldable pub verbatim_at : Bytes → ℕ → ℕ → Parsed Frame
unfolding payload verbatim_of
verbatim_at body start len =
    if ltb len 4 then err invalid_verbatim else payload body start len >>= λ s n. verbatim_of s n

unfoldable pub parse_verbatim : Bytes → Parsed Frame
unfolding parse_integer_line with_len verbatim_at
parse_verbatim body =
    parse_integer_line body >>= λ i start. with_len i (λ len. verbatim_at body start len)

unfoldable pub all_digits : Bytes → Bool
all_digits [] = true
all_digits (c ∷ s) = (leb 48 c && leb c 57) && all_digits s

unfoldable pub is_big_number : Bytes → Bool
unfolding all_digits
is_big_number [] = false
is_big_number (c ∷ s) =
    if (c == 45) || (c == 43) then not (length s == 0) && all_digits s else all_digits (c ∷ s)

abbrev pub big_number_of : Bytes → ℕ → Parsed Frame
big_number_of s n = if is_big_number s then done (big_number s) n else err (invalid_integer s)

unfoldable pub parse_big_number : Bytes → Parsed Frame
unfolding parse_line is_big_number
parse_big_number body = parse_line body >>= λ s n. big_number_of s n
