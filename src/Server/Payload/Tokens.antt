-- ===== src/Server/Payload/Tokens.antt =====
-- crates/skeg-server/src/payload.rs: the keywords of filters, and `tokenize`. A string is the list of its
-- characters' code points.
use skeg.Prelude.{
  ℕ, ◌+◌, List, [], ◌∷◌, ◌++◌, map, Bool, true, false, ◌&&◌, ◌||◌, leb, ◌==◌, if◌then◌else◌,
  bytes_beq, Text,
}

abbrev pub open_paren : Text
open_paren = 40 ∷ []

abbrev pub close_paren : Text
close_paren = 41 ∷ []

abbrev pub comma : Text
comma = 44 ∷ []

abbrev pub less : Text
less = 60 ∷ []

abbrev pub equal : Text
equal = 61 ∷ []

abbrev pub greater : Text
greater = 62 ∷ []

abbrev pub less_equal : Text
less_equal = 60 ∷ 61 ∷ []

abbrev pub greater_equal : Text
greater_equal = 62 ∷ 61 ∷ []

abbrev pub kw_and : Text
kw_and = 65 ∷ 78 ∷ 68 ∷ []

abbrev pub kw_or : Text
kw_or = 79 ∷ 82 ∷ []

abbrev pub kw_not : Text
kw_not = 78 ∷ 79 ∷ 84 ∷ []

abbrev pub kw_in : Text
kw_in = 73 ∷ 78 ∷ []

abbrev pub kw_between : Text
kw_between = 66 ∷ 69 ∷ 84 ∷ 87 ∷ 69 ∷ 69 ∷ 78 ∷ []

abbrev pub kw_exists : Text
kw_exists = 69 ∷ 88 ∷ 73 ∷ 83 ∷ 84 ∷ 83 ∷ []

unfoldable pub to_ascii_lowercase : ℕ → ℕ
to_ascii_lowercase c = if leb 65 c && leb c 90 then c + 32 else c

-- `eq_ignore_ascii_case`
unfoldable pub is_keyword : Text → Text → Bool
unfolding to_ascii_lowercase
is_keyword t kw = bytes_beq (map to_ascii_lowercase t) (map to_ascii_lowercase kw)

unfoldable pub is_reserved : Text → Bool
unfolding is_keyword
is_reserved t =
    bytes_beq t equal
    || bytes_beq t greater
    || bytes_beq t less
    || bytes_beq t greater_equal
    || bytes_beq t less_equal
    || bytes_beq t open_paren
    || bytes_beq t close_paren
    || bytes_beq t comma
    || is_keyword t kw_and
    || is_keyword t kw_or
    || is_keyword t kw_not
    || is_keyword t kw_in
    || is_keyword t kw_between
    || is_keyword t kw_exists

-- `char::is_whitespace`: the characters with the property White_Space.
unfoldable pub is_whitespace : ℕ → Bool
is_whitespace c =
    (leb 9 c && leb c 13)
    || c == 32
    || c == 133
    || c == 160
    || c == 5760
    || (leb 8192 c && leb c 8202)
    || c == 8232
    || c == 8233
    || c == 8239
    || c == 8287
    || c == 12288

-- The arms of `tokenize`'s match.
pub data Arm : Type 0 where
  punctuation comparison whitespace other : Arm

unfoldable pub arm : ℕ → Arm
unfolding is_whitespace
arm c =
    if c == 40 || c == 41 || c == 44 || c == 61
    then punctuation
    else if c == 62 || c == 60
    then comparison
    else if is_whitespace c
    then whitespace
    else other

-- `flush`, in front of the tokens that follow.
abbrev pub flush : Text → List Text → List Text
flush [] toks = toks
flush (c ∷ cur) toks = (c ∷ cur) ∷ toks

-- The loop of `tokenize`, with the token `cur` begun.
unfoldable pub tokenize_from : Text → Text → List Text
unfolding arm
tokenize_from cur [] = flush cur []
tokenize_from cur (c ∷ []) = elim (arm c) [
  | punctuation ↦ flush cur ((c ∷ []) ∷ [])
  | comparison ↦ flush cur ((c ∷ []) ∷ [])
  | whitespace ↦ flush cur []
  | other ↦ flush (cur ++ c ∷ []) []
]
tokenize_from cur (c ∷ next ∷ s) = elim (arm c) [
  | punctuation ↦ flush cur ((c ∷ []) ∷ tokenize_from [] (next ∷ s))
  | comparison ↦ elim (next == 61) [
    | true ↦ flush cur ((c ∷ 61 ∷ []) ∷ tokenize_from [] s)
    | false ↦ flush cur ((c ∷ []) ∷ tokenize_from [] (next ∷ s))
  ]
  | whitespace ↦ flush cur (tokenize_from [] (next ∷ s))
  | other ↦ tokenize_from (cur ++ c ∷ []) (next ∷ s)
]

unfoldable pub tokenize : Text → List Text
unfolding tokenize_from
tokenize s = tokenize_from [] s
