-- ===== src/Server/Payload/Parser/Spaced.antt =====
-- crates/skeg-server/src/payload.rs: `tokenize` reads back tokens with a space behind each, and so the
-- parser reads back a query's text.
use skeg.Prelude.{
  ℕ, ◌≡◌, ◌∙◌, refl, ap, List, [], ◌∷◌, ◌++◌, append_assoc, All, ◌⊎◌, inl, inr, Text,
}
use skeg.Server.Payload.Tokens.{
  open_paren, close_paren, comma, less, equal, greater, less_equal, greater_equal, is_whitespace,
  Arm, arm, flush, tokenize_from, tokenize,
}
use skeg.Server.Payload.Predicate.{ok}
use skeg.Server.Payload.Parser.{parse_tokens, parse_filter}
use skeg.Server.Payload.Parser.Query.{Query, or_level, meaning, write, HasWords}
use skeg.Server.Payload.Parser.RoundTrip.{parse_tokens-write}

-- A token that is one of the signs.
pub data Sign : Text → Type 0 where
  open_sign : Sign open_paren
  close_sign : Sign close_paren
  comma_sign : Sign comma
  equal_sign : Sign equal
  less_sign : Sign less
  greater_sign : Sign greater
  less_equal_sign : Sign less_equal
  greater_equal_sign : Sign greater_equal

-- A token of characters that `tokenize` pushes.
pub data Plain : Text → Type 0 where
  last : (c : ℕ) → arm c ≡ Arm.other → Plain (c ∷ [])
  before : (c : ℕ) (t : Text) → arm c ≡ Arm.other → Plain t → Plain (c ∷ t)

abbrev pub IsToken : Text → Type 0
IsToken t = Sign t ⊎ Plain t

abbrev pub spaced : List Text → Text
spaced [] = []
spaced (t ∷ toks) = t ++ 32 ∷ spaced toks

tokenize-space : (cur s : Text) → tokenize_from cur (32 ∷ s) ≡ flush cur (tokenize_from [] s)
unfolding tokenize_from arm is_whitespace
tokenize-space cur [] = refl
tokenize-space cur (c ∷ s) = refl

tokenize-other :
    (cur : Text) (c next : ℕ) (s : Text)
    → arm c ≡ Arm.other
    → tokenize_from cur (c ∷ next ∷ s) ≡ tokenize_from (cur ++ c ∷ []) (next ∷ s)
unfolding tokenize_from
tokenize-other cur c next s h = rw (h, tokenize_from) refl

other-step :
    {t : Text} (cur : Text) (c : ℕ) (s : Text)
    → arm c ≡ Arm.other
    → Plain t
    → tokenize_from cur (c ∷ t ++ 32 ∷ s) ≡ tokenize_from (cur ++ c ∷ []) (t ++ 32 ∷ s)
other-step cur c s h (last d k) = tokenize-other cur c d (32 ∷ s) h
other-step cur c s h (before d t k p) = tokenize-other cur c d (t ++ 32 ∷ s) h

tokenize-Plain :
    {t : Text} (cur s : Text)
    → Plain t
    → tokenize_from cur (t ++ 32 ∷ s) ≡ flush (cur ++ t) (tokenize_from [] s)
tokenize-Plain cur s (last c h) = tokenize-other cur c 32 s h ∙ tokenize-space (cur ++ c ∷ []) s
tokenize-Plain cur s (before c t h p) =
    other-step cur c s h p
    ∙ tokenize-Plain (cur ++ c ∷ []) s p
    ∙ ap (λ w. flush w (tokenize_from [] s)) (append_assoc cur (c ∷ []) t)

tokenize-Sign :
    {t : Text} (s : Text) → Sign t → tokenize_from [] (t ++ 32 ∷ s) ≡ t ∷ tokenize_from [] s
unfolding tokenize_from arm is_whitespace
tokenize-Sign s open_sign = ap (λ toks. open_paren ∷ toks) (tokenize-space [] s)
tokenize-Sign s close_sign = ap (λ toks. close_paren ∷ toks) (tokenize-space [] s)
tokenize-Sign s comma_sign = ap (λ toks. comma ∷ toks) (tokenize-space [] s)
tokenize-Sign s equal_sign = ap (λ toks. equal ∷ toks) (tokenize-space [] s)
tokenize-Sign s less_sign = ap (λ toks. less ∷ toks) (tokenize-space [] s)
tokenize-Sign s greater_sign = ap (λ toks. greater ∷ toks) (tokenize-space [] s)
tokenize-Sign s less_equal_sign = ap (λ toks. less_equal ∷ toks) (tokenize-space [] s)
tokenize-Sign s greater_equal_sign = ap (λ toks. greater_equal ∷ toks) (tokenize-space [] s)

flush-Plain : {t : Text} (toks : List Text) → Plain t → flush t toks ≡ t ∷ toks
flush-Plain toks (last c h) = refl
flush-Plain toks (before c t h p) = refl

tokenize_from-spaced : (toks : List Text) → All IsToken toks → tokenize_from [] (spaced toks) ≡ toks
unfolding tokenize_from
tokenize_from-spaced [] h = refl
tokenize_from-spaced (t ∷ toks) (inl sign, h) =
    tokenize-Sign (spaced toks) sign ∙ ap (λ ts. t ∷ ts) (tokenize_from-spaced toks h)
tokenize_from-spaced (t ∷ toks) (inr plain, h) =
    tokenize-Plain [] (spaced toks) plain
    ∙ flush-Plain (tokenize_from [] (spaced toks)) plain
    ∙ ap (λ ts. t ∷ ts) (tokenize_from-spaced toks h)

-- Tokens that are signs, or are of characters that are neither signs nor white space, are what
-- `tokenize` cuts their text into, with a space behind each token.
pub tokenize-spaced : (toks : List Text) → All IsToken toks → tokenize (spaced toks) ≡ toks
unfolding tokenize
tokenize-spaced toks h = tokenize_from-spaced toks h

-- The text of a query whose fields and values are words, with a space behind each token, is parsed as
-- what the query means.
pub parse_filter-spaced :
    (q : Query)
    → HasWords q
    → All IsToken (write q or_level [])
    → parse_filter (spaced (write q or_level [])) ≡ ok (meaning q) []
unfolding parse_filter
parse_filter-spaced q w h =
    ap parse_tokens (tokenize-spaced (write q or_level []) h) ∙ parse_tokens-write q w
