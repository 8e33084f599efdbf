-- ===== src/Server/Payload/Fields/Written.antt =====
-- crates/skeg-server/src/payload.rs: `parse_fields` reads back the fields that a payload's text spells.
use skeg.Prelude.{
  ℕ, ◌<◌, ◌≡◌, ◌∙◌, sym, append-nil, All-map, refl, ap, arith, List, [], ◌∷◌, ◌++◌, append_assoc,
  All, All-append, false, ◌==◌, some, Bytes, Text, from_utf8-ascii,
}
use skeg.Server.Payload.Value.{parse_value}
use skeg.Server.Payload.Index.{Field}
use skeg.Server.Payload.Tokens.{is_whitespace, flush}
use skeg.Server.Payload.Fields.{
  split_from, split_once, push_field, fields_of_tokens, fields_of_text, parse_fields,
}

-- The ASCII characters that a value may have, and those that a name may have.
pub record IsValueChar (c : ℕ) : Type 0 where
  pub ascii : c < 128
  pub no_space : is_whitespace c ≡ false

pub record IsNameChar (c : ℕ) : Type 0 where
  pub value_char : IsValueChar c
  pub no_equal : (c == 61) ≡ false

abbrev pub Pair : Type 0
Pair = ℕ × Text × Text

-- `k=v`, with a name of one character at least.
abbrev pub token : Pair → Text
token (c, k, v) = c ∷ k ++ 61 ∷ v

abbrev pub write_fields : List Pair → Bytes
write_fields [] = []
write_fields (p ∷ ps) = token p ++ 32 ∷ write_fields ps

abbrev pub typed_fields : List Pair → List Field
typed_fields [] = []
typed_fields ((c, k, v) ∷ ps) = (c ∷ k, parse_value v) ∷ typed_fields ps

abbrev pub IsPair : Pair → Type 0
IsPair (c, k, v) = All IsNameChar (c ∷ k) × All IsValueChar v

split_from-value :
    (cur t s : Text)
    → All IsValueChar t
    → split_from cur (t ++ 32 ∷ s) ≡ flush (cur ++ t) (split_from [] s)
unfolding split_from
split_from-value cur [] s h = ap (λ w. flush w (split_from [] s)) (sym (append-nil cur))
split_from-value cur (c ∷ t) s (hc, h) =
    rw (hc.no_space, split_from)
      (split_from-value (cur ++ c ∷ []) t s h
        ∙ ap (λ w. flush w (split_from [] s)) (append_assoc cur (c ∷ []) t))

split_once-token : (k v : Text) → All IsNameChar k → split_once (k ++ 61 ∷ v) ≡ some (k, v)
unfolding split_once
split_once-token [] v h = refl
split_once-token (c ∷ k) v (hc, h) = rw (hc.no_equal, split_once-token k v h) refl

token_chars : (p : Pair) → IsPair p → All IsValueChar (token p)
unfolding is_whitespace
token_chars (c, k, v) ((hc, hk), hv) = (
  hc.value_char,
  All-append IsValueChar k (61 ∷ v) (All-map (λ x h. h.value_char) k hk)
      (record { ascii = omega arith; no_space = refl }, hv),
)

write_fields-ascii : (ps : List Pair) → All IsPair ps → All (λ c. c < 128) (write_fields ps)
write_fields-ascii [] h = tt
write_fields-ascii (p ∷ ps) (hp, h) =
    All-append (λ c. c < 128) (token p) (32 ∷ write_fields ps)
      (All-map (λ c k. k.ascii) (token p) (token_chars p hp)) (omega arith, write_fields-ascii ps h)

fields_of_tokens-written :
    (ps : List Pair)
    → All IsPair ps
    → fields_of_tokens (split_from [] (write_fields ps)) ≡ typed_fields ps
unfolding fields_of_tokens split_from
fields_of_tokens-written [] h = refl
fields_of_tokens-written ((c, k, v) ∷ ps) (hp, h) =
    ap fields_of_tokens
      (split_from-value [] (token (c, k, v)) (write_fields ps) (token_chars (c, k, v) hp))
    ∙ ap (λ o. push_field o (fields_of_tokens (split_from [] (write_fields ps))))
        (split_once-token (c ∷ k) v hp.0)
    ∙ ap (λ fields. (c ∷ k, parse_value v) ∷ fields) (fields_of_tokens-written ps h)

-- A payload that spells fields as `name=value`, in ASCII without white space and with a space behind
-- each, the names without `=` and not empty, is parsed to those fields with their values typed.
pub parse_fields-write_fields :
    (ps : List Pair) → All IsPair ps → parse_fields (write_fields ps) ≡ typed_fields ps
unfolding parse_fields
parse_fields-write_fields ps h =
    ap fields_of_text (from_utf8-ascii (write_fields ps) (write_fields-ascii ps h))
    ∙ fields_of_tokens-written ps h
