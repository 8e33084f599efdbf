-- ===== src/Server/Payload/Fields.antt =====
-- crates/skeg-server/src/payload.rs: `parse_fields`, from a payload's bytes to its fields.
pub mod Written
use skeg.Prelude.{
  ℕ, suc, ◌+◌, ◌-◌, ◌*◌, ◌<◌, ◌≡◌, ◌∙◌, refl, ap, arith, List, [], ◌∷◌, ◌++◌, append_assoc, All,
  Bool, true, false, ◌&&◌, ◌||◌, leb, ltb, ◌==◌, if◌then◌else◌, Option, none, some, Bytes, Text,
  from_utf8,
}
use skeg.Server.Payload.Value.{Value, parse_value}
use skeg.Server.Payload.Index.{Field}
use skeg.Server.Payload.Tokens.{is_whitespace, flush}

-- `split_whitespace`, with the piece `cur` begun.
unfoldable pub split_from : Text → Text → List Text
unfolding is_whitespace
split_from cur [] = flush cur []
split_from cur (c ∷ s) = elim (is_whitespace c) [
  | true ↦ flush cur (split_from [] s)
  | false ↦ split_from (cur ++ c ∷ []) s
]

abbrev cons_front : ℕ → Option (Text × Text) → Option (Text × Text)
cons_front c none = none
cons_front c (some (front, back)) = some (c ∷ front, back)

-- `split_once('=')`
unfoldable pub split_once : Text → Option (Text × Text)
split_once [] = none
split_once (c ∷ s) = let rest = split_once s in if c == 61 then some ([], s) else cons_front c rest

-- The filters and the map, on one token.
abbrev pub push_field : Option (Text × Text) → List Field → List Field
push_field none fields = fields
push_field (some ([], v)) fields = fields
push_field (some (c ∷ k, v)) fields = (c ∷ k, parse_value v) ∷ fields

unfoldable pub fields_of_tokens : List Text → List Field
unfolding split_once parse_value
fields_of_tokens [] = []
fields_of_tokens (tok ∷ toks) = push_field (split_once tok) (fields_of_tokens toks)

abbrev pub fields_of_text : Option Text → List Field
fields_of_text none = []
fields_of_text (some text) = fields_of_tokens (split_from [] text)

unfoldable pub parse_fields : Bytes → List Field
unfolding from_utf8 split_from fields_of_tokens
parse_fields blob = fields_of_text (from_utf8 blob)
