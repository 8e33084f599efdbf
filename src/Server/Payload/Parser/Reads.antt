-- ===== src/Server/Payload/Parser/Reads.antt =====
-- crates/skeg-server/src/payload.rs: the parser reads back each written predicate.
use skeg.Prelude.{
  ◌≡◌, ◌∙◌, refl, ap, arith, List, [], ◌∷◌, ◌++◌, append_assoc, All, false, bytes_beq, Text,
}
use skeg.Server.Payload.Value.{Value, Bound, parse_value}
use skeg.Server.Payload.Tokens.{
  open_paren, close_paren, kw_and, kw_not, kw_in, kw_between, kw_exists, is_keyword, is_reserved,
}
use skeg.Server.Payload.Filter.{Filter}
use skeg.Server.Payload.Predicate.{
  What, a_value, between_lower_bound, between_upper_bound, ok, take_value, in_list, parse_in,
  between_upper, parse_between, parse_operator, parse_predicate,
}
use skeg.Server.Payload.Parser.Query.{
  Comparison, spelling, compared_filter, parse_values, write_values, IsWord,
}

-- A word is not a keyword, nor a parenthesis.
pub word-not_keyword :
    (t : Text) → IsWord t → (is_keyword t kw_not ≡ false) × (bytes_beq t open_paren ≡ false)
unfolding is_reserved
word-not_keyword t w = (ground arith, ground arith)

take_value-word :
    (what : What) (t : Text) (rest : List Text)
    → IsWord t
    → take_value what (t ∷ rest) ≡ ok (parse_value t) rest
unfolding take_value
take_value-word what t rest w = rw w refl

in_list-values :
    (field : Text) (vals : List Value) (t : Text) (ts rest : List Text)
    → IsWord t
    → All IsWord ts
    → in_list field vals (t ∷ write_values ts (close_paren ∷ rest))
      ≡ ok (Filter.one_of field (vals ++ parse_values (t ∷ ts))) rest
unfolding in_list
in_list-values field vals t [] rest w h = rw w refl
in_list-values field vals t (s ∷ ts) rest w (ws, h) = rw w (
    in_list-values field (vals ++ parse_value t ∷ []) s ts rest ws h
    ∙ ap (λ vs. ok (Filter.one_of field vs) rest)
        (append_assoc vals (parse_value t ∷ []) (parse_values (s ∷ ts))))

pub compared-reads :
    (f : Text) (c : Comparison) (t : Text) (rest : List Text)
    → IsWord f
    → IsWord t
    → parse_predicate (f ∷ spelling c ∷ t ∷ rest) ≡ ok (compared_filter f c (parse_value t)) rest
unfolding parse_predicate parse_operator
compared-reads f Comparison.is t rest wf wt = rw (wf, take_value-word a_value t rest wt) refl
compared-reads f Comparison.at_least t rest wf wt = rw (wf, take_value-word a_value t rest wt) refl
compared-reads f Comparison.above t rest wf wt = rw (wf, take_value-word a_value t rest wt) refl
compared-reads f Comparison.at_most t rest wf wt = rw (wf, take_value-word a_value t rest wt) refl
compared-reads f Comparison.below t rest wf wt = rw (wf, take_value-word a_value t rest wt) refl

pub between-reads :
    (f a b : Text) (rest : List Text)
    → IsWord f
    → IsWord a
    → IsWord b
    → parse_predicate (f ∷ kw_between ∷ a ∷ kw_and ∷ b ∷ rest)
      ≡ ok (Filter.range f (Bound.included (parse_value a)) (Bound.included (parse_value b))) rest
unfolding parse_predicate parse_operator parse_between between_upper
between-reads f a b rest wf wa wb =
    rw
      (
        wf,
        take_value-word between_lower_bound a (kw_and ∷ b ∷ rest) wa,
        take_value-word between_upper_bound b rest wb,
      )
      refl

pub among-reads :
    (f t : Text) (ts rest : List Text)
    → IsWord f
    → IsWord t
    → All IsWord ts
    → parse_predicate (f ∷ kw_in ∷ open_paren ∷ t ∷ write_values ts (close_paren ∷ rest))
      ≡ ok (Filter.one_of f (parse_values (t ∷ ts))) rest
unfolding parse_predicate parse_operator parse_in
among-reads f t ts rest wf wt ws = rw wf (in_list-values f [] t ts rest wt ws)

pub present-reads :
    (f : Text) (rest : List Text)
    → IsWord f
    → parse_predicate (f ∷ kw_exists ∷ rest) ≡ ok (Filter.exists f) rest
unfolding parse_predicate parse_operator
present-reads f rest wf = rw wf refl
