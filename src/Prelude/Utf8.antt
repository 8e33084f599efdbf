-- ===== src/Prelude/Utf8.antt =====
-- UTF-8, as the standard library reads it: a text is the list of its characters' code points.
use Prim.Native.Char.{code}
use Prim.Native.String.{String}
use Prim.Native.Nat.{ℕ, ◌+◌, ◌-◌, ◌*◌, ◌<◌}
use mathlib.Core.Path.{◌≡◌, refl}
use mathlib.Core.Bool.{Bool, true, false, ◌&&◌}
use mathlib.Core.Option.{Option, none, some}
use mathlib.Core.List.{[], ◌∷◌}
use native.Mathlib.Omega.{arith}
use skeg.Prelude.Tests.{leb, ltb, if◌then◌else◌}
use skeg.Prelude.Lists.{All}
use skeg.Prelude.LittleEndian.{Bytes}

-- A string, as the code points of its characters. Their order is that of its UTF-8 bytes.
abbrev pub Text : Type 0
Text = Bytes

-- `std::str::from_utf8`: none where the bytes are not UTF-8.
abbrev pub continuation : ℕ → Bool
continuation b = leb 128 b && leb b 191

abbrev pub cons_char : ℕ → Option Text → Option Text
cons_char c none = none
cons_char c (some s) = some (c ∷ s)

abbrev pub two : ℕ → ℕ → Option Text → Option Text
two a b rest =
    if leb 194 a && leb a 223 && continuation b
    then cons_char ((a - 192) * 64 + (b - 128)) rest
    else none

abbrev pub three : ℕ → ℕ → ℕ → Option Text → Option Text
three a b c rest =
    let code = (a - 224) * 4096 + (b - 128) * 64 + (c - 128) in
    let surrogate = leb 55296 code && leb code 57343 in
    if leb 224 a && leb a 239 && continuation b && continuation c && leb 2048 code
    then if surrogate then none else cons_char code rest
    else none

abbrev pub four : ℕ → ℕ → ℕ → ℕ → Option Text → Option Text
four a b c d rest =
    let code = (a - 240) * 262144 + (b - 128) * 4096 + (c - 128) * 64 + (d - 128) in
    if leb 240 a
      && leb a 244
      && continuation b
      && continuation c
      && continuation d
      && leb 65536 code
      && leb code 1114111
    then cons_char code rest
    else none

-- The number of bytes of a character, from its first.
pub data Lead : Type 0 where
  one_byte two_bytes three_bytes four_bytes : Lead

unfoldable pub lead : ℕ → Lead
lead a =
    if ltb a 128
    then one_byte
    else if ltb a 224
    then two_bytes
    else if ltb a 240
    then three_bytes
    else four_bytes

unfoldable pub from_utf8 : Bytes → Option Text
unfolding lead
from_utf8 [] = some []
from_utf8 (a ∷ []) = if ltb a 128 then some (a ∷ []) else none
from_utf8 (a ∷ b ∷ []) = elim (lead a) [
  | one_byte ↦ cons_char a (from_utf8 (b ∷ []))
  | two_bytes ↦ two a b (some [])
  | three_bytes ↦ none
  | four_bytes ↦ none
]
from_utf8 (a ∷ b ∷ c ∷ []) = elim (lead a) [
  | one_byte ↦ cons_char a (from_utf8 (b ∷ c ∷ []))
  | two_bytes ↦ two a b (from_utf8 (c ∷ []))
  | three_bytes ↦ three a b c (some [])
  | four_bytes ↦ none
]
from_utf8 (a ∷ b ∷ c ∷ d ∷ s) = elim (lead a) [
  | one_byte ↦ cons_char a (from_utf8 (b ∷ c ∷ d ∷ s))
  | two_bytes ↦ two a b (from_utf8 (c ∷ d ∷ s))
  | three_bytes ↦ three a b c (from_utf8 (d ∷ s))
  | four_bytes ↦ four a b c d (from_utf8 s)
]

pub from_utf8-ascii : (s : Bytes) → All (λ c. c < 128) s → from_utf8 s ≡ some s
unfolding from_utf8 lead
from_utf8-ascii [] h = refl
from_utf8-ascii (a ∷ []) (ha, h) = ground arith
from_utf8-ascii (a ∷ b ∷ []) (ha, h) = ground (arith, from_utf8-ascii (b ∷ []) h)
from_utf8-ascii (a ∷ b ∷ c ∷ []) (ha, h) = ground (arith, from_utf8-ascii (b ∷ c ∷ []) h)
from_utf8-ascii (a ∷ b ∷ c ∷ d ∷ s) (ha, h) = ground (arith, from_utf8-ascii (b ∷ c ∷ d ∷ s) h)

-- Whether bytes are the UTF-8 of a text.
abbrev is_some_text : Option Text → Bool
is_some_text none = false
is_some_text (some t) = true

unfoldable pub is_utf8 : Bytes → Bool
unfolding from_utf8
is_utf8 s = is_some_text (from_utf8 s)

pub is_utf8-ascii : (s : Bytes) → All (λ c. c < 128) s → is_utf8 s ≡ true
unfolding is_utf8
is_utf8-ascii s h = rw (from_utf8-ascii s h) refl

-- The code points of a text: its bytes, if it is ASCII.
abbrev pub codes : String → Bytes
codes String.[] = []
codes (String.◌∷◌ c s) = code c ∷ codes s

unfoldable pub ascii_upper : ℕ → ℕ
ascii_upper c = if leb 97 c && leb c 122 then c - 32 else c

-- `to_ascii_uppercase`
unfoldable pub to_ascii_uppercase : Bytes → Bytes
unfolding ascii_upper
to_ascii_uppercase [] = []
to_ascii_uppercase (c ∷ s) = ascii_upper c ∷ to_ascii_uppercase s
