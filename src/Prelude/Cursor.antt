-- ===== src/Prelude/Cursor.antt =====
-- Reading fields behind one another: `drop pos buf ≡ field ++ rest` says that `field` stands at `pos`.
use Prim.Native.Nat.{ℕ, ◌+◌, ◌^◌, ◌<◌}
use mathlib.Core.Path.{◌≡◌, ap, ◌∙◌}
use mathlib.Core.List.{◌++◌}
use native.Mathlib.Omega.{arith}
use skeg.Prelude.Lists.{
  length, slice, take, drop, drop-add, length-drop, length-append, take-append_length,
  drop-append_length,
}
use skeg.Prelude.LittleEndian.{Bytes, to_le, from_le, length-to_le, from_le-to_le}

-- Behind the field stands the rest.
pub drop-next :
    (pos w : ℕ) (buf field rest : Bytes)
    → drop pos buf ≡ field ++ rest
    → length field ≡ w
    → drop (pos + w) buf ≡ rest
drop-next pos w buf field rest at_pos hw =
    drop-add pos w buf ∙ ap (drop w) at_pos ∙ drop-append_length w field rest hw

pub slice-at :
    (pos w : ℕ) (buf field rest : Bytes)
    → drop pos buf ≡ field ++ rest
    → length field ≡ w
    → slice pos w buf ≡ field
slice-at pos w buf field rest at_pos hw = ap (take w) at_pos ∙ take-append_length w field rest hw

pub drop-next_le :
    (pos w n q : ℕ) (buf rest : Bytes)
    → drop pos buf ≡ to_le w n ++ rest
    → q ≡ pos + w
    → drop q buf ≡ rest
drop-next_le pos w n q buf rest at_pos hq =
    ap (λ p. drop p buf) hq ∙ drop-next pos w buf (to_le w n) rest at_pos (length-to_le w n)

pub from_le-at :
    (pos w n : ℕ) (buf rest : Bytes)
    → drop pos buf ≡ to_le w n ++ rest
    → n < 256 ^ w
    → from_le (slice pos w buf) ≡ n
from_le-at pos w n buf rest at_pos fits =
    ap from_le (slice-at pos w buf (to_le w n) rest at_pos (length-to_le w n))
    ∙ from_le-to_le w n fits

-- A field that is not empty lies inside the buffer.
pub length-at :
    (pos : ℕ) (buf field rest : Bytes)
    → drop pos buf ≡ field ++ rest
    → 0 < length field
    → length buf ≡ pos + (length field + length rest)
length-at pos buf field rest at_pos pos_field =
    let same : length (drop pos buf) ≡ length (field ++ rest) = ap length at_pos in
    omega (arith, same, length-drop pos buf, length-append field rest)
