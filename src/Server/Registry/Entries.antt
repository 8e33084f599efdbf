-- ===== src/Server/Registry/Entries.antt =====
-- The entries of a registry, read from a file that may end early.
use skeg.Prelude.{
  ℕ, suc, ◌+◌, ◌-◌, ◌≤◌, ◌<◌, ◌^◌, ◌≡◌, refl, sym, ap, ap₂, ◌∙◌, arith, true, false, Bytes, List,
  [], ◌∷◌, ◌++◌, some, map, to_le, from_le, slice, drop, length, All, ltb, le→ltb, lt→ltb,
  length-append, length-drop, drop-next, drop-next_le, slice-at, from_le-at, length-at, inl, inr,
  Bool-cases, ltb→lt, ltb→le, append_assoc,
}
use skeg.Vector.Kind.{from_wire}
use skeg.Server.Registry.{
  RegistryEntry, write_entries, from_utf8_lossy, lossy_from, width, read_entries, has_kind,
}

-- A name in ASCII, as the guard on names makes it, and a kind with a wire byte.
abbrev pub IsEntry : Bytes × ℕ × ℕ → Type 0
IsEntry (name, dim, kind) =
    All (λ c. c < 128) name × (length name < 2 ^ 16) × (dim < 2 ^ 32) × (kind < 6)

abbrev pub kept : Bytes × ℕ × ℕ → RegistryEntry
kept (name, dim, kind) = record { name = name; dim = dim; kind = some kind }

width-ascii : (b : ℕ) → b < 128 → width b ≡ 1
width-ascii b h = rw (lt→ltb b 128 h) refl

lossy_from-ascii : (s : Bytes) → All (λ c. c < 128) s → lossy_from [] s ≡ s
unfolding lossy_from
lossy_from-ascii [] h = refl
lossy_from-ascii (b ∷ s) (hb, h) = ground (arith, width-ascii b hb, lossy_from-ascii s h)

from_utf8_lossy-ascii : (s : Bytes) → All (λ c. c < 128) s → from_utf8_lossy s ≡ s
unfolding from_utf8_lossy
from_utf8_lossy-ascii s h = lossy_from-ascii s h

has_kind-from_wire : (kind : ℕ) → kind < 6 → has_kind kind (from_wire kind) ≡ some kind
unfolding from_wire
has_kind-from_wire kind h = ground arith

pub split_front :
    (front rest x r : Bytes)
    → x ++ r ≡ front ++ rest
    → length front ≤ length x
    → (x ≡ front ++ drop (length front) x) × (drop (length front) x ++ r ≡ rest)
split_front [] rest x r e h = (refl, e)
split_front (a ∷ front) rest [] r e h = absurd (omega arith)
split_front (a ∷ front) rest (b ∷ x) r e h =
    let head : b ≡ a = cc in
    let tails : x ++ r ≡ front ++ rest = cc in
    let (same, left) = split_front front rest x r tails (omega arith) in
    (ap₂ (λ c cs. c ∷ cs) head same, left)

-- One entry, of which all bytes are there.
entry_whole :
    (name : Bytes) (dim kind n pos : ℕ) (buf rest : Bytes)
    → IsEntry (name, dim, kind)
    → drop pos buf ≡ to_le 2 (length name) ++ (name ++ (to_le 4 dim ++ (kind ∷ rest)))
    → (read_entries (suc n) true buf pos
        ≡ kept (name, dim, kind) ∷ read_entries n true buf (pos + 2 + length name + 4 + 1))
      × (drop (pos + 2 + length name + 4 + 1) buf ≡ rest)
unfolding read_entries
entry_whole name dim kind n pos buf rest (ascii, short, small, known) at0 =
    let len = length name in
    let at1 =
      drop-next_le pos 2 len (pos + 2) buf (name ++ (to_le 4 dim ++ (kind ∷ rest))) at0 refl in
    let at2 = drop-next (pos + 2) len buf name (to_le 4 dim ++ (kind ∷ rest)) at1 refl in
    let at3 = drop-next_le (pos + 2 + len) 4 dim (pos + 2 + len + 4) buf (kind ∷ rest) at2 refl in
    let at4 = drop-next (pos + 2 + len + 4) 1 buf (kind ∷ []) rest at3 refl in
    let size = length-at (pos + 2 + len + 4) buf (kind ∷ []) rest at3 (omega arith) in
    let nlen = from_le-at pos 2 len buf (name ++ (to_le 4 dim ++ (kind ∷ rest))) at0 short in
    let head_in : ltb (length buf) (pos + 2) ≡ false =
      le→ltb (length buf) (pos + 2) (omega arith) in
    let tail_in : ltb (length buf) (pos + 2 + len + 5) ≡ false =
      le→ltb (length buf) (pos + 2 + len + 5) (omega arith) in
    let named =
      ap from_utf8_lossy (slice-at (pos + 2) len buf name (to_le 4 dim ++ (kind ∷ rest)) at1 refl)
      ∙ from_utf8_lossy-ascii name ascii in
    let dims = from_le-at (pos + 2 + len) 4 dim buf (kind ∷ rest) at2 small in
    let byte : from_le (slice (pos + 2 + len + 4) 1 buf) ≡ kind =
      ap from_le (slice-at (pos + 2 + len + 4) 1 buf (kind ∷ []) rest at3 refl) ∙ omega arith in
    (rw (nlen, head_in, tail_in, named, dims, byte, has_kind-from_wire kind known) refl, at4)

-- One entry, of which bytes are missing at the end.
entry_cut :
    (name : Bytes) (dim kind n pos : ℕ) (buf x r rest : Bytes)
    → IsEntry (name, dim, kind)
    → drop pos buf ≡ x
    → x ++ r ≡ to_le 2 (length name) ++ rest
    → length x < length name + 7
    → read_entries (suc n) true buf pos ≡ []
unfolding read_entries
entry_cut name dim kind n pos buf x r rest h at0 whole short =
    let len = length name in
    let size : length x ≡ length buf - pos = ap length (sym at0) ∙ length-drop pos buf in
    elim (Bool-cases (ltb (length buf) (pos + 2))) [
      | inl none_in ↦ rw none_in refl
      | inr head_in ↦
          let two = ltb→le (length buf) (pos + 2) head_in in
          let (front, left) = split_front (to_le 2 len) rest x r whole (omega (arith, size)) in
          let nlen = from_le-at pos 2 len buf (drop 2 x) (at0 ∙ front) h.1 in
          let tail_out : ltb (length buf) (pos + 2 + len + 5) ≡ true =
            lt→ltb (length buf) (pos + 2 + len + 5) (omega (arith, size)) in
          rw (head_in, nlen, tail_out) refl
    ]

abbrev entry_bytes : Bytes × ℕ × ℕ → Bytes
entry_bytes (name, dim, kind) = to_le 2 (length name) ++ (name ++ (to_le 4 dim ++ (kind ∷ [])))

entry_bytes-append :
    (name : Bytes) (dim kind : ℕ) (rest : Bytes)
    → entry_bytes (name, dim, kind) ++ rest
      ≡ to_le 2 (length name) ++ (name ++ (to_le 4 dim ++ (kind ∷ rest)))
entry_bytes-append name dim kind rest =
    ap (λ bs. to_le 2 (length name) ++ bs) (append_assoc name (to_le 4 dim ++ (kind ∷ [])) rest)

length-entry_bytes :
    (name : Bytes) (dim kind : ℕ) → length (entry_bytes (name, dim, kind)) ≡ length name + 7
length-entry_bytes name dim kind = omega (arith, length-append name (to_le 4 dim ++ (kind ∷ [])))

-- What is read, and all of it where no bytes are missing.
abbrev pub IsRead : Bytes → List RegistryEntry → List (Bytes × ℕ × ℕ) → Type 0
IsRead r read entries =
    ((later : List RegistryEntry) × (read ++ later ≡ map kept entries))
    × (r ≡ [] → read ≡ map kept entries)

pub read_entries-IsRead :
    (entries : List (Bytes × ℕ × ℕ)) (pos : ℕ) (buf x r : Bytes)
    → All IsEntry entries
    → drop pos buf ≡ x
    → x ++ r ≡ write_entries entries
    → IsRead r (read_entries (length entries) true buf pos) entries
unfolding write_entries read_entries
read_entries-IsRead [] pos buf x r h at0 whole = (([], refl), λ e. refl)
read_entries-IsRead ((name, dim, kind) ∷ entries) pos buf x r (he, h) at0 whole =
    let n = length entries in
    let rest = write_entries entries in
    let front = entry_bytes (name, dim, kind) in
    let front_len = length-entry_bytes name dim kind in
    let split : x ++ r ≡ front ++ rest = whole ∙ sym (entry_bytes-append name dim kind rest) in
    elim (Bool-cases (ltb (length x) (length name + 7))) [
      | inl short ↦
          let less = ltb→lt (length x) (length name + 7) short in
          let cut =
            entry_cut name dim kind n pos buf x r (name ++ (to_le 4 dim ++ (kind ∷ rest))) he at0
              whole less in
          let all = map kept ((name, dim, kind) ∷ entries) in
          let total : length x + length r ≡ length front + length rest =
            sym (length-append x r) ∙ ap length split ∙ length-append front rest in
          (
            (all, ap (λ es. es ++ all) cut),
            λ e. absurd (omega (arith, total, front_len, less, ap length e)),
          )
      | inr long ↦
          let (same, left) =
            split_front front rest x r split
              (omega (arith, front_len, ltb→le (length x) (length name + 7) long)) in
          let next = drop (length front) x in
          let (step, at1) =
            entry_whole name dim kind n pos buf next he
              (at0 ∙ same ∙ entry_bytes-append name dim kind next) in
          let ((later, ih), all) =
            read_entries-IsRead entries (pos + 2 + length name + 4 + 1) buf next r h at1 left in
          (
            (later, ap (λ es. es ++ later) step ∙ ap (λ es. kept (name, dim, kind) ∷ es) ih),
            λ e. step ∙ ap (λ es. kept (name, dim, kind) ∷ es) (all e),
          )
    ]
