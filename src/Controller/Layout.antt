-- ===== src/Controller/Layout.antt =====
-- Structures as the headers declare them, and where C lays their members out: each member at the next
-- multiple of its alignment, and bit fields from the lowest bit of their unit on.
use Prim.Native.String.{String}
use text.Mathlib.Text.{◌==◌ as str_eq}
use nvmetool_win.Base.{
  ℕ, ◌+◌, ◌-◌, ◌*◌, ◌/◌, ◌%◌, ◌^◌, Bool, true, List, [], ◌∷◌, ◌++◌, ◌&&◌, Option, none, some, ◌==◌,
  if◌then◌else◌,
}
use nvmetool_win.Controller.Fields.{byte, word, dword, qword, flags}

-- The mark `<rev1.3>` and so on of a comment.
pub data Since : Type 0 where
  always since_13 since_14 since_20 : Since

-- Whether a mark lets a revision have what it stands at, by the three version tests.
abbrev pub has : Bool → Bool → Bool → Since → Bool
has v13 v14 v20 always = true
has v13 v14 v20 since_13 = v13
has v13 v14 v20 since_14 = v14
has v13 v14 v20 since_20 = v20

-- A bit field with its width, and bits that are reserved.
pub data Bits : Type 0 where
  bits : String → ℕ → Since → Bits
  gap : ℕ → Bits

-- A member: a number of so many bytes, as often as it stands there; reserved numbers; a unit of so
-- many bytes with its bit fields; structures of a size and an alignment, as often as they stand there.
pub data Member : Type 0 where
  number : String → ℕ → ℕ → Since → Member
  reserved : ℕ → ℕ → Member
  bit_field : String → ℕ → Since → List Bits → Member
  records : String → ℕ → ℕ → ℕ → Member

unfoldable pub size_of : Member → ℕ
size_of (number name width count since) = width * count
size_of (reserved width count) = width * count
size_of (bit_field name width since fields) = width
size_of (records name size align count) = size * count

unfoldable pub align_of : Member → ℕ
align_of (number name width count since) = width
align_of (reserved width count) = width
align_of (bit_field name width since fields) = width
align_of (records name size align count) = align

-- The members with their offsets, the first at `n` or behind it.
unfoldable pub placed : ℕ → List Member → List (ℕ × Member)
unfolding size_of align_of
placed n [] = []
placed n (m ∷ ms) =
    let start = (n + align_of m - 1) / align_of m * align_of m in
    (start, m) ∷ placed (start + size_of m) ms

-- The number of so many bytes at an offset.
abbrev read : ℕ → List ℕ → ℕ → ℕ
read width c i =
    if width == 1
    then byte c i
    else if width == 2
    then word c i
    else if width == 4
    then dword c i
    else qword c i

-- The bits of a field in its unit, of which `k` bits have been passed.
unfoldable pub bits_of : String → ℕ → ℕ → List Bits → Option ℕ
bits_of b v k [] = none
bits_of b v k (gap w ∷ fs) = bits_of b v (k + w) fs
bits_of b v k (bits name w since ∷ fs) =
    let later = bits_of b v (k + w) fs in if str_eq name b then some (v / 2 ^ k % 2 ^ w) else later

-- The number that a member is, or the unit of its bit fields.
unfoldable pub unit_of : List ℕ → String → List (ℕ × Member) → Option ℕ
unit_of c f [] = none
unit_of c f ((i, number name width count since) ∷ ms) =
    let later = unit_of c f ms in if str_eq name f then some (read width c i) else later
unit_of c f ((i, bit_field name width since fields) ∷ ms) =
    let later = unit_of c f ms in if str_eq name f then some (read width c i) else later
unit_of c f ((i, m) ∷ ms) = unit_of c f ms

-- The bit fields of a member.
unfoldable pub fields_of : String → List (ℕ × Member) → List Bits
fields_of f [] = []
fields_of f ((i, bit_field name width since fields) ∷ ms) =
    let later = fields_of f ms in if str_eq name f then fields else later
fields_of f ((i, m) ∷ ms) = fields_of f ms

-- Whether the bit field `b` of the member `f` is 1.
unfoldable pub is_set : List ℕ → String → String → List (ℕ × Member) → Option Bool
unfolding bits_of unit_of fields_of
is_set c f b ms = elim (unit_of c f ms) [
  | none ↦ none
  | some v ↦ elim (bits_of b v 0 (fields_of f ms)) [ none ↦ none | some n ↦ some (n == 1) ]
]

-- Where a member starts.
unfoldable pub offset_of : String → List (ℕ × Member) → Option ℕ
offset_of f [] = none
offset_of f ((i, number name width count since) ∷ ms) =
    let later = offset_of f ms in if str_eq name f then some i else later
offset_of f ((i, bit_field name width since fields) ∷ ms) =
    let later = offset_of f ms in if str_eq name f then some i else later
offset_of f ((i, m) ∷ ms) = offset_of f ms

-- The places of the single bits that a revision has, from the highest on, with `k` bits before them.
abbrev pub places : (Since → Bool) → ℕ → List Bits → List ℕ
places on k [] = []
places on k (gap w ∷ fs) = places on (k + w) fs
places on k (bits name w since ∷ fs) =
    places on (k + w) fs ++ (if w == 1 && on since then k ∷ [] else [])

-- The bits of a member that a revision has, with their values.
abbrev pub declared_flags : (Since → Bool) → List ℕ → String → List (ℕ × Member) → List (ℕ × Bool)
declared_flags on c f ms = elim (unit_of c f ms) [
  | none ↦ []
  | some v ↦ flags (places on 0 (fields_of f ms)) v
]
