-- ===== src/Controller/Version.antt =====
-- The version tests of src/NVMeIdentifyController.c.
use nvmetool_win.Base.{
  ℕ, ◌*◌, ◌/◌, ◌%◌, ◌≤◌, ◌<◌, ◌≡◌, ◌↔◌, ◌⊎◌, Bool, true, false, List, leb, if◌then◌else◌, arith,
}
use nvmetool_win.Controller.Fields.{ver}

-- `VER & 0xFFFFFF00`: the version without its tertiary number.
abbrev without_tertiary : ℕ → ℕ
without_tertiary v = v / 256 * 256

unfoldable pub is_v20_or_later : List ℕ → Bool
unfolding ver
is_v20_or_later c = if leb 0x00020000 (without_tertiary (ver c)) then true else false

unfoldable pub is_v14_or_later : List ℕ → Bool
unfolding ver
is_v14_or_later c = if leb 0x00010400 (without_tertiary (ver c)) then true else false

unfoldable pub is_v13_or_later : List ℕ → Bool
unfolding ver
is_v13_or_later c = if leb 0x00010300 (without_tertiary (ver c)) then true else false

-- The revision as vPrintControllerBasicData prints it: `(VER >> 16) & 0xFFFF` and so on.
unfoldable pub revision : List ℕ → ℕ × ℕ × ℕ
unfolding ver
revision c = (ver c / 65536 % 65536, ver c / 256 % 256, ver c % 256)

-- The revision is at least `major.minor`.
abbrev pub IsAtLeast : ℕ → ℕ → List ℕ → Type 0
IsAtLeast major minor c =
    (major < (revision c).0) ⊎ ((revision c).0 ≡ major) × (minor ≤ (revision c).1)

-- Each version test holds exactly where the printed revision is that version or a later one.
pub version_tests :
    (c : List ℕ)
    → ((is_v20_or_later c ≡ true) ↔ IsAtLeast 2 0 c)
      × ((is_v14_or_later c ≡ true) ↔ IsAtLeast 1 4 c)
      × ((is_v13_or_later c ≡ true) ↔ IsAtLeast 1 3 c)
unfolding is_v20_or_later is_v14_or_later is_v13_or_later revision
version_tests c = ground arith
