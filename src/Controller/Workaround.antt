-- ===== src/Controller/Workaround.antt =====
-- The texts of the Identify Controller data and the workaround that they switch on:
-- vPrintControllerBasicData of src/NVMeIdentifyController.c.
pub mod Match
use Prim.Native.Char.{code}
use Prim.Native.String.{String}
use nvmetool_win.Base.{
  ℕ, zero, suc, Bool, true, false, List, [], ◌∷◌, ◌==◌, ◌&&◌, ◌||◌, not, if◌then◌else◌, drop,
}
use nvmetool_win.Program.{Prog, reads, store_workaround, ◌>>=◌}

-- The bytes of an ASCII text.
abbrev pub codes : String → List ℕ
codes String.[] = []
codes (String.◌∷◌ c s) = code c ∷ codes s

-- `strncpy_s` of at most `n` characters into a zeroed buffer: the text ends at the first NUL.
abbrev pub copy_text : ℕ → List ℕ → List ℕ
copy_text zero cs = []
copy_text (suc n) [] = []
copy_text (suc n) (c ∷ cs) = let rest = copy_text n cs in if c == 0 then [] else c ∷ rest

abbrev pub starts_with : List ℕ → List ℕ → Bool
starts_with [] text = true
starts_with (c ∷ cs) [] = false
starts_with (c ∷ cs) (d ∷ ds) = c == d && starts_with cs ds

-- `strstr(text, part) != NULL`
abbrev pub contains : List ℕ → List ℕ → Bool
contains [] part = starts_with part []
contains (c ∷ cs) part = starts_with part (c ∷ cs) || contains cs part

-- `strMN` and `strFR`
abbrev pub model_number : List ℕ → List ℕ
model_number c = copy_text 40 (drop 24 c)

abbrev pub firmware_revision : List ℕ → List ℕ
firmware_revision c = copy_text 8 (drop 64 c)

-- The test for the WD SN550 with the firmware that needs the workaround.
pub needs_workaround : List ℕ → Bool
needs_workaround c =
    if not (contains (model_number c) (codes "WDC WDS"))
      || not (contains (model_number c) (codes "2B0C"))
      || not (contains (firmware_revision c) (codes "211070WD"))
    then false
    else true

-- The assignments of vPrintControllerBasicData; what it prints is left out.
unfoldable pub set_basic_data : Prog (Unit {0})
unfolding needs_workaround ◌>>=◌
set_basic_data = do c ← reads (λ p w. w.controller); store_workaround (needs_workaround c)
