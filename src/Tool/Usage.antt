-- ===== src/Tool/Usage.antt =====
-- The name of the program that s_vPrintUsage of src/NVMeTool.c prints.
pub mod Names
use nvmetool_win.Base.{
  ℕ, zero, suc, Bool, false, List, [], ◌∷◌, Option, none, some, ◌==◌, ◌||◌, ltb, length,
  if◌then◌else◌,
}

-- What strchr finds: the text from the first backslash on.
abbrev pub from_backslash : List ℕ → Option (List ℕ)
from_backslash [] = none
from_backslash (b ∷ bs) =
    let later = from_backslash bs in if b == 0x5c then some (b ∷ bs) else later

-- `tmpPtr + 1`; the text at `tmpPtr` is empty only at the start, for an empty name.
abbrev pub after_first : List ℕ → List ℕ
after_first [] = []
after_first (b ∷ bs) = bs

-- The loop, with so many rounds left, where `tmpPtr` stands at the text given: what `cPtr` holds at the
-- end.
unfoldable pub last_part : ℕ → List ℕ → Option (List ℕ)
last_part zero text = none
last_part (suc rounds) text = elim (from_backslash (after_first text)) [
  | none ↦ some (after_first text)
  | some next ↦ last_part rounds next
]

-- The name is copied into 1024 characters with its NUL. Each round of the loop moves on.
unfoldable pub program_name : List ℕ → Option (List ℕ)
unfolding last_part
program_name name = if ltb (length name) 1024 then last_part (length name) name else none
