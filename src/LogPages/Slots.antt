-- ===== src/LogPages/Slots.antt =====
-- The report of the firmware slots, s_vPrintNVMeFwSlotInformation of src/NVMeFwSlotInformation.c.
use nvmetool_win.Base.{
  ℕ, ◌*◌, ◌/◌, ◌%◌, List, [], ◌∷◌, Option, none, some, ◌==◌, if◌then◌else◌, map, drop,
}
use nvmetool_win.Console.Printing.{until_nul}
use nvmetool_win.Controller.Fields.{byte}

-- FRS of the slot `i`, printed by `%s` up to a NUL, wherever that stands.
unfoldable pub slot_revision : List ℕ → ℕ → Option (List ℕ)
slot_revision log i = if byte log (8 * i) == 0 then none else some (until_nul (drop (8 * i) log))

-- AFI with the slot that becomes active and the one that is, and the seven revisions.
unfoldable pub slots : List ℕ → (ℕ × ℕ × ℕ) × List (Option (List ℕ))
unfolding slot_revision
slots log = (
  (byte log 0, byte log 0 / 16 % 8, byte log 0 % 8),
  map (slot_revision log) (1 ∷ 2 ∷ 3 ∷ 4 ∷ 5 ∷ 6 ∷ 7 ∷ []),
)
