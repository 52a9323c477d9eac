-- ===== src/LogPages/Effects/Listed.antt =====
-- Which commands the report of the effects lists.
use nvmetool_win.Base.{ℕ, zero, suc, ◌+◌, ◌*◌, ◌<◌, ◌≡◌, Bool, List, refl, ap, arith, drop, ◌∙◌}
use nvmetool_win.Controller.Fields.{bit, dword}
use nvmetool_win.Loops.{collect, has_number, has_number-collect}
use nvmetool_win.LogPages.Effects.{Effects, effects_at, effects_from, effects}

-- Whether an opcode is among those listed.
abbrev pub is_listed : List Effects → ℕ → Bool
is_listed = has_number (λ e. e.opcode)

module _ (c bytes : List ℕ) where
  abbrev is_supported : ℕ → Bool
  is_supported i = bit (dword bytes (4 * i)) 0

  abbrev command : ℕ → Effects
  command i = effects_at c (dword bytes (4 * i)) i

  effects_from_lem :
      (rounds i : ℕ) → effects_from c bytes rounds i ≡ collect is_supported command rounds i
  unfolding effects_from
  effects_from_lem zero i = refl
  effects_from_lem (suc rounds) i = ground (arith, effects_from_lem rounds (i + 1))

  numbered : (i : ℕ) → (command i).opcode ≡ i
  unfolding effects_at
  numbered i = refl

  listed_lem : (k : ℕ) → k < 256 → is_listed (effects_from c bytes 256 0) k ≡ is_supported k
  listed_lem k lt =
      ap (λ es. is_listed es k) (effects_from_lem 256 0)
      ∙ has_number-collect is_supported command (λ e. e.opcode) numbered 256 0 k (omega arith)
          (omega arith)

-- Of the 256 admin commands and the 256 NVM commands, the report lists exactly those whose entry of
-- four bytes has the lowest bit set.
pub effects_lem :
    (c bytes : List ℕ) (k : ℕ)
    → k < 256
    → let (admin, nvm) = effects c bytes in
      (is_listed admin k ≡ bit (dword bytes (4 * k)) 0)
      × (is_listed nvm k ≡ bit (dword (drop 1024 bytes) (4 * k)) 0)
unfolding effects
effects_lem c bytes k lt = (listed_lem c bytes k lt, listed_lem c (drop 1024 bytes) k lt)
