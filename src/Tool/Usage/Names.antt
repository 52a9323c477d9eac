-- ===== src/Tool/Usage/Names.antt =====
-- What the loop over the backslashes finds.
use nvmetool_win.Base.{
  ℕ, zero, suc, ◌<◌, ◌≡◌, ◌⊎◌, ◌∙◌, refl, sym, ap, inl, inr, Bool, true, false, List, [], ◌∷◌, none,
  some, ◌==◌, ◌||◌, length, if◌then◌else◌, arith, Bool-cases, ==_iff,
}
use nvmetool_win.Tool.Usage.{from_backslash, last_part, program_name}

abbrev pub has_backslash : List ℕ → Bool
has_backslash [] = false
has_backslash (b ∷ bs) = b == 0x5c || has_backslash bs

-- The text behind the last backslash, or the whole text where it has none.
abbrev pub after_last : List ℕ → List ℕ
after_last [] = []
after_last (b ∷ bs) = let later = after_last bs in if has_backslash (b ∷ bs) then later else b ∷ bs

-- The text from the first backslash on is shorter than what it is found in, and has the same last part.
found :
    (bs : List ℕ)
    → ((has_backslash bs ≡ false) × (from_backslash bs ≡ none) × (after_last bs ≡ bs))
      ⊎ (xs : List ℕ) × (has_backslash bs ≡ true)
        × (from_backslash bs ≡ some (0x5c ∷ xs))
        × (after_last bs ≡ after_last xs)
        × (length xs < length bs)
found [] = inl (refl, refl, refl)
found (b ∷ bs) = elim (Bool-cases (b == 0x5c)) [
  | inl e ↦
      let here = (==_iff b 0x5c).0 e in
      inr (bs, ground arith, ground (arith, here), ground arith, omega arith)
  | inr other ↦ elim (found bs) [
    | inl (lacks, none_there, same) ↦ inl (ground arith, ground arith, ground arith)
    | inr (xs, has, there, same, shorter) ↦
        inr (xs, ground arith, ground arith, ground arith, omega arith)
  ]
]

last_part_lem :
    (rounds b : ℕ) (bs : List ℕ)
    → length bs < rounds
    → last_part rounds (b ∷ bs) ≡ some (after_last bs)
unfolding last_part
last_part_lem zero b bs lt = absurd (omega arith)
last_part_lem (suc rounds) b bs lt = elim (found bs) [
  | inl (lacks, none_there, same) ↦ rw (none_there, last_part) (ap some (sym same))
  | inr (xs, has, there, same, shorter) ↦
      rw (there, last_part) (last_part_lem rounds 0x5c xs (omega arith) ∙ ap some (sym same))
]

-- The loop ends for every name of 1 to 1023 characters. What is printed is the text behind the last
-- backslash of the name without its first character, and where that has none, the name without its
-- first character.
pub program_name_lem :
    (b : ℕ) (bs : List ℕ) → length bs < 1023 → program_name (b ∷ bs) ≡ some (after_last bs)
unfolding program_name
program_name_lem b bs lt = ground (arith, last_part_lem (suc (length bs)) b bs (omega arith))
