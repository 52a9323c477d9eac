-- ===== src/Loops.antt =====
-- A loop that goes through the numbers from i on and collects what it finds at those it keeps.
use nvmetool_win.Base.{
  ℕ, zero, suc, ◌+◌, ◌≡◌, ◌≤◌, ◌<◌, refl, ap, Bool, false, List, [], ◌∷◌, ◌==◌, ◌||◌, arith,
  if◌then◌else◌, Bool-cases, inl, inr, ==_iff,
}

-- Whether a number is among those of a list.
abbrev pub has_number {ℓ} : {A : Type ℓ} → (A → ℕ) → List A → ℕ → Bool
has_number number [] k = false
has_number number (x ∷ xs) k = number x == k || has_number number xs k

module _ {ℓ} {A : Type ℓ} (keeps : ℕ → Bool) (found : ℕ → A) where
  -- The loop, with so many rounds left.
  abbrev pub collect : ℕ → ℕ → List A
  collect zero i = []
  collect (suc rounds) i =
      let rest = collect rounds (i + 1) in if keeps i then found i ∷ rest else rest

  module _ (number : A → ℕ) (numbered : (i : ℕ) → number (found i) ≡ i) where
    before : (rounds i k : ℕ) → k < i → has_number number (collect rounds i) k ≡ false
    before zero i k lt = refl
    before (suc rounds) i k lt = ground (arith, before rounds (i + 1) k (omega arith), numbered i)

    -- Exactly the numbers that the loop keeps are those of the list.
    pub has_number-collect :
        (rounds i k : ℕ) → i ≤ k → k < i + rounds → has_number number (collect rounds i) k ≡ keeps k
    has_number-collect zero i k le lt = absurd (omega arith)
    has_number-collect (suc rounds) i k le lt = elim (Bool-cases (i == k)) [
      | inl e ↦
          ground
            (arith, before rounds (i + 1) k (ground arith), numbered i, ap keeps ((==_iff i k).0 e))
      | inr other ↦
          ground
            (arith, has_number-collect rounds (i + 1) k (ground arith) (omega arith), numbered i)
    ]
