-- ===== src/Controller/Workaround/Match.antt =====
-- Which controllers the workaround is meant for.
use mathlib.Core.List.{append-nil}
use nvmetool_win.Base.{
  not, ◌||◌, if◌then◌else◌, drop, Bool-cases, ◌&&◌, ◌==◌, ℕ, zero, suc, ◌+◌, ◌≤◌, ◌≡◌, ◌↔◌, Bool,
  true, false, List, [], ◌∷◌, ◌++◌, length, refl, arith, ap, inl, inr,
}
use nvmetool_win.Controller.Workaround.{
  codes, copy_text, starts_with, contains, model_number, firmware_revision, needs_workaround,
}

-- Where `part` stands in `text`.
abbrev pub Occurs : List ℕ → List ℕ → Type 0
Occurs part text = (before : List ℕ) × (after : List ℕ) × (text ≡ before ++ (part ++ after))

split_and : (a b : Bool) → a && b ≡ true → (a ≡ true) × (b ≡ true)
split_and a b h = ground arith

starts_with-split :
    (part text : List ℕ) → starts_with part text ≡ true → (after : List ℕ) × (text ≡ part ++ after)
starts_with-split [] text h = (text, refl)
starts_with-split (c ∷ cs) [] h = cc
starts_with-split (c ∷ cs) (d ∷ ds) h =
    let (same, more) = split_and (c == d) (starts_with cs ds) h in
    let (after, e) = starts_with-split cs ds more in (after, ground arith)

starts_with-append : (part after : List ℕ) → starts_with part (part ++ after) ≡ true
starts_with-append [] after = refl
starts_with-append (c ∷ cs) after = ground (arith, starts_with-append cs after)

pub contains-Occurs : (text part : List ℕ) → contains text part ≡ true → Occurs part text
contains-Occurs [] part h = let (after, e) = starts_with-split part [] h in ([], after, e)
contains-Occurs (c ∷ cs) part h = elim (Bool-cases (starts_with part (c ∷ cs))) [
  | inl here ↦ let (after, e) = starts_with-split part (c ∷ cs) here in ([], after, e)
  | inr later ↦
      let (before, after, e) = contains-Occurs cs part (ground arith) in
      (c ∷ before, after, ap (λ t. c ∷ t) e)
]

contains_of_starts_with :
    (text part : List ℕ) → starts_with part text ≡ true → contains text part ≡ true
contains_of_starts_with [] part h = h
contains_of_starts_with (c ∷ cs) part h = ground arith

Occurs-contains : (before part after : List ℕ) → contains (before ++ (part ++ after)) part ≡ true
Occurs-contains [] part after =
    contains_of_starts_with (part ++ after) part (starts_with-append part after)
Occurs-contains (c ∷ cs) part after = ground (arith, Occurs-contains cs part after)

contains_iff : (text part : List ℕ) → (contains text part ≡ true) ↔ Occurs part text
contains_iff text part = (contains-Occurs text part, λ o. rw o.2 (Occurs-contains o.0 part o.1))

nil_of_length : (xs : List ℕ) → length xs ≡ 0 → xs ≡ []
nil_of_length [] h = refl
nil_of_length (x ∷ xs) h = absurd (omega arith)

length-append : (xs ys : List ℕ) → length (xs ++ ys) ≡ length xs + length ys
length-append [] ys = omega arith
length-append (x ∷ xs) ys = omega (arith, length-append xs ys)

-- A text that is no longer than the part it contains is that part.
Occurs-whole : (part text : List ℕ) → length text ≤ length part → Occurs part text → text ≡ part
Occurs-whole part text short (before, after, e) =
    let sizes : length before + (length part + length after) ≤ length part =
      omega (arith, ap length e, length-append before (part ++ after), length-append part after) in
    let no_before : before ≡ [] = nil_of_length before (omega arith) in
    let no_after : after ≡ [] = nil_of_length after (omega arith) in
    rw (e, no_before, no_after) (append-nil part)

length-copy_text : (n : ℕ) (cs : List ℕ) → length (copy_text n cs) ≤ n
length-copy_text zero cs = omega arith
length-copy_text (suc n) [] = omega arith
length-copy_text (suc n) (c ∷ cs) = ground (arith, length-copy_text n cs)

all_three :
    (a b c : Bool)
    → ((if not a || not b || not c then false else true) ≡ true)
      ↔ ((a ≡ true) × (b ≡ true) × (c ≡ true))
all_three a b c = ground arith

abbrev ModelTests : List ℕ → Type 0
ModelTests c =
    (contains (model_number c) (codes "WDC WDS") ≡ true)
    × (contains (model_number c) (codes "2B0C") ≡ true)
    × (contains (firmware_revision c) (codes "211070WD") ≡ true)

tests_iff : (c : List ℕ) → (needs_workaround c ≡ true) ↔ ModelTests c
unfolding needs_workaround
tests_iff c =
    all_three (contains (model_number c) (codes "WDC WDS"))
      (contains (model_number c) (codes "2B0C")) (contains (firmware_revision c) (codes "211070WD"))

-- The workaround is switched on exactly where both marks of the WD SN550 stand in the model number,
-- at any place, and the firmware revision is the text 211070WD as a whole.
pub needs_workaround_iff :
    (c : List ℕ)
    → (needs_workaround c ≡ true) ↔ (
        Occurs (codes "WDC WDS") (model_number c)
        × Occurs (codes "2B0C") (model_number c)
        × (firmware_revision c ≡ codes "211070WD"))
needs_workaround_iff c = (
  λ h.
      let (first, second, third) = (tests_iff c).0 h in
      (
        contains-Occurs (model_number c) (codes "WDC WDS") first,
        contains-Occurs (model_number c) (codes "2B0C") second,
        Occurs-whole (codes "211070WD") (firmware_revision c) (length-copy_text 8 (drop 64 c))
            (contains-Occurs (firmware_revision c) (codes "211070WD") third),
      ),
  λ h. (tests_iff c).1 (
    (contains_iff (model_number c) (codes "WDC WDS")).1 h.0,
    (contains_iff (model_number c) (codes "2B0C")).1 h.1,
    rw h.2 refl,
  ),
)
