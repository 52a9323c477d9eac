-- ===== src/Controller/Report/Capacity.antt =====
-- What the capacities of the report mean.
use Prim.Native.Nat.{bit_or, bit_or-bitwise, digits, max}
use nvmetool_win.Base.{
  none, if◌then◌else◌, ℕ, zero, suc, ◌+◌, ◌*◌, ◌/◌, ◌%◌, ◌^◌, ◌≤◌, ◌<◌, ◌≡◌, ◌∙◌, ap, refl, true,
  List, some, ◌==◌, arith,
}
use nvmetool_win.Controller.Fields.{qword, endurance_groups}
use nvmetool_win.Controller.Report.{capacity, unallocated_capacity, group_capacity}

-- Alternatives of binary digits, with `n` digits to go.
abbrev or_digits : ℕ → ℕ → ℕ → ℕ
or_digits n a b = digits (λ b. b) max n a b

max_zero : (n : ℕ) → max n 0 ≡ n
max_zero n = omega arith

or_digits_zero : (n a : ℕ) → a ≤ n → or_digits n a 0 ≡ a
or_digits_zero zero zero le = refl
or_digits_zero zero (suc a) le = absurd (omega (arith, le))
or_digits_zero (suc n) zero le = refl
or_digits_zero (suc n) (suc a) le =
    let before = or_digits_zero n (suc a / 2) (omega arith) in
    (λ i. before i * 2 + max_zero (suc a % 2) i) ∙ omega arith

or_digits_none : (n b : ℕ) → or_digits n 0 b ≡ b
or_digits_none zero b = refl
or_digits_none (suc n) b = refl

double_power : (k : ℕ) → 2 ^ suc k ≡ 2 ^ k * 2
double_power k = omega arith

double : (h k : ℕ) → h * 2 ^ suc k ≡ h * 2 ^ k * 2
double h k = ap (λ n. h * n) (double_power k) ∙ omega arith

-- A multiple of 2 ^ k and a number below it have no digit in common.
or_digits_lem : (k n h a b : ℕ) → a ≡ h * 2 ^ k → a ≤ n → b < 2 ^ k → or_digits n a b ≡ a + b
or_digits_lem zero n h a zero eq le lt = or_digits_zero n a le ∙ omega arith
or_digits_lem zero n h a (suc b) eq le lt = absurd (omega (arith, lt))
or_digits_lem (suc k) n h zero b eq le lt = or_digits_none n b ∙ omega arith
or_digits_lem (suc k) zero h (suc a) b eq le lt = absurd (omega (arith, le))
or_digits_lem (suc k) (suc n) h (suc a) b eq le lt =
    let whole : suc a ≡ h * 2 ^ k * 2 = eq ∙ double h k in
    let half : suc a / 2 ≡ h * 2 ^ k = omega (arith, whole) in
    let even : suc a % 2 ≡ 0 = omega (arith, whole) in
    let before =
      or_digits_lem k n h (suc a / 2) (b / 2) half (omega arith)
        (omega (arith, lt, double_power k)) in
    (λ i. before i * 2 + max (even i) (b % 2)) ∙ omega (arith, even)

bit_or_lem : (k h b : ℕ) → b < 2 ^ k → bit_or (h * 2 ^ k) b ≡ h * 2 ^ k + b
bit_or_lem k h b lt =
    bit_or-bitwise (h * 2 ^ k) b ∙ or_digits_lem k (h * 2 ^ k) h (h * 2 ^ k) b refl (omega arith) lt

qword_bound : (c : List ℕ) (i : ℕ) → qword c i < 2 ^ 64
qword_bound c i = omega arith

-- The sixteen bytes of a capacity as one number.
abbrev pub bytes : List ℕ → ℕ → ℕ
bytes c i = qword c (i + 8) * 2 ^ 64 + qword c i

joined_in_gib :
    (h l : ℕ)
    → l < 2 ^ 64
    → h * 2 ^ 64 + l < 2 ^ 94
    → bit_or (h * 2 ^ 34 % 2 ^ 64) (l / 2 ^ 30) ≡ (h * 2 ^ 64 + l) / 2 ^ 30
joined_in_gib h l bound lt =
    let fits : h * 2 ^ 34 % 2 ^ 64 ≡ h * 2 ^ 34 = omega arith in
    ap (λ n. bit_or n (l / 2 ^ 30)) fits ∙ bit_or_lem 34 h (l / 2 ^ 30) (omega arith) ∙ omega arith

-- A capacity below 2 ^ 94 bytes is shown in GiB, rounded down, and 0 as a text.
capacity_lem :
    (c : List ℕ) (i : ℕ)
    → bytes c i < 2 ^ 94
    → capacity c i i ≡ (if bytes c i == 0 then none else some (bytes c i / 2 ^ 30))
capacity_lem c i lt =
    let shown : bit_or (qword c (i + 8) * 2 ^ 34 % 2 ^ 64) (qword c i / 2 ^ 30)
        ≡ bytes c i / 2 ^ 30 =
      joined_in_gib (qword c (i + 8)) (qword c i) (qword_bound c i) lt in
    ground (arith, shown)

-- An unallocated capacity of 0 bytes is shown as a text, and any other one below 2 ^ 94 bytes, of which
-- the upper and the lower half are read and joined on 64 bits, as its number of bytes in units of
-- 2 ^ 30, rounded down.
pub unallocated_capacity_lem :
    (c : List ℕ)
    → bytes c 296 < 2 ^ 94
    → unallocated_capacity c ≡ (if bytes c 296 == 0 then none else some (bytes c 296 / 2 ^ 30))
unfolding unallocated_capacity
unallocated_capacity_lem c lt = capacity_lem c 296 lt

group_capacity_lem :
    (c : List ℕ)
    → bytes c 368 < 2 ^ 94
    → endurance_groups c ≡ true
    → group_capacity c ≡ some (if bytes c 368 == 0 then none else some (bytes c 368 / 2 ^ 30))
unfolding group_capacity
group_capacity_lem c lt groups = rw (groups, capacity_lem c 368 lt) refl
