-- ===== src/Namespace/Report/Numbers.antt =====
-- What the numbers of the namespace report mean.
use Prim.Native.Nat.{bit_or, bit_or-bitwise}
use native.Mathlib.Nat.{mul-div-mul_right}
use nvmetool_win.Base.{
  [], ◌∷◌, map, ℕ, zero, suc, ◌+◌, ◌-◌, ◌*◌, ◌/◌, ◌%◌, ◌^◌, ◌≤◌, ◌<◌, ◌≡◌, ◌∙◌, ap, sym, refl, true,
  false, List, some, ◌==◌, ltb, get_or, length, all_below_lem, ==_iff, arith,
}
use nvmetool_win.Controller.Fields.{byte, qword, dword}
use nvmetool_win.Controller.Version.{is_v20_or_later}
use nvmetool_win.Namespace.Report.{
  Data, sizes, current_format, data_size, in_gib, Format, format_at, formats_from, formats,
  capacity_in_gib,
}

split : (n : ℕ) → n < 31 → 2 ^ (30 - n) * 2 ^ n ≡ 2 ^ 30
split n lt =
    (==_iff (2 ^ (30 - n) * 2 ^ n) (2 ^ 30)).0
      (all_below_lem 31 (λ n. 2 ^ (30 - n) * 2 ^ n == 2 ^ 30) refl n lt)

ltb_lem : (a b : ℕ) → ltb a b ≡ true → a < b
ltb_lem a b h = ground arith

positive : (n : ℕ) → n < 31 → 0 < 2 ^ n
positive n lt = ltb_lem 0 (2 ^ n) (all_below_lem 31 (λ n. ltb 0 (2 ^ n)) refl n lt)

-- For a sector of 2 ^ n bytes with n up to 30, the size printed for `x` sectors is their number of bytes
-- in units of 2 ^ 30, rounded down.
pub in_gib_lem : (x n : ℕ) → n ≤ 30 → in_gib x n ≡ some (x * 2 ^ n / 2 ^ 30)
in_gib_lem x n le =
    let shift : x / 2 ^ (30 - n) ≡ x * 2 ^ n / 2 ^ 30 =
      sym (mul-div-mul_right x (2 ^ (30 - n)) (positive n (omega arith)))
      ∙ ap (λ m. x * 2 ^ n / m) (split n (omega arith)) in
    ground (arith, shift)

length-formats_from : (ns : List ℕ) (rounds i : ℕ) → length (formats_from ns rounds i) ≡ rounds
unfolding formats_from
length-formats_from ns zero i = refl
length-formats_from ns (suc rounds) i = ap suc (length-formats_from ns rounds (i + 1))

formats_from_at :
    (ns : List ℕ) (rounds i k : ℕ) (d : Format)
    → k < rounds
    → get_or (formats_from ns rounds i) k d ≡ format_at ns (i + k)
unfolding formats_from
formats_from_at ns zero i k d lt = absurd (omega arith)
formats_from_at ns (suc rounds) i zero d lt = ap (format_at ns) (omega arith)
formats_from_at ns (suc rounds) i (suc k) d lt =
    formats_from_at ns rounds (i + 1) k d (omega arith) ∙ ap (format_at ns) (omega arith)

same_exponent : (ns : List ℕ) (k : ℕ) → (format_at ns k).size_exponent ≡ data_size ns k
unfolding format_at
same_exponent ns k = refl

format_bound : (d : Data) → current_format d < 64
unfolding current_format
format_bound (c, ns) = ground arith

-- The three sizes are computed with the data size of the current format.
sizes_lem :
    (c ns : List ℕ) (n : ℕ)
    → n ≡ data_size ns (current_format (c, ns))
    → n ≤ 30
    → sizes (c, ns) ≡ map (λ k. (qword ns k, some (qword ns k * 2 ^ n / 2 ^ 30))) (0 ∷ 8 ∷ 16 ∷ [])
unfolding sizes
sizes_lem c ns n same le =
    rw
      (
        sym same,
        in_gib_lem (qword ns 0) n le,
        in_gib_lem (qword ns 8) n le,
        in_gib_lem (qword ns 16) n le,
      )
      refl

-- The data size that the report lists for a format is that of its entry.
listed_size :
    (ns : List ℕ) (i : ℕ) (d : Format)
    → i < length (formats ns)
    → (get_or (formats ns) i d).size_exponent ≡ data_size ns i
unfolding formats
listed_size ns i d lt =
    let n = byte ns 25 + 1 in
    ap (λ f. f.size_exponent)
      (formats_from_at ns n 0 i d (omega (arith, length-formats_from ns n 0, lt)))
    ∙ same_exponent ns (0 + i)
    ∙ ap (data_size ns) (omega arith)

-- The current format is one of 64, so that its entry lies before the reserved bytes from 384 on, and,
-- before NVMe 2.0, one of 16. The report lists as many formats as NLBAF counts. Where the current one is
-- among them, with sectors of 2 ^ n bytes and n up to 30, the sizes printed for NSZE, NCAP and NUSE
-- are these numbers of its sectors in units of 2 ^ 30 bytes, rounded down.
pub current_format_lem :
    (c ns : List ℕ) (d : Format)
    → let i = current_format (c, ns) in
      (i < 64)
      × (is_v20_or_later c ≡ false → i < 16)
      × (length (formats ns) ≡ byte ns 25 + 1)
      × (i < length (formats ns)
          → let n = (get_or (formats ns) i d).size_exponent in
            (n ≡ data_size ns i)
            × (n ≤ 30
                → sizes (c, ns)
                  ≡ map (λ k. (qword ns k, some (qword ns k * 2 ^ n / 2 ^ 30))) (0 ∷ 8 ∷ 16 ∷ [])))
unfolding current_format formats
current_format_lem c ns d =
    let i = current_format (c, ns) in
    (
      format_bound (c, ns),
      (λ h. ground arith),
      length-formats_from ns (byte ns 25 + 1) 0,
      (λ lt.
          let same = listed_size ns i d lt in
          let n = (get_or (formats ns) i d).size_exponent in
          (same, λ le. sizes_lem c ns n same le)),
    )

zero_or : (n : ℕ) → bit_or 0 n ≡ n
zero_or n = bit_or-bitwise 0 n

dword_bound : (ns : List ℕ) (i : ℕ) → dword ns i < 2 ^ 32
dword_bound ns i = omega arith

qword_bound : (ns : List ℕ) (i : ℕ) → qword ns i < 2 ^ 64
qword_bound ns i = omega (arith, dword_bound ns i, dword_bound ns (i + 4))

in_fours :
    (n : ℕ)
    → n < 2 ^ 64
    → let printed = n / 2 ^ 32 * 2 ^ 2 % 2 ^ 64 in
      (printed ≤ n / 2 ^ 30) × (n / 2 ^ 30 < printed + 4) × (printed % 4 ≡ 0)
in_fours n lt = (omega arith, omega arith, omega arith)

-- A capacity below 2 ^ 64 bytes is printed in units of 2 ^ 30 rounded down to a multiple of 4.
pub capacity_in_gib_lem :
    (ns : List ℕ)
    → qword ns 56 ≡ 0
    → let printed = capacity_in_gib ns in
      let exact = qword ns 48 / 2 ^ 30 in
      (printed ≤ exact) × (exact < printed + 4) × (printed % 4 ≡ 0)
unfolding capacity_in_gib
capacity_in_gib_lem ns h =
    rw (h, zero_or (qword ns 48 / 2 ^ 32 * 2 ^ 2 % 2 ^ 64))
      (in_fours (qword ns 48) (qword_bound ns 48))
