-- ===== src/Controller/Report.antt =====
-- The report of the controller data, src/NVMeIdentifyControllerData.c: the values that are printed for
-- the fields, without their texts, at the offsets of src/NVMeIdentifyController.h. Bit fields are
-- filled from the lowest bit, and a set of bits is printed from the highest on.
pub mod Subnqn
pub mod Capacity
pub mod Bits
pub mod Guards
pub mod Values
pub mod PowerStates
pub mod Order
use Prim.Native.Nat.{bit_or}
use nvmetool_win.Base.{
  ℕ, ◌+◌, ◌*◌, ◌/◌, ◌%◌, ◌^◌, Bool, List, [], ◌∷◌, ◌++◌, Option, none, some, ℤ, not, ◌==◌, ◌||◌,
  if◌then◌else◌, map,
}
use nvmetool_win.Controller.Fields.{
  byte, word, dword, qword, bit, flags, device_self_test, thermal_management, endurance_groups,
}
use nvmetool_win.Controller.Version.{is_v13_or_later, is_v14_or_later, is_v20_or_later}
use nvmetool_win.Smart.Report.{celsius}

-- Bits that are only printed from a version on.
abbrev pub only : Bool → List ℕ → List ℕ
only b ks = if b then ks else []

unfoldable pub cmic : List ℕ → List (ℕ × Bool)
unfolding is_v14_or_later
cmic c = flags (only (is_v14_or_later c) (3 ∷ []) ++ (2 ∷ 1 ∷ 0 ∷ [])) (byte c 76)

unfoldable pub oaes : List ℕ → List (ℕ × Bool)
unfolding is_v14_or_later is_v20_or_later
oaes c =
    flags
      (only (is_v20_or_later c) (31 ∷ 27 ∷ 15 ∷ [])
        ++ (only (is_v14_or_later c) (14 ∷ 13 ∷ 12 ∷ 11 ∷ []) ++ (9 ∷ 8 ∷ [])))
      (dword c 92)

-- Bit 1 is tested for NVMe 1.4 too, where a comment has 1.3.
unfoldable pub ctratt : List ℕ → List (ℕ × Bool)
unfolding is_v14_or_later is_v20_or_later
ctratt c =
    flags
      (only (is_v20_or_later c) (15 ∷ 14 ∷ 13 ∷ 12 ∷ 11 ∷ 10 ∷ [])
        ++ (only (is_v14_or_later c) (9 ∷ 8 ∷ 7 ∷ 6 ∷ 5 ∷ 4 ∷ 3 ∷ 2 ∷ [])
            ++ (only (is_v14_or_later c) (1 ∷ []) ++ (0 ∷ []))))
      (dword c 96)

-- The recovery levels are printed from the lowest on.
unfoldable pub rrls : List ℕ → List (ℕ × Bool)
rrls c =
    flags (0 ∷ 1 ∷ 2 ∷ 3 ∷ 4 ∷ 5 ∷ 6 ∷ 7 ∷ 8 ∷ 9 ∷ 10 ∷ 11 ∷ 12 ∷ 13 ∷ 14 ∷ 15 ∷ []) (word c 100)

-- A number and what it means in its unit.
abbrev pub scaled : ℕ → ℕ → ℕ × ℕ
scaled n unit = (n, n * unit)

-- The same, where 0 is printed as a text. The product is one of 32 bits.
abbrev pub in_units : ℕ → ℕ → Option (ℕ × ℕ)
in_units n unit = if n == 0 then none else some (n, n * unit % 2 ^ 32)

unfoldable pub retry_delays : List ℕ → List (ℕ × ℕ)
retry_delays c = map (λ i. scaled (word c i) 100) (128 ∷ 130 ∷ 132 ∷ [])

unfoldable pub nvmsr : List ℕ → List (ℕ × Bool)
nvmsr c = flags (1 ∷ 0 ∷ []) (byte c 253)

unfoldable pub vwci : List ℕ → Option ℕ
vwci c = if bit (byte c 254) 7 then some (byte c 254 % 2 ^ 7) else none

unfoldable pub mec : List ℕ → List (ℕ × Bool)
mec c = flags (1 ∷ 0 ∷ []) (byte c 255)

unfoldable pub oacs : List ℕ → List (ℕ × Bool)
unfolding is_v13_or_later is_v14_or_later is_v20_or_later
oacs c =
    flags
      (only (is_v20_or_later c) (10 ∷ [])
        ++ (only (is_v14_or_later c) (9 ∷ [])
            ++ (only (is_v13_or_later c) (8 ∷ 7 ∷ 6 ∷ 5 ∷ 4 ∷ []) ++ (3 ∷ 2 ∷ 1 ∷ 0 ∷ []))))
      (word c 256)

-- The two upper bits, the number of slots, and whether the first is read only.
unfoldable pub frmw : List ℕ → List (ℕ × Bool) × ℕ × Bool
unfolding is_v20_or_later
frmw c = (
  flags (only (is_v20_or_later c) (5 ∷ []) ++ (4 ∷ [])) (byte c 260),
  byte c 260 / 2 % 8,
  bit (byte c 260) 0,
)

unfoldable pub lpa : List ℕ → List (ℕ × Bool)
unfolding is_v13_or_later is_v14_or_later is_v20_or_later
lpa c =
    flags
      (only (is_v20_or_later c) (6 ∷ 5 ∷ [])
        ++ (only (is_v14_or_later c) (4 ∷ [])
            ++ (only (is_v13_or_later c) (3 ∷ []) ++ (2 ∷ 1 ∷ 0 ∷ []))))
      (byte c 261)

-- A temperature in Kelvin and Celsius, where it is reported.
abbrev pub kelvin : ℕ → Option (ℕ × ℤ)
kelvin k = if k == 0 then none else some (k, celsius k)

-- WCTEMP and CCTEMP
unfoldable pub limits : List ℕ → List (Option (ℕ × ℤ))
unfolding celsius
limits c = map (λ i. kelvin (word c i)) (266 ∷ 268 ∷ [])

unfoldable pub mtfa : List ℕ → Option (ℕ × ℕ)
mtfa c = in_units (word c 270) 100

-- HMPRE and HMMIN, in KiB.
unfoldable pub memory_sizes : List ℕ → List (Option (ℕ × ℕ))
memory_sizes c = map (λ i. in_units (dword c i) 4) (272 ∷ 276 ∷ [])

-- EDSTT, in minutes.
unfoldable pub edstt : List ℕ → Option ℕ
unfolding device_self_test
edstt c = if device_self_test c then some (word c 316) else none

-- FWUG: FFh and 0 are printed as texts; otherwise in KiB.
unfoldable pub fwug : List ℕ → Option (ℕ × ℕ)
fwug c = if byte c 319 == 0xff || byte c 319 == 0 then none else some (byte c 319, byte c 319 * 4)

unfoldable pub kas : List ℕ → Option (ℕ × ℕ)
kas c = in_units (word c 320) 100

-- MNTMT and MXTMT: both are printed where the feature is supported and MNTMT is not 0.
unfoldable pub thermal_limits : List ℕ → Option (ℕ × ℤ) × Option (ℕ × ℤ)
unfolding thermal_management celsius
thermal_limits c =
    if not (thermal_management c) || word c 324 == 0
    then (none, none)
    else (some (word c 324, celsius (word c 324)), some (word c 326, celsius (word c 326)))

-- HMMINDS in KiB; HMMAXD, for which the number of HMMINDS is printed.
unfoldable pub descriptors : List ℕ → Option (ℕ × ℕ) × Option ℕ
descriptors c = (in_units (dword c 332) 4, (if word c 336 == 0 then none else some (dword c 332)))

unfoldable pub anacap : List ℕ → List (ℕ × Bool)
anacap c = flags (7 ∷ 6 ∷ 4 ∷ 3 ∷ 2 ∷ 1 ∷ 0 ∷ []) (byte c 343)

unfoldable pub pels : List ℕ → Option (ℕ × ℕ)
pels c = in_units (dword c 352) 64

-- A capacity in GiB: of the lower half at `lower` where the upper one is 0, and otherwise of the 16
-- bytes at `shown`, on 64 bits.
abbrev pub capacity : List ℕ → ℕ → ℕ → Option ℕ
capacity c lower shown =
    if qword c (lower + 8) == 0
    then (if qword c lower == 0 then none else some (qword c lower / 2 ^ 30))
    else some (bit_or (qword c (shown + 8) * 2 ^ 34 % 2 ^ 64) (qword c shown / 2 ^ 30))

-- TNVMCAP, whose upper half only decides: the number is that of UNVMCAP.
unfoldable pub total_capacity : List ℕ → Option ℕ
total_capacity c = capacity c 280 296

unfoldable pub unallocated_capacity : List ℕ → Option ℕ
unallocated_capacity c = capacity c 296 296

-- MEGCAP, where there are endurance groups.
unfoldable pub group_capacity : List ℕ → Option (Option ℕ)
unfolding endurance_groups
group_capacity c = if endurance_groups c then some (capacity c 368 368) else none

-- SQES and CQES: the maximum and the required size, as exponents and in bytes.
abbrev pub entry_sizes : ℕ → (ℕ × ℕ) × (ℕ × ℕ)
entry_sizes b = ((b / 16, 2 ^ (b / 16)), (b % 16, 2 ^ (b % 16)))

unfoldable pub queue_entries : List ℕ → List ((ℕ × ℕ) × (ℕ × ℕ))
queue_entries c = map (λ i. entry_sizes (byte c i)) (512 ∷ 513 ∷ [])

unfoldable pub oncs : List ℕ → List (ℕ × Bool)
unfolding is_v13_or_later is_v14_or_later is_v20_or_later
oncs c =
    flags
      (only (is_v20_or_later c) (8 ∷ [])
        ++ (only (is_v14_or_later c) (7 ∷ [])
            ++ (only (is_v13_or_later c) (6 ∷ []) ++ (5 ∷ 4 ∷ 3 ∷ 2 ∷ 1 ∷ 0 ∷ []))))
      (word c 520)

unfoldable pub fna : List ℕ → List (ℕ × Bool)
unfolding is_v20_or_later
fna c = flags (only (is_v20_or_later c) (3 ∷ []) ++ (2 ∷ 1 ∷ 0 ∷ [])) (byte c 524)

-- AWUN, where FFFFh is printed as a text, and AWUPF.
unfoldable pub write_units : List ℕ → Option (ℕ × ℕ) × (ℕ × ℕ)
write_units c = (
  (if word c 526 == 0xffff then none else some (word c 526, word c 526 + 1)),
  (word c 528, word c 528 + 1),
)

unfoldable pub nwpc : List ℕ → List (ℕ × Bool)
nwpc c = flags (2 ∷ 1 ∷ 0 ∷ []) (byte c 531)

-- AVSCC and APSTA: of each the lowest bit.
unfoldable pub single_bits : List ℕ → Bool × Bool
single_bits c = (bit (byte c 264) 0, bit (byte c 265) 0)

unfoldable pub fuses : List ℕ → Bool
fuses c = bit (byte c 522) 0

unfoldable pub icsvscc : List ℕ → Bool
icsvscc c = bit (byte c 530) 0

unfoldable pub ocfs : List ℕ → Bool
ocfs c = bit (byte c 534) 0

unfoldable pub fcatt : List ℕ → Bool
fcatt c = bit (byte c 1802) 0

unfoldable pub ofcs : List ℕ → Bool
ofcs c = bit (byte c 1804) 0

-- IOCCSZ, IORCSZ and ICDOFF, in bytes. The products of the first two are ones of 32 bits.
unfoldable pub capsules : List ℕ → List (ℕ × ℕ)
capsules c =
    (dword c 1792, dword c 1792 * 16 % 2 ^ 32)
    ∷ (dword c 1796, dword c 1796 * 16 % 2 ^ 32)
    ∷ scaled (word c 1800) 16
    ∷ []
