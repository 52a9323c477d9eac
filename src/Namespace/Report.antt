-- ===== src/Namespace/Report.antt =====
-- The report of the namespace data, printNVMeIdentifyNamespaceData of src/NVMeIdentifyNamespace.c: the
-- values that are printed, without their texts. Bit fields are filled from the lowest bit.
pub mod Numbers
use Prim.Native.Nat.{bit_or}
use nvmetool_win.Base.{
  ℕ, zero, suc, ◌+◌, ◌-◌, ◌*◌, ◌/◌, ◌%◌, ◌^◌, Bool, true, false, List, [], ◌∷◌, ◌++◌, Option, none,
  some, not, ◌==◌, leb, ltb, if◌then◌else◌, take, drop, map,
}
use nvmetool_win.Controller.Fields.{
  byte, word, dword, qword, bit, flags, reservations_supported, ana_report, nvm_sets,
  endurance_groups,
}
use nvmetool_win.Controller.Version.{is_v14_or_later, is_v20_or_later}

-- The controller's data and the namespace's.
abbrev pub Data : Type 0
Data = List ℕ × List ℕ

-- FLBAS: LbaFormatIndex, and NlbafMsb from NVMe 2.0 on.
unfoldable pub current_format : Data → ℕ
unfolding is_v20_or_later
current_format (c, ns) =
    if is_v20_or_later c then byte ns 26 / 2 ^ 5 % 4 * 16 + byte ns 26 % 16 else byte ns 26 % 16

-- LBAF[i].LBADS, bits 23:16 of the format.
abbrev pub data_size : List ℕ → ℕ → ℕ
data_size ns i = byte ns (128 + 4 * i + 2)

-- `x >> (30 - n)`: for n above 30 the unsigned difference is no shift that C defines.
abbrev pub in_gib : ℕ → ℕ → Option ℕ
in_gib x n = if leb n 30 then some (x / 2 ^ (30 - n)) else none

-- NSZE, NCAP and NUSE, each with the size that is printed for it.
unfoldable pub sizes : Data → List (ℕ × Option ℕ)
unfolding current_format
sizes (c, ns) =
    let n = data_size ns (current_format (c, ns)) in
    map (λ i. (qword ns i, in_gib (qword ns i) n)) (0 ∷ 8 ∷ 16 ∷ [])

-- NSFEAT; OptPerf only from NVMe 1.4 on.
unfoldable pub feature_flags : Data → List (ℕ × Bool)
unfolding is_v14_or_later
feature_flags (c, ns) =
    flags ((if is_v14_or_later c then 4 ∷ [] else []) ++ (3 ∷ 2 ∷ 1 ∷ 0 ∷ [])) (byte ns 24)

-- NLBAF and the number of formats; FLBAS: its upper two bits from NVMe 2.0 on, bit 4, the lower four
-- bits, and the number of the format.
unfoldable pub formatted_size : Data → (ℕ × ℕ) × Option ℕ × Bool × ℕ × ℕ
unfolding is_v20_or_later current_format
formatted_size (c, ns) = (
  (byte ns 25, byte ns 25 + 1),
  (if is_v20_or_later c then some (byte ns 26 / 2 ^ 5 % 4) else none),
  bit (byte ns 26) 4,
  (if is_v20_or_later c then byte ns 26 % 16 else current_format (c, ns)),
  current_format (c, ns),
)

-- MC, DPC, the upper bit of DPS, its type (3 for every value above 2), and NMIC.
unfoldable pub protection : List ℕ → List (ℕ × Bool) × List (ℕ × Bool) × Bool × ℕ × Bool
protection ns =
    let enabled = byte ns 29 % 8 in
    (
      flags (1 ∷ 0 ∷ []) (byte ns 27),
      flags (4 ∷ 3 ∷ 2 ∷ 1 ∷ 0 ∷ []) (byte ns 28),
      bit (byte ns 29) 3,
      (if ltb enabled 3 then enabled else 3),
      bit (byte ns 30) 0,
    )

-- RESCAP: nothing, a value that contradicts the controller's data, or the bits.
pub data Reservations : Type 0 where
  no_reservations : Reservations
  conflicting : ℕ → Reservations
  capabilities : List (ℕ × Bool) → Reservations

unfoldable pub reservations : Data → Reservations
unfolding reservations_supported
reservations (c, ns) =
    if not (reservations_supported c)
    then (if byte ns 31 == 0 then no_reservations else conflicting (byte ns 31))
    else capabilities (flags (7 ∷ 6 ∷ 5 ∷ 4 ∷ 3 ∷ 2 ∷ 1 ∷ 0 ∷ []) (byte ns 31))

-- FPI: the percentage that remains, where it is supported.
unfoldable pub format_progress : List ℕ → Option ℕ
format_progress ns = if bit (byte ns 32) 7 then some (byte ns 32 % 2 ^ 7) else none

-- DLFEAT: two bits, and the read behaviour where it is one of the three that are known.
unfoldable pub deallocation : List ℕ → Bool × Bool × Option ℕ
deallocation ns =
    let behaviour = byte ns 33 % 8 in
    (bit (byte ns 33) 4, bit (byte ns 33) 3, (if ltb behaviour 3 then some behaviour else none))

-- A number of sectors less one, whose 0 is printed as a text.
abbrev pub sectors : ℕ → Option (ℕ × ℕ)
sectors n = if n == 0 then none else some (n, n + 1)

-- NAWUN, NAWUPF, NACWU, NABSN, NABSPF and NOIOB. (NABO is printed as it is.)
unfoldable pub atomic_units : List ℕ → List (Option (ℕ × ℕ))
atomic_units ns = map (λ i. sectors (word ns i)) (34 ∷ 36 ∷ 38 ∷ 40 ∷ 44 ∷ 46 ∷ [])

-- NPWG, NPWA, NPDG, NPDA and NOWS: from NVMe 1.4 on, with a number where OptPerf is set.
unfoldable pub preferred : Data → List (Option (ℕ × ℕ))
unfolding is_v14_or_later
preferred (c, ns) =
    if not (is_v14_or_later c)
    then []
    else map (λ i. if bit (byte ns 24) 4 then some (word ns i, word ns i + 1) else none)
        (64 ∷ 66 ∷ 68 ∷ 70 ∷ 72 ∷ [])

-- MSSRL, MCL, and MSRC with its number of entries.
unfoldable pub copy_limits : Data → Option (ℕ × ℕ × ℕ × ℕ)
unfolding is_v20_or_later
copy_limits (c, ns) =
    if is_v20_or_later c then some (word ns 74, dword ns 76, byte ns 80, byte ns 80 + 1) else none

-- `(NVMCAP_H << 32) | ((NVMCAP_L >> 32) << 2)` on 64 bits
unfoldable pub capacity_in_gib : List ℕ → ℕ
capacity_in_gib ns = bit_or (qword ns 56 * 2 ^ 32 % 2 ^ 64) (qword ns 48 / 2 ^ 32 * 2 ^ 2 % 2 ^ 64)

-- A field that the controller must support.
abbrev pub if_set : Bool → ℕ → Option ℕ
if_set b n = if b then some n else none

-- What is printed from NVMe 1.4 on: ANAGRPID, "write protected" by the bit OptPerf of NSFEAT,
-- NVMSETID and ENDGID.
unfoldable pub identifiers : Data → Option (Option ℕ × Bool × Option ℕ × Option ℕ)
unfolding is_v14_or_later ana_report nvm_sets endurance_groups
identifiers (c, ns) =
    if is_v14_or_later c
    then some (
      if_set (ana_report c) (dword ns 92),
      bit (byte ns 24) 4,
      if_set (nvm_sets c) (word ns 100),
      if_set (endurance_groups c) (word ns 102),
    )
    else none

-- NGUID in its three groups and EUI64 in its two, in the order in which the bytes are printed.
unfoldable pub unique_identifiers : List ℕ → List (List ℕ)
unique_identifiers ns =
    let nguid = drop 104 ns in
    let eui = drop 120 ns in
    take 5 (drop 11 nguid)
    ∷ take 3 (drop 8 nguid)
    ∷ take 8 nguid
    ∷ take 5 (drop 3 eui)
    ∷ take 3 eui
    ∷ []

-- A format: RP in bits 25:24, LBADS in bits 23:16 with the bytes of a sector, `1 << LBADS` where that
-- is a shift of a 32-bit `int` that C defines, and MS in bits 15:0.
pub record Format : Type 0 where
  pub performance : ℕ
  pub size_exponent : ℕ
  pub sector_bytes : Option ℕ
  pub metadata_bytes : ℕ

unfoldable pub format_at : List ℕ → ℕ → Format
format_at ns i =
    let n = data_size ns i in
    record {
      performance = byte ns (128 + 4 * i + 3) % 4;
      size_exponent = n;
      sector_bytes = (if leb n 30 then some (2 ^ n) else none);
      metadata_bytes = word ns (128 + 4 * i);
    }

-- The loop over the formats, with so many rounds left.
unfoldable pub formats_from : List ℕ → ℕ → ℕ → List Format
unfolding format_at
formats_from ns zero i = []
formats_from ns (suc rounds) i = format_at ns i ∷ formats_from ns rounds (i + 1)

-- `i < NLBAF + 1`
unfoldable pub formats : List ℕ → List Format
unfolding formats_from
formats ns = formats_from ns (byte ns 25 + 1) 0
