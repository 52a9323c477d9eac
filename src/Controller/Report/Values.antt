-- ===== src/Controller/Report/Values.antt =====
-- The values of the report of the controller data that are names, plain numbers, or choices among
-- them, src/NVMeIdentifyControllerData.c.
use nvmetool_win.Base.{
  ℕ, zero, suc, ◌+◌, ◌*◌, ◌/◌, ◌%◌, ◌^◌, Bool, true, false, ◌||◌, List, [], ◌∷◌, ◌++◌, Option, none,
  some, ◌==◌, ltb, if◌then◌else◌, map,
}
use nvmetool_win.Console.Printing.{print_ascii}
use nvmetool_win.Controller.Fields.{
  byte, word, dword, qword, bit, flags, device_self_test, controller_type, thermal_management,
}
use nvmetool_win.Controller.Version.{is_v14_or_later, is_v20_or_later}
use nvmetool_win.Controller.Report.{only}

-- So many bytes from an offset on.
abbrev pub bytes_at : List ℕ → ℕ → ℕ → List ℕ
bytes_at c i zero = []
bytes_at c i (suc n) = byte c i ∷ bytes_at c (i + 1) n

-- SN, MN and FR: copied by strncpy_s up to a NUL, and printed by printASCII.
unfoldable pub names_printed : (ℕ → Bool) → (ℕ → Bool) → List ℕ → List (List ℕ)
unfolding print_ascii
names_printed is_ascii is_control c =
    map (print_ascii is_ascii is_control)
      (bytes_at c 4 20 ∷ bytes_at c 24 40 ∷ bytes_at c 64 8 ∷ [])

-- `1 << n`, where C defines it.
abbrev pub shifted_one : ℕ → Option ℕ
shifted_one n = if ltb n 31 then some (2 ^ n) else none

-- RAB and MDTS.
unfoldable pub exponents : List ℕ → List (ℕ × Option ℕ)
exponents c = map (λ i. (byte c i, shifted_one (byte c i))) (72 ∷ 77 ∷ [])

-- IEEE, from the last byte on.
unfoldable pub ieee : List ℕ → List ℕ
ieee c = map (byte c) (75 ∷ 74 ∷ 73 ∷ [])

-- VID, SSVID, CNTLID, and RTD3R and RTD3E, as they are.
unfoldable pub plain_numbers : List ℕ → List ℕ
plain_numbers c = word c 0 ∷ word c 2 ∷ word c 78 ∷ dword c 84 ∷ dword c 88 ∷ []

-- ACL, AERL, ELPE and NPSS, each with what it means.
unfoldable pub counts : List ℕ → List (ℕ × ℕ)
counts c = map (λ i. (byte c i, byte c i + 1)) (258 ∷ 259 ∷ 262 ∷ 263 ∷ [])

-- CNTRLTYPE, of which the values 0 to 3 have a text.
unfoldable pub cntrltype : List ℕ → ℕ × Bool
unfolding controller_type
cntrltype c = (controller_type c, ltb (controller_type c) 4)

-- FGUID: the sum that decides is overwritten by each byte. The five bytes of the extension, the three
-- of the OUI, and the eight of the vendor.
unfoldable pub fguid : List ℕ → Option (List ℕ × List ℕ × List ℕ)
fguid c =
    if byte c 127 == 0 then none else some (bytes_at c 123 5, bytes_at c 120 3, bytes_at c 112 8)

-- RPMBS: the sizes in bytes and in KiB, and the number of targets.
pub record Rpmb : Type 0 where
  pub access_size : ℕ × ℕ
  pub total_size : ℕ × ℕ
  pub is_hmac : Bool
  pub units : ℕ

unfoldable pub rpmb : List ℕ → Option Rpmb
rpmb c =
    let v = dword c 312 in
    let access = v / 2 ^ 24 in
    let total = v / 2 ^ 16 % 256 in
    if v % 8 == 0
    then none
    else some (record {
      access_size = (access, (access + 1) * 512);
      total_size = (total, (total + 1) * 128);
      is_hmac = v / 8 % 8 == 0;
      units = v % 8;
    })

-- DSTO: of the values other than 0 and 1 nothing is printed.
unfoldable pub dsto : List ℕ → Option (Option Bool)
unfolding device_self_test
dsto c =
    let v = byte c 318 in
    if device_self_test c
    then some (if v == 1 then some true else if v == 0 then some false else none)
    else none

-- The bit of HCTMA.
unfoldable pub hctma : List ℕ → Bool
unfolding thermal_management
hctma c = thermal_management c

-- SANICAP: NODMMAS and bit 29 from NVMe 1.4 on, and the three operations.
unfoldable pub sanicap : List ℕ → Option (Option (ℕ × Bool) × List (ℕ × Bool))
unfolding is_v14_or_later
sanicap c =
    let v = dword c 328 in
    if bit v 2 || (bit v 0 || bit v 1)
    then some (
      (if is_v14_or_later c then some (v / 2 ^ 30, bit v 29) else none),
      flags (2 ∷ 1 ∷ 0 ∷ []) v,
    )
    else none

-- A number, where 0 is printed as a text.
abbrev pub nonzero : ℕ → Option ℕ
nonzero n = if n == 0 then none else some n

-- NSETIDMAX and ENDGIDMAX.
unfoldable pub identifier_limits : List ℕ → ℕ × ℕ
identifier_limits c = (word c 338, word c 340)

unfoldable pub anatt : List ℕ → Option ℕ
anatt c = nonzero (byte c 342)

-- ANAGRPMAX and NANAGRPID.
unfoldable pub group_numbers : List ℕ → Option ℕ × Option ℕ
group_numbers c = (nonzero (dword c 344), nonzero (dword c 348))

-- The domain, where CTRATT.MDS is set.
unfoldable pub domain_id : List ℕ → Option ℕ
domain_id c = if bit (dword c 96) 10 then some (word c 356) else none

unfoldable pub maxcmd : List ℕ → Option ℕ
maxcmd c = nonzero (word c 514)

-- VWC: the behaviour of Flush from NVMe 1.4 on, where a cache is present.
unfoldable pub vwc : List ℕ → Option (Option ℕ)
unfolding is_v14_or_later
vwc c =
    let v = byte c 525 in
    if bit v 0 then some (if is_v14_or_later c then some (v / 2 % 4) else none) else none

unfoldable pub acwu : List ℕ → Option (ℕ × ℕ)
acwu c = if word c 532 == 0 then none else some (word c 532, word c 532 + 1)

-- SGLS, where SGLs are supported: the bits from 21 or 20 on, the recommended number of descriptors from
-- NVMe 2.0 on, the keyed descriptor, and the alignment, of which 3 is not printed.
pub record Sgls : Type 0 where
  pub upper_bits : List (ℕ × Bool)
  pub recommended : Option (Option ℕ)
  pub is_keyed : Bool
  pub alignment : Option ℕ

unfoldable pub sgls : List ℕ → Option Sgls
unfolding is_v14_or_later is_v20_or_later
sgls c =
    let v = dword c 536 in
    if v % 4 == 0
    then none
    else some (record {
      upper_bits = flags (only (is_v14_or_later c) (21 ∷ []) ++ (20 ∷ 19 ∷ 18 ∷ 17 ∷ 16 ∷ [])) v;
      recommended = (if is_v20_or_later c then some (nonzero (v / 2 ^ 8 % 256)) else none);
      is_keyed = bit v 2;
      alignment = (if ltb (v % 4) 3 then some (v % 4) else none);
    })

unfoldable pub mnan : List ℕ → Option ℕ
mnan c = nonzero (dword c 540)

-- MAXDNA: its upper half, where it is not 0, and its lower half.
unfoldable pub maxdna : List ℕ → Option (Option ℕ × ℕ)
maxdna c =
    if qword c 552 == 0
    then (if qword c 544 == 0 then none else some (none, qword c 544))
    else some (some (qword c 552), qword c 544)

unfoldable pub maxcna : List ℕ → Option ℕ
maxcna c = nonzero (dword c 560)

unfoldable pub msdbd : List ℕ → Option ℕ
msdbd c = nonzero (byte c 1803)
