-- ===== src/Controller/Report/Bits.antt =====
-- The bits of the report and the declaration of the structure.
use Prim.Native.String.{String}
use nvmetool_win.Base.{
  ℕ, ◌≡◌, refl, Bool, true, false, not, ◌&&◌, List, [], ◌∷◌, ◌++◌, if◌then◌else◌, arith,
}
use nvmetool_win.Controller.Fields.{flags, dword}
use nvmetool_win.Controller.Layout.{places, declared_flags, has, placed, unit_of, fields_of}
use nvmetool_win.Controller.Structure.{structure}
use nvmetool_win.Controller.Version.{is_v13_or_later, is_v14_or_later, is_v20_or_later}
use nvmetool_win.Controller.Report.{
  cmic, oaes, ctratt, nvmsr, mec, oacs, frmw, lpa, anacap, oncs, fna, nwpc, only,
}

-- The bits of a member that the controller's revision has, with their values.
abbrev pub shown : List ℕ → String → List (ℕ × Bool)
shown c f =
    declared_flags (has (is_v13_or_later c) (is_v14_or_later c) (is_v20_or_later c)) c f
      (placed 0 (structure 32 4))

v14-v13 : (c : List ℕ) → is_v14_or_later c ≡ true → is_v13_or_later c ≡ true
unfolding is_v13_or_later is_v14_or_later
v14-v13 c h = ground arith

-- The places printed for CTRATT, where a revision has its bit 1 and does not print it.
abbrev pub without_bit_1 : Bool → List ℕ
without_bit_1 v20 = only v20 (15 ∷ 14 ∷ 13 ∷ 12 ∷ 11 ∷ 10 ∷ []) ++ (0 ∷ [])

ctratt_at :
    (v13 v14 v20 : Bool) (v : ℕ)
    → (v14 ≡ true → v13 ≡ true)
    → flags
        (only v20 (15 ∷ 14 ∷ 13 ∷ 12 ∷ 11 ∷ 10 ∷ [])
          ++ (only v14 (9 ∷ 8 ∷ 7 ∷ 6 ∷ 5 ∷ 4 ∷ 3 ∷ 2 ∷ []) ++ (only v14 (1 ∷ []) ++ (0 ∷ []))))
        v
      ≡ (if v13 && not v14
          then flags (without_bit_1 v20) v
          else flags
              (places (has v13 v14 v20) 0 (fields_of "CTRATT" (placed 0 (structure 32 4))))
              v)
unfolding placed fields_of structure
ctratt_at false false false v later = refl
ctratt_at false false true v later = refl
ctratt_at false true false v later = let e = later refl in cc
ctratt_at false true true v later = let e = later refl in cc
ctratt_at true false false v later = refl
ctratt_at true false true v later = refl
ctratt_at true true false v later = refl
ctratt_at true true true v later = refl

module _ (c : List ℕ) where
  cmic-shown : cmic c ≡ shown c "CMIC"
  unfolding cmic placed unit_of fields_of structure
  cmic-shown = ground arith

  oaes-shown : oaes c ≡ shown c "OAES"
  unfolding oaes placed unit_of fields_of structure
  oaes-shown = ground arith

  nvmsr-shown : nvmsr c ≡ shown c "NVMSR"
  unfolding nvmsr placed unit_of fields_of structure
  nvmsr-shown = ground arith

  mec-shown : mec c ≡ shown c "MEC"
  unfolding mec placed unit_of fields_of structure
  mec-shown = ground arith

  oacs-shown : oacs c ≡ shown c "OACS"
  unfolding oacs placed unit_of fields_of structure
  oacs-shown = ground arith

  lpa-shown : lpa c ≡ shown c "LPA"
  unfolding lpa placed unit_of fields_of structure
  lpa-shown = ground arith

  anacap-shown : anacap c ≡ shown c "ANACAP"
  unfolding anacap placed unit_of fields_of structure
  anacap-shown = ground arith

  oncs-shown : oncs c ≡ shown c "ONCS"
  unfolding oncs placed unit_of fields_of structure
  oncs-shown = ground arith

  fna-shown : fna c ≡ shown c "FNA"
  unfolding fna placed unit_of fields_of structure
  fna-shown = ground arith

  nwpc-shown : nwpc c ≡ shown c "NWPC"
  unfolding nwpc placed unit_of fields_of structure
  nwpc-shown = ground arith

  -- FRMW, whose lowest bit is printed behind the number of slots.
  frmw-shown : (frmw c).0 ++ (0, (frmw c).2) ∷ [] ≡ shown c "FRMW"
  unfolding frmw placed unit_of fields_of structure
  frmw-shown = ground arith

  -- Bit 1 of CTRATT is marked for NVMe 1.3 and printed from NVMe 1.4 on.
  ctratt-shown : ctratt c ≡ (
      if is_v13_or_later c && not (is_v14_or_later c)
      then flags (without_bit_1 (is_v20_or_later c)) (dword c 96)
      else shown c "CTRATT")
  unfolding ctratt placed unit_of fields_of structure
  ctratt-shown =
      ctratt_at (is_v13_or_later c) (is_v14_or_later c) (is_v20_or_later c) (dword c 96) (v14-v13 c)

-- For twelve units of bit fields the report prints exactly the single bits that the declaration of
-- the structure has and that are not marked for a later revision than that of the controller, from
-- the highest on, with their values; of CTRATT, on controllers from NVMe 1.3 on and before 1.4, all
-- of these but bit 1.
pub bits-shown :
    (c : List ℕ)
    → (cmic c ≡ shown c "CMIC")
      × (oaes c ≡ shown c "OAES")
      × (ctratt c ≡ (
          if is_v13_or_later c && not (is_v14_or_later c)
          then flags (without_bit_1 (is_v20_or_later c)) (dword c 96)
          else shown c "CTRATT"))
      × (nvmsr c ≡ shown c "NVMSR")
      × (mec c ≡ shown c "MEC")
      × (oacs c ≡ shown c "OACS")
      × ((frmw c).0 ++ (0, (frmw c).2) ∷ [] ≡ shown c "FRMW")
      × (lpa c ≡ shown c "LPA")
      × (anacap c ≡ shown c "ANACAP")
      × (oncs c ≡ shown c "ONCS")
      × (fna c ≡ shown c "FNA")
      × (nwpc c ≡ shown c "NWPC")
bits-shown c = (
  cmic-shown c,
  oaes-shown c,
  ctratt-shown c,
  nvmsr-shown c,
  mec-shown c,
  oacs-shown c,
  frmw-shown c,
  lpa-shown c,
  anacap-shown c,
  oncs-shown c,
  fna-shown c,
  nwpc-shown c,
)
