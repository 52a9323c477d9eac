-- ===== src/Namespace/Reading.antt =====
-- How the read of a structure ends, which all Identify commands for namespaces share:
-- src/NVMeIdentifyNamespace.c and the three files with its text.
use nvmetool_win.Base.{
  Option, none, some, List, ℤ, Bool-cases, inl, inr, ◌≢◌, ℕ, ◌≤◌, ◌≡◌, ◌≢◌, ◌⊎◌, ◌∷◌, true, false,
  take, drop, arith,
}
use nvmetool_win.Platform.{Request, Property, Platform, Layout, Reply}
use nvmetool_win.Program.{World}
use nvmetool_win.WinFunc.{failed, succeeded}
use nvmetool_win.Namespace.{get_structure, structure_request, structure_buffer}

-- A reply whose structure of 4096 bytes is used.
abbrev pub IsStructure : Layout → Reply → Type 0
IsStructure l r =
    (r.version ≡ l.descriptor)
    × (r.size ≡ l.descriptor)
    × (r.data_offset ≤ l.specific_data)
    × (4096 ≤ r.data_length)

-- How the fetch of a structure from `w` ends.
abbrev pub StructureRead :
    Platform → World → Property → ℕ → ℕ → ℤ × Option (List ℕ) → World → Type 0
StructureRead p w property cns nsid answer w' =
    let q = structure_request p.layout property cns nsid 4096 in
    let r = p.respond w.issued q in
    ((answer ≡ (failed, none))
      × (p.malloc w.allocations (structure_buffer p.layout 4096) ≡ 0)
      × (w'.issued ≡ w.issued))
    ⊎ ((answer ≡ (failed, none)) × (r.accepted ≡ false) × (w'.issued ≡ q ∷ w.issued))
    ⊎ ((answer ≡ (succeeded, some (take 4096 (drop r.data_offset r.bytes))))
        × (r.accepted ≡ true)
        × IsStructure p.layout r
        × (w'.issued ≡ q ∷ w.issued))
    ⊎ ((answer ≡ (succeeded, none))
        × (r.accepted ≡ true)
        × ¬ IsStructure p.layout r
        × (w'.issued ≡ q ∷ w.issued))

IsStructure-cases : (l : Layout) (r : Reply) → IsStructure l r ⊎ ¬ IsStructure l r
IsStructure-cases l r = ground arith

module _ (p : Platform) (w : World) (property : Property) (cns nsid : ℕ) where
  abbrev asked : Request
  asked = structure_request p.layout property cns nsid 4096

  abbrev reply : Reply
  reply = p.respond w.issued asked

  abbrev memory : ℕ
  memory = p.malloc w.allocations (structure_buffer p.layout 4096)

  without_memory :
      memory ≡ 0
      → let (answer, w') = get_structure property cns nsid 4096 p w in
        (answer ≡ (failed, none)) × (w'.issued ≡ w.issued)
  unfolding get_structure
  without_memory h = ground arith

  is_refused :
      memory ≢ 0
      → reply.accepted ≡ false
      → let (answer, w') = get_structure property cns nsid 4096 p w in
        (answer ≡ (failed, none)) × (w'.issued ≡ asked ∷ w.issued)
  unfolding get_structure
  is_refused m h = ground arith

  is_used :
      memory ≢ 0
      → reply.accepted ≡ true
      → IsStructure p.layout reply
      → let (answer, w') = get_structure property cns nsid 4096 p w in
        (answer ≡ (succeeded, some (take 4096 (drop reply.data_offset reply.bytes))))
        × (w'.issued ≡ asked ∷ w.issued)
  unfolding get_structure
  is_used m h fits = ground arith

  is_unused :
      memory ≢ 0
      → reply.accepted ≡ true
      → ¬ IsStructure p.layout reply
      → let (answer, w') = get_structure property cns nsid 4096 p w in
        (answer ≡ (succeeded, none)) × (w'.issued ≡ asked ∷ w.issued)
  unfolding get_structure
  is_unused m h fails = ground arith

zero-cases : (n : ℕ) → (n ≡ 0) ⊎ (n ≢ 0)
zero-cases n = ground arith

-- Without memory nothing is sent, and the result is -1; a refused request returns -1; an accepted one
-- returns 0, with the 4096 bytes that the reply names where it passes the tests of the header, the
-- offset and the length, and with nothing where it does not.
pub get_structure_cases :
    (p : Platform) (w : World) (property : Property) (cns nsid : ℕ)
    → let (answer, w') = get_structure property cns nsid 4096 p w in
      StructureRead p w property cns nsid answer w'
get_structure_cases p w property cns nsid = elim (zero-cases (memory p w property cns nsid)) [
  | inl none_left ↦
      (let (e, same) = without_memory p w property cns nsid none_left in inl (e, none_left, same))
  | inr m ↦ elim (Bool-cases (reply p w property cns nsid).accepted) [
    | inr refused ↦
        (let (e, same) = is_refused p w property cns nsid m refused in inr (inl (e, refused, same)))
    | inl accepted ↦ elim (IsStructure-cases p.layout (reply p w property cns nsid)) [
      | inl fits ↦
          (let (e, same) = is_used p w property cns nsid m accepted fits in
            inr (inr (inl (e, accepted, fits, same))))
      | inr fails ↦
          (let (e, same) = is_unused p w property cns nsid m accepted fails in
            inr (inr (inr (e, accepted, fails, same))))
    ]
  ]
]

pub get_structure_keeps :
    (p : Platform) (w : World) (property : Property) (cns nsid : ℕ)
    → (get_structure property cns nsid 4096 p w).1.namespace_known ≡ w.namespace_known
unfolding get_structure
get_structure_keeps p w property cns nsid = ground arith
