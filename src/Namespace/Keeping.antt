-- ===== src/Namespace/Keeping.antt =====
-- What the Identify commands for namespaces do to g_stNamespaceData: src/NVMeIdentifyNamespace.c and
-- src/NVMeIdentifyIOCSNamespace.c.
use nvmetool_win.Base.{
  ◌∙◌, Option, none, some, List, ℤ, Bool-cases, inl, inr, refl, ap, ◌≢◌, ℕ, ◌≡◌, ◌≢◌, ◌⊎◌, ◌∷◌,
  true, false, take, drop, arith,
}
use nvmetool_win.Platform.{Platform, adapter_protocol_specific}
use nvmetool_win.Program.{World, ◌>>=◌}
use nvmetool_win.WinFunc.{failed, succeeded}
use nvmetool_win.Controller.Fields.{controller_type}
use nvmetool_win.Controller.Version.{is_v20_or_later}
use nvmetool_win.Namespace.{
  keep_namespace, get_structure, structure_request, structure_buffer, identify_namespace,
  identify_iocs_namespace,
}
use nvmetool_win.Namespace.Reading.{
  IsStructure, StructureRead, get_structure_cases, get_structure_keeps,
}

pub again :
    (p : Platform) (w : World) (nsid : ℕ)
    → w.namespace_known ≡ true
    → identify_namespace nsid p w ≡ (succeeded, w)
unfolding identify_namespace ◌>>=◌
again p w nsid h = rw h refl

-- How the first fetch from `w` ends.
abbrev pub Fetched : Platform → World → ℕ → ℤ → World → Type 0
Fetched p w nsid result w' =
    let q = structure_request p.layout adapter_protocol_specific 0x00 nsid 4096 in
    let r = p.respond w.issued q in
    ((p.malloc w.allocations (structure_buffer p.layout 4096) ≡ 0)
      × (result ≡ failed)
      × (w'.issued ≡ w.issued)
      × (w'.namespace_known ≡ false))
    ⊎ ((r.accepted ≡ false)
        × (result ≡ failed)
        × (w'.issued ≡ q ∷ w.issued)
        × (w'.namespace_known ≡ false))
    ⊎ ((r.accepted ≡ true)
        × IsStructure p.layout r
        × (result ≡ succeeded)
        × (w'.issued ≡ q ∷ w.issued)
        × (w'.namespace_known ≡ true)
        × (w'.namespace_data ≡ take 4096 (drop r.data_offset r.bytes)))
    ⊎ ((r.accepted ≡ true)
        × ¬ IsStructure p.layout r
        × (result ≡ succeeded)
        × (w'.issued ≡ q ∷ w.issued)
        × (w'.namespace_known ≡ false))

pub keep :
    (p : Platform) (w : World) (nsid : ℕ)
    → w.namespace_known ≡ false
    → let (answer, w') = get_structure adapter_protocol_specific 0x00 nsid 4096 p w in
      identify_namespace nsid p w ≡ keep_namespace answer.0 answer.1 p w'
unfolding identify_namespace ◌>>=◌
keep p w nsid h = rw h refl

keep-Fetched :
    (p : Platform) (w w' : World) (nsid : ℕ) (answer : ℤ × Option (List ℕ))
    → w'.namespace_known ≡ false
    → StructureRead p w adapter_protocol_specific 0x00 nsid answer w'
    → let (result, after) = keep_namespace answer.0 answer.1 p w' in Fetched p w nsid result after
unfolding keep_namespace ◌>>=◌
keep-Fetched p w w' nsid (result, none) unknown h = elim h [
  | inl (e, m, same) ↦ inl (m, ap (λ x. x.0) e, same, unknown)
  | inr (inl (e, refused, same)) ↦ inr (inl (refused, ap (λ x. x.0) e, same, unknown))
  | inr (inr (inl (e, accepted, fits, same))) ↦ absurd (grind arith)
  | inr (inr (inr (e, accepted, fails, same))) ↦
      inr (inr (inr (accepted, fails, ap (λ x. x.0) e, same, unknown)))
]
keep-Fetched p w w' nsid (result, some bytes) unknown h = elim h [
  | inl (e, m, same) ↦ absurd (grind arith)
  | inr (inl (e, refused, same)) ↦ absurd (grind arith)
  | inr (inr (inl (e, accepted, fits, same))) ↦
      inr (inr (inl (accepted, fits, refl, same, refl, grind arith)))
  | inr (inr (inr (e, accepted, fails, same))) ↦ absurd (grind arith)
]

first :
    (p : Platform) (w : World) (nsid : ℕ)
    → w.namespace_known ≡ false
    → let (result, w') = identify_namespace nsid p w in Fetched p w nsid result w'
first p w nsid h =
    let (answer, w') = get_structure adapter_protocol_specific 0x00 nsid 4096 p w in
    rw (keep p w nsid h) (
      keep-Fetched p w w' nsid answer
        (get_structure_keeps p w adapter_protocol_specific 0x00 nsid ∙ h)
        (get_structure_cases p w adapter_protocol_specific 0x00 nsid))

-- A run of Identify for a namespace. Once the data are there, it returns 0 and changes nothing,
-- whatever the namespace. Before that: without memory nothing is sent and it returns -1; a refused
-- request leaves the data unknown and returns -1; a reply that passes the tests is copied into the
-- global, and returns 0; a reply that fails them leaves the data unknown, and returns 0 too.
pub identify_namespace_cases :
    (p : Platform) (w : World) (nsid : ℕ)
    → let (result, w') = identify_namespace nsid p w in
      ((w.namespace_known ≡ true) × (result ≡ succeeded) × (w' ≡ w))
      ⊎ ((w.namespace_known ≡ false) × Fetched p w nsid result w')
identify_namespace_cases p w nsid = elim (Bool-cases w.namespace_known) [
  | inl h ↦ inl (h, ap (λ x. x.0) (again p w nsid h), ap (λ x. x.1) (again p w nsid h))
  | inr h ↦ inr (h, first p w nsid h)
]

-- The structure of an I/O command set is asked for only from a controller of NVMe 2.0 or later whose
-- type is an I/O controller: for any other the result is -1, and at most the data of the namespace
-- are asked for.
pub identify_iocs_namespace_guarded :
    (p : Platform) (w : World) (nsid : ℕ)
    → (is_v20_or_later w.controller ≡ false) ⊎ (controller_type w.controller ≢ 1)
    → let (result, w') = identify_iocs_namespace nsid p w in
      let q = structure_request p.layout adapter_protocol_specific 0x00 nsid 4096 in
      (result ≡ failed) × ((w'.issued ≡ w.issued) ⊎ (w'.issued ≡ q ∷ w.issued))
unfolding identify_iocs_namespace
identify_iocs_namespace_guarded p w nsid h = ground arith
