-- ===== src/Namespace/Protection.antt =====
-- The report of src/NVMeIdentifyIOCSNamespace.c, and bNamespaceSupportPI of
-- src/NVMeIdentifyNamespace.c, by which it decides.
use nvmetool_win.Base.{
  ◌^◌, ℕ, zero, suc, ◌+◌, ◌*◌, ◌/◌, ◌%◌, Bool, true, false, List, [], ◌∷◌, Option, none, some, ◌==◌,
  ltb, if◌then◌else◌,
}
use nvmetool_win.Controller.Fields.{byte, dword, qword, flags}

-- DPS.ProtectionInfoTypeEnabled of g_stNamespaceData, whatever the namespace.
unfoldable pub supports_protection : List ℕ → ℕ → Bool
supports_protection ns nsid = if byte ns 29 % 8 == 0 then false else true

-- STS, and PIF with whether it is known, of the extended format `i`.
unfoldable pub extended_format : List ℕ → ℕ → ℕ × (ℕ × Bool)
extended_format io i =
    let v = dword io (12 + 4 * i) in let pif = v / 2 ^ 7 % 4 in (v % 2 ^ 7, (pif, ltb pif 3))

-- The loop over the formats, with so many left.
unfoldable pub extended_formats_from : List ℕ → ℕ → ℕ → List (ℕ × (ℕ × Bool))
unfolding extended_format
extended_formats_from io zero i = []
extended_formats_from io (suc rounds) i =
    extended_format io i ∷ extended_formats_from io rounds (i + 1)

-- LBSTM, the bits of PIC from the lowest on, and the 64 formats, where the namespace has protection.
unfoldable pub protection_report :
    List ℕ → List ℕ → ℕ → Option (ℕ × List (ℕ × Bool) × List (ℕ × (ℕ × Bool)))
unfolding supports_protection extended_formats_from
protection_report ns io nsid =
    if supports_protection ns nsid
    then some (qword io 0, flags (0 ∷ 1 ∷ []) (byte io 8), extended_formats_from io 64 0)
    else none
