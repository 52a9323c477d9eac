-- ===== src/LogPages/Supported.antt =====
-- The report of the supported log pages, s_vPrintNVMeSupportedLogPages of
-- src/NVMeGetSupportedLogPages.c. Its bit fields are of two types, which the compiler packs as it
-- chooses: the fields of an entry are given.
use nvmetool_win.Base.{
  ℕ, zero, suc, ◌+◌, ◌%◌, Bool, List, [], ◌∷◌, Option, none, some, ◌==◌, leb, if◌then◌else◌,
}

-- NVME_LID_SUPPORTED_AND_EFFECTS_DATA
pub record PageEntry : Type 0 where
  pub lsupp : Bool
  pub ios : Bool
  pub lid_specific : ℕ

-- What is printed of the field that is specific to the page.
pub data PageSpecific : Type 0 where
  nothing : PageSpecific
  establish_context : Bool → PageSpecific
  vendor_field : ℕ → PageSpecific

-- A comment names the page 0Dh where the page 14 is tested.
unfoldable pub page_specific : ℕ → ℕ → PageSpecific
page_specific i field =
    if i == 14
    then establish_context (field % 2 == 1)
    else if leb 0xC0 i
    then vendor_field field
    else nothing

unfoldable pub page_report : ℕ → PageEntry → Option (Bool × PageSpecific)
unfolding page_specific
page_report i e = if e.lsupp then some (e.ios, page_specific i e.lid_specific) else none

-- The loop over the pages, with so many left.
unfoldable pub page_reports_from : (ℕ → PageEntry) → ℕ → ℕ → List (Option (Bool × PageSpecific))
unfolding page_report
page_reports_from entry zero i = []
page_reports_from entry (suc rounds) i =
    page_report i (entry i) ∷ page_reports_from entry rounds (i + 1)

unfoldable pub page_reports : (ℕ → PageEntry) → List (Option (Bool × PageSpecific))
unfolding page_reports_from
page_reports entry = page_reports_from entry 256 0
