-- ===== src/SelfTest/Report.antt =====
-- The report of the self-test log, s_vPrintNVMeDeviceSelftestLog of src/NVMeDeviceSelftestLog.c. The
-- layout of the log is that of nvme.h: the fields of its entries are given.
pub mod Entries
use nvmetool_win.Base.{
  ℕ, zero, suc, ◌+◌, Bool, List, [], ◌∷◌, Option, none, some, ◌==◌, ◌||◌, ltb, if◌then◌else◌,
}

-- ResultData[i] of NVME_DEVICE_SELF_TEST_LOG.
pub record SelfTestEntry : Type 0 where
  pub result : ℕ
  pub code_value : ℕ
  pub segment : ℕ
  pub nsid_valid : Bool
  pub flba_valid : Bool
  pub sct_valid : Bool
  pub sc_valid : Bool
  pub poh : ℕ
  pub nsid : ℕ
  pub failing_lba : ℕ
  pub status_code_type : ℕ
  pub status_code : ℕ
  pub vendor_specific : ℕ

-- A value with a text of its own, or a number that is printed as reserved.
pub data Shown : Type 0 where
  known : ℕ → Shown
  reserved : ℕ → Shown

-- The operation in progress, of which 0, 1, 2 and 14 are known.
unfoldable pub current_operation : ℕ → Shown
current_operation status = if ltb status 3 || (status == 0xE) then known status else reserved status

-- How much is completed, where an operation is in progress.
unfoldable pub completion : ℕ → ℕ → Option ℕ
completion status percent = if status == 0 then none else some percent

-- The result: the number that is printed for a reserved one is the code.
unfoldable pub result_shown : SelfTestEntry → Shown
result_shown e = if ltb e.result 9 then known e.result else reserved e.code_value

-- The code: the number that is printed for a reserved one is the result.
unfoldable pub code_shown : SelfTestEntry → Shown
code_shown e =
    if e.code_value == 1 || (e.code_value == 2 || (e.code_value == 0xE))
    then known e.code_value
    else reserved e.result

-- What is printed of an entry, with its number.
pub record EntryReport : Type 0 where
  pub number : ℕ
  pub result : Shown
  pub code : Shown
  pub segment : ℕ
  pub valid_fields : List Bool
  pub hours : ℕ
  pub nsid : Option ℕ
  pub failing_lba : Option ℕ
  pub status_code_type : Option ℕ
  pub status_code : Option ℕ
  pub vendor_specific : ℕ

abbrev pub where_valid : Bool → ℕ → Option ℕ
where_valid b n = if b then some n else none

unfoldable pub entry_report : ℕ → SelfTestEntry → EntryReport
unfolding result_shown code_shown
entry_report i e = record {
  number = i;
  result = result_shown e;
  code = code_shown e;
  segment = e.segment;
  valid_fields = e.nsid_valid ∷ e.flba_valid ∷ e.sct_valid ∷ e.sc_valid ∷ [];
  hours = e.poh;
  nsid = where_valid e.nsid_valid e.nsid;
  failing_lba = where_valid e.flba_valid e.failing_lba;
  status_code_type = where_valid e.sct_valid e.status_code_type;
  status_code = where_valid e.sc_valid e.status_code;
  vendor_specific = e.vendor_specific;
}

-- The loop over the entries, with so many left; unused ones are passed over.
unfoldable pub entry_reports_from : (ℕ → SelfTestEntry) → ℕ → ℕ → List EntryReport
unfolding entry_report
entry_reports_from entry zero i = []
entry_reports_from entry (suc rounds) i =
    let rest = entry_reports_from entry rounds (i + 1) in
    if (entry i).result == 0xF then rest else entry_report i (entry i) ∷ rest

unfoldable pub self_test_report : ℕ → ℕ → (ℕ → SelfTestEntry) → Shown × Option ℕ × List EntryReport
unfolding current_operation completion entry_reports_from
self_test_report status percent entry =
    (current_operation status, completion status percent, entry_reports_from entry 20 0)
