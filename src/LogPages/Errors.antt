-- ===== src/LogPages/Errors.antt =====
-- The report of the error information, s_vPrintNVMeErrorInformation of src/NVMeErrorInformation.c: the
-- values that are printed of each entry of 64 bytes. The bits of the status are those of nvme.h.
use nvmetool_win.Base.{
  ℕ, zero, suc, ◌+◌, ◌*◌, ◌/◌, ◌%◌, Bool, List, [], ◌∷◌, Option, none, some, ◌==◌, ◌||◌, ltb,
  if◌then◌else◌,
}
use nvmetool_win.Controller.Fields.{byte, word, dword, qword, elpe}
use nvmetool_win.Controller.Version.{is_v14_or_later}

-- DNR, M, SCT, SC and P of NVME_COMMAND_STATUS.
pub record StatusBits : Type 0 where
  pub dnr : ℕ
  pub m : ℕ
  pub sct : ℕ
  pub sc : ℕ
  pub p : ℕ

pub record ErrorReport : Type 0 where
  pub transport_information : Option ℕ
  pub command_information : ℕ
  pub transport : Option (ℕ × Bool)  -- TRTYPE, and whether its value is known
  pub vendor_page : Option ℕ
  pub namespace : Option ℕ
  pub lba : ℕ
  pub location : Option (ℕ × ℕ)  -- the bit and the byte of the command
  pub status : ℕ × StatusBits
  pub command_id : Option ℕ
  pub queue_id : Option ℕ
  pub count : ℕ

-- A number, where one value is printed as a text.
abbrev pub unless : ℕ → ℕ → Option ℕ
unless text n = if n == text then none else some n

-- What is printed of the entry at an offset: none where it is not valid.
unfoldable pub error_report : List ℕ → (ℕ → StatusBits) → List ℕ → ℕ → Option ErrorReport
unfolding is_v14_or_later
error_report c status_bits log i =
    let transport = byte log (i + 29) in
    let place = word log (i + 14) in
    if qword log i == 0
    then none
    else some (record {
      transport_information = (if is_v14_or_later c then some (word log (i + 40)) else none);
      command_information = qword log (i + 32);
      transport =
          (if is_v14_or_later c
            then some (transport, ltb transport 4 || (transport == 0xFE))
            else none);
      vendor_page = unless 0 (byte log (i + 28));
      namespace = unless 0 (dword log (i + 24));
      lba = qword log (i + 16);
      location = (if place == 0xFFFF then none else some (place / 256 % 8, place % 256));
      status = (word log (i + 12), status_bits (word log (i + 12)));
      command_id = unless 0xFFFF (word log (i + 10));
      queue_id = unless 0xFFFF (word log (i + 8));
      count = qword log i;
    })

-- The loop over the entries, with so many left.
unfoldable pub error_reports_from :
    List ℕ → (ℕ → StatusBits) → List ℕ → ℕ → ℕ → List (Option ErrorReport)
unfolding error_report
error_reports_from c status_bits log zero i = []
error_reports_from c status_bits log (suc rounds) i =
    error_report c status_bits log (64 * i) ∷ error_reports_from c status_bits log rounds (i + 1)

unfoldable pub error_reports : List ℕ → (ℕ → StatusBits) → List ℕ → List (Option ErrorReport)
unfolding error_reports_from elpe
error_reports c status_bits log = error_reports_from c status_bits log (elpe c + 1) 0
