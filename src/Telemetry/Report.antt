-- ===== src/Telemetry/Report.antt =====
-- The reports of src/NVMeGetTelemetry.c. The layouts of the two structures are those of nvme.h and
-- ntddstor.h: their fields are given.
use nvmetool_win.Base.{ℕ, Bool, not, List, [], ◌∷◌, Option, none, some, ◌==◌, if◌then◌else◌}
use nvmetool_win.Console.Printing.{data_rows}

-- NVME_TELEMETRY_HOST_INITIATED_LOG
pub record TelemetryLog : Type 0 where
  pub log_identifier : ℕ
  pub organization_id : List ℕ
  pub area1_last_block : ℕ
  pub area2_last_block : ℕ
  pub area3_last_block : ℕ
  pub controller_data_available : ℕ
  pub controller_data_generation : ℕ
  pub reason_identifier : List ℕ

-- What is printed of a page that has the identifier expected.
pub record TelemetryReport : Type 0 where
  pub organization : List ℕ
  pub last_blocks : List ℕ
  pub available : ℕ × Bool
  pub generation : ℕ
  pub reason : List (List ℕ)

abbrev pub telemetry_report : (ℕ → Bool) → ℕ → TelemetryLog → Option TelemetryReport
telemetry_report is_print identifier log =
    if not (log.log_identifier == identifier)
    then none
    else some (record {
      organization = log.organization_id;
      last_blocks = log.area1_last_block ∷ log.area2_last_block ∷ log.area3_last_block ∷ [];
      available = (log.controller_data_available, not (log.controller_data_available == 0));
      generation = log.controller_data_generation;
      reason = (data_rows is_print log.reason_identifier).0;
    })

-- s_vPrintNVMeTelemetryHostInitiated
unfoldable pub host_report : (ℕ → Bool) → TelemetryLog → Option TelemetryReport
unfolding data_rows
host_report is_print log = telemetry_report is_print 7 log

-- s_vPrintNVMeTelemetryControllerInitiated
unfoldable pub controller_report : (ℕ → Bool) → TelemetryLog → Option TelemetryReport
unfolding data_rows
controller_report is_print log = telemetry_report is_print 8 log

-- DEVICE_INTERNAL_STATUS_DATA
pub record InternalStatus : Type 0 where
  pub version : ℕ
  pub size : ℕ
  pub t10_vendor_id : ℕ
  pub data_set_lengths : List ℕ
  pub status_data_version : ℕ
  pub reason_identifier : List ℕ
  pub status_data_length : ℕ
  pub status_data : List ℕ

-- s_vPrintDeviceInternalStatusData: the numbers, and the rows of text of the identifier and the data.
unfoldable pub internal_report :
    (ℕ → Bool) → InternalStatus → List ℕ × List ℕ × ℕ × List (List ℕ) × ℕ × List (List ℕ)
unfolding data_rows
internal_report is_print s = (
  s.version ∷ s.size ∷ s.t10_vendor_id ∷ [],
  s.data_set_lengths,
  s.status_data_version,
  (data_rows is_print s.reason_identifier).0,
  s.status_data_length,
  (data_rows is_print s.status_data).0,
)
