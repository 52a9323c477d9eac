-- ===== src/Telemetry.antt =====
-- The telemetry log pages: src/NVMeGetTelemetry.c. The reports are left out.
pub mod Report
pub mod Requests
use nvmetool_win.Base.{
  ℕ, ◌+◌, ◌*◌, ◌/◌, ◌%◌, ◌^◌, Bool, length, ℤ, not, ◌==◌, ltb, ◌||◌, ◌&&◌, if◌then◌else◌,
}
use nvmetool_win.Platform.{
  Layout, Request, Reply, adapter_protocol_specific, log_page_data, query_property,
  get_internal_log,
}
use nvmetool_win.Program.{Prog, pure, reads, ◌>>=◌}
use nvmetool_win.WinFunc.{
  failed, succeeded, with_reply, protocol_query, header_is_valid, read_protocol_data,
  can_use_internal_log,
}
use nvmetool_win.Console.{get_console_input}

-- `(_bCreate == true) ? 1 : 0`
abbrev pub create_bit : Bool → ℕ
create_bit create = if create then 1 else 0

-- `u32Opt`: RetainAsynEvent in bit 0, LogSpecificField in bits 4:1; the other bits are never written.
unfoldable pub log_options : ℕ → Bool → ℕ
log_options garbage create = garbage % 2 ^ 32 / 32 * 32 + 2 * create_bit create + 1

abbrev pub host_buffer : Layout → ℕ
host_buffer l = l.query_parameters + l.specific_data_ext + l.telemetry_block

abbrev pub controller_buffer : Layout → ℕ
controller_buffer l = l.query_parameters + l.specific_data + l.telemetry_block

-- NVME_LOG_PAGE_TELEMETRY_HOST_INITIATED, with the size of the block in double words.
abbrev pub host_request : Layout → ℕ → Bool → Request
host_request l garbage create =
    query_property
      (record (protocol_query adapter_protocol_specific log_page_data
        (l.log_page_cdw10 0x07 (create_bit create) (l.telemetry_block / 4)) l.specific_data_ext
        l.telemetry_block (host_buffer l)) { sub_value4 = log_options garbage create })

-- NVME_LOG_PAGE_TELEMETRY_CTLR_INITIATED
abbrev pub controller_request : Layout → Request
controller_request l = query_property (
    protocol_query adapter_protocol_specific log_page_data
      (l.log_page_cdw10 0x08 0 (l.telemetry_block / 4)) l.specific_data l.telemetry_block
      (controller_buffer l))

-- The tests of the reply, against a smallest length, and the read of the report.
unfoldable pub check_telemetry : ℕ → ℕ → Layout → Reply → Prog ℤ
check_telemetry buffer smallest l r =
    if not (header_is_valid l r)
    then pure failed
    else if ltb r.data_offset l.specific_data || ltb r.data_length smallest
    then pure failed
    else do bytes ← read_protocol_data buffer l r l.telemetry_log; pure succeeded

-- `s_iNVMeGetTelemetryHostInitiated`
unfoldable pub get_host_block : Bool → Prog ℤ
unfolding check_telemetry with_reply read_protocol_data log_options ◌>>=◌
get_host_block create = do
  l ← reads (λ p w. p.layout)
  garbage ← reads (λ p w. p.uninitialised (length w.issued))
  with_reply (host_buffer l) (host_request l garbage create)
      (check_telemetry (host_buffer l) l.telemetry_block l)

-- `iNVMeGetTelemetryControllerInitiated`
unfoldable pub get_controller_telemetry : Prog ℤ
unfolding check_telemetry with_reply read_protocol_data ◌>>=◌
get_controller_telemetry = do
  l ← reads (λ p w. p.layout)
  with_reply (controller_buffer l) (controller_request l)
      (check_telemetry (controller_buffer l) l.telemetry_log l)

-- STATUS_DATA_HEADER_LENGTH bytes behind the structure's own.
abbrev pub internal_buffer : Layout → ℕ
internal_buffer l = l.internal_status + 512

-- `s_iNVMeGetTelemetryHostInitiatedWithDeviceInternalLog`
unfoldable pub get_internal_block : Prog ℤ
unfolding with_reply ◌>>=◌
get_internal_block = do
  l ← reads (λ p w. p.layout)
  with_reply (internal_buffer l) (get_internal_log (internal_buffer l)) (λ r. pure succeeded)

-- `cOpt`
unfoldable pub ask_internal : Bool → Prog ℕ
unfolding get_console_input
ask_internal available = if available then get_console_input else pure b'n'

-- `iNVMeGetTelemetryHostInitiated`
unfoldable pub get_host_telemetry : Bool → Prog ℤ
unfolding ask_internal can_use_internal_log get_host_block get_internal_block ◌>>=◌
get_host_telemetry create = do
  available ← reads (λ p w. create && can_use_internal_log w)
  option ← ask_internal available
  if option == b'y' then get_internal_block else get_host_block create
