-- ===== src/SelfTest.antt =====
-- The device self-test: src/NVMeDeviceSelftest.c and the log page of src/NVMeDeviceSelftestLog.c.
pub mod Report
pub mod Guards
pub mod Plain
use nvmetool_win.Base.{
  ℕ, ◌+◌, Bool, true, false, List, ℤ, not, ltb, ◌==◌, ◌||◌, if◌then◌else◌, is_nat,
}
use nvmetool_win.Platform.{
  Platform, Layout, Request, Reply, device_protocol_specific, log_page_data, query_property,
  protocol_command,
}
use nvmetool_win.Program.{World, Prog, pure, reads, allocate, ◌>>=◌, ◌>>◌}
use nvmetool_win.WinFunc.{
  failed, succeeded, is_zero, is_failed, issue_device_io_control, with_reply, protocol_query,
  header_is_valid, read_protocol_data,
}
use nvmetool_win.Console.{get_console_input, get_console_input_hex}
use nvmetool_win.Controller.Fields.{device_self_test}

-- NVME_LOG_PAGE_DEVICE_SELF_TEST
abbrev self_test_page : ℕ
self_test_page = 0x06

abbrev pub log_buffer : Layout → ℕ
log_buffer l = l.query_parameters + l.specific_data + l.self_test_log

abbrev pub log_request : Layout → Request
log_request l = query_property (
    protocol_query device_protocol_specific log_page_data self_test_page l.specific_data
      l.self_test_log (log_buffer l))

-- Whether the log describes an operation in progress.
abbrev pub in_progress : Layout → List ℕ → Bool
in_progress l bytes = not (l.operation_status bytes == 0)

-- What is read of the log: all of it to print it, its first byte for the operation's status.
abbrev read_length : Layout → Bool → ℕ
read_length l print = if print then l.self_test_log else 1

unfoldable pub check_log : Layout → Bool → Reply → Prog (ℤ × Bool)
check_log l print r =
    if not (header_is_valid l r)
    then pure (failed, false)
    else if ltb r.data_offset l.specific_data || ltb r.data_length l.self_test_result
    then pure (failed, false)
    else do
      bytes ← read_protocol_data (log_buffer l) l r (read_length l print)
      pure (succeeded, in_progress l bytes)

-- `iNVMeGetDeviceSelftestLog`: the result, and `*_bInProgress`.
unfoldable pub get_self_test_log : Bool → Prog (ℤ × Bool)
unfolding check_log issue_device_io_control read_protocol_data ◌>>=◌
get_self_test_log print = do
  c ← reads (λ p w. w.controller)
  l ← reads (λ p w. p.layout)
  if not (device_self_test c) then pure (failed, false) else do
    buffer ← allocate (log_buffer l)
    if buffer == 0 then pure (failed, false) else do
      answer ← issue_device_io_control (log_request l)
      if is_zero answer.0 then check_log l print answer.1 else pure (answer.0, false)

-- DST_CODE_SHORT_TEST, DST_CODE_EXTENDED_TEST, DST_CODE_ABORT_TEST.
abbrev pub short_test : ℕ
short_test = 0x1

abbrev pub extended_test : ℕ
extended_test = 0x2

abbrev pub abort_test : ℕ
abort_test = 0xf

-- NVME_ADMIN_COMMAND_DEVICE_SELF_TEST to every namespace (NVME_NAMESPACE_ALL).
abbrev pub self_test_request : Layout → ℕ → Request
self_test_request l action = protocol_command (record {
  opcode = 0x14;
  nsid = 0xffffffff;
  cdw10 = action;
  cdw11 = 0;
  cdw12 = 0;
  cdw13 = 0;
  cdw14 = 0;
  cdw15 = 0;
  transfer_length = 0;
  transfer_offset = 0;
  timeout = 10;
  buffer_length = l.command + l.nvme_command;
})

-- `siNVMeDST`
send_self_test : ℕ → Prog ℤ
unfolding with_reply
send_self_test action = do
  l ← reads (λ p w. p.layout)
  with_reply (l.command + l.nvme_command) (self_test_request l action) (λ r. pure succeeded)

-- A case of the `switch`, behind its test of the operation in progress.
confirm_test : ℕ → Prog ℤ
unfolding send_self_test get_console_input
confirm_test action = do
  c ← get_console_input
  if c == b'y' then send_self_test action else pure failed

-- The `switch` on the code.
choose_test : ℤ → Bool → Prog ℤ
unfolding confirm_test
choose_test test busy =
    if is_nat test short_test
    then (if busy then pure failed else confirm_test short_test)
    else if is_nat test extended_test
    then (if busy then pure failed else confirm_test extended_test)
    else if is_nat test abort_test
    then (if busy then confirm_test abort_test else pure failed)
    else pure failed

-- `iNVMeDeviceSelftest`
unfoldable pub run_self_test : Prog ℤ
unfolding get_console_input_hex get_self_test_log choose_test ◌>>=◌
run_self_test = do
  c ← reads (λ p w. w.controller)
  if not (device_self_test c) then pure failed else do
    test ← get_console_input_hex
    log ← get_self_test_log false
    if is_failed log.0 then pure failed else choose_test test log.1
