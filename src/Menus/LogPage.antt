-- ===== src/Menus/LogPage.antt =====
-- iNVMeGetLogPage of src/NVMeGetLogPage.c.
pub mod ReadOnly
pub mod Routes
use nvmetool_win.Base.{List, ℕ, Bool, true, false, ℤ, negsuc, not, ◌==◌, is_nat, if◌then◌else◌}
use nvmetool_win.Program.{World, Prog, pure, reads, ◌>>=◌}
use nvmetool_win.WinFunc.{failed}
use nvmetool_win.Console.{get_console_input, get_console_input_dec, get_console_input_hex}
use nvmetool_win.Controller.Fields.{
  smart_page_per_namespace, command_effects_log, device_self_test, telemetry_support,
  endurance_groups,
}
use nvmetool_win.Controller.Version.{is_v14_or_later, is_v20_or_later}
use nvmetool_win.Smart.{get_smart}
use nvmetool_win.SelfTest.{get_self_test_log}
use nvmetool_win.Telemetry.{get_host_telemetry, get_controller_telemetry}
use nvmetool_win.LogPages.{
  get_error_information, get_fw_slot_information, get_command_effects, get_supported_log_pages,
  get_endurance_group, get_endurance_events,
}
use nvmetool_win.Menus.{after_yes, result_only}

-- NVME_NAMESPACE_ALL as an `int`.
abbrev namespace_all : ℤ
namespace_all = negsuc 0

-- The SMART page once it was confirmed. Where a namespace may be named, a last answer is read, which
-- decides nothing.
smart_case : Prog ℤ
unfolding get_console_input get_console_input_dec ◌>>=◌
smart_case = do
  c ← reads (λ p w. w.controller)
  if not (smart_page_per_namespace c) then get_smart true namespace_all else do
    nsid ← get_console_input_dec
    answer ← get_console_input
    get_smart true (if is_nat nsid 0 then namespace_all else nsid)

-- The host-initiated telemetry page, with or without new data.
host_case : Prog ℤ
unfolding get_console_input after_yes ◌>>=◌
host_case = do
  c ← get_console_input
  if c == b'1'
      then after_yes (get_host_telemetry true)
      else if c == b'0'
      then after_yes (get_host_telemetry false)
      else pure failed

-- A case that the controller must support.
abbrev supported : Bool → Prog ℤ → Prog ℤ
supported test m = if test then m else pure failed

-- The `switch` on the log identifier, from the host-initiated telemetry on.
choose_later_page : List ℕ → ℤ → Prog ℤ
unfolding host_case after_yes result_only is_v14_or_later
choose_later_page c lid =
    if is_nat lid 0x07
    then supported (telemetry_support c) host_case
    else if is_nat lid 0x08
    then supported (telemetry_support c) (after_yes get_controller_telemetry)
    else if is_nat lid 0x09
    then supported (endurance_groups c) (after_yes (result_only get_endurance_group))
    else if is_nat lid 0x0f
    then supported (is_v14_or_later c)
        (supported (endurance_groups c) (after_yes (result_only get_endurance_events)))
    else pure failed

-- The `switch` on the log identifier.
choose_page : List ℕ → ℤ → Prog ℤ
unfolding smart_case choose_later_page after_yes result_only is_v20_or_later
choose_page c lid =
    if is_nat lid 0x00
    then supported (is_v20_or_later c) (after_yes (result_only get_supported_log_pages))
    else if is_nat lid 0x01
    then after_yes (result_only get_error_information)
    else if is_nat lid 0x02
    then after_yes smart_case
    else if is_nat lid 0x03
    then after_yes (result_only get_fw_slot_information)
    else if is_nat lid 0x05
    then supported (command_effects_log c) (after_yes (result_only get_command_effects))
    else if is_nat lid 0x06
    then supported (device_self_test c) (after_yes (result_only (get_self_test_log true)))
    else choose_later_page c lid

-- `iNVMeGetLogPage`
unfoldable pub log_page_menu : Prog ℤ
unfolding choose_page get_console_input_hex ◌>>=◌
log_page_menu = do c ← reads (λ p w. w.controller); lid ← get_console_input_hex; choose_page c lid
