-- ===== src/Menus/Feature.antt =====
-- iNVMeGetFeatures of src/NVMeGetFeatures.c.
pub mod ReadOnly
use nvmetool_win.Base.{ℕ, Bool, ℤ, not, ◌==◌, is_nat, if◌then◌else◌, List}
use nvmetool_win.Program.{World, Prog, pure, reads, ◌>>=◌}
use nvmetool_win.WinFunc.{failed}
use nvmetool_win.Console.{get_console_input_hex}
use nvmetool_win.Controller.Fields.{
  power_state_transition, host_memory_preferred, timestamp_feature,
}
use nvmetool_win.Features.Reports.{
  get_arbitration, get_power_management, get_error_recovery, get_write_cache, get_queues,
  get_coalescing, get_write_atomicity, get_event_configuration, get_thermal, get_progress_marker,
  get_permissive_mode,
}
use nvmetool_win.Features.Sensors.{get_temperature_threshold}
use nvmetool_win.Features.Structures.{get_power_transition, get_host_memory, get_lba_ranges}
use nvmetool_win.Features.Timestamp.{get_timestamp}
use nvmetool_win.Menus.{after_yes, result_of_reading}

-- A feature that the controller must support, tested behind the confirmation.
abbrev tested : Bool → Prog ℤ → Prog ℤ
tested test m = if test then m else pure failed

-- The `switch` on the feature identifier, from the event configuration on.
choose_later_feature : List ℕ → ℤ → Prog ℤ
unfolding after_yes result_of_reading
choose_later_feature c fid =
    if is_nat fid 0x0b
    then after_yes (result_of_reading get_event_configuration)
    else if is_nat fid 0x0c
    then after_yes (tested (power_state_transition c) (result_of_reading get_power_transition))
    else if is_nat fid 0x0d
    then after_yes (tested (not (host_memory_preferred c == 0)) (result_of_reading get_host_memory))
    else if is_nat fid 0x0e
    then after_yes (tested (timestamp_feature c) (result_of_reading get_timestamp))
    else if is_nat fid 0x10
    then after_yes (result_of_reading get_thermal)
    else if is_nat fid 0x11
    then after_yes (result_of_reading get_permissive_mode)
    else if is_nat fid 0x80
    then after_yes (result_of_reading get_progress_marker)
    else pure failed

-- The `switch` on the feature identifier.
choose_feature : List ℕ → ℤ → Prog ℤ
unfolding choose_later_feature after_yes result_of_reading
choose_feature c fid =
    if is_nat fid 0x01
    then after_yes (result_of_reading get_arbitration)
    else if is_nat fid 0x02
    then after_yes (result_of_reading get_power_management)
    else if is_nat fid 0x03
    then after_yes (result_of_reading get_lba_ranges)
    else if is_nat fid 0x04
    then after_yes (result_of_reading get_temperature_threshold)
    else if is_nat fid 0x05
    then after_yes (result_of_reading get_error_recovery)
    else if is_nat fid 0x06
    then after_yes (result_of_reading get_write_cache)
    else if is_nat fid 0x07
    then after_yes (result_of_reading get_queues)
    else if is_nat fid 0x08
    then after_yes (result_of_reading get_coalescing)
    else if is_nat fid 0x0a
    then after_yes (result_of_reading get_write_atomicity)
    else choose_later_feature c fid

-- `iNVMeGetFeatures`
unfoldable pub get_features_menu : Prog ℤ
unfolding choose_feature get_console_input_hex ◌>>=◌
get_features_menu = do
  c ← reads (λ p w. w.controller)
  fid ← get_console_input_hex
  choose_feature c fid
