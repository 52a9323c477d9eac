-- ===== src/Menus/LogPage/ReadOnly.antt =====
-- The requests of Get Log Page: src/NVMeGetLogPage.c and the pages that it reads.
use nvmetool_win.Base.{true, false, ℕ, Bool, List, ℤ}
use nvmetool_win.Platform.{Layout, Reply}
use nvmetool_win.Program.{Prog}
use nvmetool_win.Program.Requests.{IsReading}
use nvmetool_win.Program.Rules.{handler_rules}
use nvmetool_win.Program.Keeps.{Sends, sends_rules}
use nvmetool_win.SelfTest.{get_self_test_log, check_log}
use nvmetool_win.Startup.ReadOnly.{Sends-get_smart}
use nvmetool_win.Telemetry.{
  get_host_telemetry, get_controller_telemetry, check_telemetry, get_host_block, get_internal_block,
  ask_internal,
}
use nvmetool_win.LogPages.{
  check_page, fetch_page, get_page, get_error_information, get_fw_slot_information,
  get_command_effects, get_supported_log_pages, get_endurance_group, get_endurance_events,
}
use nvmetool_win.Menus.Rules.{menu_rules}
use nvmetool_win.Menus.LogPage.{
  smart_case, host_case, supported, choose_page, choose_later_page, log_page_menu,
}

Sends-check_page : (n : ℕ) (l : Layout) (r : Reply) → Sends IsReading (check_page n l r)
unfolding check_page
Sends-check_page n l r = search handler_rules depth 8

Sends-fetch_page : (lid n group : ℕ) → Sends IsReading (fetch_page lid n group)
unfolding fetch_page
Sends-fetch_page lid n group = search (handler_rules, Sends-check_page) depth 8

Sends-get_page : (lid n : ℕ) → Sends IsReading (get_page lid n)
unfolding get_page
Sends-get_page lid n = search (sends_rules, Sends-fetch_page) depth 8

Sends-get_endurance_group : Sends IsReading get_endurance_group
unfolding get_endurance_group
Sends-get_endurance_group = search (handler_rules, Sends-fetch_page) depth 12

Sends-get_error_information : Sends IsReading get_error_information
unfolding get_error_information
Sends-get_error_information = search (sends_rules, Sends-get_page)

Sends-get_supported_log_pages : Sends IsReading get_supported_log_pages
unfolding get_supported_log_pages
Sends-get_supported_log_pages = search (sends_rules, Sends-get_page)

Sends-get_fw_slot_information : Sends IsReading get_fw_slot_information
unfolding get_fw_slot_information
Sends-get_fw_slot_information = search (Sends-get_page)

Sends-get_command_effects : Sends IsReading get_command_effects
unfolding get_command_effects
Sends-get_command_effects = search (Sends-get_page)

Sends-get_endurance_events : Sends IsReading get_endurance_events
unfolding get_endurance_events
Sends-get_endurance_events = search (sends_rules, Sends-get_page)

Sends-check_log : (l : Layout) (print : Bool) (r : Reply) → Sends IsReading (check_log l print r)
unfolding check_log
Sends-check_log l print r = search handler_rules depth 8

pub Sends-get_self_test_log : (print : Bool) → Sends IsReading (get_self_test_log print)
unfolding get_self_test_log
Sends-get_self_test_log print = search (handler_rules, Sends-check_log) depth 12

Sends-check_telemetry :
    (n m : ℕ) (l : Layout) (r : Reply) → Sends IsReading (check_telemetry n m l r)
unfolding check_telemetry
Sends-check_telemetry n m l r = search handler_rules depth 8

Sends-get_controller_telemetry : Sends IsReading get_controller_telemetry
unfolding get_controller_telemetry
Sends-get_controller_telemetry = search (handler_rules, Sends-check_telemetry) depth 8

Sends-get_host_block : (create : Bool) → Sends IsReading (get_host_block create)
unfolding get_host_block
Sends-get_host_block create = search (handler_rules, Sends-check_telemetry) depth 8

Sends-get_internal_block : Sends IsReading get_internal_block
unfolding get_internal_block
Sends-get_internal_block = search handler_rules depth 8

Sends-ask_internal : (available : Bool) → Sends IsReading (ask_internal available)
unfolding ask_internal
Sends-ask_internal available = search handler_rules

Sends-get_host_telemetry : (create : Bool) → Sends IsReading (get_host_telemetry create)
unfolding get_host_telemetry
Sends-get_host_telemetry create =
    search (sends_rules, Sends-ask_internal, Sends-get_internal_block, Sends-get_host_block) depth 8

ruleset page_rules = (
  Sends-get_self_test_log, Sends-get_controller_telemetry, Sends-get_host_telemetry,
  Sends-get_endurance_group, Sends-get_endurance_events, Sends-get_error_information,
  Sends-get_supported_log_pages, Sends-get_fw_slot_information, Sends-get_command_effects,
)

Sends-supported : (b : Bool) (m : Prog ℤ) → Sends IsReading m → Sends IsReading (supported b m)
Sends-supported true m h = h
Sends-supported false m h = search sends_rules

Sends-smart_case : Sends IsReading smart_case
unfolding smart_case
Sends-smart_case = search (handler_rules, Sends-get_smart) depth 12

Sends-host_case : Sends IsReading host_case
unfolding host_case
Sends-host_case = search (handler_rules, menu_rules, Sends-get_host_telemetry) depth 12

Sends-choose_later_page : (c : List ℕ) (lid : ℤ) → Sends IsReading (choose_later_page c lid)
unfolding choose_later_page
Sends-choose_later_page c lid =
    search (sends_rules, menu_rules, page_rules, Sends-supported, Sends-host_case) depth 16

Sends-choose_page : (c : List ℕ) (lid : ℤ) → Sends IsReading (choose_page c lid)
unfolding choose_page
Sends-choose_page c lid =
    search (sends_rules, menu_rules, page_rules, Sends-supported, Sends-smart_case, Sends-host_case)
      depth 16

pub Sends-log_page_menu : Sends IsReading log_page_menu
unfolding log_page_menu
Sends-log_page_menu = search (handler_rules, Sends-choose_page)
