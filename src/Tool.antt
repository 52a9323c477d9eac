-- ===== src/Tool.antt =====
-- main of src/NVMeTool.c, once the drive is opened: the steps before the loop, and the loop.
pub mod Usage
pub mod Main
pub mod Rules
pub mod Invariants
pub mod Phases
pub mod Keeping
pub mod Ends
use nvmetool_win.Base.{false, true, List, ℕ, zero, suc, Bool, ℤ, Option, none, some, if◌then◌else◌}
use nvmetool_win.Program.{Prog, pure, reads, ◌>>=◌}
use nvmetool_win.WinFunc.{succeeded, is_zero}
use nvmetool_win.Console.{
  MajorCommand, get_log_page, identify, set_features, get_features, self_test, format_nvm,
  security_receive, admin_vendor_test, read, write, deallocate, flush, quit, unknown,
  get_command_from_console,
}
use nvmetool_win.Controller.Fields.{dataset_management, security_commands}
use nvmetool_win.Deallocate
use nvmetool_win.Features.Setting
use nvmetool_win.Format
use nvmetool_win.Menus.Feature.{get_features_menu}
use nvmetool_win.Menus.Identify.{identify_menu}
use nvmetool_win.Menus.LogPage.{log_page_menu}
use nvmetool_win.Scsi.Security
use nvmetool_win.Scsi.Transfer.{read_sector, write_sector, flush_cache}
use nvmetool_win.SelfTest.{run_self_test}
use nvmetool_win.Startup.{start_up}
use nvmetool_win.Vendor.{vendor_command}

-- A command that the controller must support; iResult keeps its value otherwise.
unfoldable pub if_supported : (List ℕ → Bool) → ℤ → Prog ℤ → Prog ℤ
unfolding ◌>>=◌
if_supported test result m = do c ← reads (λ p w. w.controller); if test c then m else pure result

-- The `switch` of the loop, for all commands but quit: iResult afterwards, from iResult before.
unfoldable pub dispatch : MajorCommand → ℤ → Prog ℤ
unfolding if_supported
dispatch deallocate result = if_supported dataset_management result Deallocate.deallocate
dispatch flush result = flush_cache
dispatch read result = read_sector
dispatch write result = write_sector
dispatch identify result = identify_menu
dispatch get_log_page result = log_page_menu
dispatch set_features result = Setting.set_features
dispatch get_features result = get_features_menu
dispatch self_test result = run_self_test
dispatch format_nvm result = Format.format_nvm
dispatch security_receive result = if_supported security_commands result Security.security_receive
dispatch admin_vendor_test result = vendor_command 0xff
dispatch quit result = pure succeeded
dispatch unknown result = pure result

-- Whether a command ends the loop.
abbrev pub is_quit : MajorCommand → Bool
is_quit quit = true
is_quit other = false

-- The loop, for so many rounds at most: the result of the program, or `none` where it is still
-- running.
unfoldable pub run_loop : ℕ → ℤ → Prog (Option ℤ)
unfolding dispatch ◌>>=◌
run_loop zero result = pure none
run_loop (suc rounds) result = do
  command ← get_command_from_console
  after ← dispatch command result
  (let rest = run_loop rounds after in if is_quit command then pure (some after) else rest)

-- `main` from vGetOSVersion on, with so many rounds of its loop.
unfoldable pub run_tool : ℕ → Prog (Option ℤ)
unfolding start_up run_loop ◌>>=◌
run_tool rounds = do
  result ← start_up
  if is_zero result then run_loop rounds result else pure (some result)
