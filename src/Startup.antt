-- ===== src/Startup.antt =====
-- What main of src/NVMeTool.c does between opening the drive and its loop.
pub mod ReadOnly
pub mod Ready
use nvmetool_win.Base.{ℕ, Bool, ℤ, negsuc, false, not, if◌then◌else◌}
use nvmetool_win.Program.{World, Prog, pure, reads, ◌>>=◌, ◌>>◌}
use nvmetool_win.WinFunc.{is_zero, get_os_version}
use nvmetool_win.Controller.Fields.{security_commands}
use nvmetool_win.Controller.Identify.{identify_controller}
use nvmetool_win.Controller.Workaround.{set_basic_data}
use nvmetool_win.Smart.{get_smart}
use nvmetool_win.Scsi.Security.{get_protocols}

-- The list of the security protocols, where the controller has the commands; `result` is that of the
-- step before.
find_protocols : ℤ → Prog ℤ
unfolding get_protocols ◌>>=◌
find_protocols result = do
  c ← reads (λ p w. w.controller)
  if security_commands c then get_protocols else pure result

-- The SMART log of the controller (NVME_NAMESPACE_ALL), after which the protocols follow.
find_health : Prog ℤ
unfolding get_smart find_protocols ◌>>=◌
find_health = do
  result ← get_smart false (negsuc 0)
  if is_zero result then find_protocols result else pure result

-- From vGetOSVersion on; the result is 0 where the loop is entered.
unfoldable pub start_up : Prog ℤ
unfolding get_os_version identify_controller set_basic_data find_health ◌>>=◌
start_up = do
  get_os_version
  result ← identify_controller
  if is_zero result then (set_basic_data >> find_health) else pure result
