-- ===== src/Startup/ReadOnly.antt =====
-- The requests that main of src/NVMeTool.c sends before its loop.
use nvmetool_win.Base.{refl, Option, ℤ, Bool, none, some, All}
use nvmetool_win.Platform.{OsVersion, Platform}
use nvmetool_win.Program.{World}
use nvmetool_win.Program.Requests.{IsReading}
use nvmetool_win.Program.Rules.{Sends-issue, handler_rules}
use nvmetool_win.Program.Keeps.{Added-All, Sends, sends_rules}
use nvmetool_win.WinFunc.{after_version, issue_device_io_control, get_os_version}
use nvmetool_win.Controller.Identify.{identify_controller}
use nvmetool_win.Controller.Workaround.{set_basic_data}
use nvmetool_win.Smart.{get_smart}
use nvmetool_win.Scsi.Properties.{query_device}
use nvmetool_win.Scsi.Properties.Laws.{Sends-query_device}
use nvmetool_win.Scsi.Security.{security_request, get_protocols}
use nvmetool_win.Startup.{start_up, find_health, find_protocols}

Sends-after_version : (o : Option OsVersion) → Sends IsReading (after_version o)
unfolding after_version
Sends-after_version none = search sends_rules
Sends-after_version (some v) = search sends_rules

pub Sends-get_os_version : Sends IsReading get_os_version
unfolding get_os_version
Sends-get_os_version = search (sends_rules, Sends-after_version)

pub Sends-identify_controller : Sends IsReading identify_controller
unfolding identify_controller
Sends-identify_controller = search handler_rules depth 8

pub Sends-get_smart : (print : Bool) (nsid : ℤ) → Sends IsReading (get_smart print nsid)
unfolding get_smart
Sends-get_smart print nsid = search handler_rules depth 8

Sends-set_basic_data : Sends IsReading set_basic_data
unfolding set_basic_data
Sends-set_basic_data = search sends_rules

Sends-query : Sends IsReading query_device
Sends-query = Sends-query_device (λ property n. tt)

Sends-ask_list : Sends IsReading (issue_device_io_control (security_request 0 0))
Sends-ask_list = Sends-issue (security_request 0 0) (refl, refl)

pub Sends-get_protocols : Sends IsReading get_protocols
unfolding get_protocols
Sends-get_protocols = search (sends_rules, Sends-query, Sends-ask_list) depth 8

Sends-find_protocols : (result : ℤ) → Sends IsReading (find_protocols result)
unfolding find_protocols
Sends-find_protocols result = search (sends_rules, Sends-get_protocols)

Sends-find_health : Sends IsReading find_health
unfolding find_health
Sends-find_health = search (sends_rules, Sends-get_smart, Sends-find_protocols)

pub Sends-start_up : Sends IsReading start_up
unfolding start_up
Sends-start_up = search (
  sends_rules, Sends-get_os_version, Sends-identify_controller, Sends-set_basic_data,
  Sends-find_health,
)

-- Up to its loop the program sends only requests that read: after requests of that kind, all requests
-- are still of that kind, whatever the drive answers.
pub start_up_reads_only :
    (p : Platform) (w : World) → All IsReading w.issued → All IsReading (start_up p w).1.issued
start_up_reads_only p w h = Added-All (Sends-start_up.adds p w) h
