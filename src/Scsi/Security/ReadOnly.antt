-- ===== src/Scsi/Security/ReadOnly.antt =====
-- The requests of Security Receive, of src/NVMeSCSIPassThrough.c, only read.
use nvmetool_win.Base.{ℕ, ℤ, refl}
use nvmetool_win.Program.Requests.{IsReading}
use nvmetool_win.Program.Rules.{handler_rules, Sends-issue}
use nvmetool_win.Program.Keeps.{Sends, sends_rules}
use nvmetool_win.WinFunc.{issue_device_io_control}
use nvmetool_win.Scsi.Properties.{query_device}
use nvmetool_win.Scsi.Properties.Laws.{Sends-query_device}
use nvmetool_win.Startup.ReadOnly.{Sends-get_protocols}
use nvmetool_win.Scsi.Security.{
  security_request, get_discovery, receive_protocols, receive_discovery, choose_receive,
  security_receive,
}

Sends-query : Sends IsReading query_device
Sends-query = Sends-query_device (λ property n. tt)

Sends-ask :
    (protocol com_id : ℕ)
    → Sends IsReading (issue_device_io_control (security_request protocol com_id))
Sends-ask protocol com_id = Sends-issue (security_request protocol com_id) (refl, refl)

Sends-get_discovery : Sends IsReading get_discovery
unfolding get_discovery
Sends-get_discovery = search (sends_rules, Sends-query, Sends-ask) depth 12

Sends-receive_protocols : Sends IsReading receive_protocols
unfolding receive_protocols
Sends-receive_protocols = search (handler_rules, Sends-get_protocols) depth 8

Sends-receive_discovery : Sends IsReading receive_discovery
unfolding receive_discovery
Sends-receive_discovery = search (handler_rules, Sends-get_discovery) depth 12

Sends-choose_receive : (command : ℤ) → Sends IsReading (choose_receive command)
unfolding choose_receive
Sends-choose_receive command =
    search (sends_rules, Sends-receive_protocols, Sends-receive_discovery) depth 8

pub Sends-security_receive : Sends IsReading security_receive
unfolding security_receive
Sends-security_receive = search (handler_rules, Sends-choose_receive) depth 8
