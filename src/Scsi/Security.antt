-- ===== src/Scsi/Security.antt =====
-- Security Receive by SCSI pass-through: src/NVMeSCSIPassThrough.c. What is printed is left out.
pub mod Protocols
pub mod ReadOnly
use Prim.Native.Nat.{bit_and, bit_or}
use nvmetool_win.Base.{
  ℕ, zero, suc, ◌+◌, ◌*◌, ◌%◌, Bool, true, false, List, [], ◌∷◌, ◌++◌, ℤ, pos, not, ◌==◌, ◌||◌,
  if◌then◌else◌, is_nat, replicate, ltb,
}
use nvmetool_win.Platform.{Layout, Request, Reply, data_in, scsi_pass_through}
use nvmetool_win.Program.{Prog, pure, reads, store_protocols, ◌>>=◌, ◌>>◌}
use nvmetool_win.WinFunc.{failed, succeeded, is_zero, issue_device_io_control}
use nvmetool_win.Console.{get_console_input, get_console_input_hex}
use nvmetool_win.Controller.Fields.{byte}
use nvmetool_win.Scsi.Properties.{query_device}
use nvmetool_win.Scsi.Transfer.{missing}

-- SECURITY PROTOCOL IN (A2h) of one block of 512 bytes, for a protocol and a ComID.
abbrev pub security_request : ℕ → ℕ → Request
security_request protocol com_id = scsi_pass_through (record {
  extended = false;
  direct = false;
  direction = data_in;
  cdb = 0xa2 ∷ protocol ∷ 0 ∷ com_id ∷ 0x80 ∷ 0 ∷ 0 ∷ 0 ∷ 0 ∷ 1 ∷ 0 ∷ 0 ∷ [];
  transfer_length = 512;
  timeout = 5;
  payload = [];
})

-- `ucLength`, a UCHAR.
unfoldable pub list_length : List ℕ → ℕ
list_length raw = bit_or (byte raw 7) (bit_and (byte raw 6 * 16 % 256) 0xf0)

-- The loop, from the cleared array on: which of the codes are marked by the first `n` rounds.
unfoldable pub mark : List ℕ → ℕ → ℕ → Bool
mark raw zero c = false
mark raw (suc n) c = byte raw (8 + n) == c || mark raw n c

-- `svParseSupportedSecurityProtocolList`
unfoldable pub parse_protocols : List ℕ → Prog (Unit {0})
unfolding list_length mark ◌>>=◌
parse_protocols raw = store_protocols (mark raw (list_length raw)) (list_length raw)

-- `iGetSupportedSecurityProtocolList`
unfoldable pub get_protocols : Prog ℤ
unfolding query_device issue_device_io_control parse_protocols
get_protocols = do
  d ← query_device
  if not d.status then pure missing else do
    answer ← issue_device_io_control (security_request 0 0)
    if is_zero answer.0 then parse_protocols answer.1.bytes >> pure answer.0 else pure answer.0

-- `s_iGetLevel0DiscoveryData`
unfoldable pub get_discovery : Prog ℤ
unfolding query_device issue_device_io_control ◌>>=◌
get_discovery = do
  d ← query_device
  if not d.status
      then pure missing
      else do answer ← issue_device_io_control (security_request 1 1); pure answer.0

receive_protocols : Prog ℤ
unfolding get_protocols get_console_input
receive_protocols = do c ← get_console_input; if c == b'y' then get_protocols else pure failed

receive_discovery : Prog ℤ
unfolding get_discovery get_console_input
receive_discovery = do
  c ← get_console_input
  if not (c == b'y') then pure failed else do
    supported ← reads (λ p w. w.supports_protocol 1)
    if supported then get_discovery else pure failed

-- The `switch` on the sub command.
choose_receive : ℤ → Prog ℤ
unfolding receive_protocols receive_discovery
choose_receive command =
    if is_nat command 0
    then receive_protocols
    else if is_nat command 1
    then receive_discovery
    else pure failed

-- `iSecurityReceiveViaSCSIPassThrough`
unfoldable pub security_receive : Prog ℤ
unfolding choose_receive get_console_input_hex ◌>>=◌
security_receive = do command ← get_console_input_hex; choose_receive command
