-- ===== src/Program/Rules.antt =====
-- The rules of Keeps for the functions that the handlers share: src/WinFunc.c and src/NVMeUtils.c.
use nvmetool_win.Base.{ℕ, ℤ}
use nvmetool_win.Platform.{Layout, Request, Reply}
use nvmetool_win.Program.{Prog}
use nvmetool_win.Program.Keeps.{Sends, sends_rules}
use nvmetool_win.WinFunc.{issue_device_io_control, with_reply, read_protocol_data}
use nvmetool_win.Console.{get_console_input, get_console_input_hex, get_console_input_dec}

module _ {Q : Request → Type 0} where
  pub Sends-issue : (q : Request) → Q q → Sends Q (issue_device_io_control q)
  unfolding issue_device_io_control
  Sends-issue q fits = search sends_rules

  pub Sends-with_reply :
      (n : ℕ) (q : Request) (rest : Reply → Prog ℤ)
      → Q q
      → ((r : Reply) → Sends Q (rest r))
      → Sends Q (with_reply n q rest)
  unfolding with_reply
  Sends-with_reply n q rest fits later = search (sends_rules, Sends-issue) depth 8

  pub Sends-read_protocol_data :
      (n : ℕ) (l : Layout) (r : Reply) (m : ℕ) → Sends Q (read_protocol_data n l r m)
  unfolding read_protocol_data
  Sends-read_protocol_data n l r m = search sends_rules

  pub Sends-get_console_input : Sends Q get_console_input
  unfolding get_console_input
  Sends-get_console_input = search sends_rules

  pub Sends-get_console_input_hex : Sends Q get_console_input_hex
  unfolding get_console_input_hex
  Sends-get_console_input_hex = search sends_rules

  pub Sends-get_console_input_dec : Sends Q get_console_input_dec
  unfolding get_console_input_dec
  Sends-get_console_input_dec = search sends_rules

-- The rules with which a handler is taken apart.
pub ruleset handler_rules = (
  sends_rules, Sends-issue, Sends-with_reply, Sends-read_protocol_data, Sends-get_console_input,
  Sends-get_console_input_hex, Sends-get_console_input_dec,
)
