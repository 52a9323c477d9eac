-- ===== src/Console/Lines.antt =====
-- The main menu of src/NVMeUtils.c asks nothing of the drive and reads one line or two.
use nvmetool_win.Base.{ℕ, ◌<◌, ◌≡◌, ◌⊎◌, arith}
use nvmetool_win.Platform.{Platform, Request}
use nvmetool_win.Program.{World}
use nvmetool_win.Program.Rules.{handler_rules}
use nvmetool_win.Program.Keeps.{Sends, sends_rules}
use nvmetool_win.Console.{MajorCommand, confirm, choose, get_command_from_console, first_char, quit}

module _ {Q : Request → Type 0} where
  Sends-confirm : (command : MajorCommand) → Sends Q (confirm command)
  unfolding confirm
  Sends-confirm command = search handler_rules

  Sends-choose : (c : ℕ) → Sends Q (choose c)
  unfolding choose
  Sends-choose c = search (sends_rules, Sends-confirm) depth 20

  pub Sends-get_command_from_console : Sends Q get_command_from_console
  unfolding get_command_from_console
  Sends-get_command_from_console = search (handler_rules, Sends-choose)

pub get_command_reads_on :
    (p : Platform) (w : World) → w.lines_read < (get_command_from_console p w).1.lines_read
unfolding get_command_from_console
get_command_reads_on p w = ground arith

-- A line that starts with a 'q' in either case ends the loop.
pub get_command_quits :
    (p : Platform) (w : World)
    → (first_char (p.line w.lines_read) ≡ b'q') ⊎ (first_char (p.line w.lines_read) ≡ b'Q')
    → (get_command_from_console p w).0 ≡ quit
unfolding get_command_from_console
get_command_quits p w h = ground arith
