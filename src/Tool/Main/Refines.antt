-- ===== src/Tool/Main/Refines.antt =====
-- main of src/NVMeTool.c keeps to the automaton of Phases, with its argument.
use nvmetool_win.Base.{ℕ, Bool, List, [], some, ◌==◌, get_or, length}
use nvmetool_win.Platform.{Platform}
use nvmetool_win.Program.{World}
use nvmetool_win.Program.Keeps.{Sends-imp}
use nvmetool_win.Program.Requests.{IsReading-IsPlain}
use nvmetool_win.WinFunc.{failed, succeeded, get_os_version}
use nvmetool_win.Startup.ReadOnly.{Sends-get_os_version}
use nvmetool_win.Tool.Invariants.{Stays, bind-Stays, if-Stays, pure-Stays}
use nvmetool_win.Tool.Phases.{Reaches, idle, IsIdle, Sends-Stays, run_tool-Idle}
use nvmetool_win.Tool.Main.{device_name, main}

module _ (create_file : List ℕ → Bool) (arguments : List (List ℕ)) (p : Platform) where
  version-Stays : Stays (IsIdle p) p get_os_version
  version-Stays = Sends-Stays p get_os_version (Sends-imp IsReading-IsPlain Sends-get_os_version)

  main-Stays : (rounds : ℕ) → Stays (IsIdle p) p (main create_file arguments rounds)
  unfolding main
  main-Stays rounds =
      if-Stays (length arguments == 2) _ _
        (if-Stays (create_file (device_name (get_or arguments 1 []))) _ _ (run_tool-Idle p rounds)
          (bind-Stays get_os_version _ version-Stays (λ _. pure-Stays (some failed))))
        (pure-Stays (some succeeded))

-- With any arguments, whether or not the drive can be opened, whatever is typed, whatever the drive
-- answers and however many rounds of the loop have run, the requests of the program are those of the
-- automaton, back in `idle`: outside a format all of them are plain, and the media are only
-- reinitialized under an accepted lock, which is released at once.
pub main_refines :
    (create_file : List ℕ → Bool) (arguments : List (List ℕ)) (p : Platform) (rounds : ℕ)
    (w : World)
    → Reaches p w.issued idle
    → Reaches p (main create_file arguments rounds p w).1.issued idle
main_refines create_file arguments p rounds w h =
    (main-Stays create_file arguments p rounds).stays w h
