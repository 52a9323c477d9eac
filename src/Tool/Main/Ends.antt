-- ===== src/Tool/Main/Ends.antt =====
-- When and how main of src/NVMeTool.c ends, with its argument.
use nvmetool_win.Base.{
  ℕ, suc, ◌≡◌, ◌≤◌, ◌⊎◌, Bool, ℤ, List, [], none, some, ◌==◌, get_or, length, if◌then◌else◌, arith,
}
use nvmetool_win.Platform.{Platform}
use nvmetool_win.Program.{World}
use nvmetool_win.Startup.{start_up}
use nvmetool_win.Tool.Ends.{QuitsFrom, run_tool-ends, run_tool-result}
use nvmetool_win.Tool.Main.{device_name, main}
use nvmetool_win.WinFunc.{failed, succeeded}

-- The exit code: 0 without the one argument, -1 where the drive cannot be opened, and otherwise the
-- result of the steps before the loop.
abbrev pub exit_code : (List ℕ → Bool) → List (List ℕ) → Platform → World → ℤ
exit_code create_file arguments p w =
    if length arguments == 2
    then (if create_file (device_name (get_or arguments 1 [])) then (start_up p w).0 else failed)
    else succeeded

-- With any arguments, and whether or not the drive can be opened: where the user only asks to quit from
-- the n-th line on, n + 1 rounds of the loop are enough for main to end, and its result is 0 without
-- the one argument, -1 where the drive cannot be opened, and otherwise that of the steps before the
-- loop.
pub main-ends :
    (create_file : List ℕ → Bool) (arguments : List (List ℕ)) (p : Platform) (w : World)
    (n rounds : ℕ)
    → QuitsFrom p n
    → n ≤ rounds
    → (main create_file arguments (suc rounds) p w).0 ≡ some (exit_code create_file arguments p w)
unfolding main
main-ends create_file arguments p w n rounds quits le =
    ground (arith, run_tool-ends p w n rounds quits le)

-- A run of main that has ended, after any number of rounds, has that result, whatever the commands did
-- or returned.
pub main-result :
    (create_file : List ℕ → Bool) (arguments : List (List ℕ)) (p : Platform) (w : World)
    (rounds : ℕ)
    → ((main create_file arguments rounds p w).0 ≡ none)
      ⊎ ((main create_file arguments rounds p w).0 ≡ some (exit_code create_file arguments p w))
unfolding main
main-result create_file arguments p w rounds = ground (arith, run_tool-result p w rounds)
