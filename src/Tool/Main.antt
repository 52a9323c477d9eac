-- ===== src/Tool/Main.antt =====
-- main of src/NVMeTool.c with its argument and hIssueCreateFile of src/WinFunc.c. CreateFile is a
-- parameter: whether the file of a name can be opened.
pub mod Ends
pub mod Refines
use nvmetool_win.Base.{
  ℕ, Bool, true, false, ℤ, List, [], ◌∷◌, ◌++◌, Option, none, some, ◌==◌, get_or, length,
  if◌then◌else◌,
}
use nvmetool_win.Controller.Workaround.{codes}
use nvmetool_win.Program.{Prog, pure, ◌>>=◌, ◌>>◌}
use nvmetool_win.Tool.{run_tool}
use nvmetool_win.WinFunc.{failed, succeeded, get_os_version}

-- `strDeviceName`, where the argument leaves it within its 256 characters.
unfoldable pub device_name : List ℕ → List ℕ
device_name number = codes "\\\\.\\PhysicalDrive" ++ number

-- The arguments are the name of the program and the number of the drive; otherwise the usage is
-- printed. The version of Windows is looked up before the drive is opened, which does not depend on it.
unfoldable pub main : (List ℕ → Bool) → List (List ℕ) → ℕ → Prog (Option ℤ)
unfolding device_name run_tool get_os_version ◌>>=◌
main create_file arguments rounds =
    if length arguments == 2
    then (if create_file (device_name (get_or arguments 1 []))
        then run_tool rounds
        else (get_os_version >> pure (some failed)))
    else pure (some succeeded)
