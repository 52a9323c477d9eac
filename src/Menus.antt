-- ===== src/Menus.antt =====
-- What the menus of Get Log Page, Identify and Get Features share: src/NVMeGetLogPage.c,
-- src/NVMeIdentify.c and src/NVMeGetFeatures.c.
pub mod Rules
pub mod ReadOnly
pub mod LogPage
pub mod Identify
pub mod Feature
use nvmetool_win.Base.{ℕ, ℤ, ◌==◌, if◌then◌else◌}
use nvmetool_win.Program.{Prog, pure, ◌>>=◌}
use nvmetool_win.WinFunc.{failed}
use nvmetool_win.Console.{get_console_input}
use nvmetool_win.Features.Reads.{Readout, result_of}

-- A case of a `switch`: the handler after a 'y'; iResult keeps its -1 otherwise.
unfoldable pub after_yes : Prog ℤ → Prog ℤ
unfolding get_console_input ◌>>=◌
after_yes handler = do c ← get_console_input; if c == b'y' then handler else pure failed

-- The result of a handler whose second component is only printed.
unfoldable pub result_only {ℓ} : {A : Type ℓ} → Prog (ℤ × A) → Prog ℤ
unfolding ◌>>=◌
result_only m = do answer ← m; pure answer.0

-- The result of a reading.
unfoldable pub result_of_reading {ℓ} : {A : Type ℓ} → Prog (Readout A) → Prog ℤ
unfolding ◌>>=◌
result_of_reading m = do r ← m; pure (result_of r)
