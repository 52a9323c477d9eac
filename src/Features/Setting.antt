-- ===== src/Features/Setting.antt =====
-- The menu of Set Features: src/NVMeSetFeatures.c.
pub mod Menu
pub mod Plain
use nvmetool_win.Base.{ℕ, Bool, ℤ, ◌==◌, is_nat, if◌then◌else◌}
use nvmetool_win.Program.{Prog, pure, ◌>>=◌}
use nvmetool_win.WinFunc.{failed}
use nvmetool_win.Console.{get_console_input, get_console_input_hex}
use nvmetool_win.Features.WriteCache.{set_write_cache}
use nvmetool_win.Features.Thermal.{set_thermal}

-- A case of the `switch`: the setter after a 'y'.
confirm_setter : Prog ℤ → Prog ℤ
unfolding get_console_input ◌>>=◌
confirm_setter setter = do c ← get_console_input; if c == b'y' then setter else pure failed

-- The `switch` on the feature identifier.
choose_setter : ℤ → Prog ℤ
unfolding confirm_setter
choose_setter fid =
    if is_nat fid 0x06
    then confirm_setter set_write_cache
    else if is_nat fid 0x10
    then confirm_setter set_thermal
    else pure failed

-- `iNVMeSetFeatures`
unfoldable pub set_features : Prog ℤ
unfolding choose_setter get_console_input_hex ◌>>=◌
set_features = do fid ← get_console_input_hex; choose_setter fid
