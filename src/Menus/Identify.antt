-- ===== src/Menus/Identify.antt =====
-- iNVMeIdentify of src/NVMeIdentify.c. The namespace is always 1.
pub mod ReadOnly
pub mod Routes
use nvmetool_win.Base.{ℕ, ℤ, is_nat, if◌then◌else◌}
use nvmetool_win.Program.{Prog, pure, ◌>>=◌}
use nvmetool_win.WinFunc.{failed}
use nvmetool_win.Console.{get_console_input_hex}
use nvmetool_win.Controller.Identify.{identify_controller}
use nvmetool_win.Namespace.{
  identify_namespace, identify_active_list, identify_descriptor, identify_iocs_namespace,
}
use nvmetool_win.Menus.{after_yes, result_only}

-- The `switch` on the CNS value.
choose_structure : ℤ → Prog ℤ
unfolding after_yes result_only
choose_structure cns =
    if is_nat cns 0x00
    then after_yes (identify_namespace 1)
    else if is_nat cns 0x01
    then after_yes identify_controller
    else if is_nat cns 0x02
    then after_yes (result_only identify_active_list)
    else if is_nat cns 0x03
    then after_yes (result_only (identify_descriptor 1))
    else if is_nat cns 0x05
    then after_yes (identify_iocs_namespace 1)
    else pure failed

-- `iNVMeIdentify`
unfoldable pub identify_menu : Prog ℤ
unfolding choose_structure get_console_input_hex ◌>>=◌
identify_menu = do cns ← get_console_input_hex; choose_structure cns
