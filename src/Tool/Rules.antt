-- ===== src/Tool/Rules.antt =====
-- The requests of the commands that the loop of src/NVMeTool.c runs, but for Format NVM.
use nvmetool_win.Program.{device_io_control}
use nvmetool_win.Program.Keeps.{Sends-pure, Sends-device_io_control}
use nvmetool_win.Platform.{Layout}
use nvmetool_win.WinFunc.{succeeded}
use nvmetool_win.Controller.Fields.{dataset_management, security_commands}
use nvmetool_win.Scsi.Security
use nvmetool_win.Deallocate
use nvmetool_win.Base.{ℤ, ℕ, Bool, List, refl, inl, inr, ◌≡◌, ◌⊎◌}
use nvmetool_win.Program.{Prog}
use nvmetool_win.Program.Requests.{IsPlain, IsReading, IsReading-IsPlain}
use nvmetool_win.Program.Rules.{handler_rules}
use nvmetool_win.Program.Keeps.{Sends, Sends-imp, sends_rules}
use nvmetool_win.Console.{
  MajorCommand, get_log_page, identify, set_features, get_features, self_test, format_nvm,
  security_receive, admin_vendor_test, read, write, deallocate, flush, quit, unknown,
}
use nvmetool_win.Features.Setting.Plain.{Sends-set_features}
use nvmetool_win.Menus.Feature.ReadOnly.{Sends-get_features_menu}
use nvmetool_win.Menus.Identify.ReadOnly.{Sends-identify_menu}
use nvmetool_win.Menus.LogPage.ReadOnly.{Sends-log_page_menu}
use nvmetool_win.Scsi.Security.ReadOnly.{Sends-security_receive}
use nvmetool_win.Scsi.Transfer.Plain.{Sends-write_sector, Sends-read_sector, Sends-flush_cache}
use nvmetool_win.SelfTest.Plain.{Sends-run_self_test}
use nvmetool_win.Vendor.{vendor_command, vendor_request}
use nvmetool_win.Tool.{if_supported, dispatch}

Sends-if_supported :
    (test : List ℕ → Bool) (result : ℤ) (m : Prog ℤ)
    → Sends IsPlain m
    → Sends IsPlain (if_supported test result m)
unfolding if_supported
Sends-if_supported test result m h = search sends_rules

Sends-deallocate : Sends IsPlain Deallocate.deallocate
unfolding Deallocate.deallocate
Sends-deallocate = search handler_rules depth 8

Sends-ask_vendor : (l : Layout) → Sends IsPlain (device_io_control (vendor_request l 0xff))
Sends-ask_vendor l = Sends-device_io_control (vendor_request l 0xff) (inr refl)

Sends-vendor_command : Sends IsPlain (vendor_command 0xff)
unfolding vendor_command
Sends-vendor_command = search (sends_rules, Sends-ask_vendor) depth 8

reads_only : {m : Prog ℤ} → Sends IsReading m → Sends IsPlain m
reads_only h = Sends-imp IsReading-IsPlain h

Sends-receive : Sends IsPlain Security.security_receive
Sends-receive = reads_only Sends-security_receive

-- Every command but Format NVM.
pub Sends-dispatch :
    (command : MajorCommand)
    → (command ≡ format_nvm) ⊎ ((result : ℤ) → Sends IsPlain (dispatch command result))
unfolding dispatch
Sends-dispatch deallocate =
    inr (λ result. Sends-if_supported dataset_management result _ Sends-deallocate)
Sends-dispatch flush = inr (λ result. Sends-flush_cache)
Sends-dispatch read = inr (λ result. Sends-read_sector)
Sends-dispatch write = inr (λ result. Sends-write_sector)
Sends-dispatch identify = inr (λ result. reads_only Sends-identify_menu)
Sends-dispatch get_log_page = inr (λ result. reads_only Sends-log_page_menu)
Sends-dispatch set_features = inr (λ result. Sends-set_features)
Sends-dispatch get_features = inr (λ result. reads_only Sends-get_features_menu)
Sends-dispatch self_test = inr (λ result. Sends-run_self_test)
Sends-dispatch format_nvm = inl refl
Sends-dispatch security_receive =
    inr (λ result. Sends-if_supported security_commands result _ Sends-receive)
Sends-dispatch admin_vendor_test = inr (λ result. Sends-vendor_command)
Sends-dispatch quit = inr (λ result. Sends-pure succeeded)
Sends-dispatch unknown = inr (λ result. Sends-pure result)
