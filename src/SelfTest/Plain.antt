-- ===== src/SelfTest/Plain.antt =====
-- The requests of the self-test, of src/NVMeDeviceSelftest.c, are plain.
use nvmetool_win.Base.{◌+◌, ◌⊎◌, ℕ, ℤ, Bool, refl, ◌≡◌, inl, inr}
use nvmetool_win.Program.Requests.{IsPlain, IsReading-IsPlain}
use nvmetool_win.Program.Rules.{handler_rules, Sends-with_reply}
use nvmetool_win.Program.Keeps.{Sends, Sends-imp, sends_rules, Sends-reads, Sends-bind, Sends-pure}
use nvmetool_win.Program.{pure, reads}
use nvmetool_win.WinFunc.{succeeded}
use nvmetool_win.Menus.LogPage.ReadOnly.{Sends-get_self_test_log}
use nvmetool_win.SelfTest.{
  short_test, extended_test, abort_test, send_self_test, confirm_test, choose_test, run_self_test,
  self_test_request, get_self_test_log,
}

-- A code that the drive may be sent.
abbrev IsCode : ℕ → Type 0
IsCode action = (action ≡ 0x1) ⊎ (action ≡ 0x2) ⊎ (action ≡ 0xf)

Sends-send_self_test : (action : ℕ) → IsCode action → Sends IsPlain (send_self_test action)
unfolding send_self_test
Sends-send_self_test action h =
    Sends-bind (reads (λ p w. p.layout)) _ (Sends-reads (λ p w. p.layout)) (λ l.
      Sends-with_reply (l.command + l.nvme_command) (self_test_request l action)
        (λ r. pure succeeded) (inl (refl, h)) (λ r. Sends-pure succeeded))

Sends-confirm_test : (action : ℕ) → IsCode action → Sends IsPlain (confirm_test action)
unfolding confirm_test
Sends-confirm_test action h =
    let send = λ (u : Unit {0}). Sends-send_self_test action h in
    search (handler_rules, send) depth 8

Sends-short : Sends IsPlain (confirm_test short_test)
Sends-short = Sends-confirm_test short_test (inl refl)

Sends-extended : Sends IsPlain (confirm_test extended_test)
Sends-extended = Sends-confirm_test extended_test (inr (inl refl))

Sends-abort : Sends IsPlain (confirm_test abort_test)
Sends-abort = Sends-confirm_test abort_test (inr (inr refl))

Sends-choose_test : (test : ℤ) (busy : Bool) → Sends IsPlain (choose_test test busy)
unfolding choose_test
Sends-choose_test test busy =
    search (sends_rules, Sends-short, Sends-extended, Sends-abort) depth 16

Sends-log : (print : Bool) → Sends IsPlain (get_self_test_log print)
Sends-log print = Sends-imp IsReading-IsPlain (Sends-get_self_test_log print)

pub Sends-run_self_test : Sends IsPlain run_self_test
unfolding run_self_test
Sends-run_self_test = search (handler_rules, Sends-log, Sends-choose_test) depth 12
