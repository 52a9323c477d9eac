-- ===== src/Menus/Rules.antt =====
-- The rules of Keeps for what the menus share.
use nvmetool_win.Base.{ℤ, ◌==◌}
use nvmetool_win.Platform.{Request}
use nvmetool_win.Program.{Prog, pure}
use nvmetool_win.Program.Rules.{Sends-get_console_input}
use nvmetool_win.WinFunc.{failed}
use nvmetool_win.Console.{get_console_input}
use nvmetool_win.Program.Keeps.{Sends, sends_rules, Sends-bind, Sends-if, Sends-pure}
use nvmetool_win.Features.Reads.{Readout}
use nvmetool_win.Menus.{after_yes, result_only, result_of_reading}

module _ {Q : Request → Type 0} where
  pub Sends-after_yes : (handler : Prog ℤ) → Sends Q handler → Sends Q (after_yes handler)
  unfolding after_yes
  Sends-after_yes handler h =
      Sends-bind get_console_input _ Sends-get_console_input
        (λ c. Sends-if (c == b'y') handler (pure failed) (λ e. h) (λ e. Sends-pure failed))

  pub Sends-result_only {ℓ} : {A : Type ℓ} (m : Prog (ℤ × A)) → Sends Q m → Sends Q (result_only m)
  unfolding result_only
  Sends-result_only m h = search (sends_rules, h)

  pub Sends-result_of_reading {ℓ} :
      {A : Type ℓ} (m : Prog (Readout A)) → Sends Q m → Sends Q (result_of_reading m)
  unfolding result_of_reading
  Sends-result_of_reading m h = search (sends_rules, h)

pub ruleset menu_rules = (Sends-after_yes, Sends-result_only, Sends-result_of_reading)
