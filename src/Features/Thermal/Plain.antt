-- ===== src/Features/Thermal/Plain.antt =====
-- The requests of the thermal management, of src/NVMeFeaturesHCTM.c, are plain.
use nvmetool_win.Base.{ℕ, ℤ}
use nvmetool_win.Program.Requests.{IsPlain}
use nvmetool_win.Program.Rules.{handler_rules}
use nvmetool_win.Program.Keeps.{Sends, sends_rules}
use nvmetool_win.Features.Thermal.{send_thermal, set_within, set_thermal}

Sends-send_thermal : (n : ℕ) → Sends IsPlain (send_thermal n)
unfolding send_thermal
Sends-send_thermal n = search handler_rules depth 8

Sends-set_within : (lowest highest : ℕ) (a b : ℤ) → Sends IsPlain (set_within lowest highest a b)
unfolding set_within
Sends-set_within lowest highest a b = search (sends_rules, Sends-send_thermal) depth 12

pub Sends-set_thermal : Sends IsPlain set_thermal
unfolding set_thermal
Sends-set_thermal = search (handler_rules, Sends-set_within) depth 12
