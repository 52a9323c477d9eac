-- ===== src/Features/Setting/Plain.antt =====
-- The requests of Set Features, of src/NVMeSetFeatures.c, are plain.
use nvmetool_win.Base.{ℤ}
use nvmetool_win.Program.Requests.{IsPlain}
use nvmetool_win.Program.Rules.{handler_rules}
use nvmetool_win.Program.Keeps.{Sends, sends_rules}
use nvmetool_win.Features.WriteCache.{set_write_cache}
use nvmetool_win.Features.Thermal.{set_thermal}
use nvmetool_win.Features.WriteCache.Plain.{Sends-set_write_cache}
use nvmetool_win.Features.Thermal.Plain.{Sends-set_thermal}
use nvmetool_win.Features.Setting.{confirm_setter, choose_setter, set_features}

Sends-confirm_cache : Sends IsPlain (confirm_setter set_write_cache)
unfolding confirm_setter
Sends-confirm_cache = search (handler_rules, Sends-set_write_cache) depth 8

Sends-confirm_thermal : Sends IsPlain (confirm_setter set_thermal)
unfolding confirm_setter
Sends-confirm_thermal = search (handler_rules, Sends-set_thermal) depth 8

Sends-choose_setter : (fid : ℤ) → Sends IsPlain (choose_setter fid)
unfolding choose_setter
Sends-choose_setter fid = search (sends_rules, Sends-confirm_cache, Sends-confirm_thermal) depth 8

pub Sends-set_features : Sends IsPlain set_features
unfolding set_features
Sends-set_features = search (handler_rules, Sends-choose_setter) depth 8
