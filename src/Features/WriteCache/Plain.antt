-- ===== src/Features/WriteCache/Plain.antt =====
-- The requests of the volatile write cache, of src/NVMeFeaturesVWC.c, are plain.
use nvmetool_win.Base.{ℕ}
use nvmetool_win.Program.Requests.{IsPlain}
use nvmetool_win.Program.Rules.{handler_rules}
use nvmetool_win.Program.Keeps.{Sends}
use nvmetool_win.Features.WriteCache.{send_cache, set_cache, set_write_cache}

Sends-send_cache : (a b : ℕ) → Sends IsPlain (send_cache a b)
unfolding send_cache
Sends-send_cache a b = search handler_rules depth 8

Sends-set_cache : (a b : ℕ) → Sends IsPlain (set_cache a b)
unfolding set_cache
Sends-set_cache a b = search (handler_rules, Sends-send_cache) depth 8

pub Sends-set_write_cache : Sends IsPlain set_write_cache
unfolding set_write_cache
Sends-set_write_cache = search (handler_rules, Sends-set_cache) depth 12
