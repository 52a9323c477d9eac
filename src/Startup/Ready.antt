-- ===== src/Startup/Ready.antt =====
-- What holds of the globals once the loop of main is entered.
use nvmetool_win.Base.{
  ◌≡◌, ◌≢◌, ℤ, true, false, Bool, refl, ◌∙◌, zero, suc, pos, negsuc, if◌then◌else◌, arith,
}
use nvmetool_win.Platform.{Platform}
use nvmetool_win.Program.{World, Prog, pure, ◌>>=◌, ◌>>◌}
use nvmetool_win.WinFunc.{succeeded, is_zero, get_os_version}
use nvmetool_win.Controller.Fields.{vid, nn, security_commands}
use nvmetool_win.Controller.Identify.{identify_controller}
use nvmetool_win.Controller.Workaround.{needs_workaround, set_basic_data}
use nvmetool_win.Smart.{get_smart}
use nvmetool_win.Scsi.Security.{get_protocols}
use nvmetool_win.Startup.{start_up, find_health, find_protocols}

-- The steps behind the identification leave the controller data and the flag of the workaround alone.
abbrev pub Kept : World → World → Type 0
Kept w w' = (w'.controller ≡ w.controller) × (w'.smart_with_nsid_zero ≡ w.smart_with_nsid_zero)

get_protocols-Kept : (p : Platform) (w : World) → Kept w (get_protocols p w).1
unfolding get_protocols
get_protocols-Kept p w = ground arith

Kept-if :
    (b : Bool) (m n : Prog ℤ) (p : Platform) (w : World)
    → Kept w (m p w).1
    → Kept w (n p w).1
    → Kept w ((if b then m else n) p w).1
Kept-if true m n p w hm hn = hm
Kept-if false m n p w hm hn = hn

find_protocols-Kept : (r : ℤ) (p : Platform) (w : World) → Kept w (find_protocols r p w).1
unfolding find_protocols
find_protocols-Kept r p w =
    Kept-if (security_commands w.controller) get_protocols (pure r) p w (get_protocols-Kept p w)
      (refl, refl)

get_smart-Kept : (p : Platform) (w : World) (nsid : ℤ) → Kept w (get_smart false nsid p w).1
unfolding get_smart
get_smart-Kept p w nsid = ground arith

find_health-Kept : (p : Platform) (w : World) → Kept w (find_health p w).1
unfolding find_health
find_health-Kept p w =
    let (result, w1) = get_smart false (negsuc 0) p w in
    let first = get_smart-Kept p w (negsuc 0) in
    let (c, f) =
      Kept-if (is_zero result) (find_protocols result) (pure result) p w1
        (find_protocols-Kept result p w1) (refl, refl) in
    (c ∙ first.0, f ∙ first.1)

identify_controller-valid :
    (p : Platform) (w : World)
    → (identify_controller p w).0 ≡ succeeded
    → (vid (identify_controller p w).1.controller ≢ 0)
      × (nn (identify_controller p w).1.controller ≢ 0)
unfolding identify_controller
identify_controller-valid p w e = ground arith

-- The controller data are valid, and the flag of the workaround is the one for them.
abbrev pub IsReady : World → Type 0
IsReady w =
    (vid w.controller ≢ 0)
    × (nn w.controller ≢ 0)
    × (w.smart_with_nsid_zero ≡ needs_workaround w.controller)

after_identify :
    (r : ℤ) (p : Platform) (w : World)
    → (r ≡ succeeded → (vid w.controller ≢ 0) × (nn w.controller ≢ 0))
    → ((if is_zero r then (set_basic_data >> find_health) else pure r) p w).0 ≡ succeeded
    → IsReady ((if is_zero r then (set_basic_data >> find_health) else pure r) p w).1
unfolding set_basic_data ◌>>=◌
after_identify (pos zero) p w valid e =
    let h = valid refl in
    let (c, f) = find_health-Kept p (set_basic_data p w).1 in (rw c h.0, rw c h.1, rw (c, f) refl)
after_identify (pos (suc n)) p w valid e = absurd (grind arith)
after_identify (negsuc n) p w valid e = absurd (grind arith)

-- Where the steps before the loop return 0, the controller data in g_stController name a vendor and a
-- namespace, and the flag of the workaround is the one for the controller that they describe.
pub start_up-IsReady :
    (p : Platform) (w : World) → (start_up p w).0 ≡ succeeded → IsReady (start_up p w).1
unfolding start_up
start_up-IsReady p w e =
    let w1 = (get_os_version p w).1 in
    let (r, w2) = identify_controller p w1 in
    after_identify r p w2 (identify_controller-valid p w1) e
