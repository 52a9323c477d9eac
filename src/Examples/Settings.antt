-- ===== src/Examples/Settings.antt =====
-- Tests of the feature settings.
use nvmetool_win.Controller.Fields.{mntmt, mxtmt, thermal_management}
use nvmetool_win.Base.{
  [], arith, pos, pos_part, refl, true, ℕ, ◌%◌, ◌+◌, ◌/◌, ◌<◌, ◌∷◌, ◌≡◌, ◌≢◌, ◌≤◌, ◌⊎◌,
}
use nvmetool_win.Platform.{Platform}
use nvmetool_win.Program.{World}
use nvmetool_win.Examples.{answers, controller, device, world}
use nvmetool_win.Features.Reads.{read_settings}
use nvmetool_win.Features.Reads.Order.{ReadInOrder, read_settings_in_order}
use nvmetool_win.Features.Sensors.{get_temperature_threshold}
use nvmetool_win.Features.Sensors.Order.{Reads, get_temperature_threshold_in_order, shown}
use nvmetool_win.Features.Fields.{thermal}
use nvmetool_win.Features.Thermal.{set_thermal, thermal_cdw11, thermal_request}
use nvmetool_win.Features.Thermal.Limits.{set_thermal_within_limits, thermal-thermal_cdw11, typed}
use nvmetool_win.Console.{first_char, scanned}
use nvmetool_win.Features.WriteCache.{cache_request, set_write_cache}
use nvmetool_win.Features.WriteCache.Requests.{set_write_cache_sends}
use nvmetool_win.WinFunc.{failed}
use nvmetool_win.Features.Setting.{set_features}
use nvmetool_win.Features.Setting.Menu.{set_features_guarded}

read_settings_in_order_example :
    let p : Platform = device (answers controller) [] in
    let fid : ℕ = 6 in let w : World = world in ReadInOrder p fid w (read_settings fid p w)
read_settings_in_order_example = read_settings_in_order (device (answers controller) []) 6 world

get_temperature_threshold_in_order_example :
    let p : Platform = device (answers controller) [] in
    let w : World = world in Reads p w (0 ∷ shown w.smart_log 8 0) get_temperature_threshold
get_temperature_threshold_in_order_example =
    get_temperature_threshold_in_order (device (answers controller) []) world

thermal-thermal_cdw11_example :
    let a : ℕ = 340 in
    let b : ℕ = 350 in
    ((thermal (thermal_cdw11 (pos a) (pos b))).tmt1 ≡ a)
    × ((thermal (thermal_cdw11 (pos a) (pos b))).tmt2 ≡ b)
thermal-thermal_cdw11_example = thermal-thermal_cdw11 340 350 (omega arith) (omega arith)

set_thermal_within_limits_example :
    let p : Platform =
      device
        (answers controller)
        ((b'3' ∷ b'0' ∷ b'0' ∷ []) ∷ (b'3' ∷ b'5' ∷ b'0' ∷ []) ∷ (b'y' ∷ []) ∷ []) in
    let w : World = world in
    let a = pos_part (typed p w.lines_read) in
    let b = pos_part (typed p (w.lines_read + 1)) in
    let key = first_char (p.line (w.lines_read + 2)) in
    let word = thermal_cdw11 (pos a) (pos b) in
    let after = (set_thermal p w).1.issued in
    (after ≡ w.issued)
    ⊎ ((after ≡ thermal_request p.layout word ∷ w.issued)
        × (thermal_management w.controller ≡ true)
        × ((key ≡ b'y') ⊎ (key ≡ b'Y'))
        × (typed p w.lines_read ≡ pos a)
        × (typed p (w.lines_read + 1) ≡ pos b)
        × (mntmt w.controller ≤ a)
        × (a < b)
        × (b ≤ mxtmt w.controller)
        × ((thermal word).tmt1 ≡ a)
        × ((thermal word).tmt2 ≡ b))
set_thermal_within_limits_example =
    set_thermal_within_limits
      (device (answers controller)
        ((b'3' ∷ b'0' ∷ b'0' ∷ []) ∷ (b'3' ∷ b'5' ∷ b'0' ∷ []) ∷ (b'y' ∷ []) ∷ []))
      world

set_write_cache_sends_example :
    let p : Platform = device (answers controller) ((b'3' ∷ []) ∷ (b'y' ∷ []) ∷ []) in
    let w : World = world in
    let n : ℕ = 3 in
    let after = (set_write_cache p w).1.issued in
    let key = first_char (p.line (w.lines_read + 1)) in
    let l = p.layout in
    ((key ≡ b'y')
      × (after
          ≡ cache_request l (l.set_features_cdw10 0x06 (n / 2)) (l.write_cache_cdw11 (n % 2))
            ∷ w.issued))
    ⊎ ((key ≢ b'y') × (after ≡ cache_request l 0 0 ∷ w.issued))
set_write_cache_sends_example =
    set_write_cache_sends (device (answers controller) ((b'3' ∷ []) ∷ (b'y' ∷ []) ∷ [])) world 3
      refl (omega arith) (omega arith)

set_features_guarded_example :
    let p : Platform = device (answers controller) ((b'6' ∷ []) ∷ (b'y' ∷ []) ∷ []) in
    let w : World = world in
    let fid = scanned (p.scan_hex (p.line w.lines_read)) in
    let confirmed = first_char (p.line (w.lines_read + 1)) ≡ b'y' in
    let asked : World = record w { lines_read = w.lines_read + 2 } in
    let (result, w') = set_features p w in
    ((fid ≡ pos 0x06) × confirmed × ((result, w') ≡ set_write_cache p asked))
    ⊎ ((fid ≡ pos 0x10) × confirmed × ((result, w') ≡ set_thermal p asked))
    ⊎ ((result ≡ failed)
        × (w'.issued ≡ w.issued)
        × ¬ ((fid ≡ pos 0x06) × confirmed)
        × ¬ ((fid ≡ pos 0x10) × confirmed))
set_features_guarded_example =
    set_features_guarded (device (answers controller) ((b'6' ∷ []) ∷ (b'y' ∷ []) ∷ [])) world
