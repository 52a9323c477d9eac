-- ===== src/Features/Setting/Menu.antt =====
-- Which setter the menu of Set Features runs.
use nvmetool_win.Base.{◌+◌, ◌≡◌, ◌⊎◌, pos, arith}
use nvmetool_win.Platform.{Platform}
use nvmetool_win.Program.{World}
use nvmetool_win.WinFunc.{failed}
use nvmetool_win.Console.{first_char, scanned}
use nvmetool_win.Features.WriteCache.{set_write_cache}
use nvmetool_win.Features.Thermal.{set_thermal}
use nvmetool_win.Features.Setting.{set_features}

-- Set Features runs the setter of the write cache only after the identifier 06h and a 'y', the one of
-- the thermal management only after 10h and a 'y', each with the two lines read, and otherwise sends
-- nothing and returns -1.
pub set_features_guarded :
    (p : Platform) (w : World)
    → let fid = scanned (p.scan_hex (p.line w.lines_read)) in
      let confirmed = first_char (p.line (w.lines_read + 1)) ≡ b'y' in
      let asked : World = record w { lines_read = w.lines_read + 2 } in
      let (result, w') = set_features p w in
      ((fid ≡ pos 0x06) × confirmed × ((result, w') ≡ set_write_cache p asked))
      ⊎ ((fid ≡ pos 0x10) × confirmed × ((result, w') ≡ set_thermal p asked))
      ⊎ ((result ≡ failed)
          × (w'.issued ≡ w.issued)
          × ¬ ((fid ≡ pos 0x06) × confirmed)
          × ¬ ((fid ≡ pos 0x10) × confirmed))
unfolding set_features
set_features_guarded p w = ground arith
