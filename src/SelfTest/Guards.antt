-- ===== src/SelfTest/Guards.antt =====
-- Which self-test commands reach the drive.
use nvmetool_win.Base.{ℕ, ◌+◌, ◌≡◌, ◌≢◌, ◌⊎◌, true, ◌∷◌, pos, pos_part, arith, take, drop}
use nvmetool_win.Platform.{Platform, Layout, Reply}
use nvmetool_win.Program.{World}
use nvmetool_win.Console.{first_char, scanned}
use nvmetool_win.Controller.Fields.{device_self_test}
use nvmetool_win.SelfTest.{
  log_request, self_test_request, short_test, extended_test, abort_test, run_self_test,
}

-- The status of the current operation in the log that a reply holds.
abbrev pub status : Layout → Reply → ℕ
status l r = l.operation_status (take 1 (drop r.data_offset r.bytes))

-- What must hold before the test `action` is sent, from the state `w`.
abbrev pub Allowed : Platform → World → ℕ → Type 0
Allowed p w action =
    let r = p.respond w.issued (log_request p.layout) in
    (device_self_test w.controller ≡ true)
    × (scanned (p.scan_hex (p.line w.lines_read)) ≡ pos action)
    × (r.accepted ≡ true)
    × (((action ≡ short_test) ⊎ (action ≡ extended_test)) × (status p.layout r ≡ 0)
        ⊎ (action ≡ abort_test) × (status p.layout r ≢ 0))
    × (first_char (p.line (w.lines_read + 1)) ≡ b'y')

-- A run sends nothing, or the query of the log alone, or that query and then one self-test command:
-- a short or extended test where the log shows no operation in progress, an abort where it shows
-- one, and in each case only on a controller that supports the command, for the code that was typed,
-- after a 'y'.
pub run_self_test_guarded :
    (p : Platform) (w : World)
    → let log = log_request p.layout in
      let action = pos_part (scanned (p.scan_hex (p.line w.lines_read))) in
      let after = (run_self_test p w).1.issued in
      (after ≡ w.issued)
      ⊎ (after ≡ log ∷ w.issued)
      ⊎ ((action : ℕ) × (after ≡ self_test_request p.layout action ∷ log ∷ w.issued)
          × Allowed p w action)
unfolding run_self_test
run_self_test_guarded p w = ground arith
