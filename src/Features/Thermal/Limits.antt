-- ===== src/Features/Thermal/Limits.antt =====
-- The temperatures that src/NVMeFeaturesHCTM.c sends.
use nvmetool_win.Base.{
  ◌≢◌, ◌↔◌, ne-cons, ℕ, ◌+◌, ◌≤◌, ◌<◌, ◌≡◌, ◌⊎◌, true, List, ◌∷◌, ℤ, pos, pos_part, arith,
}
use nvmetool_win.Platform.{Platform}
use nvmetool_win.Program.{World}
use nvmetool_win.WinFunc.{failed}
use nvmetool_win.Console.{first_char, scanned}
use nvmetool_win.Controller.Fields.{thermal_management, mntmt, mxtmt}
use nvmetool_win.Features.Fields.{thermal}
use nvmetool_win.Features.Thermal.{thermal_cdw11, thermal_request, set_thermal}

-- The number that the n-th line holds.
abbrev pub typed : Platform → ℕ → ℤ
typed p n = scanned (p.scan_dec (p.line n))

-- Two temperatures of 16 bits survive the packing: Get Features would print the same two.
pub thermal-thermal_cdw11 :
    (a b : ℕ)
    → a < 65536
    → b < 65536
    → ((thermal (thermal_cdw11 (pos a) (pos b))).tmt1 ≡ a)
      × ((thermal (thermal_cdw11 (pos a) (pos b))).tmt2 ≡ b)
unfolding thermal thermal_cdw11
thermal-thermal_cdw11 a b ha hb = omega arith

mxtmt-lt : (c : List ℕ) → mxtmt c < 65536
unfolding mxtmt
mxtmt-lt c = omega arith

-- A run sends at most one command. If it sends one, the controller supports the feature, the answer
-- was a 'y' in either case, the two numbers typed are a and b with MNTMT <= a < b <= MXTMT, and the
-- command word, read back as Get Features reads it, holds just these two as TMT1 and TMT2: nothing is
-- cut off by the fields of 16 bits.
pub set_thermal_within_limits :
    (p : Platform) (w : World)
    → let a = pos_part (typed p w.lines_read) in
      let b = pos_part (typed p (w.lines_read + 1)) in
      let key = first_char (p.line (w.lines_read + 2)) in
      let word = thermal_cdw11 (pos a) (pos b) in
      let after = (set_thermal p w).1.issued in
      (after ≡ w.issued)
      ⊎ ((after ≡ thermal_request p.layout word ∷ w.issued)
          × (thermal_management w.controller ≡ true)
          × ((key ≡ b'y') ⊎ (key ≡ b'Y'))
          × (typed p w.lines_read ≡ pos a)
          × (typed p (w.lines_read + 1) ≡ pos b)
          × (mntmt w.controller ≤ a)
          × (a < b)
          × (b ≤ mxtmt w.controller)
          × ((thermal word).tmt1 ≡ a)
          × ((thermal word).tmt2 ≡ b))
unfolding set_thermal
set_thermal_within_limits p w = ground (
  arith,
  mxtmt-lt w.controller,
  thermal-thermal_cdw11 (pos_part (typed p w.lines_read)) (pos_part (typed p (w.lines_read + 1))),
)

-- The result 1 is returned exactly where the command was sent and the drive accepted it; a command that
-- the drive refuses yields 0, which an answer other than 'y' yields too.
pub set_thermal_results :
    (p : Platform) (w : World)
    → let (result, w') = set_thermal p w in
      let word = thermal_cdw11 (typed p w.lines_read) (typed p (w.lines_read + 1)) in
      let q = thermal_request p.layout word in
      ((result ≡ pos 1) ↔ ((w'.issued ≡ q ∷ w.issued) × ((p.respond w.issued q).accepted ≡ true)))
      × ((w'.issued ≡ w.issued) ⊎ (result ≢ failed))
unfolding set_thermal
set_thermal_results p w = ground (
  arith,
  ne-cons
      (thermal_request p.layout (thermal_cdw11 (typed p w.lines_read) (typed p (w.lines_read + 1))))
      w.issued,
)
