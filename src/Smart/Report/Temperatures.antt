-- ===== src/Smart/Report/Temperatures.antt =====
-- The sensors of the SMART report, and those whose thresholds Get Features asks for.
use nvmetool_win.Base.{ℕ, zero, suc, ◌+◌, ◌≡◌, List, [], ◌∷◌, Option, none, some, refl, arith}
use nvmetool_win.Features.Sensors.{sensor_value}
use nvmetool_win.Features.Sensors.Order.{shown}
use nvmetool_win.Smart.Report.{sensor, sensors_from, sensors}

-- The numbers of the entries that show something, from `i + 1` on.
abbrev pub numbers {ℓ} : {A : Type ℓ} → List (Option A) → ℕ → List ℕ
numbers [] i = []
numbers (none ∷ xs) i = numbers xs (i + 1)
numbers (some a ∷ xs) i = (i + 1) ∷ numbers xs (i + 1)

shown-numbers :
    (log : List ℕ) (rounds i : ℕ) → shown log rounds i ≡ numbers (sensors_from log rounds i) i
unfolding sensors_from sensor_value sensor
shown-numbers log zero i = refl
shown-numbers log (suc rounds) i = ground (arith, shown-numbers log rounds (i + 1))

-- The sensors whose temperature the SMART report prints are exactly those whose thresholds Get Features
-- asks for, in the same order.
pub sensors-shown : (log : List ℕ) → shown log 8 0 ≡ numbers (sensors log) 0
unfolding sensors
sensors-shown log = shown-numbers log 8 0
