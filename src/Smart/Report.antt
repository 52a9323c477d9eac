-- ===== src/Smart/Report.antt =====
-- The report of the SMART log, s_vPrintNVMeSMARTLog of src/NVMeSMART.c: the values that are printed,
-- without their texts, at the offsets of src/NVMeSMART.h.
pub mod Temperatures
use nvmetool_win.Base.{
  ℕ, zero, suc, ◌+◌, ◌-◌, ◌*◌, ◌/◌, Bool, List, [], ◌∷◌, ◌++◌, Option, none, some, ℤ, pos, negsuc,
  ◌==◌, leb, if◌then◌else◌, map,
}
use nvmetool_win.Controller.Fields.{byte, word, dword, qword, flags}
use nvmetool_win.Controller.Version.{is_v14_or_later}

-- The critical warnings; the persistent memory region only from NVMe 1.4 on.
unfoldable pub warnings : List ℕ → List ℕ → List (ℕ × Bool)
unfolding is_v14_or_later
warnings c log =
    flags ((if is_v14_or_later c then 5 ∷ [] else []) ++ (4 ∷ 3 ∷ 2 ∷ 1 ∷ 0 ∷ [])) (byte log 0)

-- The warnings of the endurance groups, from NVMe 1.4 on.
unfoldable pub endurance_warnings : List ℕ → List ℕ → List (ℕ × Bool)
unfolding is_v14_or_later
endurance_warnings c log = if is_v14_or_later c then flags (3 ∷ 2 ∷ 0 ∷ []) (byte log 6) else []

-- `iTemp - 273`
unfoldable pub celsius : ℕ → ℤ
celsius k = if leb 273 k then pos (k - 273) else negsuc (272 - k)

-- The composite temperature in Kelvin and in Celsius.
unfoldable pub composite : List ℕ → ℕ × ℤ
unfolding celsius
composite log = (word log 1, celsius (word log 1))

-- The available spare, its threshold, and the percentage used.
unfoldable pub levels : List ℕ → ℕ × ℕ × ℕ
levels log = (byte log 3, byte log 4, byte log 5)

-- The ten counters of 16 bytes, from the data units read to the entries of the error log: the upper
-- half and the lower.
unfoldable pub counters : List ℕ → List (ℕ × ℕ)
counters log =
    map (λ i. (qword log (i + 8), qword log i))
      (32 ∷ 48 ∷ 64 ∷ 80 ∷ 96 ∷ 112 ∷ 128 ∷ 144 ∷ 160 ∷ 176 ∷ [])

-- WCTempTime and CCTempTime, in minutes and in hours.
unfoldable pub warning_times : List ℕ → List (ℕ × ℕ)
warning_times log = map (λ i. (dword log i, dword log i / 60)) (192 ∷ 196 ∷ [])

-- A sensor that shows no temperature is "not implemented".
unfoldable pub sensor : ℕ → Option (ℕ × ℤ)
unfolding celsius
sensor k = if k == 0 then none else some (k, celsius k)

-- The sensors from the i-th on, so many of them.
unfoldable pub sensors_from : List ℕ → ℕ → ℕ → List (Option (ℕ × ℤ))
unfolding sensor
sensors_from log zero i = []
sensors_from log (suc rounds) i = sensor (word log (200 + 2 * i)) ∷ sensors_from log rounds (i + 1)

-- TemperatureSensor1 to TemperatureSensor8
unfoldable pub sensors : List ℕ → List (Option (ℕ × ℤ))
unfolding sensors_from
sensors log = sensors_from log 8 0

-- The transition counts and the total times of the two thermal management temperatures.
unfoldable pub transitions : List ℕ → List ℕ
transitions log = map (λ i. dword log i) (216 ∷ 220 ∷ 224 ∷ 228 ∷ [])
