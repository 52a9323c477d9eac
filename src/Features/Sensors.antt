-- ===== src/Features/Sensors.antt =====
-- NVMeGetFeaturesTemperatureThreshold of src/NVMeGetFeatures.c: the thresholds of the composite
-- temperature, and of every sensor that the stored SMART log shows.
pub mod Outcomes
pub mod Order
use nvmetool_win.Base.{ℕ, zero, suc, ◌+◌, ◌*◌, List, [], ◌∷◌, ◌==◌, if◌then◌else◌}
use nvmetool_win.Platform.{
  Layout, Select, current_value, default_value, saved_value, supported_capabilities, Threshold,
  over_threshold, under_threshold,
}
use nvmetool_win.Program.{Prog, pure, reads, ◌>>=◌}
use nvmetool_win.Controller.Fields.{word}
use nvmetool_win.Features.Reads.{Readout, stopped, completed, get_feature32, ◌then_read◌}
use nvmetool_win.Features.Fields.{temperature_threshold}
use nvmetool_win.Features.Reports.{Report}

-- NVME_FEATURE_TEMPERATURE_THRESHOLD
abbrev pub threshold_feature : ℕ
threshold_feature = 0x04

-- What is printed of one sensor.
pub record Thresholds : Type 0 where
  pub sensor : ℕ
  pub over : Report ℕ
  pub under : Report ℕ

-- Four reads: three with the word `cdw11`, the capabilities with `cdw11_capabilities`.
unfoldable pub read_quartet : ℕ → ℕ → Prog (Readout (Report ℕ))
unfolding get_feature32 ◌then_read◌ temperature_threshold
read_quartet cdw11 cdw11_capabilities =
    get_feature32 threshold_feature current_value cdw11 then_read λ a.
    get_feature32 threshold_feature default_value cdw11 then_read λ b.
    get_feature32 threshold_feature saved_value cdw11 then_read λ c.
    get_feature32 threshold_feature supported_capabilities cdw11_capabilities then_read λ d. pure (
      completed (record {
        current = temperature_threshold a;
        default = temperature_threshold b;
        saved = temperature_threshold c;
        capabilities = d;
      }))

-- `if (result) return result;` after several reads.
unfoldable pub go_on {ℓ κ} :
    {A : Type ℓ} {B : Type κ} → (A → Prog (Readout B)) → Readout A → Prog (Readout B)
go_on rest (stopped result) = pure (stopped result)
go_on rest (completed a) = rest a

infixl 10 ◌then_continue◌
unfoldable pub ◌then_continue◌ {ℓ κ} :
    {A : Type ℓ} {B : Type κ} → Prog (Readout A) → (A → Prog (Readout B)) → Prog (Readout B)
unfolding go_on ◌>>=◌
m then_continue rest = m >>= go_on rest

-- The eight reads of one sensor; the composite temperature is sensor 0. Its last read leaves the
-- command word 0.
unfoldable pub read_thresholds : ℕ → Prog (Readout Thresholds)
unfolding read_quartet ◌then_continue◌
read_thresholds n = do
  l ← reads (λ p w. p.layout)
  let over_word = l.threshold_cdw11 over_threshold n
  let under_word = l.threshold_cdw11 under_threshold n
  read_quartet over_word over_word then_continue λ over.
      read_quartet under_word (if n == 0 then 0 else under_word) then_continue λ under.
      pure (completed (record { sensor = n; over = over; under = under }))

-- `*(&(g_stSMARTLog.TemperatureSensor1) + i)`
unfoldable pub sensor_value : List ℕ → ℕ → ℕ
sensor_value log i = word log (200 + 2 * i)

-- The loop, with so many rounds left, from `i` on.
unfoldable pub read_sensors : ℕ → ℕ → Prog (Readout (List Thresholds))
unfolding read_thresholds sensor_value ◌then_continue◌
read_sensors zero i = pure (completed [])
read_sensors (suc rounds) i =
    let rest = read_sensors rounds (i + 1) in
    reads (λ p w. sensor_value w.smart_log i) >>= λ value.
    if value == 0
    then rest
    else (read_thresholds (i + 1) then_continue λ first.
        rest then_continue λ others. pure (completed (first ∷ others)))

-- `NVMeGetFeaturesTemperatureThreshold`
unfoldable pub get_temperature_threshold : Prog (Readout (List Thresholds))
unfolding read_thresholds read_sensors ◌then_continue◌ ◌>>=◌
get_temperature_threshold = read_thresholds 0 then_continue λ composite.
    read_sensors 8 0 then_continue λ others. pure (completed (composite ∷ others))
