-- ===== src/Features/Fields.antt =====
-- How the feature functions of src/NVMeGetFeatures.c take the value of a feature apart.
pub mod Laws
use nvmetool_win.Base.{
  ℕ, ◌+◌, ◌*◌, ◌/◌, ◌%◌, ◌^◌, Bool, true, false, ◌==◌, ◌||◌, if◌then◌else◌, Option, none, some, not,
}

-- `(v >> k) & (2^n - 1)`
abbrev pub bits : ℕ → ℕ → ℕ → ℕ
bits v k n = v / 2 ^ k % 2 ^ n

-- `if ((v >> k) & 0x1)`
abbrev pub is_set : ℕ → ℕ → Bool
is_set v k = bits v k 1 == 1

-- Arbitration: each weight as it is stored and as it is meant, and the burst, where 7 (128) means
-- no limit.
pub record Arbitration : Type 0 where
  pub hpw : ℕ
  pub high_weight : ℕ
  pub mpw : ℕ
  pub medium_weight : ℕ
  pub lpw : ℕ
  pub low_weight : ℕ
  pub ab : ℕ
  pub burst : ℕ

unfoldable pub arbitration : ℕ → Arbitration
arbitration v = record {
  hpw = bits v 24 8;
  high_weight = bits v 24 8 + 1;
  mpw = bits v 16 8;
  medium_weight = bits v 16 8 + 1;
  lpw = bits v 8 8;
  low_weight = bits v 8 8 + 1;
  ab = bits v 0 3;
  burst = 2 ^ bits v 0 3;
}

-- The workload hint of Power Management.
pub data Workload : Type 0 where
  no_workload : Workload
  workload unknown_workload : ℕ → Workload

workload_hint : ℕ → Workload
workload_hint h =
    if h == 0 then no_workload else if h == 1 || h == 2 then workload h else unknown_workload h

pub record PowerManagement : Type 0 where
  pub hint : Workload
  pub power_state : ℕ

unfoldable pub power_management : ℕ → PowerManagement
unfolding workload_hint
power_management v = record { hint = workload_hint (bits v 5 3); power_state = bits v 0 5 }

-- A field whose 0 is printed as a word of its own ("no timeout", "disabled", "no delay").
abbrev pub unless_zero : ℕ → ℕ → Option (ℕ × ℕ)
unless_zero n scale = if n == 0 then none else some (n, n * scale)

-- Error Recovery: DULBE, and TLER with its milliseconds.
pub record ErrorRecovery : Type 0 where
  pub dulbe : Bool
  pub tler : Option (ℕ × ℕ)

unfoldable pub error_recovery : ℕ → ErrorRecovery
error_recovery v = record { dulbe = is_set v 16; tler = unless_zero (bits v 0 16) 100 }

-- Volatile Write Cache: WCE.
unfoldable pub write_cache : ℕ → Bool
write_cache v = is_set v 0

-- Number of Queues: each count as it is stored, zero-based, and as it is meant.
pub record Queues : Type 0 where
  pub ncqa : ℕ
  pub completion_queues : ℕ
  pub nsqa : ℕ
  pub submission_queues : ℕ

unfoldable pub queues : ℕ → Queues
queues v = record {
  ncqa = bits v 16 16;
  completion_queues = bits v 16 16 + 1;
  nsqa = bits v 0 16;
  submission_queues = bits v 0 16 + 1;
}

-- Interrupt Coalescing: TIME with its microseconds, and THR.
pub record Coalescing : Type 0 where
  pub time : Option (ℕ × ℕ)
  pub threshold : ℕ

unfoldable pub coalescing : ℕ → Coalescing
coalescing v = record { time = unless_zero (bits v 8 8) 100; threshold = bits v 0 8 }

-- Write Atomicity Normal: DN.
unfoldable pub write_atomicity : ℕ → Bool
write_atomicity v = is_set v 0

-- Host Controlled Thermal Management: TMT1 and TMT2 in Kelvin, 0 for a disabled one.
pub record ThermalManagement : Type 0 where
  pub tmt1 : ℕ
  pub tmt2 : ℕ

unfoldable pub thermal : ℕ → ThermalManagement
thermal v = record { tmt1 = bits v 16 16; tmt2 = bits v 0 16 }

-- Software Progress Marker: PBSLC.
unfoldable pub progress_marker : ℕ → ℕ
progress_marker v = bits v 0 8

-- Non-Operational Power State Config: NOPPME.
unfoldable pub permissive_mode : ℕ → Bool
permissive_mode v = is_set v 0

-- Temperature Threshold: TMPTH.
unfoldable pub temperature_threshold : ℕ → ℕ
temperature_threshold v = bits v 0 16
