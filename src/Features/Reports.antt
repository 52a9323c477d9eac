-- ===== src/Features/Reports.antt =====
-- The feature functions NVMeGetFeatures* of src/NVMeGetFeatures.c: the four reads, and the fields of
-- the values read. What is printed is left out, but for the numbers that it is made of.
use nvmetool_win.Base.{ℕ, Bool, List, not, if◌then◌else◌, ◌∷◌, [], ◌++◌, map}
use nvmetool_win.Program.{Prog, pure, reads, ◌>>=◌}
use nvmetool_win.WinFunc.{succeeded}
use nvmetool_win.Controller.Fields.{permissive_mode_supported}
use nvmetool_win.Controller.Version.{is_v14_or_later}
use nvmetool_win.Features.Reads.{Readout, stopped, completed, Settings, read_settings}
use nvmetool_win.Features.Fields.{
  is_set, Arbitration, arbitration, PowerManagement, power_management, ErrorRecovery,
  error_recovery, write_cache, Queues, queues, Coalescing, coalescing, write_atomicity,
  ThermalManagement, thermal, progress_marker, permissive_mode,
}

-- The fields of the three values, and the capabilities.
pub record Report {ℓ} (A : Type ℓ) : Type ℓ where
  pub current : A
  pub default : A
  pub saved : A
  pub capabilities : ℕ

abbrev report_of {ℓ} : {A : Type ℓ} → (ℕ → A) → Readout Settings → Readout (Report A)
report_of decode (stopped result) = stopped result
report_of decode (completed s) = completed (record {
  current = decode s.current;
  default = decode s.default;
  saved = decode s.saved;
  capabilities = s.capabilities;
})

unfoldable pub read_report {ℓ} : {A : Type ℓ} → (ℕ → A) → ℕ → Prog (Readout (Report A))
unfolding read_settings ◌>>=◌
read_report decode fid = do s ← read_settings fid; pure (report_of decode s)

-- The feature identifiers, NVME_FEATURE_*.
unfoldable pub get_arbitration : Prog (Readout (Report Arbitration))
unfolding read_report
get_arbitration = read_report arbitration 0x01

unfoldable pub get_power_management : Prog (Readout (Report PowerManagement))
unfolding read_report
get_power_management = read_report power_management 0x02

unfoldable pub get_error_recovery : Prog (Readout (Report ErrorRecovery))
unfolding read_report
get_error_recovery = read_report error_recovery 0x05

unfoldable pub get_write_cache : Prog (Readout (Report Bool))
unfolding read_report
get_write_cache = read_report write_cache 0x06

unfoldable pub get_queues : Prog (Readout (Report Queues))
unfolding read_report
get_queues = read_report queues 0x07

unfoldable pub get_coalescing : Prog (Readout (Report Coalescing))
unfolding read_report
get_coalescing = read_report coalescing 0x08

unfoldable pub get_write_atomicity : Prog (Readout (Report Bool))
unfolding read_report
get_write_atomicity = read_report write_atomicity 0x0a

-- Asynchronous Event Configuration: the bits that are printed, the highest first; four notices and
-- one warning only from NVMe 1.4 on.
abbrev event_bits : Bool → List ℕ
event_bits is_v14 =
    (if is_v14 then 14 ∷ 13 ∷ 12 ∷ 11 ∷ [] else [])
    ++ ((10 ∷ 9 ∷ 8 ∷ []) ++ ((if is_v14 then 5 ∷ [] else []) ++ (4 ∷ 3 ∷ 2 ∷ 1 ∷ 0 ∷ [])))

abbrev events : List ℕ → ℕ → List (ℕ × Bool)
events ks v = map (λ k. (k, is_set v k)) ks

unfoldable pub get_event_configuration : Prog (Readout (Report (List (ℕ × Bool))))
unfolding read_report is_v14_or_later
get_event_configuration = do
  c ← reads (λ p w. w.controller)
  read_report (events (event_bits (is_v14_or_later c))) 0x0b

unfoldable pub get_thermal : Prog (Readout (Report ThermalManagement))
unfolding read_report
get_thermal = read_report thermal 0x10

unfoldable pub get_progress_marker : Prog (Readout (Report ℕ))
unfolding read_report
get_progress_marker = read_report progress_marker 0x80

-- Without the permissive mode the function returns the `false` that `result` starts from, and reads
-- nothing.
unfoldable pub get_permissive_mode : Prog (Readout (Report Bool))
unfolding read_report
get_permissive_mode = do
  c ← reads (λ p w. w.controller)
  if not (permissive_mode_supported c)
      then pure (stopped succeeded)
      else read_report permissive_mode 0x11
