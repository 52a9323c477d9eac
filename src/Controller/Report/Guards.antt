-- ===== src/Controller/Report/Guards.antt =====
-- The bits of the report of the controller data that the program decides by.
use nvmetool_win.Base.{ℕ, ◌≡◌, Bool, List, [], ◌∷◌, Option, none, some, ◌==◌, if◌then◌else◌, arith}
use nvmetool_win.Controller.Fields.{
  device_self_test, format_nvm_command, security_commands, smart_page_per_namespace,
  command_effects_log, telemetry_support, permissive_mode_supported, endurance_groups,
  dataset_management, timestamp_feature, cryptographic_erase,
}
use nvmetool_win.Controller.Version.{is_v13_or_later, is_v14_or_later}
use nvmetool_win.Controller.Report.{ctratt, oacs, lpa, oncs, fna}

-- The bit that a report shows at a place.
abbrev pub shown_at : ℕ → List (ℕ × Bool) → Option Bool
shown_at k [] = none
shown_at k ((i, b) ∷ rest) = let later = shown_at k rest in if i == k then some b else later

-- The same, where the version shows it at all.
abbrev pub from : Bool → Bool → Option Bool
from v b = if v then some b else none

oacs-shown :
    (c : List ℕ)
    → (shown_at 0 (oacs c) ≡ some (security_commands c))
      × (shown_at 1 (oacs c) ≡ some (format_nvm_command c))
      × (shown_at 4 (oacs c) ≡ from (is_v13_or_later c) (device_self_test c))
unfolding oacs security_commands format_nvm_command device_self_test
oacs-shown c = (ground arith, ground arith, ground arith)

lpa-shown :
    (c : List ℕ)
    → (shown_at 0 (lpa c) ≡ some (smart_page_per_namespace c))
      × (shown_at 1 (lpa c) ≡ some (command_effects_log c))
      × (shown_at 3 (lpa c) ≡ from (is_v13_or_later c) (telemetry_support c))
unfolding lpa smart_page_per_namespace command_effects_log telemetry_support
lpa-shown c = (ground arith, ground arith, ground arith)

ctratt-shown :
    (c : List ℕ)
    → (shown_at 1 (ctratt c) ≡ from (is_v14_or_later c) (permissive_mode_supported c))
      × (shown_at 4 (ctratt c) ≡ from (is_v14_or_later c) (endurance_groups c))
unfolding ctratt permissive_mode_supported endurance_groups
ctratt-shown c = (ground arith, ground arith)

oncs-shown :
    (c : List ℕ)
    → (shown_at 2 (oncs c) ≡ some (dataset_management c))
      × (shown_at 6 (oncs c) ≡ from (is_v13_or_later c) (timestamp_feature c))
unfolding oncs dataset_management timestamp_feature
oncs-shown c = (ground arith, ground arith)

fna-shown : (c : List ℕ) → shown_at 2 (fna c) ≡ some (cryptographic_erase c)
unfolding fna cryptographic_erase
fna-shown c = ground arith
