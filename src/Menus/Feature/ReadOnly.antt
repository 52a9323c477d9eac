-- ===== src/Menus/Feature/ReadOnly.antt =====
-- The requests of Get Features: src/NVMeGetFeatures.c and the features that it reads.
use nvmetool_win.Base.{ℤ, ℕ, List, zero, suc, Bool, true, false}
use nvmetool_win.Platform.{Layout, Reply, Select}
use nvmetool_win.Program.{Prog}
use nvmetool_win.Program.Requests.{IsReading}
use nvmetool_win.Program.Rules.{handler_rules}
use nvmetool_win.Program.Keeps.{Sends, sends_rules, Sends-bind}
use nvmetool_win.Features.Reads.{
  get_feature32, Readout, stopped, completed, ◌then_read◌, read_settings,
}
use nvmetool_win.Features.Reports.{
  read_report, get_arbitration, get_power_management, get_error_recovery, get_write_cache,
  get_queues, get_coalescing, get_write_atomicity, get_event_configuration, get_thermal,
  get_progress_marker, get_permissive_mode,
}
use nvmetool_win.Features.Sensors.{
  go_on, ◌then_continue◌, read_quartet, read_thresholds, read_sensors, get_temperature_threshold,
}
use nvmetool_win.Features.Structures.{
  check_block, get_block, read_blocks, get_power_transition, get_host_memory, get_lba_ranges,
}
use nvmetool_win.Features.Timestamp.{read_timestamp, get_timestamp}
use nvmetool_win.Menus.Rules.{menu_rules}
use nvmetool_win.Menus.Feature.{tested, choose_feature, choose_later_feature, get_features_menu}

Sends-get_feature32 :
    (fid : ℕ) (sel : Select) (cdw11 : ℕ) → Sends IsReading (get_feature32 fid sel cdw11)
unfolding get_feature32
Sends-get_feature32 fid sel cdw11 = search handler_rules depth 8

Sends-then_read {ℓ} :
    {A : Type ℓ} (m : Prog (ℤ × ℕ)) (rest : ℕ → Prog (Readout A))
    → Sends IsReading m
    → ((n : ℕ) → Sends IsReading (rest n))
    → Sends IsReading (m then_read rest)
unfolding ◌then_read◌
Sends-then_read m rest h later = search (sends_rules, h, later) depth 8

Sends-go_on {ℓ κ} :
    {A : Type ℓ} {B : Type κ} (rest : A → Prog (Readout B)) (r : Readout A)
    → ((a : A) → Sends IsReading (rest a))
    → Sends IsReading (go_on rest r)
unfolding go_on
Sends-go_on rest (stopped result) later = search sends_rules
Sends-go_on rest (completed a) later = later a

Sends-then_continue {ℓ κ} :
    {A : Type ℓ} {B : Type κ} (m : Prog (Readout A)) (rest : A → Prog (Readout B))
    → Sends IsReading m
    → ((a : A) → Sends IsReading (rest a))
    → Sends IsReading (m then_continue rest)
unfolding ◌then_continue◌
Sends-then_continue m rest h later = Sends-bind m (go_on rest) h (λ r. Sends-go_on rest r later)

ruleset read_rules = (sends_rules, Sends-get_feature32, Sends-then_read, Sends-then_continue)

Sends-read_settings : (fid : ℕ) → Sends IsReading (read_settings fid)
unfolding read_settings
Sends-read_settings fid = search read_rules depth 12

Sends-read_report {ℓ} :
    {A : Type ℓ} (decode : ℕ → A) (fid : ℕ) → Sends IsReading (read_report decode fid)
unfolding read_report
Sends-read_report decode fid = search (sends_rules, Sends-read_settings)

Sends-get_event_configuration : Sends IsReading get_event_configuration
unfolding get_event_configuration
Sends-get_event_configuration = search (sends_rules, Sends-read_report)

Sends-get_permissive_mode : Sends IsReading get_permissive_mode
unfolding get_permissive_mode
Sends-get_permissive_mode = search (sends_rules, Sends-read_report) depth 8

Sends-read_quartet : (a b : ℕ) → Sends IsReading (read_quartet a b)
unfolding read_quartet
Sends-read_quartet a b = search read_rules depth 12

Sends-read_thresholds : (n : ℕ) → Sends IsReading (read_thresholds n)
unfolding read_thresholds
Sends-read_thresholds n = search (read_rules, Sends-read_quartet) depth 12

Sends-read_sensors : (rounds i : ℕ) → Sends IsReading (read_sensors rounds i)
unfolding read_sensors
Sends-read_sensors zero i = search sends_rules
Sends-read_sensors (suc rounds) i =
    search (read_rules, Sends-read_thresholds, Sends-read_sensors rounds) depth 12

Sends-get_temperature_threshold : Sends IsReading get_temperature_threshold
unfolding get_temperature_threshold
Sends-get_temperature_threshold =
    search (read_rules, Sends-read_thresholds, Sends-read_sensors) depth 8

Sends-read_timestamp : (word : ℕ) (sel : Select) → Sends IsReading (read_timestamp word sel)
unfolding read_timestamp
Sends-read_timestamp word sel = search handler_rules depth 8

Sends-get_timestamp : Sends IsReading get_timestamp
unfolding get_timestamp
Sends-get_timestamp = search (read_rules, Sends-read_timestamp) depth 12

Sends-check_block :
    (n : ℕ) (used : ℕ → ℕ) (l : Layout) (r : Reply) → Sends IsReading (check_block n used l r)
unfolding check_block
Sends-check_block n used l r = search handler_rules depth 8

Sends-get_block :
    (word fid sub n : ℕ) (used : ℕ → ℕ) (sel : Select)
    → Sends IsReading (get_block word fid sub n used sel)
unfolding get_block
Sends-get_block word fid sub n used sel = search (handler_rules, Sends-check_block) depth 8

Sends-read_blocks :
    {A : Type 0} (fid : ℕ) (read : Select → Prog (Readout (ℕ × List ℕ))) (decode : ℕ × List ℕ → A)
    → ((sel : Select) → Sends IsReading (read sel))
    → Sends IsReading (read_blocks fid read decode)
unfolding read_blocks
Sends-read_blocks fid read decode h = search (read_rules, h) depth 12

ruleset block_rules = (sends_rules, Sends-get_block, Sends-read_blocks)

Sends-get_power_transition : Sends IsReading get_power_transition
unfolding get_power_transition
Sends-get_power_transition = search block_rules depth 8

Sends-get_host_memory : Sends IsReading get_host_memory
unfolding get_host_memory
Sends-get_host_memory = search block_rules depth 8

Sends-get_lba_ranges : Sends IsReading get_lba_ranges
unfolding get_lba_ranges
Sends-get_lba_ranges = search block_rules depth 8

Sends-tested : (b : Bool) (m : Prog ℤ) → Sends IsReading m → Sends IsReading (tested b m)
Sends-tested true m h = h
Sends-tested false m h = search sends_rules

ruleset feature_rules = (
  Sends-get_event_configuration, Sends-get_permissive_mode, Sends-get_temperature_threshold,
  Sends-get_timestamp, Sends-get_power_transition, Sends-get_host_memory, Sends-get_lba_ranges,
  Sends-read_report, Sends-tested,
)

Sends-choose_later_feature : (c : List ℕ) (fid : ℤ) → Sends IsReading (choose_later_feature c fid)
unfolding choose_later_feature get_thermal get_progress_marker
Sends-choose_later_feature c fid = search (sends_rules, menu_rules, feature_rules) depth 24

Sends-choose_feature : (c : List ℕ) (fid : ℤ) → Sends IsReading (choose_feature c fid)
unfolding choose_feature get_arbitration get_power_management get_error_recovery get_write_cache
    get_queues get_coalescing get_write_atomicity
Sends-choose_feature c fid =
    search (sends_rules, menu_rules, feature_rules, Sends-choose_later_feature) depth 24

pub Sends-get_features_menu : Sends IsReading get_features_menu
unfolding get_features_menu
Sends-get_features_menu = search (handler_rules, Sends-choose_feature)
