-- ===== src/Examples/Reports.antt =====
-- Tests of the reports and of the printing.
use nvmetool_win.Controller.Fields.{
  ana_report, command_effects_log, controller_type, cryptographic_erase, dataset_management,
  device_self_test, dword, elpe, endurance_groups, flags, format_nvm_command, host_memory_preferred,
  mntmt, mxtmt, nn, nvm_sets, permissive_mode_supported, power_state_transition,
  reservations_supported, security_commands, smart_page_per_namespace, telemetry_support,
  thermal_management, timestamp_feature, ver, vid,
}
use nvmetool_win.Base.{
  All, Bool, List, [], arith, false, if◌then◌else◌, length, not, replicate, some, true, ℕ, ◌&&◌,
  ◌++◌, ◌/◌, ◌∷◌, ◌≡◌, ◌≤◌,
}
use nvmetool_win.Examples.{named_subsystem, converter, controller}
use nvmetool_win.Controller.Version.{is_v13_or_later, is_v14_or_later, is_v20_or_later}
use nvmetool_win.Controller.Layout.{has}
use nvmetool_win.Controller.Structure.{structure}
use nvmetool_win.Controller.Report.Order.{sections}
use nvmetool_win.Controller.Report.Order.Declared.{names, sections_lem}
use nvmetool_win.Controller.Report.{
  anacap, cmic, ctratt, fna, frmw, lpa, mec, nvmsr, nwpc, oacs, oaes, oncs,
}
use nvmetool_win.Controller.Report.Bits.{bits-shown, shown, without_bit_1}
use nvmetool_win.Controller.Structure.Readers.{flag, member, readers_lem}
use nvmetool_win.Console.Printing.{data_rows}
use nvmetool_win.Console.Printing.Rows.{data_rows_lem}
use nvmetool_win.Console.Conversion.{Converter}
use nvmetool_win.Console.Conversion.Blocks.{after}
use nvmetool_win.Controller.Report.Subnqn.{subnqn, subnqn-frees}
use nvmetool_win.Tool.Usage.{program_name}
use nvmetool_win.Tool.Usage.Names.{after_last, program_name_lem}

sections_lem_example :
    let c : List ℕ = controller in
    let size : ℕ = 32 in
    let align : ℕ = 4 in
    sections c ++ ("VS" ∷ [])
    ≡ names (has (is_v13_or_later c) (is_v14_or_later c) (is_v20_or_later c)) (structure size align)
sections_lem_example = sections_lem controller 32 4

bits-shown_example :
    let c : List ℕ = controller in
    (cmic c ≡ shown c "CMIC")
    × (oaes c ≡ shown c "OAES")
    × (ctratt c ≡ (
        if is_v13_or_later c && not (is_v14_or_later c)
        then flags (without_bit_1 (is_v20_or_later c)) (dword c 96)
        else shown c "CTRATT"))
    × (nvmsr c ≡ shown c "NVMSR")
    × (mec c ≡ shown c "MEC")
    × (oacs c ≡ shown c "OACS")
    × ((frmw c).0 ++ (0, (frmw c).2) ∷ [] ≡ shown c "FRMW")
    × (lpa c ≡ shown c "LPA")
    × (anacap c ≡ shown c "ANACAP")
    × (oncs c ≡ shown c "ONCS")
    × (fna c ≡ shown c "FNA")
    × (nwpc c ≡ shown c "NWPC")
bits-shown_example = bits-shown controller

readers_lem_example :
    let size : ℕ = 32 in
    let align : ℕ = 4 in
    let c : List ℕ = controller in
    let m = member size align c in
    let f = flag size align c in
    ((m "VID" ≡ some (vid c))
      × (m "VER" ≡ some (ver c))
      × (m "CNTRLTYPE" ≡ some (controller_type c))
      × (m "ELPE" ≡ some (elpe c))
      × (m "HMPRE" ≡ some (host_memory_preferred c))
      × (m "MNTMT" ≡ some (mntmt c))
      × (m "MXTMT" ≡ some (mxtmt c))
      × (m "NN" ≡ some (nn c)))
    × ((f "CMIC" "ANAReport" ≡ some (ana_report c))
        × (f "CTRATT" "NoopPSPermissiveModeEn" ≡ some (permissive_mode_supported c))
        × (f "CTRATT" "NVMSet" ≡ some (nvm_sets c))
        × (f "CTRATT" "EnduranceGroups" ≡ some (endurance_groups c)))
    × ((f "OACS" "SecurityCommands" ≡ some (security_commands c))
        × (f "OACS" "FormatNVM" ≡ some (format_nvm_command c))
        × (f "OACS" "DeviceSelfTest" ≡ some (device_self_test c))
        × (f "ONCS" "DatasetManagement" ≡ some (dataset_management c))
        × (f "ONCS" "Reservations" ≡ some (reservations_supported c))
        × (f "ONCS" "Timestamp" ≡ some (timestamp_feature c))
        × (f "FNA" "CryptographicEraseSupported" ≡ some (cryptographic_erase c)))
    × ((f "LPA" "SmartPagePerNamespace" ≡ some (smart_page_per_namespace c))
        × (f "LPA" "CommandEffectsLog" ≡ some (command_effects_log c))
        × (f "LPA" "TelemetrySupport" ≡ some (telemetry_support c))
        × (f "APSTA" "Supported" ≡ some (power_state_transition c))
        × (f "HCTMA" "Supported" ≡ some (thermal_management c)))
readers_lem_example = readers_lem 32 4 controller

data_rows_lem_example :
    let is_print : ℕ → Bool = λ b. true in
    let bytes : List ℕ = replicate 20 65 in
    (length (data_rows is_print bytes).0 ≡ length bytes / 16)
    × All (λ i. i ≤ 18) (data_rows is_print bytes).1.written
data_rows_lem_example = data_rows_lem ((λ b. true)) ((replicate 20 65))

subnqn-frees_example :
    let k : Converter = converter in
    let c : List ℕ = named_subsystem in
    after (subnqn k c).1 (some (false, false)) ≡ some (false, false)
subnqn-frees_example = subnqn-frees converter named_subsystem

program_name_lem_example :
    let b : ℕ = 0x6e in
    let bs : List ℕ = 0x76 ∷ 0x5c ∷ 0x6d ∷ [] in program_name (b ∷ bs) ≡ some (after_last bs)
program_name_lem_example = program_name_lem 0x6e ((0x76 ∷ 0x5c ∷ 0x6d ∷ [])) (omega arith)
