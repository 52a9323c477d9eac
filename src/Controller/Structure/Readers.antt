-- ===== src/Controller/Structure/Readers.antt =====
-- The fields that the program decides by, and where the declaration of the structure places them.
use Prim.Native.String.{String}
use nvmetool_win.Base.{ℕ, ◌≡◌, Bool, List, Option, some, refl}
use nvmetool_win.Controller.Fields.{
  vid, ver, nn, permissive_mode_supported, endurance_groups, nvm_sets, ana_report, controller_type,
  security_commands, format_nvm_command, device_self_test, smart_page_per_namespace,
  command_effects_log, telemetry_support, elpe, power_state_transition, host_memory_preferred,
  thermal_management, mntmt, mxtmt, dataset_management, reservations_supported, timestamp_feature,
  cryptographic_erase,
}
use nvmetool_win.Controller.Layout.{placed, unit_of, is_set}
use nvmetool_win.Controller.Structure.{structure}

module _ (size align : ℕ) (c : List ℕ) where
  abbrev pub member : String → Option ℕ
  member f = unit_of c f (placed 0 (structure size align))

  abbrev pub flag : String → String → Option Bool
  flag f b = is_set c f b (placed 0 (structure size align))

  numbers :
      (member "VID" ≡ some (vid c))
      × (member "VER" ≡ some (ver c))
      × (member "CNTRLTYPE" ≡ some (controller_type c))
      × (member "ELPE" ≡ some (elpe c))
      × (member "HMPRE" ≡ some (host_memory_preferred c))
      × (member "MNTMT" ≡ some (mntmt c))
      × (member "MXTMT" ≡ some (mxtmt c))
      × (member "NN" ≡ some (nn c))
  unfolding placed unit_of structure vid ver controller_type elpe host_memory_preferred mntmt mxtmt
      nn
  numbers = (refl, refl, refl, refl, refl, refl, refl, refl)

  capability_bits :
      (flag "CMIC" "ANAReport" ≡ some (ana_report c))
      × (flag "CTRATT" "NoopPSPermissiveModeEn" ≡ some (permissive_mode_supported c))
      × (flag "CTRATT" "NVMSet" ≡ some (nvm_sets c))
      × (flag "CTRATT" "EnduranceGroups" ≡ some (endurance_groups c))
  unfolding placed is_set structure ana_report permissive_mode_supported nvm_sets endurance_groups
  capability_bits = (refl, refl, refl, refl)

  commands :
      (flag "OACS" "SecurityCommands" ≡ some (security_commands c))
      × (flag "OACS" "FormatNVM" ≡ some (format_nvm_command c))
      × (flag "OACS" "DeviceSelfTest" ≡ some (device_self_test c))
      × (flag "ONCS" "DatasetManagement" ≡ some (dataset_management c))
      × (flag "ONCS" "Reservations" ≡ some (reservations_supported c))
      × (flag "ONCS" "Timestamp" ≡ some (timestamp_feature c))
      × (flag "FNA" "CryptographicEraseSupported" ≡ some (cryptographic_erase c))
  unfolding placed is_set structure security_commands format_nvm_command device_self_test
      dataset_management reservations_supported timestamp_feature cryptographic_erase
  commands = (refl, refl, refl, refl, refl, refl, refl)

  logs :
      (flag "LPA" "SmartPagePerNamespace" ≡ some (smart_page_per_namespace c))
      × (flag "LPA" "CommandEffectsLog" ≡ some (command_effects_log c))
      × (flag "LPA" "TelemetrySupport" ≡ some (telemetry_support c))
      × (flag "APSTA" "Supported" ≡ some (power_state_transition c))
      × (flag "HCTMA" "Supported" ≡ some (thermal_management c))
  unfolding placed is_set structure smart_page_per_namespace command_effects_log telemetry_support
      power_state_transition thermal_management
  logs = (refl, refl, refl, refl, refl)

-- Each of the 8 numbers and 16 bits by which the program decides is the member, or the bit field of
-- the member, that has its name in the declaration of the structure, laid out by the rules of C,
-- whatever size and alignment a power state descriptor has.
pub readers_lem :
    (size align : ℕ) (c : List ℕ)
    → let m = member size align c in
      let f = flag size align c in
      ((m "VID" ≡ some (vid c))
        × (m "VER" ≡ some (ver c))
        × (m "CNTRLTYPE" ≡ some (controller_type c))
        × (m "ELPE" ≡ some (elpe c))
        × (m "HMPRE" ≡ some (host_memory_preferred c))
        × (m "MNTMT" ≡ some (mntmt c))
        × (m "MXTMT" ≡ some (mxtmt c))
        × (m "NN" ≡ some (nn c)))
      × ((f "CMIC" "ANAReport" ≡ some (ana_report c))
          × (f "CTRATT" "NoopPSPermissiveModeEn" ≡ some (permissive_mode_supported c))
          × (f "CTRATT" "NVMSet" ≡ some (nvm_sets c))
          × (f "CTRATT" "EnduranceGroups" ≡ some (endurance_groups c)))
      × ((f "OACS" "SecurityCommands" ≡ some (security_commands c))
          × (f "OACS" "FormatNVM" ≡ some (format_nvm_command c))
          × (f "OACS" "DeviceSelfTest" ≡ some (device_self_test c))
          × (f "ONCS" "DatasetManagement" ≡ some (dataset_management c))
          × (f "ONCS" "Reservations" ≡ some (reservations_supported c))
          × (f "ONCS" "Timestamp" ≡ some (timestamp_feature c))
          × (f "FNA" "CryptographicEraseSupported" ≡ some (cryptographic_erase c)))
      × ((f "LPA" "SmartPagePerNamespace" ≡ some (smart_page_per_namespace c))
          × (f "LPA" "CommandEffectsLog" ≡ some (command_effects_log c))
          × (f "LPA" "TelemetrySupport" ≡ some (telemetry_support c))
          × (f "APSTA" "Supported" ≡ some (power_state_transition c))
          × (f "HCTMA" "Supported" ≡ some (thermal_management c)))
readers_lem size align c =
    (numbers size align c, capability_bits size align c, commands size align c, logs size align c)
