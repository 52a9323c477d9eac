-- ===== src/Controller/Fields.antt =====
-- The fields of MY_NVME_IDENTIFY_CONTROLLER_DATA that the program decides by, read out of the bytes
-- at the offsets that src/NVMeIdentifyController.h gives. Bit fields are filled from the lowest bit.
use nvmetool_win.Base.{map, ℕ, ◌+◌, ◌*◌, ◌/◌, ◌%◌, ◌^◌, Bool, List, get_or, ◌==◌}

abbrev pub byte : List ℕ → ℕ → ℕ
byte c i = get_or c i 0 % 256

abbrev pub word : List ℕ → ℕ → ℕ
word c i = byte c i + 256 * byte c (i + 1)

abbrev pub dword : List ℕ → ℕ → ℕ
dword c i = word c i + 65536 * word c (i + 2)

abbrev pub qword : List ℕ → ℕ → ℕ
qword c i = dword c i + 2 ^ 32 * dword c (i + 4)

-- Whether the bit field of width 1 at bit `k` is set.
abbrev pub bit : ℕ → ℕ → Bool
bit n k = n / 2 ^ k % 2 == 1

-- The bits that are printed of a number, in the order given, each with its place.
abbrev pub flags : List ℕ → ℕ → List (ℕ × Bool)
flags ks v = map (λ k. (k, bit v k)) ks

-- PCI vendor, version, and number of namespaces.
unfoldable pub vid : List ℕ → ℕ
vid c = word c 0

unfoldable pub ver : List ℕ → ℕ
ver c = dword c 80

unfoldable pub nn : List ℕ → ℕ
nn c = dword c 516

-- CTRATT.NoopPSPermissiveModeEn and CTRATT.EnduranceGroups
unfoldable pub permissive_mode_supported : List ℕ → Bool
permissive_mode_supported c = bit (dword c 96) 1

unfoldable pub endurance_groups : List ℕ → Bool
endurance_groups c = bit (dword c 96) 4

-- CTRATT.NVMSet
unfoldable pub nvm_sets : List ℕ → Bool
nvm_sets c = bit (dword c 96) 2

-- CMIC.ANAReport
unfoldable pub ana_report : List ℕ → Bool
ana_report c = bit (byte c 76) 3

-- CNTRLTYPE
unfoldable pub controller_type : List ℕ → ℕ
controller_type c = byte c 111

-- OACS, the optional admin commands.
unfoldable pub security_commands : List ℕ → Bool
security_commands c = bit (word c 256) 0

unfoldable pub format_nvm_command : List ℕ → Bool
format_nvm_command c = bit (word c 256) 1

unfoldable pub device_self_test : List ℕ → Bool
device_self_test c = bit (word c 256) 4

-- LPA, the log page attributes.
unfoldable pub smart_page_per_namespace : List ℕ → Bool
smart_page_per_namespace c = bit (byte c 261) 0

unfoldable pub command_effects_log : List ℕ → Bool
command_effects_log c = bit (byte c 261) 1

unfoldable pub telemetry_support : List ℕ → Bool
telemetry_support c = bit (byte c 261) 3

-- ELPE, the number of error log entries less one
unfoldable pub elpe : List ℕ → ℕ
elpe c = byte c 262

-- APSTA.Supported
unfoldable pub power_state_transition : List ℕ → Bool
power_state_transition c = bit (byte c 265) 0

-- HMPRE
unfoldable pub host_memory_preferred : List ℕ → ℕ
host_memory_preferred c = dword c 272

-- HCTMA.Supported, and the limits of the thermal management temperatures in Kelvin.
unfoldable pub thermal_management : List ℕ → Bool
thermal_management c = bit (word c 322) 0

unfoldable pub mntmt : List ℕ → ℕ
mntmt c = word c 324

unfoldable pub mxtmt : List ℕ → ℕ
mxtmt c = word c 326

-- ONCS, the optional NVM commands.
unfoldable pub dataset_management : List ℕ → Bool
dataset_management c = bit (word c 520) 2

unfoldable pub reservations_supported : List ℕ → Bool
reservations_supported c = bit (word c 520) 5

unfoldable pub timestamp_feature : List ℕ → Bool
timestamp_feature c = bit (word c 520) 6

-- FNA.CryptographicEraseSupported
unfoldable pub cryptographic_erase : List ℕ → Bool
cryptographic_erase c = bit (byte c 524) 2
