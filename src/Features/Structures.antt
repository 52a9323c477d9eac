-- ===== src/Features/Structures.antt =====
-- The three features whose value is a structure: src/NVMeFeaturesAPST.c, src/NVMeFeaturesHMB.c and
-- src/NVMeFeaturesLBARange.c. Their functions share one text, but for the structure. What is printed
-- is part of a completed reading only.
pub mod Order
use nvmetool_win.Base.{
  ℕ, zero, suc, ◌+◌, ◌*◌, ◌%◌, ◌^◌, Bool, List, [], ◌∷◌, ◌++◌, Option, none, some, ◌==◌,
  if◌then◌else◌, take, drop, get_or, length,
}
use nvmetool_win.Platform.{
  Layout, Request, Reply, Select, current_value, default_value, saved_value, supported_capabilities,
  adapter_protocol_specific, feature_data, query_property,
}
use nvmetool_win.Program.{Prog, pure, reads, allocate, ◌>>=◌}
use nvmetool_win.WinFunc.{
  failed, is_zero, issue_device_io_control, protocol_query, header_is_valid, read_protocol_data,
}
use nvmetool_win.Controller.Fields.{dword}
use nvmetool_win.Features.Reads.{Readout, stopped, completed, get_feature32, ◌then_read◌}
use nvmetool_win.Features.Sensors.{◌then_continue◌}

abbrev pub block_buffer : Layout → ℕ → ℕ
block_buffer l size = l.query_parameters + l.specific_data + size

-- FID and SEL are written over a word that was not initialised.
abbrev pub block_request : Layout → ℕ → ℕ → Select → ℕ → ℕ → Request
block_request l word fid sel sub size =
    query_property
      (record (protocol_query adapter_protocol_specific feature_data
        (l.get_features_cdw10 word fid sel) l.specific_data size (block_buffer l size)) {
          sub_value = sub;
        })

-- FixedProtocolReturnData, and the bytes that are used: how many, `used` tells by the former. Only the
-- header of the reply is tested.
unfoldable pub check_block : ℕ → (ℕ → ℕ) → Layout → Reply → Prog (Readout (ℕ × List ℕ))
check_block size used l r =
    if header_is_valid l r
    then (do
      bytes ← read_protocol_data (block_buffer l size) l r (used (r.fixed_return % 2 ^ 32))
      pure (completed (r.fixed_return % 2 ^ 32, bytes)))
    else pure (stopped failed)

-- `siNVMeGetFeaturesAPST`, `siNVMeGetFeaturesHMB` and `siNVMeGetFeaturesLBARange`
unfoldable pub get_block : ℕ → ℕ → ℕ → ℕ → (ℕ → ℕ) → Select → Prog (Readout (ℕ × List ℕ))
unfolding check_block issue_device_io_control read_protocol_data ◌>>=◌
get_block word fid sub size used sel = do
  l ← reads (λ p w. p.layout)
  buffer ← allocate (block_buffer l size)
  if buffer == 0 then pure (stopped failed) else do
    answer ← issue_device_io_control (block_request l word fid sel sub size)
    if is_zero answer.0 then check_block size used l answer.1 else pure (stopped answer.0)

-- The three values and the capabilities.
pub record Blocks (A : Type 0) : Type 0 where
  pub current : A
  pub default : A
  pub saved : A
  pub capabilities : ℕ

-- The four reads, of which the first three are given.
unfoldable pub read_blocks :
    {A : Type 0}
    → ℕ
    → (Select → Prog (Readout (ℕ × List ℕ)))
    → (ℕ × List ℕ → A)
    → Prog (Readout (Blocks A))
unfolding get_feature32 ◌then_read◌ ◌then_continue◌
read_blocks fid read decode = read current_value then_continue λ a.
    read default_value then_continue λ b. read saved_value then_continue λ c.
    get_feature32 fid supported_capabilities 0 then_read λ d. pure (
      completed
        (record { current = decode a; default = decode b; saved = decode c; capabilities = d }))

-- Autonomous Power State Transition: APSTE, and ITPS and ITPT of the first entry.
pub record Transition : Type 0 where
  pub enabled : Bool
  pub power_state : ℕ
  pub idle_time : ℕ

abbrev pub transition : Layout → ℕ × List ℕ → Transition
transition l (fixed, bytes) = record {
  enabled = l.apst_enabled fixed;
  power_state = l.apst_power_state bytes;
  idle_time = l.apst_idle_time bytes;
}

-- `iNVMeGetFeaturesAPST`
unfoldable pub get_power_transition : Prog (Readout (Blocks Transition))
unfolding get_block read_blocks
get_power_transition = do
  l ← reads (λ p w. p.layout)
  word ← reads (λ p w. p.uninitialised (length w.issued))
  read_blocks 0x0c (get_block word 0x0c 0 l.apst_entry (λ fixed. l.apst_entry)) (transition l)

-- Host Memory Buffer: HSIZE, HMDLLA, HMDLUA and HMDLEC, as s_vNVMePrintHMB prints them.
pub record HostMemory : Type 0 where
  pub buffer_size : ℕ
  pub address_lower : ℕ
  pub address_upper : ℕ
  pub entry_count : ℕ

abbrev pub host_memory : ℕ × List ℕ → HostMemory
host_memory (fixed, bytes) = record {
  buffer_size = dword bytes 0;
  address_lower = dword bytes 4;
  address_upper = dword bytes 8;
  entry_count = dword bytes 12;
}

-- `iNVMeGetFeaturesHMB`
unfoldable pub get_host_memory : Prog (Readout (Blocks HostMemory))
unfolding get_block read_blocks
get_host_memory = do
  word ← reads (λ p w. p.uninitialised (length w.issued))
  read_blocks 0x0d (get_block word 0x0d 0 4096 (λ fixed. 16)) host_memory

-- LBA Range Type. The sum over the GUID is assigned in each round, so that its last byte is left; the
-- GUID is printed where that is not 0, in three groups.
unfoldable pub printed_guid : List ℕ → Option (List ℕ)
printed_guid guid =
    if get_or guid 15 0 == 0
    then none
    else some (take 5 (drop 11 guid) ++ (take 3 (drop 8 guid) ++ take 8 guid))

-- The number of entries printed, `FixedProtocolReturnData & 0x3F`.
abbrev pub range_count : ℕ → ℕ
range_count fixed = fixed % 64

-- The GUIDs of the entries, with `rounds` left of the loop of s_vNVMePrintLBARange.
unfoldable pub guids_from : Layout → List ℕ → ℕ → ℕ → List (Option (List ℕ))
unfolding printed_guid
guids_from l bytes zero i = []
guids_from l bytes (suc rounds) i =
    printed_guid (take 16 (drop (i * l.lba_range + l.lba_range_guid) bytes))
    ∷ guids_from l bytes rounds (i + 1)

abbrev pub range_guids : Layout → ℕ × List ℕ → List (Option (List ℕ))
range_guids l (fixed, bytes) = guids_from l bytes (range_count fixed) 0

-- `iNVMeGetFeaturesLBARange`, for namespace 1 and up to 64 entries.
unfoldable pub get_lba_ranges : Prog (Readout (Blocks (List (Option (List ℕ)))))
unfolding get_block read_blocks
get_lba_ranges = do
  l ← reads (λ p w. p.layout)
  word ← reads (λ p w. p.uninitialised (length w.issued))
  read_blocks 0x03
      (get_block word 0x03 1 (l.lba_range * 64) (λ fixed. range_count fixed * l.lba_range))
      (range_guids l)
