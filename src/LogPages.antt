-- ===== src/LogPages.antt =====
-- Log pages that are read and printed: src/NVMeErrorInformation.c, src/NVMeFwSlotInformation.c,
-- src/NVMeCommandSupportedAndEffects.c, src/NVMeGetSupportedLogPages.c and src/NVMeEnduranceGroup.c.
-- Their functions share one text, but for the page and its size.
pub mod Errors
pub mod Slots
pub mod Supported
pub mod Endurance
pub mod Reading
pub mod Effects
use nvmetool_win.Base.{
  ◌&&◌, ℕ, zero, suc, ◌+◌, ◌*◌, ◌-◌, ◌%◌, ◌^◌, Bool, List, [], ◌∷◌, ℤ, pos, negsuc, not, ◌==◌, ltb,
  ◌||◌, if◌then◌else◌,
}
use nvmetool_win.Platform.{
  Layout, Request, Reply, ProtocolQuery, device_protocol_specific, log_page_data, query_property,
}
use nvmetool_win.Program.{World, Prog, pure, reads, allocate, ◌>>=◌, ◌>>◌}
use nvmetool_win.WinFunc.{
  failed, succeeded, is_zero, issue_device_io_control, protocol_query, header_is_valid,
  read_protocol_data,
}
use nvmetool_win.Console.{get_console_input, get_console_input_hex}
use nvmetool_win.Controller.Fields.{elpe, word, dword}

abbrev pub page_buffer : Layout → ℕ → ℕ
page_buffer l size = l.query_parameters + l.specific_data + size

-- The query for `size` bytes of the page `lid`, of the endurance group `group`.
abbrev pub page_request : Layout → ℕ → ℕ → ℕ → Request
page_request l lid size group =
    query_property
      (record (protocol_query device_protocol_specific log_page_data lid l.specific_data size
        (page_buffer l size)) { sub_value3 = group })

-- The result and the bytes that are printed, none after an error.
unfoldable pub check_page : ℕ → Layout → Reply → Prog (ℤ × List ℕ)
check_page size l r =
    if not (header_is_valid l r)
    then pure (failed, [])
    else if ltb r.data_offset l.specific_data || ltb r.data_length size
    then pure (failed, [])
    else do bytes ← read_protocol_data (page_buffer l size) l r size; pure (succeeded, bytes)

-- From the request on.
unfoldable pub fetch_page : ℕ → ℕ → ℕ → Prog (ℤ × List ℕ)
unfolding check_page issue_device_io_control read_protocol_data ◌>>=◌
fetch_page lid size group = do
  l ← reads (λ p w. p.layout)
  answer ← issue_device_io_control (page_request l lid size group)
  if is_zero answer.0 then check_page size l answer.1 else pure (answer.0, [])

unfoldable pub get_page : ℕ → ℕ → Prog (ℤ × List ℕ)
unfolding fetch_page
get_page lid size = do
  l ← reads (λ p w. p.layout)
  buffer ← allocate (page_buffer l size)
  if buffer == 0 then pure (failed, []) else fetch_page lid size 0

-- `iNVMeGetErrorInformation`: sizeof(NVME_ERROR_INFO_LOG14) for each of ELPE + 1 entries.
unfoldable pub get_error_information : Prog (ℤ × List ℕ)
unfolding get_page
get_error_information = do c ← reads (λ p w. w.controller); get_page 0x01 (64 * (elpe c + 1))

-- `iNVMeGetFwSlotInformation`: sizeof(NVME_FIRMWARE_SLOT_INFO_LOG12).
unfoldable pub get_fw_slot_information : Prog (ℤ × List ℕ)
unfolding get_page
get_fw_slot_information = get_page 0x03 512

-- `iNVMeGetCommandSupportedAndEffects`: sizeof(NVME_COMMAND_EFFECTS_LOG_20).
unfoldable pub get_command_effects : Prog (ℤ × List ℕ)
unfolding get_page
get_command_effects = get_page 0x05 4096

-- `iNVMeGetSupportedLogPages`: one entry for each of NUM_LIDS pages.
unfoldable pub get_supported_log_pages : Prog (ℤ × List ℕ)
unfolding get_page
get_supported_log_pages = do l ← reads (λ p w. p.layout); get_page 0x00 (l.supported_page * 256)

-- An `int` stored in a `uint32_t`.
abbrev pub to_32_bits : ℤ → ℕ
to_32_bits (pos n) = n % 2 ^ 32
to_32_bits (negsuc n) = 2 ^ 32 - 1 - n % 2 ^ 32

-- `iNVMeGetEnduranceGroupInformation`: the console is asked after the allocation.
unfoldable pub get_endurance_group : Prog (ℤ × List ℕ)
unfolding fetch_page get_console_input get_console_input_hex
get_endurance_group = do
  l ← reads (λ p w. p.layout)
  buffer ← allocate (page_buffer l 512)
  if buffer == 0 then pure (failed, []) else do
    group ← get_console_input_hex
    c ← get_console_input
    if not (c == b'y') && not (c == b'Y')
        then pure (failed, [])
        else fetch_page 0x09 512 (to_32_bits group)

-- NUM_MAX_ENDURANCE_GROUP_ID
abbrev pub max_groups : ℕ
max_groups = 252

-- The loop over the entries, with `rounds` left before `max_groups` is reached.
unfoldable pub entries_from : List ℕ → ℕ → ℕ → List ℕ
entries_from bytes zero i = []
entries_from bytes (suc rounds) i =
    let rest = entries_from bytes rounds (i + 1) in
    if ltb i (dword bytes 0 + 2 ^ 32 * dword bytes 4) then word bytes (8 + 2 * i) ∷ rest else []

-- `iNVMeGetEnduranceGroupEventAggregateLogPage`, with the entries that it prints.
unfoldable pub get_endurance_events : Prog (ℤ × List ℕ)
unfolding get_page
get_endurance_events = do
  page ← get_page 0x0f 512
  pure (page.0, if is_zero page.0 then entries_from page.1 max_groups 0 else [])
