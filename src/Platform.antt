-- ===== src/Platform.antt =====
-- What the program uses and does not implement: the requests that it hands to DeviceIoControl, the
-- replies, and the record of Windows and its headers (allocation, console, driver, structure sizes).
use nvmetool_win.Base.{ℕ, Bool, List, Option, ℤ}

-- STORAGE_PROPERTY_ID, as far as the program names it.
pub data Property : Type 0 where
  adapter_property device_property adapter_protocol_specific device_protocol_specific : Property

-- STORAGE_PROTOCOL_NVME_DATA_TYPE.
pub data NvmeData : Type 0 where
  identify_data log_page_data feature_data : NvmeData

-- A STORAGE_PROPERTY_QUERY (or _SET) with the protocol-specific data behind it; fields that the
-- caller leaves alone hold the 0 of its ZeroMemory.
pub record ProtocolQuery : Type 0 where
  pub property : Property
  pub kind : NvmeData
  pub value : ℕ
  pub sub_value : ℕ
  pub sub_value2 : ℕ
  pub sub_value3 : ℕ
  pub sub_value4 : ℕ
  pub data_offset : ℕ
  pub data_length : ℕ
  pub buffer_length : ℕ

-- The NVMe command inside a STORAGE_PROTOCOL_COMMAND, and what that asks back from the device.
pub record NvmeCommand : Type 0 where
  pub opcode : ℕ
  pub nsid : ℕ
  pub cdw10 : ℕ
  pub cdw11 : ℕ
  pub cdw12 : ℕ
  pub cdw13 : ℕ
  pub cdw14 : ℕ
  pub cdw15 : ℕ
  pub transfer_length : ℕ
  pub transfer_offset : ℕ
  pub timeout : ℕ
  pub buffer_length : ℕ

-- DEVICE_MANAGE_DATA_SET_ATTRIBUTES with its one DEVICE_DSM_RANGE.
pub record DataSetRange : Type 0 where
  pub ranges_offset : ℕ
  pub ranges_length : ℕ
  pub starting_offset : ℕ
  pub length_in_bytes : ℕ
  pub buffer_length : ℕ

pub data Direction : Type 0 where
  data_in data_out data_unspecified : Direction

-- A SCSI_PASS_THROUGH block in one of its four layouts: `extended` for the _EX forms, `direct` for
-- the _DIRECT forms. `cdb` holds the CdbLength bytes that are sent.
pub record ScsiRequest : Type 0 where
  pub extended : Bool
  pub direct : Bool
  pub direction : Direction
  pub cdb : List ℕ
  pub transfer_length : ℕ
  pub timeout : ℕ
  pub payload : List ℕ

-- One call of DeviceIoControl: the control code with the input that it carries.
pub data Request : Type 0 where
  query_property : ProtocolQuery → Request
  set_property : ProtocolQuery → Request
  query_descriptor : Property → ℕ → Request
  protocol_command : NvmeCommand → Request
  manage_data_set : DataSetRange → Request
  scsi_pass_through : ScsiRequest → Request
  get_internal_log : ℕ → Request
  lock_volume unlock_volume reinitialize_media : Request

-- GetLastError after a failed call, as far as the program tells errors apart.
pub data SystemError : Type 0 where
  more_data invalid_function not_supported other_error : SystemError

-- What the call leaves behind: its result, GetLastError, and the output buffer as the program reads
-- it. `bytes` are the bytes of the buffer from `ProtocolSpecificData` (or the SCSI data) on.
pub record Reply : Type 0 where
  pub accepted : Bool
  pub true_value : ℕ  -- the BOOL of a success, less one: Windows only says that it is not 0
  pub error : SystemError
  pub returned : ℕ
  pub version : ℕ
  pub size : ℕ
  pub data_offset : ℕ
  pub data_length : ℕ
  pub fixed_return : ℕ
  pub bytes : List ℕ
  pub header_size : ℕ
  pub alignment_mask : ℕ
  pub srb_type : ℕ

-- RTL_OSVERSIONINFOEXW, as far as it is read.
pub record OsVersion : Type 0 where
  pub major : ℕ
  pub minor : ℕ
  pub build : ℕ
  pub is_workstation : Bool

-- The `SEL` of Get Features.
pub data Select : Type 0 where
  current_value default_value saved_value supported_capabilities : Select

-- The `THSEL` of a temperature threshold.
pub data Threshold : Type 0 where
  over_threshold under_threshold : Threshold

-- The sizes and offsets of the structures of the Windows headers.
pub record Layout : Type 0 where
  pub query_parameters : ℕ  -- offsetof(STORAGE_PROPERTY_QUERY, AdditionalParameters)
  pub set_parameters : ℕ  -- offsetof(STORAGE_PROPERTY_SET, AdditionalParameters)
  pub specific_data : ℕ  -- sizeof(STORAGE_PROTOCOL_SPECIFIC_DATA)
  pub specific_data_ext : ℕ  -- sizeof(STORAGE_PROTOCOL_SPECIFIC_DATA_EXT)
  pub descriptor : ℕ  -- sizeof(STORAGE_PROTOCOL_DATA_DESCRIPTOR)
  pub descriptor_data : ℕ  -- offsetof(STORAGE_PROTOCOL_DATA_DESCRIPTOR, ProtocolSpecificData)
  pub descriptor_header : ℕ  -- sizeof(STORAGE_DESCRIPTOR_HEADER)
  pub identify_controller : ℕ  -- sizeof(NVME_IDENTIFY_CONTROLLER_DATA)
  pub self_test_log : ℕ  -- sizeof(NVME_DEVICE_SELF_TEST_LOG)
  pub self_test_result : ℕ  -- sizeof(NVME_DEVICE_SELF_TEST_RESULT_DATA)
  pub supported_page : ℕ  -- sizeof(NVME_LID_SUPPORTED_AND_EFFECTS_DATA), whose bit fields the compiler lays out
  pub telemetry_block : ℕ  -- NVME_TELEMETRY_DATA_BLOCK_SIZE
  pub telemetry_log : ℕ  -- sizeof(NVME_TELEMETRY_HOST_INITIATED_LOG)
  pub apst_entry : ℕ  -- sizeof(NVME_AUTO_POWER_STATE_TRANSITION_ENTRY)
  pub lba_range : ℕ  -- sizeof(NVME_LBA_RANGET_TYPE_ENTRY)
  pub lba_range_guid : ℕ  -- offsetof(NVME_LBA_RANGET_TYPE_ENTRY, GUID)
  pub command : ℕ  -- offsetof(STORAGE_PROTOCOL_COMMAND, Command)
  pub nvme_command : ℕ  -- STORAGE_PROTOCOL_COMMAND_LENGTH_NVME
  pub nvme_command_struct : ℕ  -- sizeof(NVME_COMMAND)
  pub data_set_attributes : ℕ  -- sizeof(DEVICE_MANAGE_DATA_SET_ATTRIBUTES)
  pub data_set_range : ℕ  -- sizeof(DEVICE_DSM_RANGE)
  pub internal_status : ℕ  -- FIELD_OFFSET(DEVICE_INTERNAL_STATUS_DATA, StatusData)
  pub adapter_read : ℕ  -- the end of SrbType in a STORAGE_ADAPTER_DESCRIPTOR
  -- AsUlong of the command words: FID and SEL of NVME_CDW10_GET_FEATURES,
  -- written over a word, FID and SV of
  -- NVME_CDW10_SET_FEATURES, WCE of NVME_CDW11_FEATURE_VOLATILE_WRITE_CACHE, and THSEL and TMPSEL of
  -- NVME_CDW11_FEATURE_TEMPERATURE_THRESHOLD; all other fields are 0
  pub get_features_cdw10 : ℕ → ℕ → Select → ℕ
  pub set_features_cdw10 : ℕ → ℕ → ℕ
  pub write_cache_cdw11 : ℕ → ℕ
  pub threshold_cdw11 : Threshold → ℕ → ℕ
  -- LID, LSP and NUMDL of NVME_CDW10_GET_LOG_PAGE_V13
  pub log_page_cdw10 : ℕ → ℕ → ℕ → ℕ
  -- APSTE of NVME_CDW11_FEATURE_AUTO_POWER_STATE_TRANSITION, and the two fields of a
  -- NVME_AUTO_POWER_STATE_TRANSITION_ENTRY: IdleTransitionPowerState, IdleTimePriorToTransition
  pub apst_enabled : ℕ → Bool
  pub apst_power_state : List ℕ → ℕ
  pub apst_idle_time : List ℕ → ℕ
  -- CurrentOperation.Status in the bytes of a NVME_DEVICE_SELF_TEST_LOG
  pub operation_status : List ℕ → ℕ

-- Windows, the C library and the driver, as the program meets them.
pub record Platform : Type 0 where
  pub layout : Layout
  -- the address that the n-th allocation of so many bytes returns; 0 is NULL
  pub malloc : ℕ → ℕ → ℕ
  -- LocalAlloc with LPTR, whether it succeeds
  pub local_alloc : ℕ → ℕ → Bool
  -- ULongAdd of intsafe.h: the value left in its result
  pub ulong_add : ℕ → ℕ → ℕ
  -- the text in the caller's buffer after the n-th fgets
  pub line : ℕ → List ℕ
  -- sscanf_s with "%x" and with "%d": `none` where it does not convert one number
  pub scan_hex : List ℕ → Option ℤ
  pub scan_dec : List ℕ → Option ℤ
  -- the driver's answer to a request, after the requests before it (the latest first)
  pub respond : List Request → Request → Reply
  -- what RtlGetVersion reports; `none` where it cannot be found
  pub os_version : Option OsVersion
  -- what the bits of a local variable are before they are written, after so many requests
  pub uninitialised : ℕ → ℕ
