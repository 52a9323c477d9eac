-- ===== src/Features/Reads.antt =====
-- iNVMeGetFeature32 of src/NVMeGetFeatures.c, and the four reads with which the feature functions
-- begin.
pub mod Order
use nvmetool_win.Base.{ℕ, ◌+◌, ◌%◌, ◌^◌, Bool, ℤ, not, ◌==◌, if◌then◌else◌}
use nvmetool_win.Platform.{
  Platform, Layout, Request, Reply, Select, current_value, default_value, saved_value,
  supported_capabilities, device_protocol_specific, feature_data, query_property,
}
use nvmetool_win.Program.{World, Prog, pure, reads, allocate, ◌>>=◌}
use nvmetool_win.WinFunc.{
  failed, succeeded, is_zero, issue_device_io_control, protocol_query, header_is_valid,
}

abbrev pub feature_buffer : Layout → ℕ
feature_buffer l = l.query_parameters + l.specific_data

abbrev pub feature_request : Layout → ℕ → Select → ℕ → Request
feature_request l fid sel cdw11 = query_property (record {
  property = device_protocol_specific;
  kind = feature_data;
  value = l.get_features_cdw10 0 fid sel;
  sub_value = cdw11;
  sub_value2 = 0;
  sub_value3 = 0;
  sub_value4 = 0;
  data_offset = 0;
  data_length = 0;
  buffer_length = feature_buffer l;
})

-- What is left in the caller's variable: the reply's value, or the 0 that the callers start from.
check_feature : Layout → Reply → ℤ × ℕ
check_feature l r =
    if not (header_is_valid l r) then (failed, 0) else (succeeded, r.fixed_return % 2 ^ 32)

-- `iNVMeGetFeature32`: the result and `*_pulData`.
unfoldable pub get_feature32 : ℕ → Select → ℕ → Prog (ℤ × ℕ)
unfolding check_feature issue_device_io_control ◌>>=◌
get_feature32 fid sel cdw11 = do
  l ← reads (λ p w. p.layout)
  buffer ← allocate (feature_buffer l)
  if buffer == 0 then pure (failed, 0) else do
    answer ← issue_device_io_control (feature_request l fid sel cdw11)
    pure (if is_zero answer.0 then check_feature l answer.1 else (answer.0, 0))

-- A feature function either stops with a result that is not 0, or goes on with what it read.
pub data Readout {ℓ} (A : Type ℓ) : Type ℓ where
  stopped : ℤ → Readout A
  completed : A → Readout A

abbrev pub result_of {ℓ} : {A : Type ℓ} → Readout A → ℤ
result_of (stopped result) = result
result_of (completed _) = succeeded

-- `if (result) return result;`
infixl 10 ◌then_read◌
unfoldable pub ◌then_read◌ {ℓ} :
    {A : Type ℓ} → Prog (ℤ × ℕ) → (ℕ → Prog (Readout A)) → Prog (Readout A)
unfolding ◌>>=◌
m then_read rest = do
  answer ← m
  if is_zero answer.0 then rest answer.1 else pure (stopped answer.0)

-- `ulCurrentData`, `ulDefaultData`, `ulSavedData` and `ulSupportedCapabilities`.
pub record Settings : Type 0 where
  pub current : ℕ
  pub default : ℕ
  pub saved : ℕ
  pub capabilities : ℕ

unfoldable pub read_settings : ℕ → Prog (Readout Settings)
unfolding get_feature32 ◌then_read◌
read_settings fid = get_feature32 fid current_value 0 then_read λ a.
    get_feature32 fid default_value 0 then_read λ b. get_feature32 fid saved_value 0 then_read λ c.
    get_feature32 fid supported_capabilities 0 then_read λ d.
    pure (completed (record { current = a; default = b; saved = c; capabilities = d }))
