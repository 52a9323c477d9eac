-- ===== src/Features/WriteCache.antt =====
-- Set Features for the Volatile Write Cache: src/NVMeFeaturesVWC.c.
pub mod Requests
pub mod Plain
use nvmetool_win.Base.{ℕ, ◌+◌, Bool, ℤ, not, ◌==◌, ◌||◌, is_nat, if◌then◌else◌}
use nvmetool_win.Platform.{Layout, Request, adapter_protocol_specific, feature_data, set_property}
use nvmetool_win.Program.{World, Prog, pure, reads, ◌>>=◌}
use nvmetool_win.WinFunc.{failed, succeeded, with_reply, header_is_valid}
use nvmetool_win.Console.{get_console_input, get_console_input_dec}

abbrev pub cache_buffer : Layout → ℕ
cache_buffer l = l.set_parameters + l.specific_data_ext

abbrev pub cache_request : Layout → ℕ → ℕ → Request
cache_request l cdw10 cdw11 = set_property (record {
  property = adapter_protocol_specific;
  kind = feature_data;
  value = cdw10;
  sub_value = cdw11;
  sub_value2 = 0;
  sub_value3 = 0;
  sub_value4 = 0;
  data_offset = 0;
  data_length = 0;
  buffer_length = cache_buffer l;
})

-- `siNVMeSetFeaturesVWC`
send_cache : ℕ → ℕ → Prog ℤ
unfolding with_reply
send_cache cdw10 cdw11 = do
  l ← reads (λ p w. p.layout)
  with_reply (cache_buffer l) (cache_request l cdw10 cdw11)
      (λ r. pure (if header_is_valid l r then succeeded else failed))

-- A case of the `switch`: the two words stay 0 where the answer is not 'y', and go out all the same.
set_cache : ℕ → ℕ → Prog ℤ
unfolding send_cache get_console_input
set_cache enable save = do
  l ← reads (λ p w. p.layout)
  c ← get_console_input
  if c == b'y'
      then send_cache (l.set_features_cdw10 0x06 save) (l.write_cache_cdw11 enable)
      else send_cache 0 0

-- `iNVMeSetFeaturesVWC`
unfoldable pub set_write_cache : Prog ℤ
unfolding set_cache get_console_input_dec ◌>>=◌
set_write_cache = do
  value ← get_console_input_dec
  if is_nat value 0
      then set_cache 0 0
      else if is_nat value 1
      then set_cache 1 0
      else if is_nat value 2
      then set_cache 0 1
      else if is_nat value 3
      then set_cache 1 1
      else pure failed
