-- ===== src/Features/Thermal.antt =====
-- Set Features for Host Controlled Thermal Management: src/NVMeFeaturesHCTM.c.
pub mod Limits
pub mod Plain
use nvmetool_win.Base.{
  ℕ, ◌+◌, ◌-◌, ◌*◌, ◌%◌, Bool, ℤ, pos, negsuc, not, ◌==◌, ◌&&◌, ltb_ℤ, leb_ℤ, if◌then◌else◌,
}
use nvmetool_win.Platform.{Layout, Request, device_protocol_specific, feature_data, set_property}
use nvmetool_win.Program.{World, Prog, pure, reads, ◌>>=◌}
use nvmetool_win.WinFunc.{failed, succeeded, is_zero, with_reply}
use nvmetool_win.Console.{get_console_input, get_console_input_dec}
use nvmetool_win.Controller.Fields.{thermal_management, mntmt, mxtmt}

-- An `int` stored in a field of 16 bits.
abbrev pub to_16_bits : ℤ → ℕ
to_16_bits (pos n) = n % 65536
to_16_bits (negsuc n) = 65535 - n % 65536

-- NVME_CDW11_FEATURE_HCTM: TMT2 in the lower half, TMT1 in the upper.
unfoldable pub thermal_cdw11 : ℤ → ℤ → ℕ
thermal_cdw11 tmt1 tmt2 = to_16_bits tmt2 + 65536 * to_16_bits tmt1

abbrev thermal_buffer : Layout → ℕ
thermal_buffer l = l.set_parameters + l.specific_data_ext

-- The Set Features command for HCTM (10h), not saved.
abbrev pub thermal_request : Layout → ℕ → Request
thermal_request l cdw11 = set_property (record {
  property = device_protocol_specific;
  kind = feature_data;
  value = l.set_features_cdw10 0x10 0;
  sub_value = cdw11;
  sub_value2 = 0;
  sub_value3 = 0;
  sub_value4 = 0;
  data_offset = 0;
  data_length = 0;
  buffer_length = thermal_buffer l;
})

-- `siNVMeSetFeaturesHCTM`
send_thermal : ℕ → Prog ℤ
unfolding with_reply
send_thermal cdw11 = do
  l ← reads (λ p w. p.layout)
  with_reply (thermal_buffer l) (thermal_request l cdw11) (λ r. pure succeeded)

-- The three tests of the temperatures, and the command.
set_within : ℕ → ℕ → ℤ → ℤ → Prog ℤ
unfolding send_thermal
set_within lowest highest tmt1 tmt2 =
    if not (ltb_ℤ tmt1 tmt2)
    then pure failed
    else if not (leb_ℤ (pos lowest) tmt1)
    then pure failed
    else if not (leb_ℤ tmt2 (pos highest))
    then pure failed
    else do
      result ← send_thermal (thermal_cdw11 tmt1 tmt2)
      pure (if is_zero result then pos 1 else pos 0)

-- `iNVMeSetFeaturesHCTM`
unfoldable pub set_thermal : Prog ℤ
unfolding set_within get_console_input get_console_input_dec ◌>>=◌
set_thermal = do
  c ← reads (λ p w. w.controller)
  if not (thermal_management c) then pure failed else do
    tmt1 ← get_console_input_dec
    tmt2 ← get_console_input_dec
    answer ← get_console_input
    if not (answer == b'y') && not (answer == b'Y')
        then pure (pos 0)
        else set_within (mntmt c) (mxtmt c) tmt1 tmt2
