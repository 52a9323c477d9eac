-- ===== src/Features/Timestamp.antt =====
-- Get Features for the timestamp: src/NVMeFeaturesTimestamp.c.
use nvmetool_win.Base.{length, ◌*◌, ℕ, ◌+◌, ◌≡◌, Bool, ℤ, ◌==◌, if◌then◌else◌, arith}
use nvmetool_win.Platform.{
  Platform, Layout, Request, Select, current_value, default_value, saved_value,
  supported_capabilities, adapter_protocol_specific, feature_data, query_property,
}
use nvmetool_win.Program.{World, Prog, pure, reads, allocate, ◌>>=◌}
use nvmetool_win.WinFunc.{
  failed, succeeded, is_zero, issue_device_io_control, protocol_query, header_is_valid,
}
use nvmetool_win.Features.Reads.{Readout, completed, get_feature32, ◌then_read◌}
use nvmetool_win.Features.Fields.{bits, is_set}

-- sizeof(uint64_t)
abbrev timestamp_size : ℕ
timestamp_size = 8

abbrev timestamp_buffer : Layout → ℕ
timestamp_buffer l = l.query_parameters + l.specific_data + timestamp_size

-- FID and SEL are written over a word that was not initialised.
abbrev pub timestamp_request : Layout → ℕ → Select → Request
timestamp_request l word sel = query_property (
    protocol_query adapter_protocol_specific feature_data (l.get_features_cdw10 word 0x0e sel)
      l.specific_data timestamp_size (timestamp_buffer l))

-- `siNVMeGetFeaturesTimestamp`: the result and `*_pullResult`, which takes the value of a variable
-- that no statement has written since its initialisation.
unfoldable pub read_timestamp : ℕ → Select → Prog (ℤ × ℕ)
unfolding issue_device_io_control ◌>>=◌
read_timestamp word sel = do
  l ← reads (λ p w. p.layout)
  buffer ← allocate (timestamp_buffer l)
  if buffer == 0 then pure (failed, 0) else do
    answer ← issue_device_io_control (timestamp_request l word sel)
    let timestamp : ℕ = 0
    pure (
        if is_zero answer.0
        then (if header_is_valid l answer.1 then (succeeded, timestamp) else (failed, 0))
        else (answer.0, 0))

-- The origin that s_vNVMePrintTimestamp names.
pub data Origin : Type 0 where
  controller_reset set_features : Origin
  unknown_origin : ℕ → Origin

-- What s_vNVMePrintTimestamp takes out of the value: the time, whether the clock may have stopped, and
-- the origin, by `(uAttributes >> 1) & 0x5`.
pub record Timestamp : Type 0 where
  pub time : ℕ
  pub may_have_stopped : Bool
  pub origin : Origin

-- `a & 0x5` of an attribute byte shifted right once: bits 0 and 2.
origin_bits : ℕ → ℕ
origin_bits a = bits a 1 1 + 4 * bits a 3 1

origin_of : ℕ → Origin
origin_of o = if o == 0 then controller_reset else if o == 1 then set_features else unknown_origin o

unfoldable pub decode_timestamp : ℕ → Timestamp
unfolding origin_bits origin_of
decode_timestamp v = record {
  time = bits v 0 48;
  may_have_stopped = is_set (bits v 48 8) 0;
  origin = origin_of (origin_bits (bits v 48 8));
}

abbrev pub Timestamps : Type 0
Timestamps = Timestamp × Timestamp × Timestamp × ℕ

-- `iNVMeGetFeaturesTimestamp`
unfoldable pub get_timestamp : Prog (Readout Timestamps)
unfolding read_timestamp get_feature32 ◌then_read◌ decode_timestamp
get_timestamp = do
  word ← reads (λ p w. p.uninitialised (length w.issued))
  (read_timestamp word current_value then_read λ a. read_timestamp word default_value then_read λ b.
      read_timestamp word saved_value then_read λ c.
      get_feature32 0x0e supported_capabilities 0 then_read λ d.
      pure (completed (decode_timestamp a, decode_timestamp b, decode_timestamp c, d)))

-- Whatever the drive answers, a completed reading shows the time 0, initialised by a reset, three
-- times.
pub get_timestamp_shows_zero :
    (p : Platform) (w : World) {t : Timestamps}
    → (get_timestamp p w).0 ≡ completed t
    → (t.0 ≡ decode_timestamp 0)
      × (t.1 ≡ decode_timestamp 0)
      × (t.2 ≡ decode_timestamp 0)
      × ((decode_timestamp 0).time ≡ 0)
      × ((decode_timestamp 0).origin ≡ controller_reset)
unfolding get_timestamp
get_timestamp_shows_zero p w e = ground arith
