-- ===== src/WinFunc.antt =====
-- The wrappers of src/WinFunc.c round Windows, and what all handlers share of a protocol query.
use nvmetool_win.Base.{
  Option, ℕ, ◌+◌, Bool, true, false, none, some, ℤ, pos, negsuc, ◌==◌, ltb, leb, ◌&&◌,
  if◌then◌else◌, List, take, drop,
}
use nvmetool_win.Platform.{Layout, Request, Reply, OsVersion, Property, NvmeData, ProtocolQuery}
use nvmetool_win.Program.{
  World, Prog, pure, reads, allocate, device_io_control, store_os, touch, ◌>>=◌, ◌>>◌,
}

-- The initial value of `iResult`, and the error value of every handler.
abbrev pub failed : ℤ
failed = negsuc 0

abbrev pub succeeded : ℤ
succeeded = pos 0

-- `x == -1`
abbrev pub is_failed : ℤ → Bool
is_failed (pos n) = false
is_failed (negsuc n) = n == 0

abbrev pub is_zero : ℤ → Bool
is_zero (pos n) = n == 0
is_zero (negsuc n) = false

-- `iIssueDeviceIoControl`, with what the call left in the output buffer.
unfoldable pub issue_device_io_control : Request → Prog (ℤ × Reply)
issue_device_io_control q =
    device_io_control q >>= λ r. pure (if r.accepted then succeeded else failed, r)

-- How the handlers send a request: malloc of a zeroed buffer of `n` bytes, the call, and the rest of
-- the handler where both succeed.
unfoldable pub with_reply : ℕ → Request → (Reply → Prog ℤ) → Prog ℤ
unfolding issue_device_io_control ◌>>=◌
with_reply n q rest = do
  buffer ← allocate n
  if buffer == 0 then pure failed else do
    answer ← issue_device_io_control q
    if is_zero answer.0 then rest answer.1 else pure answer.0

-- `bCanUseGetDeviceInternalLog`
unfoldable pub can_use_internal_log : World → Bool
can_use_internal_log w = if w.os_major == 10 && ltb w.os_build 19041 then false else true

-- What `vGetOSVersion` stores once RtlGetVersion has answered.
abbrev store_version : OsVersion → Prog (Unit {0})
store_version v =
    if v.major == 10 && v.minor == 0 && v.is_workstation
    then store_os v.build (if leb 22000 v.build then 11 else v.major)
    else pure tt

-- Whether RtlGetVersion was found.
unfoldable pub after_version : Option OsVersion → Prog (Unit {0})
after_version none = pure tt
after_version (some v) = store_version v

-- `vGetOSVersion`
unfoldable pub get_os_version : Prog (Unit {0})
unfolding after_version ◌>>=◌
get_os_version = do o ← reads (λ p w. p.os_version); after_version o

-- A zeroed query buffer of `n` bytes with the fields that every query sets.
abbrev pub protocol_query : Property → NvmeData → ℕ → ℕ → ℕ → ℕ → ProtocolQuery
protocol_query property kind value data_offset data_length n = record {
  property = property;
  kind = kind;
  value = value;
  sub_value = 0;
  sub_value2 = 0;
  sub_value3 = 0;
  sub_value4 = 0;
  data_offset = data_offset;
  data_length = data_length;
  buffer_length = n;
}

-- The check of the data descriptor's header, the same text in every handler.
abbrev pub header_is_valid : Layout → Reply → Bool
header_is_valid l r = r.version == l.descriptor && r.size == l.descriptor

-- The bytes from `ProtocolDataOffset` on, `n` of them, out of a buffer of `size` bytes.
unfoldable pub read_protocol_data : ℕ → Layout → Reply → ℕ → Prog (List ℕ)
read_protocol_data size l r n =
    touch size (l.descriptor_data + r.data_offset + n) >> pure (take n (drop r.data_offset r.bytes))
