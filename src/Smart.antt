-- ===== src/Smart.antt =====
-- The SMART / Health Information log page: iNVMeGetSMART of src/NVMeSMART.c, with the size that
-- src/NVMeSMART.h gives to the page.
pub mod Structure
pub mod Bounds
pub mod Report
use nvmetool_win.Base.{ℕ, ◌+◌, Bool, ℤ, not, ltb, ◌||◌, if◌then◌else◌}
use nvmetool_win.Platform.{
  Layout, Request, Reply, device_protocol_specific, log_page_data, query_property,
}
use nvmetool_win.Program.{Prog, pure, reads, store_smart_log, ◌>>=◌, ◌>>◌}
use nvmetool_win.WinFunc.{
  failed, succeeded, with_reply, protocol_query, header_is_valid, read_protocol_data,
}

-- sizeof(NVME_SMART_INFO_LOG)
abbrev pub smart_log_size : ℕ
smart_log_size = 512

-- NVME_LOG_PAGE_HEALTH_INFO
abbrev health_info : ℕ
health_info = 0x02

abbrev pub smart_buffer : Layout → ℕ
smart_buffer l = l.query_parameters + l.specific_data + smart_log_size

abbrev pub smart_request : Layout → Request
smart_request l = query_property (
    protocol_query device_protocol_specific log_page_data health_info l.specific_data smart_log_size
      (smart_buffer l))

-- The reads behind the tests: printing and `memcpy_s` read the same bytes.
check_smart : Layout → Reply → Prog ℤ
check_smart l r =
    if not (header_is_valid l r)
    then pure failed
    else if ltb r.data_offset l.specific_data || ltb r.data_length smart_log_size
    then pure failed
    else do
      bytes ← read_protocol_data (smart_buffer l) l r smart_log_size
      store_smart_log bytes
      pure succeeded

-- `iNVMeGetSMART`. Neither `_bPrint`, which only prints, nor `iNSID` reaches the request.
unfoldable pub get_smart : Bool → ℤ → Prog ℤ
unfolding check_smart with_reply read_protocol_data ◌>>=◌
get_smart print nsid = do
  l ← reads (λ p w. p.layout)
  with_reply (smart_buffer l) (smart_request l) (check_smart l)
