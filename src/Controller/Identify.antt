-- ===== src/Controller/Identify.antt =====
-- The Identify command for the controller, iNVMeIdentifyController of src/NVMeIdentifyController.c.
use nvmetool_win.Base.{
  ◌∷◌, ◌↔◌, ◌≢◌, true, take, drop, ℕ, ◌+◌, ◌≤◌, ◌≡◌, ℤ, ◌==◌, ltb, not, ◌||◌, if◌then◌else◌, arith,
  ◌⊎◌,
}
use nvmetool_win.Platform.{
  Platform, Layout, Request, Reply, adapter_protocol_specific, identify_data, query_property,
}
use nvmetool_win.Program.{World, Prog, pure, reads, store_controller, ◌>>=◌, ◌>>◌}
use nvmetool_win.WinFunc.{
  failed, succeeded, with_reply, protocol_query, header_is_valid, read_protocol_data,
}
use nvmetool_win.Controller.Fields.{vid, nn}

-- NVME_IDENTIFY_CNS_CONTROLLER
abbrev pub cns_controller : ℕ
cns_controller = 1

abbrev pub buffer_length : Layout → ℕ
buffer_length l = l.query_parameters + l.specific_data + l.identify_controller

abbrev pub identify_request : Layout → Request
identify_request l = query_property (
    protocol_query adapter_protocol_specific identify_data cns_controller l.specific_data
      l.identify_controller (buffer_length l))

-- `memcpy_s` into g_stController, and the test of what was copied.
accept : Layout → Reply → Prog ℤ
accept l r = do
  bytes ← read_protocol_data (buffer_length l) l r l.identify_controller
  store_controller bytes
  pure (if vid bytes == 0 || nn bytes == 0 then failed else succeeded)

-- The two tests of the reply.
check : Layout → Reply → Prog ℤ
unfolding accept
check l r =
    if not (header_is_valid l r)
    then pure failed
    else if ltb l.specific_data r.data_offset || ltb r.data_length l.identify_controller
    then pure failed
    else accept l r

unfoldable pub identify_controller : Prog ℤ
unfolding check with_reply read_protocol_data ◌>>=◌
identify_controller = do
  l ← reads (λ p w. p.layout)
  with_reply (buffer_length l) (identify_request l) (check l)

-- The reply passes the header test and the test of offset and length.
abbrev pub IsValidReply : Layout → Reply → Type 0
IsValidReply l r =
    (r.version ≡ l.descriptor)
    × (r.size ≡ l.descriptor)
    × (r.data_offset ≤ l.specific_data)
    × (l.identify_controller ≤ r.data_length)

-- 0 is returned exactly where memory was there, the driver accepted the request, its reply is valid,
-- and the controller that it describes has a vendor and a namespace; every other run returns -1.
pub identify_controller-succeeds_iff :
    (p : Platform) (w : World)
    → let (result, w') = identify_controller p w in
      let r = p.respond w.issued (identify_request p.layout) in
      ((result ≡ succeeded) ⊎ (result ≡ failed))
      × ((result ≡ succeeded) ↔ (
          (p.malloc w.allocations (buffer_length p.layout) ≢ 0)
          × (r.accepted ≡ true)
          × IsValidReply p.layout r
          × (vid (take p.layout.identify_controller (drop r.data_offset r.bytes)) ≢ 0)
          × (nn (take p.layout.identify_controller (drop r.data_offset r.bytes)) ≢ 0)))
unfolding identify_controller
identify_controller-succeeds_iff p w = ground arith

-- The copy stays inside the buffer, whatever the driver replies: the offset is tested against the
-- place that the buffer was laid out for. (In the headers both offsets named here are 8.)
pub identify_controller-stays_inside :
    (p : Platform) (w : World)
    → p.layout.descriptor_data ≤ p.layout.query_parameters
    → (identify_controller p w).1.overread ≡ w.overread
unfolding identify_controller
identify_controller-stays_inside p w h = ground arith

-- A run reads no line, sends one request or none, and g_stController is the only global that it may write: with a
-- valid reply it is overwritten, also where the vendor or the namespaces are then refused, and in
-- every other run it keeps its bytes.
pub identify_controller-effects :
    (p : Platform) (w : World)
    → let w' = (identify_controller p w).1 in
      let q = identify_request p.layout in
      let r = p.respond w.issued q in
      (((w'.issued ≡ w.issued) × (p.malloc w.allocations (buffer_length p.layout) ≡ 0))
        ⊎ (w'.issued ≡ q ∷ w.issued))
      × ((w'.controller ≡ w.controller)
          ⊎ (IsValidReply p.layout r
              × (w'.controller ≡ take p.layout.identify_controller (drop r.data_offset r.bytes))))
      × (w'.smart_log ≡ w.smart_log)
      × (w'.namespace_data ≡ w.namespace_data)
      × (w'.namespace_known ≡ w.namespace_known)
      × (w'.smart_with_nsid_zero ≡ w.smart_with_nsid_zero)
      × (w'.supports_protocol ≡ w.supports_protocol)
      × (w'.protocol_count ≡ w.protocol_count)
      × (w'.os_build ≡ w.os_build)
      × (w'.os_major ≡ w.os_major)
      × (w'.lines_read ≡ w.lines_read)
unfolding identify_controller
identify_controller-effects p w = ground arith
