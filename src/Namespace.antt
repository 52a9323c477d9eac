-- ===== src/Namespace.antt =====
-- The Identify commands for namespaces: src/NVMeIdentifyNamespace.c, src/NVMeIdentifyIOCSNamespace.c,
-- src/NVMeIdentifyNSIDDescriptor.c and src/NVMeIdentifyActiveNSIDList.c. Their functions share one
-- text up to the use of the data. The reports are left out, but for lists and identifiers.
pub mod Protection
pub mod Structure
pub mod ActiveList
pub mod Reading
pub mod Keeping
pub mod Report
use nvmetool_win.Base.{
  ℕ, zero, suc, ◌+◌, ◌*◌, List, [], ◌∷◌, Option, none, some, ℤ, not, ◌==◌, ltb, ◌||◌, if◌then◌else◌,
  take, drop,
}
use nvmetool_win.Platform.{
  Layout, Request, Reply, Property, adapter_protocol_specific, device_protocol_specific,
  identify_data, query_property,
}
use nvmetool_win.Program.{Prog, pure, reads, allocate, store_namespace, ◌>>=◌, ◌>>◌}
use nvmetool_win.WinFunc.{
  failed, succeeded, is_zero, issue_device_io_control, protocol_query, header_is_valid,
  read_protocol_data,
}
use nvmetool_win.Controller.Fields.{byte, dword, controller_type}
use nvmetool_win.Controller.Version.{is_v20_or_later}

abbrev pub structure_buffer : Layout → ℕ → ℕ
structure_buffer l size = l.query_parameters + l.specific_data + size

-- The query for `size` bytes of the structure `cns`, for a namespace.
abbrev pub structure_request : Layout → Property → ℕ → ℕ → ℕ → Request
structure_request l property cns nsid size =
    query_property
      (record (protocol_query property identify_data cns l.specific_data size
        (structure_buffer l size)) { sub_value = nsid })

-- The tests of the reply. Where one fails, iResult is still the 0 of the call, and the data are not
-- used.
unfoldable pub check_structure : ℕ → Layout → Reply → Prog (ℤ × Option (List ℕ))
check_structure size l r =
    if not (header_is_valid l r)
    then pure (succeeded, none)
    else if ltb l.specific_data r.data_offset || ltb r.data_length size
    then pure (succeeded, none)
    else do
      bytes ← read_protocol_data (structure_buffer l size) l r size
      pure (succeeded, some bytes)

-- The result, and the data where they are used.
unfoldable pub get_structure : Property → ℕ → ℕ → ℕ → Prog (ℤ × Option (List ℕ))
unfolding check_structure issue_device_io_control read_protocol_data ◌>>=◌
get_structure property cns nsid size = do
  l ← reads (λ p w. p.layout)
  buffer ← allocate (structure_buffer l size)
  if buffer == 0 then pure (failed, none) else do
    answer ← issue_device_io_control (structure_request l property cns nsid size)
    if is_zero answer.0 then check_structure size l answer.1 else pure (answer.0, none)

-- The copy into g_stNamespaceData, where the data are used.
unfoldable pub keep_namespace : ℤ → Option (List ℕ) → Prog ℤ
unfolding ◌>>=◌
keep_namespace result none = pure result
keep_namespace result (some bytes) = do store_namespace bytes; pure succeeded

-- `iNVMeIdentifyNamespace`: the data are fetched once, whatever namespace they were for.
unfoldable pub identify_namespace : ℕ → Prog ℤ
unfolding get_structure keep_namespace
identify_namespace nsid = do
  known ← reads (λ p w. w.namespace_known)
  if known then pure succeeded else do
    answer ← get_structure adapter_protocol_specific 0x00 nsid 4096
    keep_namespace answer.0 answer.1

-- `siNVMeIdentifyIOControllerNamespace`
unfoldable pub identify_io_namespace : ℕ → Prog ℤ
unfolding get_structure
identify_io_namespace nsid = do
  answer ← get_structure adapter_protocol_specific 0x05 nsid 4096
  pure answer.0

-- The part of iNVMeIdentifyIOCSNamespace behind the namespace's data.
unfoldable pub identify_iocs : ℕ → Prog ℤ
unfolding identify_io_namespace is_v20_or_later controller_type
identify_iocs nsid = do
  c ← reads (λ p w. w.controller)
  if not (is_v20_or_later c)
      then pure failed
      else if controller_type c == 1
      then identify_io_namespace nsid
      else pure failed

-- `iNVMeIdentifyIOCSNamespace`
unfoldable pub identify_iocs_namespace : ℕ → Prog ℤ
unfolding identify_namespace identify_iocs ◌>>=◌
identify_iocs_namespace nsid = do
  known ← reads (λ p w. w.namespace_known)
  result ← if known then pure succeeded else identify_namespace nsid
  if is_zero result then identify_iocs nsid else pure failed

-- The identifier that printNVMeIdentifyNSIDDescriptor prints: the length that NIDT asks for, 0 for an
-- unknown type, and the bytes of NID where NIDL agrees.
abbrev pub expected_length : ℕ → ℕ
expected_length nidt =
    if nidt == 0x1
    then 8
    else if nidt == 0x2
    then 16
    else if nidt == 0x3
    then 16
    else if nidt == 0x4
    then 1
    else 0

unfoldable pub identifier : List ℕ → Option (List ℕ)
identifier bytes =
    let n = expected_length (byte bytes 0) in
    if n == 0 then none else if not (byte bytes 1 == n) then none else some (take n (drop 4 bytes))

-- The entries of a structure, where it is used.
abbrev with_data {ℓ} : {A : Type ℓ} → A → (List ℕ → A) → Option (List ℕ) → A
with_data default f none = default
with_data default f (some bytes) = f bytes

-- `iNVMeIdentifyNSIDDescriptor`, with what it prints; the namespace never reaches the request.
unfoldable pub identify_descriptor : ℕ → Prog (ℤ × Option (List ℕ))
unfolding get_structure identifier ◌>>=◌
identify_descriptor nsid = do
  answer ← get_structure device_protocol_specific 0x03 0 4096
  pure (answer.0, with_data none identifier answer.1)

-- The loop over the list of namespaces, with `rounds` left.
unfoldable pub list_from : List ℕ → ℕ → ℕ → List ℕ
list_from bytes zero i = []
list_from bytes (suc rounds) i =
    let rest = list_from bytes rounds (i + 1) in
    if dword bytes (4 * i) == 0 then [] else dword bytes (4 * i) ∷ rest

-- `iNVMeIdentifyActiveNSIDList`, with the namespaces that it prints.
unfoldable pub identify_active_list : Prog (ℤ × List ℕ)
unfolding get_structure ◌>>=◌
identify_active_list = do
  answer ← get_structure device_protocol_specific 0x02 0 4096
  pure (answer.0, with_data [] (λ bytes. list_from bytes 1024 0) answer.1)
