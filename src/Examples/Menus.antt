-- ===== src/Examples/Menus.antt =====
-- Tests of the menus that read, and of what they run.
use nvmetool_win.Controller.Fields.{byte, qword}
use nvmetool_win.Base.{
  All, Bool, List, [], arith, false, get_or, if◌then◌else◌, length, map, none, pos, replicate, some,
  suc, true, ℕ, ◌*◌, ◌+◌, ◌/◌, ◌<◌, ◌==◌, ◌^◌, ◌∷◌, ◌≡◌, ◌≢◌, ◌≤◌, ◌⊎◌,
}
use nvmetool_win.Platform.{Platform, get_internal_log}
use nvmetool_win.Program.{World}
use nvmetool_win.Examples.{answers, controller, device, put, world}
use nvmetool_win.Namespace.Report.{Format, current_format, data_size, format_at, formats, sizes}
use nvmetool_win.Controller.Version.{is_v20_or_later}
use nvmetool_win.Namespace.Report.Numbers.{current_format_lem}
use nvmetool_win.Controller.Report.{unallocated_capacity}
use nvmetool_win.Controller.Report.Capacity.{bytes, unallocated_capacity_lem}
use nvmetool_win.Program.Requests.{IsReading}
use nvmetool_win.Startup.{start_up}
use nvmetool_win.Menus.LogPage.{log_page_menu}
use nvmetool_win.Menus.Identify.{identify_menu}
use nvmetool_win.Menus.Feature.{get_features_menu}
use nvmetool_win.Menus.ReadOnly.{menus_read_only}
use nvmetool_win.WinFunc.{can_use_internal_log, failed, succeeded}
use nvmetool_win.Console.{first_char, scanned}
use nvmetool_win.Controller.Identify.{identify_controller}
use nvmetool_win.Namespace.{
  identify_active_list, identify_descriptor, identify_iocs_namespace, identify_namespace, list_from,
}
use nvmetool_win.Menus.Identify.Routes.{MayAsk, identify_menu_guarded}
use nvmetool_win.Menus.LogPage.Routes.{AsksTelemetry, IsOffered, log_page_menu_guarded}
use nvmetool_win.Namespace.Keeping.{Fetched, identify_namespace_cases}
use nvmetool_win.Namespace.ActiveList.{entry, list_from_lem}
use nvmetool_win.Telemetry.{get_host_telemetry, host_request, internal_buffer}
use nvmetool_win.Telemetry.Requests.{get_host_telemetry_requests}
use nvmetool_win.Vendor.{vendor_buffer, vendor_command, vendor_request}
use nvmetool_win.Vendor.Results.{vendor_command_results}
use nvmetool_win.Features.Sensors.Outcomes.{Outcome}
use nvmetool_win.Features.Structures.{get_host_memory, get_lba_ranges, get_power_transition}
use nvmetool_win.Features.Structures.Order.{Any, block_requests, structures_in_order}

current_format_lem_example :
    let c : List ℕ = controller in
    let ns : List ℕ = replicate 384 1 in
    let d : Format = format_at [] 0 in
    let i = current_format (c, ns) in
    (i < 64)
    × (is_v20_or_later c ≡ false → i < 16)
    × (length (formats ns) ≡ byte ns 25 + 1)
    × (i < length (formats ns)
        → let n = (get_or (formats ns) i d).size_exponent in
          (n ≡ data_size ns i)
          × (n ≤ 30
              → sizes (c, ns)
                ≡ map (λ k. (qword ns k, some (qword ns k * 2 ^ n / 2 ^ 30))) (0 ∷ 8 ∷ 16 ∷ [])))
current_format_lem_example = current_format_lem controller ((replicate 384 1)) ((format_at [] 0))

unallocated_capacity_lem_example :
    let c : List ℕ = put 304 1 (put 300 7 (replicate 312 0)) in
    unallocated_capacity c ≡ (if bytes c 296 == 0 then none else some (bytes c 296 / 2 ^ 30))
unallocated_capacity_lem_example =
    unallocated_capacity_lem ((put 304 1 (put 300 7 (replicate 312 0)))) (omega arith)

menus_read_only_example :
    let p : Platform = device (answers controller) ((b'3' ∷ []) ∷ (b'y' ∷ []) ∷ []) in
    let w : World = world in
    All IsReading (start_up p w).1.issued
    × All IsReading (log_page_menu p w).1.issued
    × All IsReading (identify_menu p w).1.issued
    × All IsReading (get_features_menu p w).1.issued
menus_read_only_example =
    menus_read_only (device (answers controller) ((b'3' ∷ []) ∷ (b'y' ∷ []) ∷ [])) world tt

identify_menu_guarded_example :
    let p : Platform = device (answers controller) ((b'2' ∷ []) ∷ (b'y' ∷ []) ∷ []) in
    let w : World = world in
    let cns = scanned (p.scan_hex (p.line w.lines_read)) in
    let confirmed = first_char (p.line (w.lines_read + 1)) ≡ b'y' in
    let asked : World = record w { lines_read = w.lines_read + 2 } in
    let (result, w') = identify_menu p w in
    ((cns ≡ pos 0x00) × confirmed × ((result, w') ≡ identify_namespace 1 p asked))
    ⊎ ((cns ≡ pos 0x01) × confirmed × ((result, w') ≡ identify_controller p asked))
    ⊎ ((cns ≡ pos 0x02)
        × confirmed
        × (result ≡ (identify_active_list p asked).0.0)
        × (w' ≡ (identify_active_list p asked).1)
        × MayAsk p 0x02 w w')
    ⊎ ((cns ≡ pos 0x03)
        × confirmed
        × (result ≡ (identify_descriptor 1 p asked).0.0)
        × (w' ≡ (identify_descriptor 1 p asked).1)
        × MayAsk p 0x03 w w')
    ⊎ ((cns ≡ pos 0x05) × confirmed × ((result, w') ≡ identify_iocs_namespace 1 p asked))
    ⊎ ((result ≡ failed)
        × (w'.issued ≡ w.issued)
        × ¬ ((cns ≡ pos 0x00) × confirmed)
        × ¬ ((cns ≡ pos 0x01) × confirmed)
        × ¬ ((cns ≡ pos 0x02) × confirmed)
        × ¬ ((cns ≡ pos 0x03) × confirmed)
        × ¬ ((cns ≡ pos 0x05) × confirmed))
identify_menu_guarded_example =
    identify_menu_guarded (device (answers controller) ((b'2' ∷ []) ∷ (b'y' ∷ []) ∷ [])) world

log_page_menu_guarded_example :
    let p : Platform = device (answers controller) ((b'3' ∷ []) ∷ (b'y' ∷ []) ∷ []) in
    let w : World = world in
    let lid = scanned (p.scan_hex (p.line w.lines_read)) in
    let key = first_char (p.line (w.lines_read + 1)) in
    let (result, w') = log_page_menu p w in
    ((result ≡ failed) × (w'.issued ≡ w.issued))
    ⊎ (IsOffered w.controller lid
        × (((lid ≢ pos 0x07) × (key ≡ b'y')) ⊎ ((lid ≡ pos 0x07) × AsksTelemetry p w (result, w'))))
log_page_menu_guarded_example =
    log_page_menu_guarded (device (answers controller) ((b'3' ∷ []) ∷ (b'y' ∷ []) ∷ [])) world

identify_namespace_cases_example :
    let p : Platform = device (answers controller) [] in
    let w : World = world in
    let nsid : ℕ = 1 in
    let (result, w') = identify_namespace nsid p w in
    ((w.namespace_known ≡ true) × (result ≡ succeeded) × (w' ≡ w))
    ⊎ ((w.namespace_known ≡ false) × Fetched p w nsid result w')
identify_namespace_cases_example = identify_namespace_cases (device (answers controller) []) world 1

list_from_lem_example :
    let bytes : List ℕ = 1 ∷ 0 ∷ 0 ∷ 0 ∷ 5 ∷ 0 ∷ 0 ∷ 0 ∷ [] in
    let ids = list_from bytes 1024 0 in
    (length ids ≤ 1024)
    × ((k : ℕ)
        → k < length ids
        → (get_or ids k 0 ≡ entry bytes k) × (entry bytes k ≢ 0) × (4 * k + 4 ≤ 4096))
    × (length ids < 1024 → entry bytes (length ids) ≡ 0)
list_from_lem_example = list_from_lem ((1 ∷ 0 ∷ 0 ∷ 0 ∷ 5 ∷ 0 ∷ 0 ∷ 0 ∷ []))

get_host_telemetry_requests_example :
    let p : Platform = device (answers controller) ((b'y' ∷ []) ∷ []) in
    let w : World = world in
    let create : Bool = true in
    let (result, w') = get_host_telemetry create p w in
    let internal = get_internal_log (internal_buffer p.layout) in
    let page = host_request p.layout (p.uninitialised (length w.issued)) create in
    let choice = (create ≡ true) × (can_use_internal_log w ≡ true) in
    let chosen = choice × (first_char (p.line w.lines_read) ≡ b'y') in
    ((choice × (w'.lines_read ≡ w.lines_read + 1)) ⊎ (¬ choice × (w'.lines_read ≡ w.lines_read)))
    × (((result ≡ failed) × (w'.issued ≡ w.issued))
        ⊎ (chosen × (w'.issued ≡ internal ∷ w.issued))
        ⊎ (¬ chosen × (w'.issued ≡ page ∷ w.issued)))
get_host_telemetry_requests_example =
    get_host_telemetry_requests (device (answers controller) ((b'y' ∷ []) ∷ [])) world true

vendor_command_results_example :
    let p : Platform = device (answers controller) [] in
    let w : World = world in
    let opcode : ℕ = 0xff in
    let (result, w') = vendor_command opcode p w in
    let q = vendor_request p.layout opcode in
    let r = p.respond w.issued q in
    let memory = p.malloc w.allocations (vendor_buffer p.layout) in
    ((memory ≡ 0) × (result ≡ failed) × (w'.issued ≡ w.issued))
    ⊎ ((memory ≢ 0)
        × (w'.issued ≡ q ∷ w.issued)
        × (((r.returned ≢ vendor_buffer p.layout) × (result ≡ failed))
            ⊎ ((r.returned ≡ vendor_buffer p.layout)
                × (r.accepted ≡ true)
                × (result ≡ pos (suc r.true_value)))
            ⊎ ((r.returned ≡ vendor_buffer p.layout)
                × (r.accepted ≡ false)
                × (result ≡ succeeded))))
vendor_command_results_example = vendor_command_results (device (answers controller) []) world 0xff

structures_in_order_example :
    let p : Platform = device (answers controller) [] in
    let w : World = world in
    let l = p.layout in
    let word = p.uninitialised (length w.issued) in
    Outcome w (block_requests l word 0x0c 0 l.apst_entry) Any (get_power_transition p w)
    × Outcome w (block_requests l word 0x0d 0 4096) Any (get_host_memory p w)
    × Outcome w (block_requests l word 0x03 1 (l.lba_range * 64)) Any (get_lba_ranges p w)
structures_in_order_example = structures_in_order (device (answers controller) []) world
