-- ===== src/Examples/Admin.antt =====
-- Tests of the menu, of Identify and of the SMART log.
use nvmetool_win.Controller.Fields.{nn, security_commands, vid}
use nvmetool_win.Base.{
  Bool, List, [], arith, drop, false, inr, pos, refl, take, true, ℕ, ℤ, ◌+◌, ◌<◌, ◌↔◌, ◌∷◌, ◌≡◌,
  ◌≢◌, ◌⊎◌,
}
use nvmetool_win.Platform.{Platform}
use nvmetool_win.Program.{World}
use nvmetool_win.Examples.{answers, controller, device, reply, world}
use nvmetool_win.Controller.Workaround.{codes, firmware_revision, model_number, needs_workaround}
use nvmetool_win.Console.{MajorCommand, format_nvm, get_command_from_console}
use nvmetool_win.Console.Menu.{command-confirmed, command_complete, key, letter, needs_confirmation}
use nvmetool_win.Controller.Workaround.Match.{Occurs, needs_workaround_iff}
use nvmetool_win.WinFunc.{failed, succeeded}
use nvmetool_win.Controller.Identify.{
  IsValidReply, buffer_length, identify_controller, identify_controller-effects,
  identify_controller-stays_inside, identify_controller-succeeds_iff, identify_request,
}
use nvmetool_win.Smart.{get_smart, smart_log_size, smart_request}
use nvmetool_win.Smart.Bounds.{Works, get_smart-succeeds_iff, get_smart_reads_past_iff}
use nvmetool_win.Startup.{start_up}
use nvmetool_win.Startup.Ready.{IsReady, start_up-IsReady}

command-confirmed_example :
    let p : Platform = device (answers controller) ((b'z' ∷ []) ∷ (b'y' ∷ []) ∷ []) in
    let w : World = world in
    let c : MajorCommand = format_nvm in
    ((key p w.lines_read ≡ letter c) ⊎ (key p w.lines_read + 32 ≡ letter c))
    × ((needs_confirmation c ≡ false) ⊎ (key p (w.lines_read + 1) ≡ b'y'))
unfolding get_command_from_console
command-confirmed_example =
    command-confirmed (device (answers controller) ((b'z' ∷ []) ∷ (b'y' ∷ []) ∷ [])) world
      format_nvm refl (ground arith)

command_complete_example :
    let p : Platform = device (answers controller) ((b'z' ∷ []) ∷ (b'y' ∷ []) ∷ []) in
    let w : World = world in
    let c : MajorCommand = format_nvm in (get_command_from_console p w).0 ≡ c
command_complete_example =
    command_complete (device (answers controller) ((b'z' ∷ []) ∷ (b'y' ∷ []) ∷ [])) world format_nvm
      (ground arith) refl (inr refl)

needs_workaround_iff_example :
    let c : List ℕ = controller in
    (needs_workaround c ≡ true) ↔ (
      Occurs (codes "WDC WDS") (model_number c)
      × Occurs (codes "2B0C") (model_number c)
      × (firmware_revision c ≡ codes "211070WD"))
needs_workaround_iff_example = needs_workaround_iff controller

identify_controller-succeeds_iff_example :
    let p : Platform = device (answers controller) [] in
    let w : World = world in
    let (result, w') = identify_controller p w in
    let r = p.respond w.issued (identify_request p.layout) in
    ((result ≡ succeeded) ⊎ (result ≡ failed))
    × ((result ≡ succeeded) ↔ (
        (p.malloc w.allocations (buffer_length p.layout) ≢ 0)
        × (r.accepted ≡ true)
        × IsValidReply p.layout r
        × (vid (take p.layout.identify_controller (drop r.data_offset r.bytes)) ≢ 0)
        × (nn (take p.layout.identify_controller (drop r.data_offset r.bytes)) ≢ 0)))
identify_controller-succeeds_iff_example =
    identify_controller-succeeds_iff (device (answers controller) []) world

identify_controller-stays_inside_example :
    let p : Platform = device (answers controller) [] in
    let w : World = world in (identify_controller p w).1.overread ≡ w.overread
identify_controller-stays_inside_example =
    identify_controller-stays_inside (device (answers controller) []) world (omega arith)

identify_controller-effects_example :
    let p : Platform = device (answers controller) [] in
    let w : World = world in
    let w' = (identify_controller p w).1 in
    let q = identify_request p.layout in
    let r = p.respond w.issued q in
    (((w'.issued ≡ w.issued) × (p.malloc w.allocations (buffer_length p.layout) ≡ 0))
      ⊎ (w'.issued ≡ q ∷ w.issued))
    × ((w'.controller ≡ w.controller)
        ⊎ (IsValidReply p.layout r
            × (w'.controller ≡ take p.layout.identify_controller (drop r.data_offset r.bytes))))
    × (w'.smart_log ≡ w.smart_log)
    × (w'.namespace_data ≡ w.namespace_data)
    × (w'.namespace_known ≡ w.namespace_known)
    × (w'.smart_with_nsid_zero ≡ w.smart_with_nsid_zero)
    × (w'.supports_protocol ≡ w.supports_protocol)
    × (w'.protocol_count ≡ w.protocol_count)
    × (w'.os_build ≡ w.os_build)
    × (w'.os_major ≡ w.os_major)
    × (w'.lines_read ≡ w.lines_read)
identify_controller-effects_example =
    identify_controller-effects (device (answers controller) []) world

get_smart-succeeds_iff_example :
    let print : Bool = true in
    let nsid : ℤ = pos 0 in
    let p : Platform = device (answers controller) [] in
    let w : World = world in
    let (result, w') = get_smart print nsid p w in
    let r = p.respond w.issued (smart_request p.layout) in
    (Works p w
      × (result ≡ succeeded)
      × (w'.smart_log ≡ take smart_log_size (drop r.data_offset r.bytes)))
    ⊎ (¬ Works p w × (result ≡ failed) × (w'.smart_log ≡ w.smart_log))
get_smart-succeeds_iff_example =
    get_smart-succeeds_iff true (pos 0) (device (answers controller) []) world

get_smart_reads_past_iff_example :
    let print : Bool = true in
    let nsid : ℤ = pos 0 in
    let p : Platform = record (device (answers controller) []) {
      respond = λ before q. record (reply (answers controller)) { data_offset = 600 };
    } in
    let w : World = world in
    ((get_smart print nsid p w).1.overread ≡ true)
    ↔ (p.layout.specific_data < (p.respond w.issued (smart_request p.layout)).data_offset)
get_smart_reads_past_iff_example =
    get_smart_reads_past_iff true (pos 0)
      (record (device (answers controller) []) {
        respond = λ before q. record (reply (answers controller)) { data_offset = 600 };
      })
      world refl refl (omega arith) ((refl, refl, refl, omega arith, omega arith))

start_up-IsReady_example :
    let p : Platform = device (answers controller) [] in
    let w : World = world in IsReady (start_up p w).1
unfolding start_up vid nn security_commands
start_up-IsReady_example = start_up-IsReady (device (answers controller) []) world refl
