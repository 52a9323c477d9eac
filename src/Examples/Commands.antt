-- ===== src/Examples/Commands.antt =====
-- Tests of the commands that act on the drive.
use nvmetool_win.Controller.Fields.{cryptographic_erase, format_nvm_command}
use nvmetool_win.Base.{
  [], false, if◌then◌else◌, pos, pos_part, true, ℕ, ◌&&◌, ◌+◌, ◌∷◌, ◌≡◌, ◌≢◌, ◌⊎◌,
}
use nvmetool_win.Platform.{Platform, lock_volume, reinitialize_media, unlock_volume}
use nvmetool_win.Program.{World}
use nvmetool_win.Examples.{answers, controller, device, world}
use nvmetool_win.WinFunc.{failed, succeeded}
use nvmetool_win.Format.{format_nvm}
use nvmetool_win.Format.Locking.{format_nvm_requests}
use nvmetool_win.Console.{first_char, scanned}
use nvmetool_win.SelfTest.{log_request, run_self_test, self_test_request}
use nvmetool_win.SelfTest.Guards.{Allowed, run_self_test_guarded}
use nvmetool_win.Scsi.Transfer.{
  allocate_aligned, flush_cache, is_extended, read_sector, sector_size, write_request, write_sector,
}
use nvmetool_win.Scsi.Transfer.Commands.{
  IsFlushCommand, IsReadCommand, IsWriteCommand, SendsOnce, read_and_flush-SendsOnce,
  write_sector-sends,
}
use nvmetool_win.Scsi.Properties.{query_device}
use nvmetool_win.Scsi.Security.{get_discovery, get_protocols, security_receive}
use nvmetool_win.Scsi.Security.Protocols.{security_receive_guarded}

format_nvm_requests_example :
    let p : Platform = device (answers controller) [] in
    let w : World = world in
    let (result, w') = format_nvm p w in
    let before = w.issued in
    let lock = p.respond before lock_volume in
    let format = p.respond (lock_volume ∷ before) reinitialize_media in
    ((format_nvm_command w.controller && cryptographic_erase w.controller ≡ false)
      × (result ≡ failed)
      × (w'.issued ≡ before))
    ⊎ ((format_nvm_command w.controller && cryptographic_erase w.controller ≡ true)
        × (lock.accepted ≡ false)
        × (result ≡ failed)
        × (w'.issued ≡ lock_volume ∷ before))
    ⊎ ((format_nvm_command w.controller && cryptographic_erase w.controller ≡ true)
        × (lock.accepted ≡ true)
        × (result ≡ (if format.accepted then succeeded else failed))
        × (w'.issued ≡ unlock_volume ∷ reinitialize_media ∷ lock_volume ∷ before))
format_nvm_requests_example = format_nvm_requests (device (answers controller) []) world

run_self_test_guarded_example :
    let p : Platform = device (answers controller) ((b'1' ∷ []) ∷ (b'y' ∷ []) ∷ []) in
    let w : World = world in
    let log = log_request p.layout in
    let action = pos_part (scanned (p.scan_hex (p.line w.lines_read))) in
    let after = (run_self_test p w).1.issued in
    (after ≡ w.issued)
    ⊎ (after ≡ log ∷ w.issued)
    ⊎ ((action : ℕ) × (after ≡ self_test_request p.layout action ∷ log ∷ w.issued)
        × Allowed p w action)
run_self_test_guarded_example =
    run_self_test_guarded (device (answers controller) ((b'1' ∷ []) ∷ (b'y' ∷ []) ∷ [])) world

read_and_flush-SendsOnce_example :
    let p : Platform = device (answers controller) [] in
    let w : World = world in
    SendsOnce IsReadCommand read_sector p w × SendsOnce IsFlushCommand flush_cache p w
read_and_flush-SendsOnce_example = read_and_flush-SendsOnce (device (answers controller) []) world

write_sector-sends_example :
    let p : Platform = device (answers controller) [] in
    let w : World = world in
    let (d, w1) = query_device p w in
    let (result, w3) = write_sector p w in
    let (buffer, w2) = allocate_aligned sector_size d.alignment_mask p w1 in
    let sent = write_request (is_extended d) in
    ((d.status ≡ false) ⊎ (d.status ≡ true) × (is_extended d ≡ true) × (buffer ≡ 0))
      × (result ≡ pos 0)
      × (w3.issued ≡ w1.issued)
    ⊎ (d.status ≡ true)
      × ((is_extended d ≡ false) ⊎ (buffer ≢ 0))
      × IsWriteCommand (is_extended d) sent
      × (w3.issued ≡ sent ∷ w1.issued)
      × (result ≡ (if (p.respond w1.issued sent).accepted then succeeded else failed))
write_sector-sends_example = write_sector-sends (device (answers controller) []) world

security_receive_guarded_example :
    let p : Platform = device (answers controller) ((b'1' ∷ []) ∷ (b'y' ∷ []) ∷ []) in
    let w : World = world in
    let command = scanned (p.scan_hex (p.line w.lines_read)) in
    let confirmed = first_char (p.line (w.lines_read + 1)) ≡ b'y' in
    let asked : World = record w { lines_read = w.lines_read + 2 } in
    let (result, w') = security_receive p w in
    ((command ≡ pos 0) × confirmed × ((result, w') ≡ get_protocols p asked))
    ⊎ ((command ≡ pos 1)
        × confirmed
        × (w.supports_protocol 1 ≡ true)
        × ((result, w') ≡ get_discovery p asked))
    ⊎ ((result ≡ failed)
        × (w'.issued ≡ w.issued)
        × (w'.supports_protocol ≡ w.supports_protocol)
        × ¬ ((command ≡ pos 0) × confirmed)
        × ¬ ((command ≡ pos 1) × confirmed × (w.supports_protocol 1 ≡ true)))
security_receive_guarded_example =
    security_receive_guarded (device (answers controller) ((b'1' ∷ []) ∷ (b'y' ∷ []) ∷ [])) world
