-- ===== src/Scsi/Transfer/Plain.antt =====
-- The requests of read, write and flush, of src/NVMeSCSIPassThrough.c, are plain.
use nvmetool_win.Base.{ℕ, Bool, true, false, refl, inl, inr}
use nvmetool_win.Program.Requests.{IsPlain}
use nvmetool_win.Program.Rules.{Sends-issue}
use nvmetool_win.Program.Keeps.{Sends, sends_rules}
use nvmetool_win.Platform.{Request}
use nvmetool_win.Scsi.Properties.{query_device}
use nvmetool_win.Scsi.Properties.Laws.{Sends-query_device}
use nvmetool_win.Scsi.Transfer.{
  allocate_aligned, send_scsi, write_request, read_request, flush_request, write_sector,
  read_sector, flush_cache,
}

Sends-query : Sends IsPlain query_device
Sends-query = Sends-query_device (λ property n. tt)

Sends-allocate_aligned : (n mask : ℕ) → Sends IsPlain (allocate_aligned n mask)
unfolding allocate_aligned
Sends-allocate_aligned n mask = search sends_rules depth 8

Sends-send_scsi : (q : Request) → IsPlain q → Sends IsPlain (send_scsi q)
unfolding send_scsi
Sends-send_scsi q fits = search (sends_rules, Sends-issue)

Sends-write : (b : Bool) → Sends IsPlain (send_scsi (write_request b))
Sends-write b =
    Sends-send_scsi (write_request b)
      (inr (inr (inl (refl, (refl, (refl, refl, refl, refl, refl, refl, refl)), refl))))

Sends-read : (b : Bool) → Sends IsPlain (send_scsi (read_request b))
Sends-read b =
    Sends-send_scsi (read_request b)
      (inr (inl (refl, (refl, (refl, refl, refl, refl, refl, refl, refl)), refl)))

flush_request-IsPlain : (garbage : ℕ) (b : Bool) → IsPlain (flush_request garbage b)
unfolding flush_request
flush_request-IsPlain garbage true =
    inr (inr (inr (refl, inl (refl, (refl, refl, refl, refl, refl, refl, refl)), refl)))
flush_request-IsPlain garbage false = inr (inr (inr (refl, inr refl, refl)))

Sends-flush : (garbage : ℕ) (b : Bool) → Sends IsPlain (send_scsi (flush_request garbage b))
Sends-flush garbage b = Sends-send_scsi (flush_request garbage b) (flush_request-IsPlain garbage b)

pub Sends-write_sector : Sends IsPlain write_sector
unfolding write_sector
Sends-write_sector = search (sends_rules, Sends-query, Sends-allocate_aligned, Sends-write) depth 12

pub Sends-read_sector : Sends IsPlain read_sector
unfolding read_sector
Sends-read_sector = search (sends_rules, Sends-query, Sends-read) depth 12

pub Sends-flush_cache : Sends IsPlain flush_cache
unfolding flush_cache
Sends-flush_cache = search (sends_rules, Sends-query, Sends-flush) depth 12
