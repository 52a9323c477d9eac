-- ===== src/Scsi/Transfer/Commands.antt =====
-- Which commands the three functions send, and what they return.
use nvmetool_win.Base.{
  inl, inr, replicate, ◌<◌, ◌%◌, refl, get_or, length, ℕ, ◌≢◌, ◌⊎◌, ◌≡◌, Bool, true, false, ◌∷◌, ℤ,
  pos, if◌then◌else◌, arith,
}
use nvmetool_win.Platform.{
  Platform, Request, data_in, data_out, data_unspecified, scsi_pass_through,
}
use nvmetool_win.Program.Requests.{IsOnFirstBlock}
use nvmetool_win.Program.{World, Prog}
use nvmetool_win.WinFunc.{failed, succeeded}
use nvmetool_win.Controller.Workaround.{codes}
use nvmetool_win.Scsi.Properties.{query_device}
use nvmetool_win.Scsi.Transfer.Sector.{fill_lem}
use nvmetool_win.Scsi.Transfer.{
  write_request, sector_size, allocate_aligned, write_sector, read_request, flush_request,
  is_extended, read_sector, flush_cache,
}

-- A READ (28h) of the block at LBA 0, with its 512 bytes, in such a layout.
abbrev pub IsReadCommand : Bool → Request → Type 0
IsReadCommand extended (scsi_pass_through q) =
    (q.extended ≡ extended)
    × (q.direction ≡ data_in)
    × IsOnFirstBlock 0x28 q.cdb
    × (q.transfer_length ≡ 512)
IsReadCommand extended other = ⊥

-- A WRITE (2Ah) of the block at LBA 0, with 512 bytes that repeat DEADBEEF.
abbrev pub IsWriteCommand : Bool → Request → Type 0
IsWriteCommand extended (scsi_pass_through q) =
    (q.extended ≡ extended)
    × (q.direction ≡ data_out)
    × IsOnFirstBlock 0x2a q.cdb
    × (q.transfer_length ≡ 512)
    × (length q.payload ≡ 512)
    × ((i : ℕ) → i < 512 → get_or q.payload i 0 ≡ get_or (codes "DEADBEEF") (i % 8) 0)
IsWriteCommand extended other = ⊥

-- Without data: in the extended layout a SYNCHRONIZE CACHE (35h) of the block at LBA 0 with SYNC_NV and
-- IMMED, in the plain one a CDB of ten zeros.
abbrev pub IsFlushCommand : Bool → Request → Type 0
IsFlushCommand extended (scsi_pass_through q) =
    (q.extended ≡ extended)
    × (q.direction ≡ data_unspecified)
    × (q.transfer_length ≡ 0)
    × (((extended ≡ true) × IsOnFirstBlock 0x35 q.cdb × (get_or q.cdb 1 0 ≡ 0x6))
        ⊎ ((extended ≡ false) × (q.cdb ≡ replicate 10 0)))
IsFlushCommand extended other = ⊥

-- A function that queries the device, returns 0 and sends nothing more where that yields no properties,
-- and otherwise sends one request of such a kind in the layout of the adapter, whose acceptance it
-- returns.
abbrev pub SendsOnce : (Bool → Request → Type 0) → Prog ℤ → Platform → World → Type 0
SendsOnce IsKind m p w =
    let (d, w1) = query_device p w in
    let (result, w2) = m p w in
    ((d.status ≡ false) × (result ≡ pos 0) × (w2.issued ≡ w1.issued))
    ⊎ ((d.status ≡ true)
        × ((sent : Request) × IsKind (is_extended d) sent
            × (w2.issued ≡ sent ∷ w1.issued)
            × (result ≡ (if (p.respond w1.issued sent).accepted then succeeded else failed))))

-- The same, with the request.
abbrev SendsThis : (Bool → Request) → Prog ℤ → Platform → World → Type 0
SendsThis q m p w =
    let (d, w1) = query_device p w in
    let (result, w2) = m p w in
    let sent = q (is_extended d) in
    ((d.status ≡ false) × (result ≡ pos 0) × (w2.issued ≡ w1.issued))
    ⊎ ((d.status ≡ true)
        × (w2.issued ≡ sent ∷ w1.issued)
        × (result ≡ (if (p.respond w1.issued sent).accepted then succeeded else failed)))

this-SendsOnce :
    (IsKind : Bool → Request → Type 0) (q : Bool → Request) (m : Prog ℤ) (p : Platform) (w : World)
    → ((b : Bool) → IsKind b (q b))
    → SendsThis q m p w
    → SendsOnce IsKind m p w
this-SendsOnce IsKind q m p w kind (inl missing) = inl missing
this-SendsOnce IsKind q m p w kind (inr (there, same, result)) =
    let (d, w1) = query_device p w in
    inr (there, (q (is_extended d), kind (is_extended d), same, result))

read_request-IsReadCommand : (b : Bool) → IsReadCommand b (read_request b)
read_request-IsReadCommand b =
    (refl, refl, (refl, (refl, refl, refl, refl, refl, refl, refl)), refl)

flush_request-IsFlushCommand : (garbage : ℕ) (b : Bool) → IsFlushCommand b (flush_request garbage b)
unfolding flush_request
flush_request-IsFlushCommand garbage true =
    (refl, refl, refl, inl (refl, (refl, (refl, refl, refl, refl, refl, refl, refl)), refl))
flush_request-IsFlushCommand garbage false = (refl, refl, refl, inr (refl, refl))

read_sector-SendsThis : (p : Platform) (w : World) → SendsThis read_request read_sector p w
unfolding read_sector
read_sector-SendsThis p w = ground arith

flush_cache-SendsThis :
    (p : Platform) (w : World)
    → let garbage = p.uninitialised (length w.issued) in
      SendsThis (flush_request garbage) flush_cache p w
unfolding flush_cache
flush_cache-SendsThis p w = ground arith

-- Read and flush each return 0 and send nothing more where the query yields no properties; otherwise
-- each sends one command in the layout of the adapter and returns whether it was accepted: a READ of the
-- block at LBA 0, and, without data, a SYNCHRONIZE CACHE of that block with SYNC_NV and IMMED in the
-- extended layout and a CDB of ten zeros in the plain one.
pub read_and_flush-SendsOnce :
    (p : Platform) (w : World)
    → SendsOnce IsReadCommand read_sector p w × SendsOnce IsFlushCommand flush_cache p w
read_and_flush-SendsOnce p w =
    let garbage = p.uninitialised (length w.issued) in
    (
      this-SendsOnce IsReadCommand read_request read_sector p w read_request-IsReadCommand
          (read_sector-SendsThis p w),
      this-SendsOnce IsFlushCommand (flush_request garbage) flush_cache p w
          (flush_request-IsFlushCommand garbage) (flush_cache-SendsThis p w),
    )

write_request-IsWriteCommand : (b : Bool) → IsWriteCommand b (write_request b)
write_request-IsWriteCommand b = (
  refl,
  refl,
  (refl, (refl, refl, refl, refl, refl, refl, refl)),
  refl,
  (fill_lem 64 0 (omega arith)).0,
  λ i lt. (fill_lem 64 i lt).1,
)

write_sector_cases :
    (p : Platform) (w : World)
    → let (d, w1) = query_device p w in
      let (result, w3) = write_sector p w in
      let (buffer, w2) = allocate_aligned sector_size d.alignment_mask p w1 in
      let sent = write_request (is_extended d) in
      ((d.status ≡ false) ⊎ (d.status ≡ true) × (is_extended d ≡ true) × (buffer ≡ 0))
        × (result ≡ pos 0)
        × (w3.issued ≡ w1.issued)
      ⊎ (d.status ≡ true)
        × ((is_extended d ≡ false) ⊎ (buffer ≢ 0))
        × (w3.issued ≡ sent ∷ w1.issued)
        × (result ≡ (if (p.respond w1.issued sent).accepted then succeeded else failed))
unfolding write_sector
write_sector_cases p w = ground arith

-- The write returns 0 and sends nothing where the query yields no properties, or where the aligned
-- buffer is missing in the extended layout; otherwise it sends one WRITE of the block at LBA 0, whose 512
-- bytes repeat DEADBEEF, in the layout of the adapter, and returns whether it was accepted.
pub write_sector-sends :
    (p : Platform) (w : World)
    → let (d, w1) = query_device p w in
      let (result, w3) = write_sector p w in
      let (buffer, w2) = allocate_aligned sector_size d.alignment_mask p w1 in
      let sent = write_request (is_extended d) in
      ((d.status ≡ false) ⊎ (d.status ≡ true) × (is_extended d ≡ true) × (buffer ≡ 0))
        × (result ≡ pos 0)
        × (w3.issued ≡ w1.issued)
      ⊎ (d.status ≡ true)
        × ((is_extended d ≡ false) ⊎ (buffer ≢ 0))
        × IsWriteCommand (is_extended d) sent
        × (w3.issued ≡ sent ∷ w1.issued)
        × (result ≡ (if (p.respond w1.issued sent).accepted then succeeded else failed))
write_sector-sends p w =
    let (d, w1) = query_device p w in
    elim (write_sector_cases p w) [
      | inl unsent ↦ inl unsent
      | inr (there, buffer, same, result) ↦
          inr (there, buffer, write_request-IsWriteCommand (is_extended d), same, result)
    ]
