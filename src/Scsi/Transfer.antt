-- ===== src/Scsi/Transfer.antt =====
-- Read, write and flush by SCSI pass-through: src/NVMeSCSIPassThrough.c.
pub mod Sector
pub mod Commands
pub mod Plain
use Prim.Native.Nat.{bit_and}
use nvmetool_win.Base.{
  ℕ, zero, suc, ◌+◌, ◌-◌, ◌%◌, ◌^◌, ◌/◌, Bool, true, false, List, [], ◌∷◌, ◌++◌, ℤ, pos, not, ◌==◌,
  if◌then◌else◌, replicate, length, set_at,
}
use nvmetool_win.Platform.{
  Layout, Request, Direction, data_in, data_out, data_unspecified, scsi_pass_through,
}
use nvmetool_win.Program.{World, Prog, pure, reads, allocate, ◌>>=◌}
use nvmetool_win.WinFunc.{failed, succeeded, issue_device_io_control}
use nvmetool_win.Controller.Workaround.{codes}
use nvmetool_win.Scsi.Properties.{DeviceProperties, query_device}

-- A CDB of CDB10GENERIC_LENGTH bytes: the operation, one byte of flags, and one block at LBA 0.
abbrev pub cdb10 : ℕ → ℕ → List ℕ
cdb10 operation flags = operation ∷ flags ∷ 0 ∷ 0 ∷ 0 ∷ 0 ∷ 0 ∷ 0 ∷ 1 ∷ 0 ∷ []

-- The operation codes of the SCSI standard, SCSIOP_READ, SCSIOP_WRITE and SCSIOP_SYNCHRONIZE_CACHE.
abbrev scsi_read : ℕ
scsi_read = 0x28

abbrev scsi_write : ℕ
scsi_write = 0x2a

abbrev scsi_synchronize_cache : ℕ
scsi_synchronize_cache = 0x35

abbrev pub sector_size : ℕ
sector_size = 512

-- The loop that fills the sector, 8 bytes in each of its rounds.
unfoldable pub fill : ℕ → List ℕ
fill zero = []
fill (suc rounds) = codes "DEADBEEF" ++ fill rounds

abbrev pub sector : List ℕ
sector = fill (512 / 8)

-- `(ptr + mask) & ~mask` on 64 bits: the bits of the mask are taken out of the sum.
align_up : ℕ → ℕ → ℕ
align_up ptr mask = let sum = (ptr + mask) % 2 ^ 64 in sum - bit_and sum mask

-- `AllocateAlignedBuffer`: the aligned pointer, 0 for NULL, and the size that was asked of malloc.
unfoldable pub allocate_aligned : ℕ → ℕ → Prog ℕ
unfolding align_up ◌>>=◌
allocate_aligned size mask = if mask == 0 then allocate size else do
  total ← reads (λ p w. p.ulong_add size mask)
  ptr ← allocate total
  pure (align_up ptr mask)

abbrev pub write_request : Bool → Request
write_request extended = scsi_pass_through (record {
  extended = extended;
  direct = true;
  direction = data_out;
  cdb = cdb10 scsi_write 0;
  transfer_length = sector_size;
  timeout = 5;
  payload = sector;
})

abbrev pub read_request : Bool → Request
read_request extended = scsi_pass_through (record {
  extended = extended;
  direct = false;
  direction = data_in;
  cdb = cdb10 scsi_read 0;
  transfer_length = 512;
  timeout = (if extended then 2 else 5);
  payload = [];
})

-- The first bytes of the CDBs of `sptdwb` and `sptdwb_ex`, the two blocks of the flush.
abbrev FlushBlocks : Type 0
FlushBlocks = List ℕ × List ℕ

-- So many bytes of a number, the lowest first.
abbrev bytes_of : ℕ → ℕ → List ℕ
bytes_of zero n = []
bytes_of (suc count) n = n % 256 ∷ bytes_of count (n / 256)

-- What the blocks hold before they are written.
abbrev unwritten : ℕ → FlushBlocks
unwritten garbage = (bytes_of 10 garbage, bytes_of 10 (garbage / 2 ^ 80))

-- `ZeroMemory` of the block that is sent.
abbrev zero_block : Bool → FlushBlocks → FlushBlocks
zero_block extended (plain, ex) = if extended then (plain, replicate 10 0) else (replicate 10 0, ex)

-- The four assignments, which name `sptdwb_ex` in both branches.
unfoldable write_cdb : FlushBlocks → FlushBlocks
write_cdb (plain, ex) =
    (plain, set_at (set_at (set_at (set_at ex 0 scsi_synchronize_cache) 1 0x6) 5 0) 8 1)

-- The CDB that is sent, that of the block of the layout.
unfoldable pub flush_cdb : Bool → ℕ → List ℕ
unfolding write_cdb
flush_cdb extended garbage =
    let (plain, ex) = write_cdb (zero_block extended (unwritten garbage)) in
    if extended then ex else plain

unfoldable pub flush_request : ℕ → Bool → Request
unfolding flush_cdb
flush_request garbage extended = scsi_pass_through (record {
  extended = extended;
  direct = true;
  direction = data_unspecified;
  cdb = flush_cdb extended garbage;
  transfer_length = 0;
  timeout = 5;
  payload = [];
})

-- The call, whose result is returned; its SCSI status is only printed.
send_scsi : Request → Prog ℤ
send_scsi q = issue_device_io_control q >>= λ answer. pure answer.0

-- `return false;` where the properties are missing: the value is 0.
abbrev pub missing : ℤ
missing = pos 0

-- `if (srbType)`: whether the extended layout is used.
abbrev pub is_extended : DeviceProperties → Bool
is_extended d = not (d.srb_type == 0)

-- `iWriteViaSCSIPassThrough`
unfoldable pub write_sector : Prog ℤ
unfolding query_device allocate_aligned send_scsi ◌>>=◌
write_sector = do
  d ← query_device
  if not d.status
      then pure missing
      else if is_extended d
      then (do
        buffer ← allocate_aligned sector_size d.alignment_mask
        if buffer == 0 then pure missing else send_scsi (write_request true))
      else send_scsi (write_request false)

-- `iReadViaSCSIPassThrough`
unfoldable pub read_sector : Prog ℤ
unfolding query_device send_scsi ◌>>=◌
read_sector = do
  d ← query_device
  if not d.status then pure missing else send_scsi (read_request (is_extended d))

-- `iFlushViaSCSIPassThrough`
unfoldable pub flush_cache : Prog ℤ
unfolding query_device send_scsi flush_request ◌>>=◌
flush_cache = do
  garbage ← reads (λ p w. p.uninitialised (length w.issued))
  d ← query_device
  if not d.status then pure missing else send_scsi (flush_request garbage (is_extended d))
