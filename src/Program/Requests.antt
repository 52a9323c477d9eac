-- ===== src/Program/Requests.antt =====
-- The requests of src/, by what they do to the drive.
use nvmetool_win.Base.{ℕ, ◌≡◌, ◌⊎◌, inl, List, get_or, length, replicate}
use nvmetool_win.Platform.{
  Request, ScsiRequest, data_in, data_out, data_unspecified, query_property, set_property,
  query_descriptor, protocol_command, manage_data_set, scsi_pass_through, get_internal_log,
  feature_data, lock_volume, unlock_volume, reinitialize_media,
}

-- A request that only asks: a query of a property, a descriptor or the internal log, or a SECURITY
-- PROTOCOL IN (A2h) with data in.
abbrev pub IsReading : Request → Type 0
IsReading (query_property q) = Unit
IsReading (query_descriptor property n) = Unit
IsReading (get_internal_log n) = Unit
IsReading (scsi_pass_through q) = (q.direction ≡ data_in) × (get_or q.cdb 0 0 ≡ 0xa2)
IsReading other = ⊥

-- A CDB of 10 bytes that names one block, at LBA 0.
abbrev pub IsFirstBlock : List ℕ → Type 0
IsFirstBlock cdb =
    (length cdb ≡ 10)
    × (get_or cdb 2 0 ≡ 0)
    × (get_or cdb 3 0 ≡ 0)
    × (get_or cdb 4 0 ≡ 0)
    × (get_or cdb 5 0 ≡ 0)
    × (get_or cdb 7 0 ≡ 0)
    × (get_or cdb 8 0 ≡ 1)

-- A READ (28h), WRITE (2Ah) or SYNCHRONIZE CACHE (35h) of one block at LBA 0, by the operation code.
abbrev pub IsOnFirstBlock : ℕ → List ℕ → Type 0
IsOnFirstBlock operation cdb = (get_or cdb 0 0 ≡ operation) × IsFirstBlock cdb

-- A pass-through outside a format: SECURITY PROTOCOL IN, the read or the write of the first 512 bytes, and
-- without data the flush, which is SYNCHRONIZE CACHE or a CDB of ten zeros.
abbrev pub IsPlainScsi : ScsiRequest → Type 0
IsPlainScsi q =
    ((q.direction ≡ data_in) × (get_or q.cdb 0 0 ≡ 0xa2))
    ⊎ ((q.direction ≡ data_in) × IsOnFirstBlock 0x28 q.cdb × (q.transfer_length ≡ 512))
    ⊎ ((q.direction ≡ data_out) × IsOnFirstBlock 0x2a q.cdb × (q.transfer_length ≡ 512))
    ⊎ ((q.direction ≡ data_unspecified)
        × (IsOnFirstBlock 0x35 q.cdb ⊎ (q.cdb ≡ replicate 10 0))
        × (q.transfer_length ≡ 0))

-- A request outside a format: one that only asks, the setting of a feature, a self-test code, the
-- vendor command or a flush, and to the data of the drive no more than a read, a trim or a write of the
-- first 512 bytes.
abbrev pub IsPlain : Request → Type 0
IsPlain (query_property q) = Unit
IsPlain (query_descriptor property n) = Unit
IsPlain (get_internal_log n) = Unit
IsPlain (set_property q) = q.kind ≡ feature_data
IsPlain (protocol_command c) =
    (c.opcode ≡ 0x14) × ((c.cdw10 ≡ 0x1) ⊎ (c.cdw10 ≡ 0x2) ⊎ (c.cdw10 ≡ 0xf)) ⊎ (c.opcode ≡ 0xff)
IsPlain (manage_data_set r) = (r.starting_offset ≡ 0) × (r.length_in_bytes ≡ 512)
IsPlain (scsi_pass_through q) = IsPlainScsi q
IsPlain other = ⊥

pub IsReading-IsPlain : (q : Request) → IsReading q → IsPlain q
IsReading-IsPlain (query_property q) h = tt
IsReading-IsPlain (query_descriptor property n) h = tt
IsReading-IsPlain (get_internal_log n) h = tt
IsReading-IsPlain (scsi_pass_through q) h = inl h
IsReading-IsPlain (set_property q) h = elim h [ ]
IsReading-IsPlain (protocol_command c) h = elim h [ ]
IsReading-IsPlain (manage_data_set r) h = elim h [ ]
IsReading-IsPlain lock_volume h = elim h [ ]
IsReading-IsPlain unlock_volume h = elim h [ ]
IsReading-IsPlain reinitialize_media h = elim h [ ]
