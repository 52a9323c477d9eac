-- ===== src/Scsi/Adapter.antt =====
-- What src/NVMeSCSIPassThrough.c prints of the descriptors of the adapter and of the device, of the
-- status and the sense bytes of a command, and of the stored list of security protocols.
pub mod Bounds
use Prim.Native.String.{String}
use nvmetool_win.Base.{
  ℕ, zero, suc, ◌+◌, ◌-◌, ◌*◌, ◌%◌, ◌^◌, Bool, true, false, not, ◌&&◌, ◌||◌, List, [], ◌∷◌, Option,
  none, some, ◌==◌, ltb, leb, get_or, take, drop, if◌then◌else◌,
}
use nvmetool_win.Console.Printing.{until_nul}

-- BusTypeStrings
abbrev pub bus_types : List String
bus_types =
    "Unknown" ∷ "Scsi" ∷ "Atapi" ∷ "Ata" ∷ "1394" ∷ "Ssa" ∷ "Fibre" ∷ "Usb" ∷ "RAID" ∷ "Not Defined"
    ∷ []

unfoldable pub bus_type : ℕ → String
bus_type t = if ltb t 10 then get_or bus_types t "" else get_or bus_types 9 ""

-- PAGE_SIZE
abbrev pub page_size : ℕ
page_size = 0x1000

-- `trueMaximumTransferLength` of PrintAdapterDescriptor: one page less than there are, in bytes of 32
-- bits, but no more than the maximum, and no less than a page.
unfoldable pub true_maximum_transfer : ℕ → ℕ → ℕ
true_maximum_transfer physical_pages maximum =
    let pages = if ltb 1 physical_pages then physical_pages - 1 else 1 in
    let length = pages * 2 ^ 12 % 2 ^ 32 in
    let bounded = if ltb maximum length then maximum else length in
    if ltb bounded page_size then page_size else bounded

-- A text of PrintDeviceDescriptor at an offset of 32 bits in the descriptor, which is empty where the
-- offset is 0 or -1.
unfoldable pub device_text : List ℕ → ℕ → List ℕ
device_text descriptor offset =
    if not (offset == 0) && not (offset == 2 ^ 32 - 1)
    then until_nul (drop offset descriptor)
    else []

-- What is printed after a command: nothing but the error of the call, the status with the sense bytes,
-- or the lengths with so many bytes of the data where they are printed.
pub data StatusReport : Type 0 where
  call_failed : StatusReport
  sense : ℕ → List ℕ → StatusReport
  completed : ℕ → List ℕ → Option (List ℕ) → StatusReport

-- PrintSenseInfo and PrintSenseInfoEx: no bytes where the length is 0.
unfoldable pub sense_bytes : ℕ → List ℕ → List ℕ
sense_bytes length buffer = if length == 0 then [] else take length buffer

-- PrintStatusResultsDIn and PrintStatusResultsExDIn, with the lengths that the layout has.
unfoldable pub status_results_in : Bool → ℕ → ℕ → List ℕ → ℕ → List ℕ → List ℕ → ℕ → StatusReport
unfolding sense_bytes
status_results_in failed status sense_length sense_buffer returned lengths bytes length =
    if failed
    then call_failed
    else if status == 0
    then completed returned lengths (some (take length bytes))
    else sense status (sense_bytes sense_length sense_buffer)

-- PrintStatusResultsDOut and PrintStatusResultsExDOut.
unfoldable pub status_results_out : Bool → ℕ → ℕ → List ℕ → ℕ → List ℕ → StatusReport
unfolding sense_bytes
status_results_out failed status sense_length sense_buffer returned lengths =
    if failed
    then call_failed
    else if status == 0
    then completed returned lengths none
    else sense status (sense_bytes sense_length sense_buffer)

-- The texts of svPrintSupportedSecurityProtocolList.
pub data ProtocolName : Type 0 where
  protocol_information computing_group cbcs tape_encryption encryption_configuration sa_creation
        ikev2 flash_storage sd_card ieee_1667 ata_password vendor_protocol unknown_protocol :
      ProtocolName

unfoldable pub protocol_name : ℕ → ProtocolName
protocol_name i =
    if i == 0
    then protocol_information
    else if leb 1 i && leb i 6
    then computing_group
    else if i == 7
    then cbcs
    else if i == 32
    then tape_encryption
    else if i == 33
    then encryption_configuration
    else if i == 64
    then sa_creation
    else if i == 65
    then ikev2
    else if i == 236
    then flash_storage
    else if i == 237
    then sd_card
    else if i == 238
    then ieee_1667
    else if i == 239
    then ata_password
    else if leb 240 i && leb i 255
    then vendor_protocol
    else unknown_protocol

-- Its loop over the marks, with so many rounds left.
unfoldable pub protocols_from : List ℕ → ℕ → ℕ → List (ℕ × ProtocolName)
unfolding protocol_name
protocols_from marks zero i = []
protocols_from marks (suc rounds) i =
    let rest = protocols_from marks rounds (i + 1) in
    if get_or marks i 0 == 1 then (i, protocol_name i) ∷ rest else rest

unfoldable pub protocols_printed : List ℕ → List (ℕ × ProtocolName)
unfolding protocols_from
protocols_printed marks = protocols_from marks 256 0
