-- ===== src/Namespace/Structure.antt =====
-- MY_NVME_IDENTIFY_NAMESPACE_DATA of src/NVMeIdentifyNamespace.c as it is declared, where an LBA format
-- of nvme.h has such a size and alignment.
pub mod Readers
use nvmetool_win.Base.{ℕ, List, [], ◌∷◌, ◌++◌}
use nvmetool_win.Controller.Layout.{
  Since, always, since_13, since_14, since_20, Bits, bits, gap, Member, number, reserved, bit_field,
  records,
}

unfoldable pub namespace_structure : ℕ → ℕ → List Member
namespace_structure size align =
    number "NSZE" 8 1 always
    ∷ number "NCAP" 8 1 always
    ∷ number "NUSE" 8 1 always
    ∷ bit_field "NSFEAT" 1 always (
        bits "ThinProvisioning" 1 always
        ∷ bits "NameSpaceAtomicWriteUnit" 1 always
        ∷ bits "DeallocatedOrUnwrittenError" 1 always
        ∷ bits "SkipReuseUI" 1 always
        ∷ bits "OptPerf" 1 since_14
        ∷ gap 3
        ∷ [])
    ∷ number "NLBAF" 1 1 always
    ∷ bit_field "FLBAS" 1 always (
        bits "LbaFormatIndex" 4 always
        ∷ bits "MetadataInExtendedDataLBA" 1 always
        ∷ bits "NlbafMsb" 2 since_20
        ∷ gap 1
        ∷ [])
    ∷ bit_field "MC" 1 always (
        bits "MetadataInExtendedDataLBA" 1 always
        ∷ bits "MetadataInSeparateBuffer" 1 always
        ∷ gap 6
        ∷ [])
    ∷ bit_field "DPC" 1 always (
        bits "ProtectionInfoType1" 1 always
        ∷ bits "ProtectionInfoType2" 1 always
        ∷ bits "ProtectionInfoType3" 1 always
        ∷ bits "InfoAtBeginningOfMetadata" 1 always
        ∷ bits "InfoAtEndOfMetadata" 1 always
        ∷ gap 3
        ∷ [])
    ∷ bit_field "DPS" 1 always (
        bits "ProtectionInfoTypeEnabled" 3 always
        ∷ bits "InfoAtBeginningOfMetadata" 1 always
        ∷ gap 4
        ∷ [])
    ∷ bit_field "NMIC" 1 always (bits "SharedNameSpace" 1 always ∷ gap 7 ∷ [])
    ∷ bit_field "RESCAP" 1 always (
        bits "PersistThroughPowerLoss" 1 always
        ∷ bits "WriteExclusiveReservation" 1 always
        ∷ bits "ExclusiveAccessReservation" 1 always
        ∷ bits "WriteExclusiveRegistrantsOnlyReservation" 1 always
        ∷ bits "ExclusiveAccessRegistrantsOnlyReservation" 1 always
        ∷ bits "WriteExclusiveAllRegistrantsReservation" 1 always
        ∷ bits "ExclusiveAccessAllRegistrantsReservation" 1 always
        ∷ bits "IgnoreExistingKey" 1 always
        ∷ [])
    ∷ bit_field "FPI" 1 always (bits "PercentageRemained" 7 always ∷ bits "Supported" 1 always ∷ [])
    ∷ bit_field "DLFEAT" 1 always (
        bits "ReadBehavior" 3 always
        ∷ bits "DeallocateInWriteZero" 1 always
        ∷ bits "IsGuardFieldCRC" 1 always
        ∷ gap 3
        ∷ [])
    ∷ number "NAWUN" 2 1 always
    ∷ number "NAWUPF" 2 1 always
    ∷ number "NACWU" 2 1 always
    ∷ number "NABSN" 2 1 always
    ∷ number "NABO" 2 1 always
    ∷ number "NABSPF" 2 1 always
    ∷ number "NOIOB" 2 1 always
    ∷ number "NVMCAP" 8 2 always
    ∷ number "NPWG" 2 1 since_14
    ∷ number "NPWA" 2 1 since_14
    ∷ number "NPDG" 2 1 since_14
    ∷ number "NPDA" 2 1 since_14
    ∷ number "NOWS" 2 1 since_14
    ∷ number "MSSRL" 2 1 since_20
    ∷ number "MCL" 4 1 since_20
    ∷ number "MSRC" 1 1 since_20
    ∷ reserved 1 11
    ∷ number "ANAGRPID" 4 1 since_14
    ∷ reserved 1 3
    ∷ bit_field "NSATTR" 1 since_14 (bits "WriteProtect" 1 always ∷ gap 7 ∷ [])
    ∷ number "NVMSETID" 2 1 since_14
    ∷ number "ENDGID" 2 1 since_14
    ∷ number "NGUID" 1 16 always
    ∷ number "EUI64" 1 8 always
    ∷ records "LBAF" size align 16
    ∷ reserved 1 192
    ∷ number "VS" 1 3712 always
    ∷ []
