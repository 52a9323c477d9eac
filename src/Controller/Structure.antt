-- ===== src/Controller/Structure.antt =====
-- MY_NVME_IDENTIFY_CONTROLLER_DATA of src/NVMeIdentifyController.h as it is declared, with the marks of
-- its comments for the revision that brought a member. The two halves of 16 bytes are one member.
pub mod Readers
use nvmetool_win.Base.{ℕ, List, [], ◌∷◌, ◌++◌}
use nvmetool_win.Controller.Layout.{
  Since, always, since_13, since_14, since_20, Bits, bits, gap, Member, number, reserved, bit_field,
  records, placed,
}
use nvmetool_win.Controller.Attributes.{general_attributes, admin_attributes}

-- Bytes 512 to 563: the NVM command set.
unfoldable pub nvm_attributes : List Member
nvm_attributes =
    bit_field "SQES" 1 always
      (bits "RequiredEntrySize" 4 always ∷ bits "MaxEntrySize" 4 always ∷ [])
    ∷ bit_field "CQES" 1 always
        (bits "RequiredEntrySize" 4 always ∷ bits "MaxEntrySize" 4 always ∷ [])
    ∷ number "MAXCMD" 2 1 always
    ∷ number "NN" 4 1 always
    ∷ bit_field "ONCS" 2 always (
        bits "Compare" 1 always
        ∷ bits "WriteUncorrectable" 1 always
        ∷ bits "DatasetManagement" 1 always
        ∷ bits "WriteZeroes" 1 always
        ∷ bits "FeatureField" 1 always
        ∷ bits "Reservations" 1 always
        ∷ bits "Timestamp" 1 since_13
        ∷ bits "Verify" 1 since_14
        ∷ bits "Copy" 1 since_20
        ∷ gap 7
        ∷ [])
    ∷ bit_field "FUSES" 2 always (bits "CompareAndWrite" 1 always ∷ gap 15 ∷ [])
    ∷ bit_field "FNA" 1 always (
        bits "FormatApplyToAll" 1 always
        ∷ bits "SecureEraseApplyToAll" 1 always
        ∷ bits "CryptographicEraseSupported" 1 always
        ∷ bits "NotAcceptNAIDIsAllF" 1 since_20
        ∷ gap 4
        ∷ [])
    ∷ bit_field "VWC" 1 always
        (bits "Present" 1 always ∷ bits "FlushBehavior" 2 since_14 ∷ gap 5 ∷ [])
    ∷ number "AWUN" 2 1 always
    ∷ number "AWUPF" 2 1 always
    ∷ bit_field "ICSVSCC" 1 always (bits "CommandFormatInSpec" 1 always ∷ gap 7 ∷ [])
    ∷ bit_field "NWPC" 1 since_14 (
        bits "NoWriteProtectSupport" 1 always
        ∷ bits "WriteProtectUntilPowerCycleSupport" 1 always
        ∷ bits "PermanentWriteProtectSupport" 1 always
        ∷ gap 5
        ∷ [])
    ∷ number "ACWU" 2 1 always
    ∷ bit_field "OCFS" 2 since_20 (bits "FormatZeroSupp" 1 always ∷ gap 15 ∷ [])
    ∷ bit_field "SGLS" 4 always (
        bits "SGLSupported" 2 since_13
        ∷ bits "KeyedDBDescSupported" 1 always
        ∷ gap 5
        ∷ bits "SDT" 8 since_20
        ∷ bits "BitBucketDescrSupported" 1 always
        ∷ bits "ByteAlignedContiguousPhysicalBuffer" 1 always
        ∷ bits "SGLLengthLargerThanDataLength" 1 always
        ∷ bits "MPTRContainingSGLDescSupported" 1 always
        ∷ bits "OffsetByAddrFieldSupported" 1 always
        ∷ bits "TransactionalSGLDataBlockDescSupported" 1 since_14
        ∷ gap 10
        ∷ [])
    ∷ number "MNAN" 4 1 since_14
    ∷ number "MAXDNA" 8 2 since_20
    ∷ number "MAXCNA" 4 1 since_20
    ∷ []

-- Bytes 564 to 4095: the name of the subsystem, the attributes of fabrics, the power states,
-- whose structure is declared by nvme.h, and the bytes of the vendor.
unfoldable pub fabrics_attributes : ℕ → ℕ → List Member
fabrics_attributes size align =
    reserved 1 204
    ∷ number "SUBNQN" 1 256 always
    ∷ reserved 1 768
    ∷ number "IOCCSZ" 4 1 since_20
    ∷ number "IORCSZ" 4 1 since_20
    ∷ number "ICDOFF" 2 1 since_20
    ∷ bit_field "FCATT" 1 since_20 (bits "StaticCtrlModel" 1 always ∷ gap 7 ∷ [])
    ∷ number "MSDBD" 1 1 since_20
    ∷ bit_field "OFCS" 2 since_20 (bits "DisconnectSupp" 1 always ∷ gap 15 ∷ [])
    ∷ reserved 1 242
    ∷ records "PDS" size align 32
    ∷ number "VS" 1 1024 always
    ∷ []

-- The members in their order, where a power state descriptor has such a size and alignment.
unfoldable pub structure : ℕ → ℕ → List Member
unfolding general_attributes admin_attributes nvm_attributes fabrics_attributes
structure size align =
    general_attributes ++ (admin_attributes ++ (nvm_attributes ++ fabrics_attributes size align))
