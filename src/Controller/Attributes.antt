-- ===== src/Controller/Attributes.antt =====
-- The first 512 bytes of MY_NVME_IDENTIFY_CONTROLLER_DATA of src/NVMeIdentifyController.h as declared:
-- the general capabilities and the admin command set. The two halves of 16 bytes are one member.
use nvmetool_win.Base.{List, [], ◌∷◌}
use nvmetool_win.Controller.Layout.{
  always, since_13, since_14, since_20, bits, gap, Member, number, reserved, bit_field,
}

-- Bytes 0 to 255: the capabilities and features of the controller.
unfoldable pub general_attributes : List Member
general_attributes =
    number "VID" 2 1 always
    ∷ number "SSVID" 2 1 always
    ∷ number "SN" 1 20 always
    ∷ number "MN" 1 40 always
    ∷ number "FR" 1 8 always
    ∷ number "RAB" 1 1 always
    ∷ number "IEEE" 1 3 always
    ∷ bit_field "CMIC" 1 always (
        bits "MultiPCIePorts" 1 always
        ∷ bits "MultiControllers" 1 always
        ∷ bits "SRIOV" 1 always
        ∷ bits "ANAReport" 1 since_14
        ∷ gap 4
        ∷ [])
    ∷ number "MDTS" 1 1 always
    ∷ number "CNTLID" 2 1 always
    ∷ number "VER" 4 1 always
    ∷ number "RTD3R" 4 1 always
    ∷ number "RTD3E" 4 1 always
    ∷ bit_field "OAES" 4 always (
        gap 8
        ∷ bits "NamespaceAttributeChanged" 1 always
        ∷ bits "FirmwareActivation" 1 always
        ∷ gap 1
        ∷ bits "ANAChange" 1 since_14
        ∷ bits "PredictableLatencyEventAggregateLogChange" 1 since_14
        ∷ bits "LBAStatusInfo" 1 since_14
        ∷ bits "EnduranceGroupEventAggregateLogChange" 1 since_14
        ∷ bits "NVMSubsystemShutdown" 1 since_20
        ∷ gap 11
        ∷ bits "ZoneDesciptorChanged" 1 since_20
        ∷ gap 3
        ∷ bits "DiscoveryLogChanged" 1 since_20
        ∷ [])
    ∷ bit_field "CTRATT" 4 always (
        bits "HostIdEn" 1 always
        ∷ bits "NoopPSPermissiveModeEn" 1 since_13
        ∷ bits "NVMSet" 1 since_14
        ∷ bits "ReadRecoveryLevel" 1 since_14
        ∷ bits "EnduranceGroups" 1 since_14
        ∷ bits "PredictableLatencyMode" 1 since_14
        ∷ bits "TrafficBasedKeepAlive" 1 since_14
        ∷ bits "NamespaceGranularity" 1 since_14
        ∷ bits "SQAssociation" 1 since_14
        ∷ bits "UUIDList" 1 since_14
        ∷ bits "MDS" 1 since_20
        ∷ bits "FixedCapMgmt" 1 since_20
        ∷ bits "VariableCapMgmt" 1 since_20
        ∷ bits "DelEndGrp" 1 since_20
        ∷ bits "DelNVMSet" 1 since_20
        ∷ bits "ExtLBAFmt" 1 since_20
        ∷ gap 16
        ∷ [])
    ∷ number "RRLS" 2 1 since_14
    ∷ reserved 1 9
    ∷ number "CNTRLTYPE" 1 1 since_14
    ∷ number "FGUID" 1 16 since_13
    ∷ number "CRDT1" 2 1 since_14
    ∷ number "CRDT2" 2 1 since_14
    ∷ number "CRDT3" 2 1 since_14
    ∷ reserved 1 106
    ∷ reserved 1 13
    ∷ bit_field "NVMSR" 1 since_20 (bits "NVMESD" 1 always ∷ bits "NVMEE" 1 always ∷ gap 6 ∷ [])
    ∷ bit_field "VWCI" 1 since_20 (bits "VMCR" 7 always ∷ bits "VMCRV" 1 always ∷ [])
    ∷ bit_field "MEC" 1 since_20 (bits "SMBUSME" 1 always ∷ bits "PCIEME" 1 always ∷ gap 6 ∷ [])
    ∷ []

-- Bytes 256 to 511: the admin command set.
unfoldable pub admin_attributes : List Member
admin_attributes =
    bit_field "OACS" 2 always (
      bits "SecurityCommands" 1 always
      ∷ bits "FormatNVM" 1 always
      ∷ bits "FirmwareCommands" 1 always
      ∷ bits "NamespaceCommands" 1 always
      ∷ bits "DeviceSelfTest" 1 since_13
      ∷ bits "Directives" 1 since_13
      ∷ bits "NVMeMICommands" 1 since_13
      ∷ bits "VirtMgmtCommands" 1 since_13
      ∷ bits "DBConfigCommand" 1 since_13
      ∷ bits "GetLBAStatusCommand" 1 since_14
      ∷ bits "Lockdown" 1 since_20
      ∷ gap 5
      ∷ [])
    ∷ number "ACL" 1 1 always
    ∷ number "AERL" 1 1 always
    ∷ bit_field "FRMW" 1 always (
        bits "Slot1ReadOnly" 1 always
        ∷ bits "SlotCount" 3 always
        ∷ bits "ActivationWithoutReset" 1 always
        ∷ bits "MultipleUpdateDetect" 1 since_20
        ∷ gap 2
        ∷ [])
    ∷ bit_field "LPA" 1 always (
        bits "SmartPagePerNamespace" 1 always
        ∷ bits "CommandEffectsLog" 1 always
        ∷ bits "LogPageExtendedData" 1 always
        ∷ bits "TelemetrySupport" 1 since_13
        ∷ bits "PersistentEventLog" 1 since_14
        ∷ bits "CommandScope" 1 since_20
        ∷ bits "TelemetryArea4" 1 since_20
        ∷ gap 1
        ∷ [])
    ∷ number "ELPE" 1 1 always
    ∷ number "NPSS" 1 1 always
    ∷ bit_field "AVSCC" 1 always (bits "CommandFormatInSpec" 1 always ∷ gap 7 ∷ [])
    ∷ bit_field "APSTA" 1 always (bits "Supported" 1 always ∷ gap 7 ∷ [])
    ∷ number "WCTEMP" 2 1 always
    ∷ number "CCTEMP" 2 1 always
    ∷ number "MTFA" 2 1 always
    ∷ number "HMPRE" 4 1 always
    ∷ number "HMMIN" 4 1 always
    ∷ number "TNVMCAP" 8 2 always
    ∷ number "UNVMCAP" 8 2 always
    ∷ bit_field "RPMBS" 4 always (
        bits "RPMBUnitCount" 3 always
        ∷ bits "AuthenticationMethod" 3 always
        ∷ gap 10
        ∷ bits "TotalSize" 8 always
        ∷ bits "AccessSize" 8 always
        ∷ [])
    ∷ number "EDSTT" 2 1 since_13
    ∷ number "DSTO" 1 1 since_13
    ∷ number "FWUG" 1 1 since_13
    ∷ number "KAS" 2 1 always
    ∷ bit_field "HCTMA" 2 since_13 (bits "Supported" 1 always ∷ gap 15 ∷ [])
    ∷ number "MNTMT" 2 1 since_13
    ∷ number "MXTMT" 2 1 since_13
    ∷ bit_field "SANICAP" 4 since_13 (
        bits "CryptoErase" 1 always
        ∷ bits "BlockErase" 1 always
        ∷ bits "Overwrite" 1 always
        ∷ gap 26
        ∷ bits "NoDeallocateInhibited" 1 since_14
        ∷ bits "NODMMAS" 2 since_14
        ∷ [])
    ∷ number "HMMINDS" 4 1 since_14
    ∷ number "HMMAXD" 2 1 since_14
    ∷ number "NSETIDMAX" 2 1 since_14
    ∷ number "ENDGIDMAX" 2 1 since_14
    ∷ number "ANATT" 1 1 since_14
    ∷ bit_field "ANACAP" 1 since_14 (
        bits "ReportOptimizedState" 1 always
        ∷ bits "ReportNonOptimizedState" 1 always
        ∷ bits "ReportInaccessibleState" 1 always
        ∷ bits "ReportPersistentLossState" 1 always
        ∷ bits "ReportChangeState" 1 always
        ∷ gap 1
        ∷ bits "NoGRPIDChangeDuringAttached" 1 always
        ∷ bits "NonZeroGRPIDSupport" 1 always
        ∷ [])
    ∷ number "ANAGRPMAX" 4 1 since_14
    ∷ number "NANAGRPID" 4 1 since_14
    ∷ number "PELS" 4 1 since_14
    ∷ number "DomainId" 2 1 since_20
    ∷ reserved 1 10
    ∷ number "MEGCAP" 8 2 since_20
    ∷ reserved 1 128
    ∷ []
