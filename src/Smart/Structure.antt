-- ===== src/Smart/Structure.antt =====
-- NVME_SMART_INFO_LOG of src/NVMeSMART.h as it is declared.
pub mod Readers
use nvmetool_win.Base.{ℕ, List, [], ◌∷◌, ◌++◌}
use nvmetool_win.Controller.Layout.{
  Since, always, since_13, since_14, since_20, Bits, bits, gap, Member, number, reserved, bit_field,
  records,
}

unfoldable pub smart_structure : List Member
smart_structure =
    bit_field "CriticalWarning" 1 always (
      bits "AvailableSpaceLow" 1 always
      ∷ bits "TemperatureThreshold" 1 always
      ∷ bits "ReliabilityDegraded" 1 always
      ∷ bits "ReadOnly" 1 always
      ∷ bits "VolatileMemoryBackupDeviceFailed" 1 always
      ∷ bits "PMRDegraded" 1 since_14
      ∷ gap 2
      ∷ [])
    ∷ number "Temperature" 1 2 always
    ∷ number "AvailableSpare" 1 1 always
    ∷ number "AvailableSpareThreshold" 1 1 always
    ∷ number "PercentageUsed" 1 1 always
    ∷ bit_field "EnduranceGroupSummary" 1 since_14 (
        bits "AvailableSpareLow" 1 always
        ∷ gap 1
        ∷ bits "ReliabilityDegraded" 1 always
        ∷ bits "ReadOnly" 1 always
        ∷ gap 4
        ∷ [])
    ∷ reserved 1 25
    ∷ number "DataUnitRead" 8 2 always
    ∷ number "DataUnitWritten" 8 2 always
    ∷ number "HostReadCommands" 8 2 always
    ∷ number "HostWrittenCommands" 8 2 always
    ∷ number "ControllerBusyTime" 8 2 always
    ∷ number "PowerCycle" 8 2 always
    ∷ number "PowerOnHours" 8 2 always
    ∷ number "UnsafeShutdowns" 8 2 always
    ∷ number "MediaErrors" 8 2 always
    ∷ number "ErrorInfoLogEntryNum" 8 2 always
    ∷ number "WCTempTime" 4 1 always
    ∷ number "CCTempTime" 4 1 always
    ∷ number "TemperatureSensor1" 2 1 always
    ∷ number "TemperatureSensor2" 2 1 always
    ∷ number "TemperatureSensor3" 2 1 always
    ∷ number "TemperatureSensor4" 2 1 always
    ∷ number "TemperatureSensor5" 2 1 always
    ∷ number "TemperatureSensor6" 2 1 always
    ∷ number "TemperatureSensor7" 2 1 always
    ∷ number "TemperatureSensor8" 2 1 always
    ∷ number "TMT1TransitionCount" 4 1 since_13
    ∷ number "TMT2TransitionCount" 4 1 since_13
    ∷ number "TMT1TotalTime" 4 1 since_13
    ∷ number "TMT2TotalTime" 4 1 since_13
    ∷ reserved 1 280
    ∷ []
