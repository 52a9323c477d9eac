-- ===== src/Smart/Structure/Readers.antt =====
-- The report of the SMART log and the declaration of its structure.
use Prim.Native.String.{String}
use mathlib.Core.Option
use nvmetool_win.Base.{
  ℕ, ◌/◌, ◌≡◌, refl, Bool, List, [], ◌∷◌, Option, some, map, if◌then◌else◌, arith,
}
use nvmetool_win.Controller.Layout.{has, placed, unit_of, fields_of, offset_of, declared_flags}
use nvmetool_win.Controller.Version.{is_v13_or_later, is_v14_or_later, is_v20_or_later}
use nvmetool_win.LogPages.Endurance.{halves}
use nvmetool_win.Smart.Report.{
  warnings, endurance_warnings, levels, counters, warning_times, sensor, sensors, transitions,
}
use nvmetool_win.Smart.Structure.{smart_structure}

module _ (c log : List ℕ) where
  abbrev pub number_of : String → Option ℕ
  number_of f = unit_of log f (placed 0 smart_structure)

  abbrev pub halves_of : String → Option (ℕ × ℕ)
  halves_of f = Option.map (halves log) (offset_of f (placed 0 smart_structure))

  abbrev pub flags_of : String → List (ℕ × Bool)
  flags_of f =
      declared_flags (has (is_v13_or_later c) (is_v14_or_later c) (is_v20_or_later c)) log f
        (placed 0 smart_structure)

  warnings_declared : warnings c log ≡ flags_of "CriticalWarning"
  unfolding warnings placed unit_of fields_of smart_structure
  warnings_declared = ground arith

  endurance_declared :
      endurance_warnings c log
      ≡ (if is_v14_or_later c then flags_of "EnduranceGroupSummary" else [])
  unfolding endurance_warnings placed unit_of fields_of smart_structure
  endurance_declared = ground arith

  levels_declared :
      (number_of "AvailableSpare" ≡ some (levels log).0)
      × (number_of "AvailableSpareThreshold" ≡ some (levels log).1)
      × (number_of "PercentageUsed" ≡ some (levels log).2)
  unfolding levels placed unit_of smart_structure
  levels_declared = (refl, refl, refl)

  counters_declared :
      map halves_of (
        "DataUnitRead" ∷ "DataUnitWritten" ∷ "HostReadCommands" ∷ "HostWrittenCommands"
        ∷ "ControllerBusyTime" ∷ "PowerCycle" ∷ "PowerOnHours" ∷ "UnsafeShutdowns" ∷ "MediaErrors"
        ∷ "ErrorInfoLogEntryNum" ∷ [])
      ≡ map some (counters log)
  unfolding counters placed offset_of smart_structure
  counters_declared = refl

  sensors_declared :
      map
        (λ f. Option.map sensor (number_of f))
        ("TemperatureSensor1" ∷ "TemperatureSensor2" ∷ "TemperatureSensor3" ∷ "TemperatureSensor4"
          ∷ "TemperatureSensor5" ∷ "TemperatureSensor6" ∷ "TemperatureSensor7"
          ∷ "TemperatureSensor8" ∷ [])
      ≡ map some (sensors log)
  unfolding sensors placed unit_of smart_structure
  sensors_declared = refl

  times_declared :
      (map (λ f. Option.map (λ n. (n, n / 60)) (number_of f)) ("WCTempTime" ∷ "CCTempTime" ∷ [])
        ≡ map some (warning_times log))
      × (map number_of
            ("TMT1TransitionCount" ∷ "TMT2TransitionCount" ∷ "TMT1TotalTime" ∷ "TMT2TotalTime" ∷ [])
          ≡ map some (transitions log))
  unfolding warning_times transitions placed unit_of smart_structure
  times_declared = (refl, refl)

  -- Whatever the page holds, the report of the SMART log shows the bits, the levels, the counters with
  -- both halves, the times and the sensors of the members that have these names in the declaration of
  -- the structure, laid out by the rules of C, and of the bits those that the revision has.
  pub smart_declared :
      (warnings c log ≡ flags_of "CriticalWarning")
      × (endurance_warnings c log
          ≡ (if is_v14_or_later c then flags_of "EnduranceGroupSummary" else []))
      × ((number_of "AvailableSpare" ≡ some (levels log).0)
          × (number_of "AvailableSpareThreshold" ≡ some (levels log).1)
          × (number_of "PercentageUsed" ≡ some (levels log).2))
      × (map halves_of (
            "DataUnitRead" ∷ "DataUnitWritten" ∷ "HostReadCommands" ∷ "HostWrittenCommands"
            ∷ "ControllerBusyTime" ∷ "PowerCycle" ∷ "PowerOnHours" ∷ "UnsafeShutdowns"
            ∷ "MediaErrors" ∷ "ErrorInfoLogEntryNum" ∷ [])
          ≡ map some (counters log))
      × (map
            (λ f. Option.map sensor (number_of f))
            ("TemperatureSensor1" ∷ "TemperatureSensor2" ∷ "TemperatureSensor3"
              ∷ "TemperatureSensor4" ∷ "TemperatureSensor5" ∷ "TemperatureSensor6"
              ∷ "TemperatureSensor7" ∷ "TemperatureSensor8" ∷ [])
          ≡ map some (sensors log))
      × ((map (λ f. Option.map (λ n. (n, n / 60)) (number_of f)) ("WCTempTime" ∷ "CCTempTime" ∷ [])
            ≡ map some (warning_times log))
          × (map number_of (
                "TMT1TransitionCount" ∷ "TMT2TransitionCount" ∷ "TMT1TotalTime" ∷ "TMT2TotalTime"
                ∷ [])
              ≡ map some (transitions log)))
  smart_declared = (
    warnings_declared, endurance_declared, levels_declared, counters_declared, sensors_declared,
    times_declared,
  )
