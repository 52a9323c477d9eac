-- ===== src/Controller/Report/PowerStates.antt =====
-- The power states of the report, s_vPrintNVMeIdentifyControllerDataPSD and its loop of
-- src/NVMeIdentifyControllerData.c. The layout of a descriptor is that of nvme.h.
use nvmetool_win.Base.{
  ℕ, zero, suc, ◌+◌, ◌*◌, Bool, List, [], ◌∷◌, Option, none, some, ◌==◌, ltb, if◌then◌else◌,
}
use nvmetool_win.Controller.Fields.{byte, ver}
use nvmetool_win.Controller.Report.Values.{nonzero}

-- NVME_POWER_STATE_DESC
pub record PowerState : Type 0 where
  pub aps : ℕ
  pub apw : ℕ
  pub actp : ℕ
  pub ips : ℕ
  pub idlp : ℕ
  pub rwl : ℕ
  pub rwt : ℕ
  pub rrl : ℕ
  pub rrt : ℕ
  pub exlat : ℕ
  pub enlat : ℕ
  pub nops : ℕ
  pub mps : ℕ
  pub mp : ℕ

-- The coefficients 0.1 and 10.0 in tenths of a milliwatt, and 0.0 for all other scales.
abbrev pub coefficient : ℕ → ℕ
coefficient scale = if scale == 1 then 1 else if scale == 2 then 100 else 0

-- A power in tenths of a milliwatt, where it is reported.
abbrev pub power : ℕ → ℕ → Option ℕ
power p unit = if p == 0 then none else some (p * unit)

-- What is printed of a descriptor.
pub record PowerReport : Type 0 where
  pub active_power : Option ℕ
  pub workload : Option ℕ  -- where it is one of the three that are known
  pub idle_power : Option ℕ
  pub relative_values : List ℕ
  pub exit_latency : Option ℕ
  pub entry_latency : Option ℕ
  pub is_operational : Bool
  pub scale_is_mps : Bool  -- "MPS" before NVMe 1.3, and "MXPS" from then on
  pub maximum_power : Option ℕ

unfoldable pub power_report : ℕ → PowerState → PowerReport
power_report version d = record {
  active_power = power d.actp (coefficient d.aps);
  workload = (if ltb d.apw 3 then some d.apw else none);
  idle_power = power d.idlp (coefficient d.ips);
  relative_values = d.rwl ∷ d.rwt ∷ d.rrl ∷ d.rrt ∷ [];
  exit_latency = nonzero d.exlat;
  entry_latency = nonzero d.enlat;
  is_operational = d.nops == 0;
  scale_is_mps = ltb version 0x10300;
  maximum_power = power d.mp (if d.mps == 0 then 100 else 1);
}

-- The loop over the descriptors behind the first one.
unfoldable pub power_states_from : (ℕ → PowerState) → ℕ → ℕ → ℕ → List PowerReport
unfolding power_report
power_states_from descriptor version zero i = []
power_states_from descriptor version (suc rounds) i =
    power_report version (descriptor i) ∷ power_states_from descriptor version rounds (i + 1)

-- The first descriptor, and those from 1 to NPSS.
unfoldable pub power_states : (ℕ → PowerState) → List ℕ → List PowerReport
unfolding power_states_from ver
power_states descriptor c =
    power_report (ver c) (descriptor 0) ∷ power_states_from descriptor (ver c) (byte c 263) 1
