-- ===== src/LogPages/Effects.antt =====
-- The report of the commands' effects, vPrintNVMeCSEData of src/NVMeCommandSupportedAndEffects.c: what
-- is printed of each entry, without the texts. Bit fields are filled from the lowest bit.
pub mod Names
pub mod Listed
use nvmetool_win.Base.{
  ℕ, zero, suc, ◌+◌, ◌*◌, ◌/◌, ◌%◌, ◌^◌, Bool, List, [], ◌∷◌, Option, none, some, ltb,
  if◌then◌else◌, drop,
}
use nvmetool_win.Controller.Fields.{bit, dword, flags}
use nvmetool_win.Controller.Version.{is_v14_or_later, is_v20_or_later}

-- What is printed of a supported command.
pub record Effects : Type 0 where
  pub opcode : ℕ
  pub scopes : List ℕ  -- the bits that are set, from NVMe 2.0 on
  pub uuid_selection : Option Bool  -- from NVMe 1.4 on
  pub execution : Option ℕ  -- CSE, where it is one of the three that are known
  pub changes : List (ℕ × Bool)

-- The bits of `ks` that are set.
abbrev pub set_bits : ℕ → List ℕ → List ℕ
set_bits v [] = []
set_bits v (k ∷ ks) = let rest = set_bits v ks in if bit v k then k ∷ rest else rest

unfoldable pub effects_at : List ℕ → ℕ → ℕ → Effects
unfolding is_v14_or_later is_v20_or_later
effects_at c v i =
    let execution = v / 2 ^ 16 % 8 in
    record {
      opcode = i;
      scopes = (if is_v20_or_later c then set_bits v (25 ∷ 24 ∷ 23 ∷ 22 ∷ 21 ∷ 20 ∷ []) else []);
      uuid_selection = (if is_v14_or_later c then some (bit v 19) else none);
      execution = (if ltb execution 3 then some execution else none);
      changes = flags (4 ∷ 3 ∷ 2 ∷ 1 ∷ []) v;
    }

-- The loop of vPrintNVMeCSEData over the entries, with so many rounds left.
unfoldable pub effects_from : List ℕ → List ℕ → ℕ → ℕ → List Effects
unfolding effects_at
effects_from c bytes zero i = []
effects_from c bytes (suc rounds) i =
    let rest = effects_from c bytes rounds (i + 1) in
    let v = dword bytes (4 * i) in if bit v 0 then effects_at c v i ∷ rest else rest

-- vPrintNVMeCSELog: the admin commands, then the NVM commands.
unfoldable pub effects : List ℕ → List ℕ → List Effects × List Effects
unfolding effects_from
effects c bytes = (effects_from c bytes 256 0, effects_from c (drop (4 * 256) bytes) 256 0)
