-- ===== src/Tool/Keeping.antt =====
-- What the loop of src/NVMeTool.c does to g_stNamespaceData.
use nvmetool_win.Base.{ℕ, ◌≡◌, ◌∙◌, true, ℤ, List, inl, inr, refl, arith}
use nvmetool_win.Platform.{Platform}
use nvmetool_win.Program.{World, Prog}
use nvmetool_win.Program.Keeps.{KeepsNamespace, Sends}
use nvmetool_win.Program.Requests.{IsPlain}
use nvmetool_win.Console.{MajorCommand, get_command_from_console}
use nvmetool_win.Console.Lines.{Sends-get_command_from_console}
use nvmetool_win.Format
use nvmetool_win.Tool.{dispatch, run_loop}
use nvmetool_win.Tool.Invariants.{Stays, run_loop-Stays}
use nvmetool_win.Tool.Rules.{Sends-dispatch}

-- The data of a namespace are known, and are these.
abbrev HoldsNamespace : List ℕ → World → Type 0
HoldsNamespace bytes w = (w.namespace_known ≡ true) × (w.namespace_data ≡ bytes)

module _ (p : Platform) (bytes : List ℕ) where
  Keeps-Stays {ℓ} :
      {A : Type ℓ} (m : Prog A)
      → ((w : World) → KeepsNamespace w (m p w).1)
      → Stays (HoldsNamespace bytes) p m
  Keeps-Stays m keeps = record {
    stays = λ w h. let (known, same) = keeps w h.0 in (known, same ∙ h.1);
  }

  format-KeepsNamespace : (w : World) → KeepsNamespace w (Format.format_nvm p w).1
  unfolding Format.format_nvm
  format-KeepsNamespace w known = ground arith

  dispatch-Stays :
      (command : MajorCommand) (result : ℤ)
      → Stays (HoldsNamespace bytes) p (dispatch command result)
  unfolding dispatch
  dispatch-Stays command result = elim (Sends-dispatch command) [
    | inl e ↦ rw e (Keeps-Stays Format.format_nvm format-KeepsNamespace)
    | inr s ↦ Keeps-Stays (dispatch command result) ((s result).keeps p)
  ]

  command-IsPlain : Sends IsPlain get_command_from_console
  command-IsPlain = Sends-get_command_from_console

  command-Stays : Stays (HoldsNamespace bytes) p get_command_from_console
  command-Stays = Keeps-Stays get_command_from_console (command-IsPlain.keeps p)

-- Once the data of a namespace are stored, no round of the loop changes them or forgets that they are,
-- whatever is typed, whatever the drive answers and however many rounds have run: not even after a
-- format.
pub run_loop-KeepsNamespace :
    (p : Platform) (rounds : ℕ) (result : ℤ) (w : World)
    → w.namespace_known ≡ true
    → let w' = (run_loop rounds result p w).1 in
      (w'.namespace_known ≡ true) × (w'.namespace_data ≡ w.namespace_data)
run_loop-KeepsNamespace p rounds result w known =
    let bytes = w.namespace_data in
    (run_loop-Stays (command-Stays p bytes) (dispatch-Stays p bytes) rounds result).stays w
      (known, refl)
