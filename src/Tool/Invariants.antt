-- ===== src/Tool/Invariants.antt =====
-- Invariants of a run of main of src/NVMeTool.c: what each command keeps, a whole run keeps.
use nvmetool_win.Base.{none, some, ℕ, zero, suc, Bool, true, false, ℤ, if◌then◌else◌}
use nvmetool_win.Platform.{Platform}
use nvmetool_win.Program.{World, Prog, pure, ◌>>=◌}
use nvmetool_win.Console.{MajorCommand, get_command_from_console}
use nvmetool_win.WinFunc.{is_zero}
use nvmetool_win.Startup.{start_up}
use nvmetool_win.Tool.{dispatch, is_quit, run_loop, run_tool}

-- `m` keeps an invariant of the world.
pub record Stays {ℓ} {A : Type ℓ} (I : World → Type 0) (p : Platform) (m : Prog A) : Type 0 where
  pub stays : (w : World) → I w → I (m p w).1

module _ {I : World → Type 0} {p : Platform} where
  pub bind-Stays {ℓ κ} :
      {A : Type ℓ} {B : Type κ} (m : Prog A) (f : A → Prog B)
      → Stays I p m
      → ((a : A) → Stays I p (f a))
      → Stays I p (m >>= f)
  unfolding ◌>>=◌
  bind-Stays m f hm hf = record {
    stays = λ w h. let (a, w') = m p w in (hf a).stays w' (hm.stays w h);
  }

  pub if-Stays {ℓ} :
      {A : Type ℓ} (b : Bool) (m n : Prog A)
      → Stays I p m
      → Stays I p n
      → Stays I p (if b then m else n)
  if-Stays true m n hm hn = hm
  if-Stays false m n hm hn = hn

  pub pure-Stays {ℓ} : {A : Type ℓ} (a : A) → Stays I p (pure a)
  unfolding ◌>>=◌
  pure-Stays a = record { stays = λ w h. h }

  module _ (command : Stays I p get_command_from_console)
      (run : (c : MajorCommand) (result : ℤ) → Stays I p (dispatch c result)) where
    pub run_loop-Stays : (rounds : ℕ) (result : ℤ) → Stays I p (run_loop rounds result)
    unfolding run_loop
    run_loop-Stays zero result = pure-Stays none
    run_loop-Stays (suc rounds) result = bind-Stays _ _ command (λ c.
        bind-Stays _ _ (run c result) (λ after.
          if-Stays (is_quit c) _ _ (pure-Stays (some after)) (run_loop-Stays rounds after)))

    pub run_tool-Stays : Stays I p start_up → (rounds : ℕ) → Stays I p (run_tool rounds)
    unfolding run_tool
    run_tool-Stays start rounds = bind-Stays _ _ start (λ result.
        if-Stays (is_zero result) _ _ (run_loop-Stays rounds result) (pure-Stays (some result)))
