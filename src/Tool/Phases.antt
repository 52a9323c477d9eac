-- ===== src/Tool/Phases.antt =====
-- What the tool promises about the drive, as an automaton over its requests, and that main of
-- src/NVMeTool.c keeps to it.
use nvmetool_win.Base.{ℕ, ◌≡◌, true, false, ℤ, List, ◌∷◌, [], inl, inr}
use nvmetool_win.Platform.{Platform, Request, lock_volume, unlock_volume, reinitialize_media}
use nvmetool_win.Program.{World, Prog}
use nvmetool_win.Program.Requests.{IsPlain, IsReading-IsPlain}
use nvmetool_win.Program.Keeps.{Added, nothing, sent, Sends, Sends-imp}
use nvmetool_win.Console.{MajorCommand, get_command_from_console}
use nvmetool_win.Console.Lines.{Sends-get_command_from_console}
use nvmetool_win.Format
use nvmetool_win.Format.Locking.{format_nvm_requests}
use nvmetool_win.Startup.{start_up}
use nvmetool_win.Startup.ReadOnly.{Sends-start_up}
use nvmetool_win.Tool.{dispatch, run_tool}
use nvmetool_win.Tool.Invariants.{Stays, run_tool-Stays}
use nvmetool_win.Tool.Rules.{Sends-dispatch}

-- No volume is locked; the volume is locked; the media were reinitialized under the lock.
pub data Phase : Type 0 where
  idle locked erased : Phase

-- The requests of a run, the latest first, take the drive from `idle` to the phase given: plain
-- requests and refused locks keep it idle, and the media are only reinitialized between an accepted
-- lock and the unlock that directly follows.
pub data Reaches (p : Platform) : List Request → Phase → Type 0 where
  start : Reaches p [] idle
  plain :
      {q : Request} {before : List Request}
      → IsPlain q
      → Reaches p before idle
      → Reaches p (q ∷ before) idle
  refuses :
      {before : List Request}
      → (p.respond before lock_volume).accepted ≡ false
      → Reaches p before idle
      → Reaches p (lock_volume ∷ before) idle
  locks :
      {before : List Request}
      → (p.respond before lock_volume).accepted ≡ true
      → Reaches p before idle
      → Reaches p (lock_volume ∷ before) locked
  erases :
      {before : List Request}
      → Reaches p before locked
      → Reaches p (reinitialize_media ∷ before) erased
  unlocks :
      {before : List Request} → Reaches p before erased → Reaches p (unlock_volume ∷ before) idle

Added-Reaches :
    {p : Platform} {a b : List Request} → Added IsPlain a b → Reaches p a idle → Reaches p b idle
Added-Reaches nothing h = h
Added-Reaches (sent fits rest) h = plain fits (Added-Reaches rest h)

abbrev pub IsIdle : Platform → World → Type 0
IsIdle p w = Reaches p w.issued idle

module _ (p : Platform) where
  pub Sends-Stays {ℓ} : {A : Type ℓ} (m : Prog A) → Sends IsPlain m → Stays (IsIdle p) p m
  Sends-Stays m s = record { stays = λ w h. Added-Reaches (s.adds p w) h }

  format-Stays : Stays (IsIdle p) p Format.format_nvm
  format-Stays = record {
    stays = λ w h. elim (format_nvm_requests p w) [
      | inl (unsupported, result, same) ↦ rw same h
      | inr (inl (supported, refused, result, same)) ↦ rw same (refuses refused h)
      | inr (inr (supported, accepted, result, same)) ↦
          rw same (unlocks (erases (locks accepted h)))
    ];
  }

  dispatch-Stays :
      (command : MajorCommand) (result : ℤ) → Stays (IsIdle p) p (dispatch command result)
  unfolding dispatch
  dispatch-Stays command result = elim (Sends-dispatch command) [
    | inl e ↦ rw e format-Stays
    | inr s ↦ Sends-Stays (dispatch command result) (s result)
  ]

  command-Stays : Stays (IsIdle p) p get_command_from_console
  command-Stays = Sends-Stays get_command_from_console Sends-get_command_from_console

  start_up-Stays : Stays (IsIdle p) p start_up
  start_up-Stays = Sends-Stays start_up (Sends-imp IsReading-IsPlain Sends-start_up)

  -- A whole run behind the opening of the drive.
  pub run_tool-Idle : (rounds : ℕ) → Stays (IsIdle p) p (run_tool rounds)
  run_tool-Idle rounds = run_tool-Stays command-Stays dispatch-Stays start_up-Stays rounds
