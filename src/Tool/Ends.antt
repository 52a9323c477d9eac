-- ===== src/Tool/Ends.antt =====
-- When and how main of src/NVMeTool.c ends.
use nvmetool_win.Base.{
  pos, negsuc, ℕ, zero, suc, ◌≡◌, true, false, ℤ, inl, inr, refl, ◌⊎◌, ◌≤◌, ◌+◌, ap, ◌∙◌,
  if◌then◌else◌, arith, Option, none, some, Bool-cases,
}
use nvmetool_win.Platform.{Platform}
use nvmetool_win.Program.{World, Prog, pure, ◌>>=◌}
use nvmetool_win.Console.{MajorCommand, quit, get_command_from_console, first_char}
use nvmetool_win.Console.Lines.{get_command_reads_on, get_command_quits}
use nvmetool_win.Format
use nvmetool_win.WinFunc.{is_zero, succeeded}
use nvmetool_win.Startup.{start_up}
use nvmetool_win.Tool.{dispatch, is_quit, run_loop, run_tool}
use nvmetool_win.Tool.Rules.{Sends-dispatch}

-- From the n-th line on, the user only asks to quit.
abbrev pub QuitsFrom : Platform → ℕ → Type 0
QuitsFrom p n = (k : ℕ) → n ≤ k → (first_char (p.line k) ≡ b'q') ⊎ (first_char (p.line k) ≡ b'Q')

format_reads_on : (p : Platform) (w : World) → w.lines_read ≤ (Format.format_nvm p w).1.lines_read
unfolding Format.format_nvm
format_reads_on p w = ground arith

dispatch_reads_on :
    (p : Platform) (w : World) (command : MajorCommand) (result : ℤ)
    → w.lines_read ≤ (dispatch command result p w).1.lines_read
unfolding dispatch
dispatch_reads_on p w command result = elim (Sends-dispatch command) [
  | inl e ↦ rw e (format_reads_on p w)
  | inr s ↦ (s result).reads_on p w
]

is_quit_lem : (command : MajorCommand) → is_quit command ≡ true → command ≡ quit
is_quit_lem command h = ground arith

-- The command of the next round.
abbrev command_of : Platform → World → MajorCommand
command_of p w = (get_command_from_console p w).0

round_quits :
    (p : Platform) (w : World) (rounds : ℕ) (result : ℤ)
    → is_quit (command_of p w) ≡ true
    → (run_loop (suc rounds) result p w).0 ≡ some succeeded
unfolding run_loop dispatch ◌>>=◌
round_quits p w rounds result h = let e = is_quit_lem (command_of p w) h in rw (h, e) refl

round_goes_on :
    (p : Platform) (w : World) (rounds : ℕ) (result : ℤ)
    → is_quit (command_of p w) ≡ false
    → let (after, w') = dispatch (command_of p w) result p (get_command_from_console p w).1 in
      run_loop (suc rounds) result p w ≡ run_loop rounds after p w'
unfolding run_loop ◌>>=◌
round_goes_on p w rounds result h = rw h refl

loop_stops : (p : Platform) (w : World) (result : ℤ) → (run_loop 0 result p w).0 ≡ none
unfolding run_loop ◌>>=◌
loop_stops p w result = refl

quits_now :
    (p : Platform) (n : ℕ) (w : World)
    → QuitsFrom p n
    → n ≤ w.lines_read
    → is_quit (command_of p w) ≡ true
quits_now p n w quits le = rw (get_command_quits p w (quits w.lines_read le)) refl

-- Each round reads a line at least: the rounds up to the n-th line are enough.
run_loop-ends :
    (p : Platform) (n rounds : ℕ) (w : World) (result : ℤ)
    → QuitsFrom p n
    → n ≤ w.lines_read + rounds
    → (run_loop (suc rounds) result p w).0 ≡ some succeeded
run_loop-ends p n zero w result quits le =
    round_quits p w zero result (quits_now p n w quits (omega arith))
run_loop-ends p n (suc rounds) w result quits le = elim (Bool-cases (is_quit (command_of p w))) [
  | inl h ↦ round_quits p w (suc rounds) result h
  | inr h ↦
      (let w1 = (get_command_from_console p w).1 in
        let (after, w2) = dispatch (command_of p w) result p w1 in
        let less = get_command_reads_on p w in
        let kept = dispatch_reads_on p w1 (command_of p w) result in
        ap (λ x. x.0) (round_goes_on p w (suc rounds) result h)
        ∙ run_loop-ends p n rounds w2 after quits (omega (arith, less, kept)))
]

run_loop-result :
    (p : Platform) (rounds : ℕ) (w : World) (result : ℤ)
    → ((run_loop rounds result p w).0 ≡ none) ⊎ ((run_loop rounds result p w).0 ≡ some succeeded)
run_loop-result p zero w result = inl (loop_stops p w result)
run_loop-result p (suc rounds) w result = elim (Bool-cases (is_quit (command_of p w))) [
  | inl h ↦ inr (round_quits p w rounds result h)
  | inr h ↦
      (let w1 = (get_command_from_console p w).1 in
        let (after, w2) = dispatch (command_of p w) result p w1 in
        rw (round_goes_on p w rounds result h) (run_loop-result p rounds w2 after))
]

-- From the result of the steps before the loop on.
enter : ℕ → ℤ → Prog (Option ℤ)
enter rounds result = if is_zero result then run_loop rounds result else pure (some result)

run_tool-enter :
    (p : Platform) (w : World) (rounds : ℕ)
    → let (result, w') = start_up p w in run_tool rounds p w ≡ enter rounds result p w'
unfolding run_tool enter ◌>>=◌
run_tool-enter p w rounds = refl

is_zero-suc : (n : ℕ) → is_zero (pos (suc n)) ≡ false
is_zero-suc n = ground arith

enter-ends :
    (p : Platform) (w : World) (rounds : ℕ) (result : ℤ)
    → (run_loop rounds result p w).0 ≡ some succeeded
    → (enter rounds result p w).0 ≡ some result
unfolding enter ◌>>=◌
enter-ends p w rounds (pos zero) h = h
enter-ends p w rounds (pos (suc n)) h = rw (is_zero-suc n) refl
enter-ends p w rounds (negsuc n) h = refl

enter-result :
    (p : Platform) (w : World) (rounds : ℕ) (result : ℤ)
    → ((enter rounds result p w).0 ≡ none) ⊎ ((enter rounds result p w).0 ≡ some result)
unfolding enter ◌>>=◌
enter-result p w rounds (pos zero) = run_loop-result p rounds w succeeded
enter-result p w rounds (pos (suc n)) = inr (rw (is_zero-suc n) refl)
enter-result p w rounds (negsuc n) = inr refl

-- Where the user only asks to quit from the n-th line on, n + 1 rounds of the loop are enough: the
-- program ends, with the result of the steps before the loop, which is 0 where the loop was entered.
pub run_tool-ends :
    (p : Platform) (w : World) (n rounds : ℕ)
    → QuitsFrom p n
    → n ≤ rounds
    → (run_tool (suc rounds) p w).0 ≡ some (start_up p w).0
run_tool-ends p w n rounds quits le =
    let (result, w') = start_up p w in
    ap (λ x. x.0) (run_tool-enter p w (suc rounds))
    ∙ enter-ends p w' (suc rounds) result (run_loop-ends p n rounds w' result quits (omega arith))

-- A run that has ended returns the result of the steps before the loop, whatever the commands did.
pub run_tool-result :
    (p : Platform) (w : World) (rounds : ℕ)
    → ((run_tool rounds p w).0 ≡ none) ⊎ ((run_tool rounds p w).0 ≡ some (start_up p w).0)
run_tool-result p w rounds =
    let (result, w') = start_up p w in
    rw (run_tool-enter p w rounds) (enter-result p w' rounds result)
