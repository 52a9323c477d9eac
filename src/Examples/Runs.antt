-- ===== src/Examples/Runs.antt =====
-- Tests of whole runs of the program.
use nvmetool_win.Base.{
  [], ◌∷◌, zero, suc, ◌≡◌, ◌⊎◌, inl, refl, some, none, arith, get_or, ℕ, Bool, true, List, ◌==◌,
  pos, replicate,
}
use nvmetool_win.Platform.{Platform}
use nvmetool_win.Program.{World}
use nvmetool_win.Tool.{run_loop}
use nvmetool_win.Tool.Keeping.{run_loop-KeepsNamespace}
use nvmetool_win.Tool.Phases.{Reaches, start, idle}
use nvmetool_win.Tool.Ends.{QuitsFrom}
use nvmetool_win.Tool.Main.{main}
use nvmetool_win.Tool.Main.Refines.{main_refines}
use nvmetool_win.Tool.Main.Ends.{exit_code, main-ends, main-result}
use nvmetool_win.Examples.{device, answers, controller, world}

-- A format, and then only the wish to quit.
abbrev user : Platform
user = record (device (answers controller) []) {
  line = λ k. get_or ((b'z' ∷ []) ∷ (b'y' ∷ []) ∷ []) k (b'q' ∷ []);
}

quits_after : QuitsFrom user 2
quits_after zero le = absurd (omega arith)
quits_after (suc zero) le = absurd (omega arith)
quits_after (suc (suc k)) le = inl refl

-- The drive 0 can be opened.
abbrev opens : List ℕ → Bool
opens name = get_or name 17 0 == b'0'

abbrev arguments : List (List ℕ)
arguments = (b't' ∷ []) ∷ (b'0' ∷ []) ∷ []

main_refines_example : Reaches user (main opens arguments 3 user world).1.issued idle
main_refines_example = main_refines opens arguments user 3 world start

main-ends_example :
    (main opens arguments 3 user world).0 ≡ some (exit_code opens arguments user world)
main-ends_example = main-ends opens arguments user world 2 2 quits_after (omega arith)

main-result_example :
    ((main opens arguments 1 user world).0 ≡ none)
    ⊎ ((main opens arguments 1 user world).0 ≡ some (exit_code opens arguments user world))
main-result_example = main-result opens arguments user world 1

-- A world behind the first Identify of a namespace.
abbrev identified : World
identified = record world { namespace_known = true; namespace_data = replicate 4096 1 }

run_loop-KeepsNamespace_example :
    let w' = (run_loop 3 (pos 0) user identified).1 in
    (w'.namespace_known ≡ true) × (w'.namespace_data ≡ identified.namespace_data)
run_loop-KeepsNamespace_example = run_loop-KeepsNamespace user 3 (pos 0) identified refl
