-- ===== src/Controller/Report/Subnqn.antt =====
-- SUBNQN, s_vPrintNVMeIdentifyControllerDataSUBNQN of src/NVMeIdentifyControllerData.c.
use nvmetool_win.Base.{◌≡◌, ℕ, false, List, [], ◌∷◌, ◌++◌, Option, none, some, drop, ap, ◌∙◌}
use nvmetool_win.Console.Conversion.{Converter, Step, free, text_block, convert_utf8}
use nvmetool_win.Console.Conversion.Blocks.{after, after-append, convert_utf8-after, is_text}
use nvmetool_win.Console.Printing.{until_nul}

-- The text that is printed, of which none is "(null)", and the steps with the one that frees it.
abbrev print_converted : Option (List ℕ) → List Step → Option (List ℕ) × List Step
print_converted none steps = (none, steps)
print_converted (some t) steps = (some (until_nul t), steps ++ (free text_block ∷ []))

-- The member is read up to its NUL, and behind its 256 bytes where it has none.
unfoldable pub subnqn : Converter → List ℕ → Option (List ℕ) × List Step
unfolding convert_utf8
subnqn k c = let (r, steps) = convert_utf8 k (until_nul (drop 768 c)) in print_converted r steps

print_converted-after :
    (r : Option (List ℕ)) (steps : List Step)
    → after steps (some (false, false)) ≡ some (false, is_text r)
    → after (print_converted r steps).1 (some (false, false)) ≡ some (false, false)
print_converted-after none steps h = h
print_converted-after (some t) steps h =
    after-append steps (free text_block ∷ []) (some (false, false))
    ∙ ap (after (free text_block ∷ [])) h

-- Whatever the conversions of Windows and the allocations do, printing SUBNQN frees each block that
-- it allocates, each once, and allocates none twice.
pub subnqn-frees :
    (k : Converter) (c : List ℕ) → after (subnqn k c).1 (some (false, false)) ≡ some (false, false)
unfolding subnqn
subnqn-frees k c =
    let (r, steps) = convert_utf8 k (until_nul (drop 768 c)) in
    print_converted-after r steps (convert_utf8-after k (until_nul (drop 768 c)))
