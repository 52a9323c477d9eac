-- ===== src/Console/Conversion/Blocks.antt =====
-- What is allocated when a conversion ends.
use nvmetool_win.Base.{
  ℕ, ◌≡◌, Bool, true, false, List, [], ◌∷◌, ◌++◌, refl, if◌then◌else◌, Option, none, some, arith,
}
use nvmetool_win.Console.Conversion.{
  Converter, Step, alloc, free, wide_block, text_block, convert_wide, convert_utf8,
}

-- Whether `strTemp` and `strDest` are allocated.
abbrev pub Heap : Type 0
Heap = Bool × Bool

-- A block is not allocated twice, and none is freed that is not there.
abbrev pub run_step : Step → Heap → Option Heap
run_step (alloc wide_block) (w, t) = if w then none else some (true, t)
run_step (alloc text_block) (w, t) = if t then none else some (w, true)
run_step (free wide_block) (w, t) = if w then some (false, t) else none
run_step (free text_block) (w, t) = if t then some (w, false) else none

abbrev pub after : List Step → Option Heap → Option Heap
after steps none = none
after [] (some h) = some h
after (x ∷ steps) (some h) = after steps (run_step x h)

pub after-append :
    (xs ys : List Step) (h : Option Heap) → after (xs ++ ys) h ≡ after ys (after xs h)
after-append xs ys none = refl
after-append [] ys (some h) = refl
after-append (x ∷ xs) ys (some h) = after-append xs ys (run_step x h)

abbrev pub is_text : Option (List ℕ) → Bool
is_text none = false
is_text (some t) = true

convert_wide-after :
    (k : Converter) (w : Option (List ℕ))
    → let (r, steps) = convert_wide k w in
      after (steps ++ (free wide_block ∷ [])) (some (true, false)) ≡ some (false, is_text r)
unfolding convert_wide
convert_wide-after k none = refl
convert_wide-after k (some w) = ground arith

-- Whatever the conversions and the allocations do, `strTemp` is freed at the end and `strDest` is
-- allocated exactly where the result is not NULL.
pub convert_utf8-after :
    (k : Converter) (s : List ℕ)
    → let (r, steps) = convert_utf8 k s in
      after steps (some (false, false)) ≡ some (false, is_text r)
unfolding convert_utf8
convert_utf8-after k s = ground (arith, convert_wide-after k (k.wide s (k.wide_length s)))
