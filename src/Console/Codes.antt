-- ===== src/Console/Codes.antt =====
-- The command codes as `case` labels.
use nvmetool_win.Base.{◌≡◌, arith}
use nvmetool_win.Console.{MajorCommand, code}

-- No two commands share a code, so the cases of the `switch` in main are separate: the admin set at
-- 0 and the NVM set at 0x100 keep equal opcodes apart, and the two codes of the tool lie above both.
pub code-injective : (a b : MajorCommand) → code a ≡ code b → a ≡ b
unfolding code
code-injective a b e = ground arith
