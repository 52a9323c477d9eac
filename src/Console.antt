-- ===== src/Console.antt =====
-- The console of the tool: src/NVMeUtils.c and the command codes of src/NVMeUtils.h.
pub mod Printing
pub mod Conversion
pub mod Menu
pub mod Codes
pub mod Lines
use Prim.Native.Nat.{bit_or}
use nvmetool_win.Base.{
  ℕ, Bool, true, false, List, Option, none, some, ℤ, pos, ◌==◌, ◌||◌, if◌then◌else◌, get_or,
}
use nvmetool_win.Platform.{Platform}
use nvmetool_win.Program.{Prog, pure, reads, get_line, ◌>>=◌}

-- The values of `iMajorCmd`: the macros NVME_COMMAND_* and NVME_TOOL_COMMAND_*.
pub data MajorCommand : Type 0 where
  get_log_page identify set_features get_features self_test format_nvm security_receive
        admin_vendor_test read write deallocate flush quit unknown :
      MajorCommand

-- The two sets that a code's opcode is joined to.
abbrev admin_command_set : ℕ
admin_command_set = 0

abbrev nvm_command_set : ℕ
nvm_command_set = 0x100

-- The code of a command; the opcodes are those of the NVMe specification (tables 1 and 2 of the
-- README).
unfoldable pub code : MajorCommand → ℕ
code get_log_page = bit_or admin_command_set 0x02
code identify = bit_or admin_command_set 0x06
code set_features = bit_or admin_command_set 0x09
code get_features = bit_or admin_command_set 0x0a
code self_test = bit_or admin_command_set 0x14
code format_nvm = bit_or admin_command_set 0x80
code security_receive = bit_or admin_command_set 0x82
code admin_vendor_test = bit_or admin_command_set 0xff
code read = bit_or nvm_command_set 0x02
code write = bit_or nvm_command_set 0x01
code deallocate = bit_or nvm_command_set 0x09
code flush = bit_or nvm_command_set 0x00
code quit = 0xfffe
code unknown = 0xffff

-- `_strInput[0]`: the terminating NUL where the line is empty.
abbrev pub first_char : List ℕ → ℕ
first_char text = get_or text 0 0

unfoldable pub get_console_input : Prog ℕ
get_console_input = do text ← get_line; pure (first_char text)

-- `iRet` keeps its 0 where nothing was converted.
abbrev pub scanned : Option ℤ → ℤ
scanned none = pos 0
scanned (some n) = n

unfoldable pub get_console_input_hex : Prog ℤ
get_console_input_hex = do text ← get_line; reads (λ p w. scanned (p.scan_hex text))

unfoldable pub get_console_input_dec : Prog ℤ
get_console_input_dec = do text ← get_line; reads (λ p w. scanned (p.scan_dec text))

-- A case of the menu that asks for a 'y' first.
confirm : MajorCommand → Prog MajorCommand
confirm command = do c ← get_console_input; pure (if c == b'y' then command else unknown)

abbrev is_key : ℕ → ℕ → ℕ → Bool
is_key c lower upper = c == lower || c == upper

-- The `switch` on the first character.
choose : ℕ → Prog MajorCommand
unfolding confirm
choose c =
    if is_key c b'q' b'Q'
    then pure quit
    else if is_key c b'r' b'R'
    then confirm read
    else if is_key c b'w' b'W'
    then confirm write
    else if is_key c b'd' b'D'
    then confirm deallocate
    else if is_key c b'i' b'I'
    then pure identify
    else if is_key c b'l' b'L'
    then pure get_log_page
    else if is_key c b'g' b'G'
    then pure get_features
    else if is_key c b's' b'S'
    then pure set_features
    else if is_key c b't' b'T'
    then confirm self_test
    else if is_key c b'f' b'F'
    then confirm flush
    else if is_key c b'z' b'Z'
    then confirm format_nvm
    else if is_key c b'v' b'V'
    then confirm security_receive
    else if is_key c b'x' b'X'
    then confirm admin_vendor_test
    else pure unknown

unfoldable pub get_command_from_console : Prog MajorCommand
unfolding choose get_console_input ◌>>=◌
get_command_from_console = do c ← get_console_input; choose c
