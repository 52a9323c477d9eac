-- ===== src/Console/Menu.antt =====
-- What the main menu returns, and how much of the console it reads.
use nvmetool_win.Base.{ℕ, ◌+◌, ◌≡◌, ◌≢◌, Bool, true, false, ◌⊎◌, arith}
use nvmetool_win.Platform.{Platform}
use nvmetool_win.Program.{World}
use nvmetool_win.Console.{
  MajorCommand, get_log_page, identify, set_features, get_features, self_test, format_nvm,
  security_receive, admin_vendor_test, read, write, deallocate, flush, quit, unknown, first_char,
  get_command_from_console,
}

-- The first character of the n-th line.
abbrev pub key : Platform → ℕ → ℕ
key p n = first_char (p.line n)

-- The letter of a menu entry, in lower case; 0 for no entry.
abbrev pub letter : MajorCommand → ℕ
letter quit = b'q'
letter read = b'r'
letter write = b'w'
letter deallocate = b'd'
letter identify = b'i'
letter get_log_page = b'l'
letter get_features = b'g'
letter set_features = b's'
letter self_test = b't'
letter flush = b'f'
letter format_nvm = b'z'
letter security_receive = b'v'
letter admin_vendor_test = b'x'
letter unknown = 0

-- The commands that only show menus of their own, or nothing.
abbrev pub needs_confirmation : MajorCommand → Bool
needs_confirmation quit = false
needs_confirmation identify = false
needs_confirmation get_log_page = false
needs_confirmation get_features = false
needs_confirmation set_features = false
needs_confirmation unknown = false
needs_confirmation other = true

-- A command is returned only where the first line starts with its letter, in either case, and, if it
-- is one that accesses the drive at once, the next line starts with 'y'.
pub command-confirmed :
    (p : Platform) (w : World) (c : MajorCommand)
    → (get_command_from_console p w).0 ≡ c
    → c ≢ unknown
    → ((key p w.lines_read ≡ letter c) ⊎ (key p w.lines_read + 32 ≡ letter c))
      × ((needs_confirmation c ≡ false) ⊎ (key p (w.lines_read + 1) ≡ b'y'))
unfolding get_command_from_console
command-confirmed p w c e known = ground arith

-- Conversely, a letter and, where the command asks for it, a 'y' on the next line return it.
pub command_complete :
    (p : Platform) (w : World) (c : MajorCommand)
    → c ≢ unknown
    → key p w.lines_read ≡ letter c
    → (needs_confirmation c ≡ false) ⊎ (key p (w.lines_read + 1) ≡ b'y')
    → (get_command_from_console p w).0 ≡ c
unfolding get_command_from_console
command_complete p w c known first second = ground arith
