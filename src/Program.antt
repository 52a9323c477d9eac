-- ===== src/Program.antt =====
-- A function of the program: it reads the platform, and changes the globals and the record of what
-- it has asked of the platform so far.
pub mod Keeps
pub mod Requests
pub mod Rules
use nvmetool_win.Base.{true, ℕ, ◌+◌, Bool, List, ◌∷◌, ltb, ◌||◌}
use nvmetool_win.Platform.{Platform, Request, Reply}

-- The globals of the program and the history of its calls.
pub record World : Type 0 where
  pub controller : List ℕ  -- g_stController, byte by byte
  pub smart_log : List ℕ  -- g_stSMARTLog, byte by byte
  pub namespace_data : List ℕ  -- g_stNamespaceData, byte by byte
  pub namespace_known : Bool  -- g_bNamespaceAlreadyIdentified
  pub smart_with_nsid_zero : Bool  -- g_WA_bGetControllerSMARTLogWithNSIDZero
  pub supports_protocol : ℕ → Bool  -- gau8SupportedSecurityProtocol
  pub protocol_count : ℕ  -- gu8NumSupportedSecurityProtocol
  pub os_build : ℕ  -- s_dwOSBuildNumber
  pub os_major : ℕ  -- s_dwOSMajorVersion
  pub lines_read : ℕ  -- calls of fgets so far
  pub allocations : ℕ  -- calls of malloc and LocalAlloc so far
  pub issued : List Request  -- requests sent, the latest first
  pub overread : Bool  -- a read went past the end of its buffer

abbrev pub Prog {ℓ} : Type ℓ → Type ℓ
Prog A = Platform → World → A × World

module _ {ℓ} {A : Type ℓ} where
  pub pure : A → Prog A
  pure a p w = (a, w)

  pub reads : (Platform → World → A) → Prog A
  reads f p w = (f p w, w)

-- malloc: an address, 0 for NULL.
pub allocate : ℕ → Prog ℕ
allocate n p w = (p.malloc w.allocations n, record w { allocations = w.allocations + 1 })

-- LocalAlloc: whether it succeeds.
pub allocate_local : ℕ → Prog Bool
allocate_local n p w = (p.local_alloc w.allocations n, record w { allocations = w.allocations + 1 })

-- DeviceIoControl.
pub device_io_control : Request → Prog Reply
device_io_control q p w = (p.respond w.issued q, record w { issued = q ∷ w.issued })

-- fgets into the caller's buffer.
pub get_line : Prog (List ℕ)
get_line p w = (p.line w.lines_read, record w { lines_read = w.lines_read + 1 })

-- A read of the bytes up to `last` of a buffer of `size` bytes.
pub touch : ℕ → ℕ → Prog (Unit {0})
touch size last p w = (tt, record w { overread = w.overread || ltb size last })

-- Assignments to the globals.
pub store_controller : List ℕ → Prog (Unit {0})
store_controller bytes p w = (tt, record w { controller = bytes })

pub store_smart_log : List ℕ → Prog (Unit {0})
store_smart_log bytes p w = (tt, record w { smart_log = bytes })

pub store_namespace : List ℕ → Prog (Unit {0})
store_namespace bytes p w = (tt, record w { namespace_data = bytes; namespace_known = true })

pub store_workaround : Bool → Prog (Unit {0})
store_workaround b p w = (tt, record w { smart_with_nsid_zero = b })

pub store_protocols : (ℕ → Bool) → ℕ → Prog (Unit {0})
store_protocols f n p w = (tt, record w { supports_protocol = f; protocol_count = n })

pub store_os : ℕ → ℕ → Prog (Unit {0})
store_os build major p w = (tt, record w { os_build = build; os_major = major })

infixl 10 ◌>>=◌ ◌>>◌
unfoldable pub ◌>>=◌ {ℓ κ} : {A : Type ℓ} {B : Type κ} → Prog A → (A → Prog B) → Prog B
unfolding pure reads allocate allocate_local device_io_control get_line touch store_controller
    store_smart_log store_namespace store_workaround store_protocols store_os
◌>>=◌ m f p w = let (a, w') = m p w in f a p w'

abbrev pub ◌>>◌ {ℓ κ} : {A : Type ℓ} {B : Type κ} → Prog A → Prog B → Prog B
m >> n = m >>= λ _. n
