-- ===== src/Telemetry/Requests.antt =====
-- What is sent for the host-initiated telemetry of src/NVMeGetTelemetry.c.
use nvmetool_win.Base.{◌<◌, ℕ, ◌+◌, ◌/◌, ◌%◌, ◌^◌, ◌≡◌, ◌⊎◌, ◌∷◌, Bool, true, false, length, arith}
use nvmetool_win.Platform.{Platform, get_internal_log}
use nvmetool_win.Program.{World}
use nvmetool_win.WinFunc.{failed, can_use_internal_log}
use nvmetool_win.Console.{first_char}
use nvmetool_win.Telemetry.{
  create_bit, log_options, host_request, internal_buffer, get_host_telemetry,
}

-- Windows' own internal log is asked for only where new data are wanted, the version of Windows has
-- it, and the line that is then read starts with 'y'; in every other run the request, if there is
-- memory for one, is the one for the log page, with the wish for new data in it. No run sends a second
-- request, and a line is read exactly where there is the choice.
pub get_host_telemetry_requests :
    (p : Platform) (w : World) (create : Bool)
    → let (result, w') = get_host_telemetry create p w in
      let internal = get_internal_log (internal_buffer p.layout) in
      let page = host_request p.layout (p.uninitialised (length w.issued)) create in
      let choice = (create ≡ true) × (can_use_internal_log w ≡ true) in
      let chosen = choice × (first_char (p.line w.lines_read) ≡ b'y') in
      ((choice × (w'.lines_read ≡ w.lines_read + 1)) ⊎ (¬ choice × (w'.lines_read ≡ w.lines_read)))
      × (((result ≡ failed) × (w'.issued ≡ w.issued))
          ⊎ (chosen × (w'.issued ≡ internal ∷ w.issued))
          ⊎ (¬ chosen × (w'.issued ≡ page ∷ w.issued)))
unfolding get_host_telemetry
get_host_telemetry_requests p w create = ground arith

-- The option word: bit 0 keeps the asynchronous event, the four bits above it hold 1 exactly where new
-- data are wanted, and the 27 bits above them are those that the word happened to hold.
pub log_options_lem :
    (garbage : ℕ) (create : Bool)
    → let word = log_options garbage create in
      (word % 2 ≡ 1)
      × (word / 2 % 16 ≡ create_bit create)
      × (word / 32 ≡ garbage % 2 ^ 32 / 32)
      × (word < 2 ^ 32)
unfolding log_options
log_options_lem garbage true = omega arith
log_options_lem garbage false = omega arith
