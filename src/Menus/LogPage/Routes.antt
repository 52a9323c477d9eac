-- ===== src/Menus/LogPage/Routes.antt =====
-- Which pages the menu of src/NVMeGetLogPage.c asks for.
use nvmetool_win.Base.{
  ◌+◌, ◌≡◌, ◌≢◌, ◌⊎◌, true, false, pos, negsuc, List, ℕ, ℤ, arith, is_nat, inl, inr, Bool-cases,
  if◌then◌else◌,
}
use nvmetool_win.Platform.{Platform}
use nvmetool_win.Program.{World}
use nvmetool_win.WinFunc.{failed}
use nvmetool_win.Console.{first_char, scanned}
use nvmetool_win.Controller.Fields.{
  smart_page_per_namespace, command_effects_log, device_self_test, telemetry_support,
  endurance_groups,
}
use nvmetool_win.Controller.Version.{is_v14_or_later, is_v20_or_later}
use nvmetool_win.Smart.{get_smart}
use nvmetool_win.Telemetry.{get_host_telemetry}
use nvmetool_win.Menus.LogPage.{log_page_menu}

-- The pages that may be asked for, by the data of the controller.
abbrev pub IsOffered : List ℕ → ℤ → Type 0
IsOffered c lid =
    ((lid ≡ pos 0x00) × (is_v20_or_later c ≡ true))
    ⊎ (lid ≡ pos 0x01)
    ⊎ (lid ≡ pos 0x02)
    ⊎ (lid ≡ pos 0x03)
    ⊎ ((lid ≡ pos 0x05) × (command_effects_log c ≡ true))
    ⊎ ((lid ≡ pos 0x06) × (device_self_test c ≡ true))
    ⊎ (((lid ≡ pos 0x07) ⊎ (lid ≡ pos 0x08)) × (telemetry_support c ≡ true))
    ⊎ ((lid ≡ pos 0x09) × (endurance_groups c ≡ true))
    ⊎ ((lid ≡ pos 0x0f) × (is_v14_or_later c ≡ true) × (endurance_groups c ≡ true))

-- After the code 07h a controller with telemetry is asked for new data exactly where the next two
-- lines start with '1' and 'y', and for the old where they start with '0' and 'y'; any other answers
-- send nothing and return -1.
pub log_page_menu_telemetry :
    (p : Platform) (w : World)
    → scanned (p.scan_hex (p.line w.lines_read)) ≡ pos 0x07
    → telemetry_support w.controller ≡ true
    → let key = first_char (p.line (w.lines_read + 1)) in
      let confirmed = first_char (p.line (w.lines_read + 2)) ≡ b'y' in
      let asked : World = record w { lines_read = w.lines_read + 3 } in
      let (result, w') = log_page_menu p w in
      ((key ≡ b'1') × confirmed × ((result, w') ≡ get_host_telemetry true p asked))
      ⊎ ((key ≡ b'0') × confirmed × ((result, w') ≡ get_host_telemetry false p asked))
      ⊎ ((result ≡ failed) × (w'.issued ≡ w.issued) × ¬ (((key ≡ b'1') ⊎ (key ≡ b'0')) × confirmed))
unfolding log_page_menu
log_page_menu_telemetry p w e supported = ground arith

is_seven : (lid : ℤ) → (lid ≡ pos 0x07) ⊎ (lid ≢ pos 0x07)
is_seven lid = ground arith

other_pages :
    (p : Platform) (w : World)
    → let lid = scanned (p.scan_hex (p.line w.lines_read)) in
      lid ≢ pos 0x07
      → let (result, w') = log_page_menu p w in
        ((result ≡ failed) × (w'.issued ≡ w.issued))
        ⊎ (IsOffered w.controller lid × (first_char (p.line (w.lines_read + 1)) ≡ b'y'))
unfolding log_page_menu
other_pages p w other = ground arith

without_telemetry :
    (p : Platform) (w : World)
    → scanned (p.scan_hex (p.line w.lines_read)) ≡ pos 0x07
    → telemetry_support w.controller ≡ false
    → let (result, w') = log_page_menu p w in (result ≡ failed) × (w'.issued ≡ w.issued)
unfolding log_page_menu
without_telemetry p w e unsupported = ground arith

-- How the page 07h is asked for.
abbrev pub AsksTelemetry : Platform → World → ℤ × World → Type 0
AsksTelemetry p w run =
    let key = first_char (p.line (w.lines_read + 1)) in
    let asked : World = record w { lines_read = w.lines_read + 3 } in
    (first_char (p.line (w.lines_read + 2)) ≡ b'y')
    × (((key ≡ b'1') × (run ≡ get_host_telemetry true p asked))
        ⊎ ((key ≡ b'0') × (run ≡ get_host_telemetry false p asked)))

telemetry_page :
    (p : Platform) (w : World)
    → scanned (p.scan_hex (p.line w.lines_read)) ≡ pos 0x07
    → let (result, w') = log_page_menu p w in
      ((result ≡ failed) × (w'.issued ≡ w.issued))
      ⊎ ((telemetry_support w.controller ≡ true) × AsksTelemetry p w (result, w'))
telemetry_page p w e = elim (Bool-cases (telemetry_support w.controller)) [
  | inr unsupported ↦ inl (without_telemetry p w e unsupported)
  | inl supported ↦ elim (log_page_menu_telemetry p w e supported) [
    | inl (one, y, run) ↦ inr (supported, (y, inl (one, run)))
    | inr (inl (zero, y, run)) ↦ inr (supported, (y, inr (zero, run)))
    | inr (inr (result, same, other)) ↦ inl (result, same)
  ]
]

-- Get Log Page sends nothing and returns -1, unless the page typed is one that the controller offers
-- and the next line starts with 'y'. For the page 07h that line chooses between new and old data with
-- '1' and '0', the line after it must start with 'y', and the run is the one for that choice.
pub log_page_menu_guarded :
    (p : Platform) (w : World)
    → let lid = scanned (p.scan_hex (p.line w.lines_read)) in
      let key = first_char (p.line (w.lines_read + 1)) in
      let (result, w') = log_page_menu p w in
      ((result ≡ failed) × (w'.issued ≡ w.issued))
      ⊎ (IsOffered w.controller lid
          × (((lid ≢ pos 0x07) × (key ≡ b'y'))
              ⊎ ((lid ≡ pos 0x07) × AsksTelemetry p w (result, w'))))
log_page_menu_guarded p w = elim (is_seven (scanned (p.scan_hex (p.line w.lines_read)))) [
  | inl e ↦ elim (telemetry_page p w e) [
    | inl unasked ↦ inl unasked
    | inr (supported, asks) ↦
        inr (inr (inr (inr (inr (inr (inr (inl (inl e, supported))))))), inr (e, asks))
  ]
  | inr other ↦ elim (other_pages p w other) [
    | inl unasked ↦ inl unasked
    | inr (offered, y) ↦ inr (offered, inl (other, y))
  ]
]

-- Once the SMART page was confirmed it is read whatever is typed after that: on a controller with a page
-- for each namespace two more lines are read, and neither stops it.
pub log_page_menu_smart :
    (p : Platform) (w : World)
    → scanned (p.scan_hex (p.line w.lines_read)) ≡ pos 0x02
    → first_char (p.line (w.lines_read + 1)) ≡ b'y'
    → let nsid = scanned (p.scan_dec (p.line (w.lines_read + 2))) in
      let asked : World = record w { lines_read = w.lines_read + 2 } in
      let more : World = record w { lines_read = w.lines_read + 4 } in
      ((smart_page_per_namespace w.controller ≡ false)
        × (log_page_menu p w ≡ get_smart true (negsuc 0) p asked))
      ⊎ ((smart_page_per_namespace w.controller ≡ true)
          × (log_page_menu p w ≡ get_smart true (if is_nat nsid 0 then negsuc 0 else nsid) p more))
unfolding log_page_menu
log_page_menu_smart p w e y = ground arith
