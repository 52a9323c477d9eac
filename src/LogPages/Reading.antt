-- ===== src/LogPages/Reading.antt =====
-- Which bytes of a page are printed, and when.
use nvmetool_win.Base.{
  ◌∙◌, ap, ◌^◌, ◌-◌, ℕ, zero, suc, ◌+◌, ◌*◌, ◌<◌, ◌≤◌, ◌≡◌, ◌⊎◌, true, List, [], ◌∷◌, ℤ, take, drop,
  length, arith, get_or, if◌then◌else◌, leb,
}
use nvmetool_win.Platform.{Platform, Layout, Reply}
use nvmetool_win.Program.{World}
use nvmetool_win.WinFunc.{failed, succeeded}
use nvmetool_win.Console.{first_char, scanned}
use nvmetool_win.Controller.Fields.{elpe, word, dword}
use nvmetool_win.LogPages.{
  get_fw_slot_information, get_command_effects, get_supported_log_pages, page_request,
  get_error_information, get_endurance_group, to_32_bits, entries_from, max_groups,
  get_endurance_events,
}

-- A reply that passes the tests of the page of `size` bytes.
abbrev pub IsPage : Layout → ℕ → Reply → Type 0
IsPage l size r =
    (r.accepted ≡ true)
    × (r.version ≡ l.descriptor)
    × (r.size ≡ l.descriptor)
    × (l.specific_data ≤ r.data_offset)
    × (size ≤ r.data_length)

-- How the reading of a page from `w` ends: with 0 and the bytes that an accepted reply names, after
-- the one request, or with -1 and nothing to print, after that request or none.
abbrev pub PageRead : Platform → World → ℕ → ℕ → ℕ → ℤ × List ℕ → World → Type 0
PageRead p w lid size group result w' =
    let q = page_request p.layout lid size group in
    let r = p.respond w.issued q in
    ((result ≡ (succeeded, take size (drop r.data_offset r.bytes)))
      × IsPage p.layout size r
      × (w'.issued ≡ q ∷ w.issued))
    ⊎ ((result ≡ (failed, [])) × ((w'.issued ≡ w.issued) ⊎ (w'.issued ≡ q ∷ w.issued)))

-- The error log is read as a page of as many entries as the controller keeps.
pub get_error_information-PageRead :
    (p : Platform) (w : World)
    → let (result, w') = get_error_information p w in
      PageRead p w 0x01 (64 * (elpe w.controller + 1)) 0 result w'
unfolding get_error_information
get_error_information-PageRead p w = ground arith

-- The three pages of a fixed size are read as such: firmware slots, command effects, and the list of
-- the pages.
pub fixed_pages-PageRead :
    (p : Platform) (w : World)
    → let (slots, w1) = get_fw_slot_information p w in
      let (effects, w2) = get_command_effects p w in
      let (pages, w3) = get_supported_log_pages p w in
      PageRead p w 0x03 512 0 slots w1
      × PageRead p w 0x05 4096 0 effects w2
      × PageRead p w 0x00 (p.layout.supported_page * 256) 0 pages w3
unfolding get_fw_slot_information get_command_effects get_supported_log_pages
fixed_pages-PageRead p w = (ground arith, ground arith, ground arith)

-- The page of an endurance group is asked for only after a 'y' in either case, for the group that was
-- typed; otherwise nothing is sent and the result is -1.
pub get_endurance_group-PageRead :
    (p : Platform) (w : World)
    → let (result, w') = get_endurance_group p w in
      let group = to_32_bits (scanned (p.scan_hex (p.line w.lines_read))) in
      let key = first_char (p.line (w.lines_read + 1)) in
      (((key ≡ b'y') ⊎ (key ≡ b'Y')) × PageRead p w 0x09 512 group result w')
      ⊎ ((result ≡ (failed, [])) × (w'.issued ≡ w.issued))
unfolding get_endurance_group
get_endurance_group-PageRead p w = ground arith

-- `m_ullNumEntries`
abbrev pub entry_count : List ℕ → ℕ
entry_count bytes = dword bytes 0 + 2 ^ 32 * dword bytes 4

length-entries_from :
    (bytes : List ℕ) (rounds i : ℕ)
    → length (entries_from bytes rounds i)
      ≡ (if leb rounds (entry_count bytes - i) then rounds else entry_count bytes - i)
unfolding entries_from
length-entries_from bytes zero i = ground arith
length-entries_from bytes (suc rounds) i = ground (arith, length-entries_from bytes rounds (i + 1))

same_place : (bytes : List ℕ) (i j : ℕ) → i ≡ j → word bytes (8 + 2 * i) ≡ word bytes (8 + 2 * j)
same_place bytes i j e = ap (λ n. word bytes (8 + 2 * n)) e

entries_from_at :
    (bytes : List ℕ) (rounds i k : ℕ)
    → k < rounds
    → i + k < entry_count bytes
    → get_or (entries_from bytes rounds i) k 0 ≡ word bytes (8 + 2 * (i + k))
unfolding entries_from
entries_from_at bytes zero i k short more = absurd (omega arith)
entries_from_at bytes (suc rounds) i zero short more =
    ground (arith, same_place bytes i (i + 0) (omega arith))
entries_from_at bytes (suc rounds) i (suc k) short more = ground (
  arith,
  entries_from_at bytes rounds (i + 1) k (omega arith) (omega arith),
  same_place bytes (i + 1 + k) (i + suc k) (omega arith),
)

capped :
    (size c k : ℕ)
    → size ≡ (if leb max_groups (c - 0) then max_groups else c - 0)
    → k < size
    → (size ≡ (if leb max_groups c then max_groups else c))
      × (k < max_groups)
      × (0 + k < c)
      × (8 + 2 * k + 2 ≤ 512)
capped size c k e h = ground arith

-- The entries of the event page that are printed: as many as the page counts, at most 252, and each is
-- the one at its place in the page, whose two bytes lie inside the 512 bytes that are read.
pub entries_from_lem :
    (bytes : List ℕ) (k : ℕ)
    → k < length (entries_from bytes max_groups 0)
    → (length (entries_from bytes max_groups 0)
        ≡ (if leb max_groups (entry_count bytes) then max_groups else entry_count bytes))
      × (get_or (entries_from bytes max_groups 0) k 0 ≡ word bytes (8 + 2 * k))
      × (8 + 2 * k + 2 ≤ 512)
entries_from_lem bytes k h =
    let (size, short, more, inside) =
      capped (length (entries_from bytes max_groups 0)) (entry_count bytes) k
        (length-entries_from bytes max_groups 0) h in
    (
      size,
      entries_from_at bytes max_groups 0 k short more ∙ same_place bytes (0 + k) k (omega arith),
      inside,
    )

-- The event page is read as a page of 512 bytes; its entries are printed only where that succeeds.
pub get_endurance_events-PageRead :
    (p : Platform) (w : World)
    → let ((result, entries), w') = get_endurance_events p w in
      let r = p.respond w.issued (page_request p.layout 0x0f 512 0) in
      let bytes = take 512 (drop r.data_offset r.bytes) in
      (PageRead p w 0x0f 512 0 (succeeded, bytes) w'
        × (result ≡ succeeded)
        × (entries ≡ entries_from bytes max_groups 0))
      ⊎ ((result ≡ failed) × (entries ≡ []))
unfolding get_endurance_events
get_endurance_events-PageRead p w = ground arith
