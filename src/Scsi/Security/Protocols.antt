-- ===== src/Scsi/Security/Protocols.antt =====
-- What the list of security protocols is read as, and when the discovery data are asked for.
use nvmetool_win.Base.{
  pos, true, ◌⊎◌, arith, ◌∙◌, ap, sym, all_below, ltb, inl, inr, Bool-cases, ==_iff, ◌==◌, refl,
  all_below_lem, ◌%◌, ℕ, zero, suc, ◌+◌, ◌*◌, ◌≡◌, ◌<◌, ◌⊎◌, ◌↔◌, true, List, pos, arith,
}
use Prim.Native.Nat.{bit_and, bit_or}
use nvmetool_win.Platform.{Platform}
use nvmetool_win.Program.{World}
use nvmetool_win.WinFunc.{failed}
use nvmetool_win.Console.{first_char, scanned}
use nvmetool_win.Controller.Fields.{byte}
use nvmetool_win.WinFunc.{failed}
use nvmetool_win.Console.{scanned, first_char}
use nvmetool_win.Scsi.Security.{
  get_protocols, get_discovery, security_receive, list_length, mark, parse_protocols, get_protocols,
  get_discovery, security_receive,
}

-- The code `c` is among the first `n` of the list.
abbrev pub Listed : List ℕ → ℕ → ℕ → Type 0
Listed raw n c = (i : ℕ) × (i < n) × (byte raw (8 + i) ≡ c)

mark-Listed : (raw : List ℕ) (n c : ℕ) → mark raw n c ≡ true → Listed raw n c
unfolding mark
mark-Listed raw zero c h = cc
mark-Listed raw (suc n) c h = elim (Bool-cases (byte raw (8 + n) == c)) [
  | inl e ↦ (n, omega arith, (==_iff (byte raw (8 + n)) c).0 e)
  | inr e ↦
      (let earlier : mark raw n c ≡ true = grind arith in
        let (i, lt, same) = mark-Listed raw n c earlier in (i, omega arith, same))
]

mark-last : (raw : List ℕ) (n c : ℕ) → byte raw (8 + n) ≡ c → mark raw (suc n) c ≡ true
unfolding mark
mark-last raw n c h = ground arith

mark-earlier : (raw : List ℕ) (n c : ℕ) → mark raw n c ≡ true → mark raw (suc n) c ≡ true
unfolding mark
mark-earlier raw n c h = ground arith

Listed-mark : (raw : List ℕ) (n c : ℕ) → Listed raw n c → mark raw n c ≡ true
unfolding mark
Listed-mark raw zero c (i, lt, same) = absurd (omega arith)
Listed-mark raw (suc n) c (i, lt, same) = elim (Bool-cases (i == n)) [
  | inl e ↦ mark-last raw n c (ap (λ m. byte raw (8 + m)) (sym ((==_iff i n).0 e)) ∙ same)
  | inr e ↦ mark-earlier raw n c (Listed-mark raw n c (i, ground arith, same))
]

-- A code is marked exactly where it stands among the first entries of the list, as many of them as
-- the stored number says.
pub mark_iff :
    (raw : List ℕ) (p : Platform) (w : World) (c : ℕ)
    → let w' = (parse_protocols raw p w).1 in
      (w'.supports_protocol c ≡ true) ↔ Listed raw w'.protocol_count c
unfolding parse_protocols
mark_iff raw p w c = (mark-Listed raw (list_length raw) c, Listed-mark raw (list_length raw) c)

high_digit : (n : ℕ) → n < 256 → bit_and (n * 16 % 256) 0xf0 ≡ n % 16 * 16
high_digit n lt =
    (==_iff (bit_and (n * 16 % 256) 0xf0) (n % 16 * 16)).0
      (all_below_lem 256 (λ n. bit_and (n * 16 % 256) 0xf0 == n % 16 * 16) refl n lt)

or_zero : (n : ℕ) → n < 256 → bit_or n 0 ≡ n
or_zero n lt = (==_iff (bit_or n 0) n).0 (all_below_lem 256 (λ n. bit_or n 0 == n) refl n lt)

ltb_lem : (a b : ℕ) → ltb a b ≡ true → a < b
ltb_lem a b h = ground arith

or_bound : (n m : ℕ) → n < 256 → m < 16 → bit_or n (m * 16) < 256
or_bound n m nlt mlt = ltb_lem (bit_or n (m * 16)) 256 (
    all_below_lem 16 (λ m. ltb (bit_or n (m * 16)) 256)
      (all_below_lem 256 (λ n. all_below 16 (λ m. ltb (bit_or n (m * 16)) 256)) refl n nlt) m mlt)

byte_bound : (raw : List ℕ) (i : ℕ) → byte raw i < 256
byte_bound raw i = omega arith

list_length_bound : (raw : List ℕ) → list_length raw < 256
unfolding list_length
list_length_bound raw =
    let hi = byte raw 6 in
    let lo = byte raw 7 in
    rw (high_digit hi (byte_bound raw 6)) (or_bound lo (hi % 16) (byte_bound raw 7) (omega arith))

list_length-short : (raw : List ℕ) → byte raw 6 ≡ 0 → list_length raw ≡ byte raw 7
unfolding list_length
list_length-short raw h =
    ap (λ n. bit_or (byte raw 7) (bit_and (n * 16 % 256) 0xf0)) h
    ∙ or_zero (byte raw 7) (byte_bound raw 7)

-- The stored number is below 256, so that no entry that is read lies outside the buffer of 512 bytes.
-- It is the big-endian length of the list exactly where that length's high byte is 0.
pub list_length_lem :
    (raw : List ℕ)
    → (8 + list_length raw < 512)
      × ((list_length raw ≡ 256 * byte raw 6 + byte raw 7) ↔ (byte raw 6 ≡ 0))
list_length_lem raw =
    let bound = list_length_bound raw in
    let lo = byte_bound raw 7 in
    (omega arith, (λ h. omega arith, λ h. grind (arith, list_length-short raw h)))

-- What a run of Security Receive does. Discovery data are asked for only after the code 1, a 'y', and
-- an earlier list that has protocol 1, and the list only after the code 0 and a 'y'; any other run
-- leaves the requests and the stored list alone and returns -1.
pub security_receive_guarded :
    (p : Platform) (w : World)
    → let command = scanned (p.scan_hex (p.line w.lines_read)) in
      let confirmed = first_char (p.line (w.lines_read + 1)) ≡ b'y' in
      let asked : World = record w { lines_read = w.lines_read + 2 } in
      let (result, w') = security_receive p w in
      ((command ≡ pos 0) × confirmed × ((result, w') ≡ get_protocols p asked))
      ⊎ ((command ≡ pos 1)
          × confirmed
          × (w.supports_protocol 1 ≡ true)
          × ((result, w') ≡ get_discovery p asked))
      ⊎ ((result ≡ failed)
          × (w'.issued ≡ w.issued)
          × (w'.supports_protocol ≡ w.supports_protocol)
          × ¬ ((command ≡ pos 0) × confirmed)
          × ¬ ((command ≡ pos 1) × confirmed × (w.supports_protocol 1 ≡ true)))
unfolding security_receive
security_receive_guarded p w = ground arith
