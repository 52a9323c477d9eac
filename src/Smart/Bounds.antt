-- ===== src/Smart/Bounds.antt =====
-- Which bytes of the buffer a SMART reply makes the program read.
use nvmetool_win.Base.{
  inl, inr, ◌⊎◌, ◌≤◌, ◌<◌, ◌≡◌, ◌≢◌, ◌↔◌, Bool, true, false, ℤ, take, drop, arith,
}
use nvmetool_win.Platform.{Platform, Layout, Reply}
use nvmetool_win.Program.{World}
use nvmetool_win.WinFunc.{failed, succeeded}
use nvmetool_win.Smart.{smart_log_size, smart_buffer, smart_request, get_smart}

-- The reply passes the two tests of iNVMeGetSMART.
abbrev pub IsAccepted : Layout → Reply → Type 0
IsAccepted l r =
    (r.accepted ≡ true)
    × (r.version ≡ l.descriptor)
    × (r.size ≡ l.descriptor)
    × (l.specific_data ≤ r.data_offset)
    × (smart_log_size ≤ r.data_length)

-- There was memory for the buffer, and the reply passes the tests.
abbrev pub Works : Platform → World → Type 0
Works p w =
    (p.malloc w.allocations (smart_buffer p.layout) ≢ 0)
    × IsAccepted p.layout (p.respond w.issued (smart_request p.layout))

get_smart-or :
    (print : Bool) (nsid : ℤ) (p : Platform) (w : World)
    → ((get_smart print nsid p w).0 ≡ succeeded) ⊎ ((get_smart print nsid p w).0 ≡ failed)
unfolding get_smart
get_smart-or print nsid p w = ground arith

get_smart-Works :
    (print : Bool) (nsid : ℤ) (p : Platform) (w : World)
    → Works p w
    → (get_smart print nsid p w).0 ≡ succeeded
unfolding get_smart
get_smart-Works print nsid p w works = ground arith

get_smart-succeeded :
    (print : Bool) (nsid : ℤ) (p : Platform) (w : World)
    → (get_smart print nsid p w).0 ≡ succeeded
    → let r = p.respond w.issued (smart_request p.layout) in
      Works p w
      × ((get_smart print nsid p w).1.smart_log ≡ take smart_log_size (drop r.data_offset r.bytes))
unfolding get_smart
get_smart-succeeded print nsid p w e = ground arith

get_smart-failed :
    (print : Bool) (nsid : ℤ) (p : Platform) (w : World)
    → (get_smart print nsid p w).0 ≡ failed
    → (get_smart print nsid p w).1.smart_log ≡ w.smart_log
unfolding get_smart
get_smart-failed print nsid p w e = ground arith

-- Either there was memory and the reply is accepted: then the result is 0, and g_stSMARTLog holds the
-- 512 bytes at the offset that the reply names. Or not: then the result is -1 and g_stSMARTLog keeps
-- its bytes.
pub get_smart-succeeds_iff :
    (print : Bool) (nsid : ℤ) (p : Platform) (w : World)
    → let (result, w') = get_smart print nsid p w in
      let r = p.respond w.issued (smart_request p.layout) in
      (Works p w
        × (result ≡ succeeded)
        × (w'.smart_log ≡ take smart_log_size (drop r.data_offset r.bytes)))
      ⊎ (¬ Works p w × (result ≡ failed) × (w'.smart_log ≡ w.smart_log))
get_smart-succeeds_iff print nsid p w = elim (get_smart-or print nsid p w) [
  | inl e ↦ let h = get_smart-succeeded print nsid p w e in inl (h.0, e, h.1)
  | inr e ↦ inr (
    (λ works. grind (arith, get_smart-Works print nsid p w works)),
    e,
    get_smart-failed print nsid p w e,
  )
]

-- The test of the offset has no upper limit: where memory is there and the reply is accepted, the read
-- runs past the end of the buffer exactly where the driver's offset passes the place laid out for the
-- data (8 + sizeof of the specific data in the headers). A driver that keeps the offset of the request
-- is safe.
pub get_smart_reads_past_iff :
    (print : Bool) (nsid : ℤ) (p : Platform) (w : World)
    → w.overread ≡ false
    → p.layout.descriptor_data ≡ p.layout.query_parameters
    → p.malloc w.allocations (smart_buffer p.layout) ≢ 0
    → IsAccepted p.layout (p.respond w.issued (smart_request p.layout))
    → ((get_smart print nsid p w).1.overread ≡ true)
      ↔ (p.layout.specific_data < (p.respond w.issued (smart_request p.layout)).data_offset)
unfolding get_smart
get_smart_reads_past_iff print nsid p w safe same there ok = ground arith
