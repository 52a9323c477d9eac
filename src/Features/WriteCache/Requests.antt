-- ===== src/Features/WriteCache/Requests.antt =====
-- What is sent for each entry, also without a confirmation.
use nvmetool_win.Base.{◌⊎◌, ℕ, ◌+◌, ◌≡◌, ◌≢◌, ◌<◌, ◌/◌, ◌%◌, ◌∷◌, pos, arith}
use nvmetool_win.Platform.{Platform}
use nvmetool_win.Program.{World}
use nvmetool_win.WinFunc.{failed}
use nvmetool_win.Console.{first_char, scanned}
use nvmetool_win.Features.WriteCache.{cache_buffer, cache_request, set_write_cache}

-- For the entries 0 to 3, with memory for the buffer, one Set Features command goes out whatever the
-- answer is. After a 'y' it names the feature 06h, with the lower bit of the entry as the enable bit and
-- the upper bit as the save bit; after any other answer it is a command whose two words are 0.
pub set_write_cache_sends :
    (p : Platform) (w : World) (n : ℕ)
    → scanned (p.scan_dec (p.line w.lines_read)) ≡ pos n
    → n < 4
    → p.malloc w.allocations (cache_buffer p.layout) ≢ 0
    → let after = (set_write_cache p w).1.issued in
      let key = first_char (p.line (w.lines_read + 1)) in
      let l = p.layout in
      ((key ≡ b'y')
        × (after
            ≡ cache_request l (l.set_features_cdw10 0x06 (n / 2)) (l.write_cache_cdw11 (n % 2))
              ∷ w.issued))
      ⊎ ((key ≢ b'y') × (after ≡ cache_request l 0 0 ∷ w.issued))
unfolding set_write_cache
set_write_cache_sends p w n e h m = ground arith

-- Any other entry sends nothing and returns -1.
pub set_write_cache_refuses :
    (p : Platform) (w : World)
    → ((n : ℕ) → n < 4 → scanned (p.scan_dec (p.line w.lines_read)) ≢ pos n)
    → ((set_write_cache p w).0 ≡ failed) × ((set_write_cache p w).1.issued ≡ w.issued)
unfolding set_write_cache
set_write_cache_refuses p w h = ground (arith, h 0, h 1, h 2, h 3)
