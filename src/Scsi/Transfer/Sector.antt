-- ===== src/Scsi/Transfer/Sector.antt =====
-- The bytes of the sector that is written.
use nvmetool_win.Base.{◌∙◌, ap, ◌<◌, ◌*◌, ◌%◌, refl, zero, suc, get_or, length, ℕ, ◌≡◌, arith}
use nvmetool_win.Controller.Workaround.{codes}
use nvmetool_win.Scsi.Transfer.{fill}

length-fill : (n : ℕ) → length (fill n) ≡ 8 * n
unfolding fill
length-fill zero = refl
length-fill (suc n) = grind (arith, length-fill n)

-- The bytes of the first round, and from there on those of the rounds after it.
fill_at : (n i : ℕ) → i < 8 * n → get_or (fill n) i 0 ≡ get_or (codes "DEADBEEF") (i % 8) 0
unfolding fill
fill_at zero i h = omega arith
fill_at (suc n) zero h = refl
fill_at (suc n) (suc zero) h = refl
fill_at (suc n) (suc (suc zero)) h = refl
fill_at (suc n) (suc (suc (suc zero))) h = refl
fill_at (suc n) (suc (suc (suc (suc zero)))) h = refl
fill_at (suc n) (suc (suc (suc (suc (suc zero))))) h = refl
fill_at (suc n) (suc (suc (suc (suc (suc (suc zero)))))) h = refl
fill_at (suc n) (suc (suc (suc (suc (suc (suc (suc zero))))))) h = refl
fill_at (suc n) (suc (suc (suc (suc (suc (suc (suc (suc i)))))))) h =
    fill_at n i (omega arith) ∙ ap (λ m. get_or (codes "DEADBEEF") m 0) (omega arith)

-- The loop leaves 8 bytes for each round, and the byte at `i` is the letter of DEADBEEF at `i % 8`.
pub fill_lem :
    (n i : ℕ)
    → i < 8 * n
    → (length (fill n) ≡ 8 * n) × (get_or (fill n) i 0 ≡ get_or (codes "DEADBEEF") (i % 8) 0)
fill_lem n i h = (length-fill n, fill_at n i h)
