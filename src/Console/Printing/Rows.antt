-- ===== src/Console/Printing/Rows.antt =====
-- The buffer of a row.
use nvmetool_win.Base.{
  ℕ, ◌+◌, ◌/◌, ◌%◌, ◌≤◌, ◌≡◌, Bool, List, [], ◌∷◌, length, arith, All, replicate, ==_iff, ◌≢◌,
  Bool-cases, inl, inr, ◌==◌,
}
use nvmetool_win.Console.Printing.{RowBuffer, put_char, put_byte, rows_from, data_rows}

-- The index stands behind the bytes of the row and their blanks, and no index was larger than 18.
abbrev InRow : ℕ → RowBuffer → Type 0
InRow count r = (r.index ≡ count % 16 + count % 16 / 8) × All (λ i. i ≤ 18) r.written

put_byte-InRow :
    (is_print : ℕ → Bool) (count b : ℕ) (r : RowBuffer)
    → InRow count r
    → ((put_byte is_print count b r).index ≡ count % 16 + 1 + (count % 16 + 1) / 8)
      × All (λ i. i ≤ 18) (put_byte is_print count b r).written
unfolding put_byte
put_byte-InRow is_print count b r (at, within) = ground arith

rows_from_lem :
    (is_print : ℕ → Bool) (bytes : List ℕ) (count : ℕ) (r : RowBuffer)
    → InRow count r
    → (length (rows_from is_print bytes count r).0 ≡ (count % 16 + length bytes) / 16)
      × All (λ i. i ≤ 18) (rows_from is_print bytes count r).1.written
unfolding rows_from
rows_from_lem is_print [] count r (at, within) = (omega arith, within)
rows_from_lem is_print (b ∷ bs) count r h =
    let put = put_byte-InRow is_print count b r h in
    let r' = put_byte is_print count b r in
    let ended = put_char 0 r' in
    elim (Bool-cases ((count + 1) % 16 == 0)) [
      | inl full ↦
          let end : (count + 1) % 16 ≡ 0 = (==_iff _ _).0 full in
          let rest =
            rows_from_lem is_print bs (count + 1) (record ended { index = 0 })
              (omega arith, (omega arith, put.1)) in
          rw full (omega arith, rest.1)
      | inr more ↦
          let on : (count + 1) % 16 ≢ 0 = λ e. cc ((==_iff _ _).1 e) in
          let rest = rows_from_lem is_print bs (count + 1) r' (omega arith, put.1) in
          rw more (omega arith, rest.1)
    ]

-- Whatever characters can be printed, the buffer of 32 characters is written at the indices up to 18
-- alone, and a row of text is printed for each 16 bytes; that of the bytes behind the last 16 is not.
pub data_rows_lem :
    (is_print : ℕ → Bool) (bytes : List ℕ)
    → (length (data_rows is_print bytes).0 ≡ length bytes / 16)
      × All (λ i. i ≤ 18) (data_rows is_print bytes).1.written
unfolding data_rows
data_rows_lem is_print bytes =
    let (count, written) =
      rows_from_lem is_print bytes 0 (record { text = replicate 32 0; index = 0; written = [] })
        (omega arith, tt) in
    (omega arith, written)
