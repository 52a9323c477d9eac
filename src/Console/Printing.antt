-- ===== src/Console/Printing.antt =====
-- The printing helpers of src/NVMeUtils.c: printASCII, and the rows of text of PrintDataBuffer, whose
-- tests of characters (isascii, iscntrl, isprint) are the C library's.
pub mod Rows
use nvmetool_win.Base.{
  set_at, replicate, ℕ, zero, suc, ◌+◌, ◌%◌, Bool, List, [], ◌∷◌, ◌++◌, not, ◌||◌, ◌==◌,
  if◌then◌else◌,
}

-- The characters of a C string, up to its NUL.
abbrev pub until_nul : List ℕ → List ℕ
until_nul [] = []
until_nul (b ∷ bs) = let rest = until_nul bs in if b == 0 then [] else b ∷ rest

-- The loop of printASCII, which stops at the first character that it does not print.
unfoldable pub ascii_prefix : (ℕ → Bool) → (ℕ → Bool) → List ℕ → List ℕ
ascii_prefix is_ascii is_control [] = []
ascii_prefix is_ascii is_control (b ∷ bs) =
    let rest = ascii_prefix is_ascii is_control bs in
    if not (is_ascii b) || is_control b then [] else b ∷ rest

unfoldable pub print_ascii : (ℕ → Bool) → (ℕ → Bool) → List ℕ → List ℕ
unfolding ascii_prefix
print_ascii is_ascii is_control bytes = ascii_prefix is_ascii is_control (until_nul bytes)

-- The buffer `Str` of PrintDataBuffer with its index, and the indices that were written, the latest
-- first.
pub record RowBuffer : Type 0 where
  pub text : List ℕ
  pub index : ℕ
  pub written : List ℕ

-- `Str[i++] = b`
abbrev pub put_char : ℕ → RowBuffer → RowBuffer
put_char b r = record {
  text = set_at r.text r.index b;
  index = r.index + 1;
  written = r.index ∷ r.written;
}

-- A byte, or a dot for one that cannot be printed, and a blank after each eight.
unfoldable pub put_byte : (ℕ → Bool) → ℕ → ℕ → RowBuffer → RowBuffer
put_byte is_print count b r =
    let r' = put_char (if is_print b then b else b'.') r in
    if (count + 1) % 8 == 0 then put_char b' ' r' else r'

-- The loop of PrintDataBuffer: the rows of text that are printed, and the buffer at the end.
unfoldable pub rows_from : (ℕ → Bool) → List ℕ → ℕ → RowBuffer → List (List ℕ) × RowBuffer
unfolding put_byte
rows_from is_print [] count r = ([], r)
rows_from is_print (b ∷ bs) count r =
    let r' = put_byte is_print count b r in
    let ended = put_char 0 r' in
    let on = rows_from is_print bs (count + 1) r' in
    let next = rows_from is_print bs (count + 1) (record ended { index = 0 }) in
    if (count + 1) % 16 == 0 then (until_nul ended.text ∷ next.0, next.1) else on

unfoldable pub data_rows : (ℕ → Bool) → List ℕ → List (List ℕ) × RowBuffer
unfolding rows_from
data_rows is_print bytes =
    rows_from is_print bytes 0 (record { text = replicate 32 0; index = 0; written = [] })
