-- ===== src/Console/Conversion.antt =====
-- strConvertUTF8toMultiByte of src/NVMeUtils.c, with the blocks that it allocates and frees. The
-- conversions of Windows and the C library's calloc are parameters.
pub mod Blocks
use nvmetool_win.Base.{ℕ, ◌*◌, Bool, List, [], ◌∷◌, ◌++◌, Option, none, some, ◌==◌, if◌then◌else◌}

-- MultiByteToWideChar of UTF-8 and WideCharToMultiByte to the code page of the system, each first asked
-- for the length with the NUL, which is 0 where it fails; whether the n-th calloc has so many bytes.
pub record Converter : Type 0 where
  pub wide_length : List ℕ → ℕ
  pub wide : List ℕ → ℕ → Option (List ℕ)
  pub text_length : List ℕ → ℕ
  pub text : List ℕ → ℕ → Option (List ℕ)
  pub allocates : ℕ → ℕ → Bool

-- `strTemp` and `strDest`
pub data Block : Type 0 where
  wide_block : Block
  text_block : Block

pub data Step : Type 0 where
  alloc : Block → Step
  free : Block → Step

-- The text that `strDest` holds: calloc leaves it empty where the conversion fails.
abbrev pub text_or_empty : Option (List ℕ) → List ℕ
text_or_empty none = []
text_or_empty (some t) = t

-- The second conversion. Where calloc has no memory the result is NULL.
unfoldable pub convert_wide : Converter → Option (List ℕ) → Option (List ℕ) × List Step
convert_wide k none = (none, [])
convert_wide k (some s) =
    let n = k.text_length s in
    if n == 0
    then (none, [])
    else if k.allocates 1 (n * 2)
    then (some (text_or_empty (k.text s n)), alloc text_block ∷ [])
    else (none, [])

-- strConvertUTF8toMultiByte: `strTemp` is freed at `error_exit` where it was allocated.
unfoldable pub convert_utf8 : Converter → List ℕ → Option (List ℕ) × List Step
unfolding convert_wide
convert_utf8 k s =
    let n = k.wide_length s in
    if n == 0
    then (none, [])
    else if k.allocates 0 (n * 2)
    then (let (r, steps) = convert_wide k (k.wide s n) in
        (r, alloc wide_block ∷ (steps ++ (free wide_block ∷ []))))
    else (none, [])
