-- ===== src/Namespace/ActiveList.antt =====
-- Which namespaces src/NVMeIdentifyActiveNSIDList.c prints.
use nvmetool_win.Base.{
  ℕ, zero, suc, ◌+◌, ◌*◌, ◌<◌, ◌≤◌, ◌≡◌, ◌≢◌, List, length, get_or, ap, ◌∙◌, arith,
}
use nvmetool_win.Controller.Fields.{dword}
use nvmetool_win.Namespace.{list_from}

-- The entry at a place of the list.
abbrev pub entry : List ℕ → ℕ → ℕ
entry bytes i = dword bytes (4 * i)

same_entry : (bytes : List ℕ) (i j : ℕ) → i ≡ j → entry bytes i ≡ entry bytes j
same_entry bytes i j e = ap (entry bytes) e

length-list_from : (bytes : List ℕ) (rounds i : ℕ) → length (list_from bytes rounds i) ≤ rounds
unfolding list_from
length-list_from bytes zero i = ground arith
length-list_from bytes (suc rounds) i = ground (arith, length-list_from bytes rounds (i + 1))

list_from_at :
    (bytes : List ℕ) (rounds i k : ℕ)
    → k < length (list_from bytes rounds i)
    → (get_or (list_from bytes rounds i) k 0 ≡ entry bytes (i + k)) × (entry bytes (i + k) ≢ 0)
unfolding list_from
list_from_at bytes zero i k h = absurd (ground arith)
list_from_at bytes (suc rounds) i zero h = ground (arith, same_entry bytes i (i + 0) (omega arith))
list_from_at bytes (suc rounds) i (suc k) h = ground (
  arith,
  list_from_at bytes rounds (i + 1) k,
  same_entry bytes (i + 1 + k) (i + suc k) (omega arith),
)

list_from_stops :
    (bytes : List ℕ) (rounds i : ℕ)
    → length (list_from bytes rounds i) < rounds
    → entry bytes (i + length (list_from bytes rounds i)) ≡ 0
unfolding list_from
list_from_stops bytes zero i h = absurd (ground arith)
list_from_stops bytes (suc rounds) i h =
    let n = length (list_from bytes rounds (i + 1)) in
    ground (
      arith,
      list_from_stops bytes rounds (i + 1),
      same_entry bytes i (i + 0) (omega arith),
      same_entry bytes (i + 1 + n) (i + suc n) (omega arith),
    )

-- The namespaces printed are the entries of the list up to the first that is 0, or all of the 1024:
-- each is the entry at its place and not 0, its four bytes lie inside the 4096 bytes read, and where
-- fewer than 1024 are printed, the next entry is 0.
pub list_from_lem :
    (bytes : List ℕ)
    → let ids = list_from bytes 1024 0 in
      (length ids ≤ 1024)
      × ((k : ℕ)
          → k < length ids
          → (get_or ids k 0 ≡ entry bytes k) × (entry bytes k ≢ 0) × (4 * k + 4 ≤ 4096))
      × (length ids < 1024 → entry bytes (length ids) ≡ 0)
list_from_lem bytes =
    let ids = list_from bytes 1024 0 in
    let bound = length-list_from bytes 1024 0 in
    (
      bound,
      (λ k h.
          let (same, there) = list_from_at bytes 1024 0 k h in
          let shift = same_entry bytes (0 + k) k (omega arith) in
          (same ∙ shift, (λ z. there (shift ∙ z)), omega (arith, bound, h))),
      (λ h. ap (entry bytes) (omega arith) ∙ list_from_stops bytes 1024 0 h),
    )
