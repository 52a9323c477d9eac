-- ===== src/SelfTest/Report/Entries.antt =====
-- Which entries of the self-test log are shown.
use nvmetool_win.Base.{ℕ, zero, suc, ◌+◌, ◌≡◌, ◌<◌, refl, ap, Bool, not, List, ◌==◌, ◌∙◌, arith}
use nvmetool_win.Loops.{collect, has_number, has_number-collect}
use nvmetool_win.SelfTest.Report.{
  SelfTestEntry, EntryReport, entry_report, entry_reports_from, self_test_report,
}

-- Whether an entry is among those shown.
abbrev pub shows : List EntryReport → ℕ → Bool
shows = has_number (λ r. r.number)

module _ (entry : ℕ → SelfTestEntry) where
  abbrev is_used : ℕ → Bool
  is_used i = not ((entry i).result == 0xF)

  entry_reports_lem :
      (rounds i : ℕ)
      → entry_reports_from entry rounds i ≡ collect is_used (λ k. entry_report k (entry k)) rounds i
  unfolding entry_reports_from
  entry_reports_lem zero i = refl
  entry_reports_lem (suc rounds) i = ground (arith, entry_reports_lem rounds (i + 1))

  numbered : (i : ℕ) → (entry_report i (entry i)).number ≡ i
  unfolding entry_report
  numbered i = refl

  -- Of the 20 entries of the log, the report shows exactly those whose result is not 15.
  pub entries_shown :
      (status percent k : ℕ)
      → k < 20
      → shows (self_test_report status percent entry).2 k ≡ not ((entry k).result == 0xF)
  unfolding self_test_report
  entries_shown status percent k lt =
      ap (λ rs. shows rs k) (entry_reports_lem 20 0)
      ∙ has_number-collect is_used (λ i. entry_report i (entry i)) (λ r. r.number) numbered 20 0 k
          (omega arith) (omega arith)
