-- ===== src/Recovery/Tests.antt =====
-- The recovery's own state at concrete values.
use optr_jasmine.Prelude.{ℕ, ◌+◌, ◌-◌, ◌≤◌, ◌<◌, ◌≡◌, ◌⊎◌, refl, arith, true, false, some, [], ◌∷◌}
use optr_jasmine.Recovery.{Recovery, is_complete, find_first_incomplete_write, pull_sorted}
use optr_jasmine.Recovery.Incomplete.{
  first_incomplete_lem, collect, count_epoch, collect-count_epoch,
}
use optr_jasmine.Recovery.Pull.{IsSorted, IsGreatestClosed}
use optr_jasmine.Recovery.Sort.{SameEnts}
use optr_jasmine.Recovery.Result.{pull_sorted-IsGreatestClosed}
use optr_jasmine.TestData.{test_recovery}

pull_sorted-IsGreatestClosed_example :
    (r' : Recovery) × (pull_sorted test_recovery ≡ some r')
    × SameEnts 2 test_recovery.ents r'.ents
    × IsSorted r'.ents 2
    × IsGreatestClosed test_recovery.ents 2 7 r'.epoch_incomplete
pull_sorted-IsGreatestClosed_example = pull_sorted-IsGreatestClosed test_recovery

first_incomplete_lem_example :
    (2 < (find_first_incomplete_write test_recovery).epoch_incomplete)
    × ((find_first_incomplete_write test_recovery).epoch_incomplete ≤ 8 + 1)
    × ((k : ℕ)
        → 2 < k
        → k < (find_first_incomplete_write test_recovery).epoch_incomplete
        → is_complete (test_recovery.ents (k - 2)) ≡ true)
    × (((find_first_incomplete_write test_recovery).epoch_incomplete ≡ 8 + 1)
        ⊎ (is_complete (
              test_recovery.ents ((find_first_incomplete_write test_recovery).epoch_incomplete - 2))
            ≡ false))
first_incomplete_lem_example = first_incomplete_lem test_recovery (omega arith) (omega arith)

collect-count_epoch_example :
    ((collect ((4, 2) ∷ (5, 1) ∷ (4, 2) ∷ []) test_recovery).ents (4 - 2)).hi
    ≡ (test_recovery.ents (4 - 2)).hi + count_epoch 4 ((4, 2) ∷ (5, 1) ∷ (4, 2) ∷ [])
collect-count_epoch_example =
    collect-count_epoch ((4, 2) ∷ (5, 1) ∷ (4, 2) ∷ []) 4 2 test_recovery refl
      ((omega arith, omega arith), ((omega arith, omega arith), ((omega arith, omega arith), tt)))
      (omega arith) (omega arith)
