-- ===== src/Recovery/Result.antt =====
-- What `pull_epoch_incomplete` makes of the dependency list.
use optr_jasmine.Prelude.{ℕ, ◌≤◌, ◌<◌, ◌≡◌, ◌⊎◌, refl, subst, some}
use optr_jasmine.Recovery.{Recovery, RecoveryEnt, pull_sorted, insertion_sort, pull}
use optr_jasmine.Recovery.Sort.{SameEnts, sort-SameEnts, sort-IsSorted, sort-check_sorted}
use optr_jasmine.Recovery.Pull.{Closed, IsSorted, IsGreatestClosed, pull-IsGreatestClosed}

closed_at : (x y : RecoveryEnt) (e : ℕ) → x ≡ y → (e ≤ x.lo) ⊎ (x.hi < e) → (e ≤ y.lo) ⊎ (y.hi < e)
closed_at x y e p = subst (λ (d : RecoveryEnt). (e ≤ d.lo) ⊎ (d.hi < e)) p

closed_into : (n : ℕ) (a b : ℕ → RecoveryEnt) (e : ℕ) → SameEnts n a b → Closed b n e → Closed a n e
closed_into n a b e s c i h = let (j, k, p) = s.into i h in closed_at (b j) (a i) e p (c j k)

closed_back : (n : ℕ) (a b : ℕ → RecoveryEnt) (e : ℕ) → SameEnts n a b → Closed a n e → Closed b n e
closed_back n a b e s c i h = let (j, k, p) = s.back i h in closed_at (a j) (b i) e p (c j k)

greatest_same :
    (n : ℕ) (a b : ℕ → RecoveryEnt) (e r : ℕ)
    → SameEnts n a b
    → IsGreatestClosed b n e r
    → IsGreatestClosed a n e r
greatest_same n a b e r s g = record {
  below = g.below;
  closed = closed_into n a b r s g.closed;
  greatest = λ x h c. g.greatest x h (closed_back n a b x s c);
}

-- Once the dependency list is built, `pull_epoch_incomplete` ends and passes its own check of the
-- sort, whatever the list holds. It leaves the same dependencies in order of their sources, and
-- takes the incomplete epoch back to the greatest epoch that is not above the first incomplete
-- write and that no dependency of the list as it was built crosses.
pub pull_sorted-IsGreatestClosed :
    (r : Recovery)
    → (r' : Recovery) × (pull_sorted r ≡ some r')
      × SameEnts r.n_depent r.ents r'.ents
      × IsSorted r'.ents r.n_depent
      × IsGreatestClosed r.ents r.n_depent r.epoch_incomplete r'.epoch_incomplete
unfolding pull_sorted
pull_sorted-IsGreatestClosed r =
    let a = insertion_sort r.n_depent r.ents in
    let same = sort-SameEnts r.n_depent r.ents in
    let sorted = sort-IsSorted r.n_depent r.ents in
    (
      record r { ents = a; epoch_incomplete = pull r.n_depent a r.epoch_incomplete },
      rw (sort-check_sorted r.n_depent r.ents) refl,
      same,
      sorted,
      greatest_same r.n_depent r.ents a r.epoch_incomplete (pull r.n_depent a r.epoch_incomplete)
          same (pull-IsGreatestClosed r.n_depent a r.epoch_incomplete sorted),
    )
