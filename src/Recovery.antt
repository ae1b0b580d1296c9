-- ===== src/Recovery.antt =====
-- ftl_optr/recovery.c: what the recovery keeps, and the parts of it that work on that alone: the
-- count of the pages found of each write, the first incomplete write, the dependency list with its
-- sort, and the pull of the incomplete epoch. The walks over the log and the open blocks read the
-- flash and stand in Ftl.Recover.
pub mod Incomplete
pub mod Sort
pub mod Pull
pub mod Result
mod Tests
use optr_jasmine.Prelude.{
  ℕ, zero, suc, ◌+◌, ◌-◌, Bool, true, false, ◌&&◌, ◌||◌, not, Option, none, some, if◌then◌else◌,
  ltb, leb, ◌==◌, update, sub32, inc32, add32, assert, ◌>>◌, ◌>>=◌, for_range,
}

-- The two words at RECOVERY_ADDR + idx * 8: `pg_span` and a count while the writes are collected,
-- the source and the destination epoch of a dependency afterwards.
pub record RecoveryEnt : Type 0 where
  pub lo : ℕ
  pub hi : ℕ

-- `recovery_t`, and the words from RECOVERY_ADDR on.
pub record Recovery : Type 0 where
  pub epoch_commit : ℕ
  pub epoch_max : ℕ
  pub epoch_incomplete : ℕ
  pub n_depent : ℕ
  pub active_ppns : ℕ → ℕ → ℕ
  pub ents : ℕ → RecoveryEnt

unfoldable pub recovery_get_epoch_incomplete : Recovery → ℕ
recovery_get_epoch_incomplete r = r.epoch_incomplete

unfoldable pub add_recovery_ent : ℕ → ℕ → Recovery → Recovery
add_recovery_ent epoch pg_span r =
    let idx = sub32 epoch r.epoch_commit in
    record r {
      epoch_max = if ltb r.epoch_max epoch then epoch else r.epoch_max;
      ents = update r.ents idx (record { lo = pg_span; hi = inc32 (r.ents idx).hi });
    }

-- The test that ends the loop of `find_first_incomplete_write`, negated.
unfoldable pub is_complete : RecoveryEnt → Bool
is_complete e = not (e.lo == 0) && e.lo == e.hi

-- while (idx <= epoch_max - epoch_commit), with the rounds that are left
unfoldable pub scan_complete : ℕ → (ℕ → RecoveryEnt) → ℕ → ℕ
unfolding is_complete
scan_complete zero ents idx = idx
scan_complete (suc n) ents idx =
    let rest = scan_complete n ents (idx + 1) in if is_complete (ents idx) then rest else idx

unfoldable pub find_first_incomplete_write : Recovery → Recovery
unfolding scan_complete
find_first_incomplete_write r = record r {
  epoch_incomplete =
      add32 r.epoch_commit (scan_complete (sub32 r.epoch_max r.epoch_commit) r.ents 1);
}

unfoldable pub add_depent : ℕ → ℕ → ℕ → Recovery → Recovery
add_depent epoch_src epoch_dst idx r = record r {
  ents = update r.ents idx (record { lo = epoch_src; hi = epoch_dst });
}

unfoldable pub swap_ents : (ℕ → RecoveryEnt) → ℕ → ℕ → RecoveryEnt
swap_ents a j = update (update a (suc j) (a j)) j (a (suc j))

-- The inner loop of the insertion sort, from `j` down.
unfoldable pub sift : ℕ → (ℕ → RecoveryEnt) → ℕ → RecoveryEnt
unfolding swap_ents
sift zero a = a
sift (suc j) a =
    let rest = sift j (swap_ents a j) in if ltb (a (suc j)).lo (a j).lo then rest else a

unfoldable pub insertion_sort : ℕ → (ℕ → RecoveryEnt) → ℕ → RecoveryEnt
unfolding sift
insertion_sort n a = for_range (n - 1) 1 (λ i b. sift i b) a

-- The check after the sort, which never ends if the list is not in order.
unfoldable pub check_sorted : ℕ → ℕ → (ℕ → RecoveryEnt) → Bool
check_sorted zero i a = true
check_sorted (suc n) i a =
    let rest = check_sorted n (i + 1) a in if ltb (a (i + 1)).lo (a i).lo then false else rest

-- The last loop of `pull_epoch_incomplete`, over the list from its end.
unfoldable pub pull : ℕ → (ℕ → RecoveryEnt) → ℕ → ℕ
pull zero a e = e
pull (suc n) a e = pull n a (if ltb (a n).lo e && leb e (a n).hi then (a n).lo else e)

-- `pull_epoch_incomplete` once the list is built.
unfoldable pub pull_sorted : Recovery → Option Recovery
unfolding insertion_sort check_sorted pull
pull_sorted r = do
  let a = insertion_sort r.n_depent r.ents
  assert (check_sorted (r.n_depent - 1) 0 a)
  some (record r { ents = a; epoch_incomplete = pull r.n_depent a r.epoch_incomplete })
