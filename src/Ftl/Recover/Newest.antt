-- ===== src/Ftl/Recover/Newest.antt =====
-- The second pass over the open blocks: which copy of a page wins.
use optr_jasmine.Prelude.{
  ℕ, ◌≤◌, ◌≡◌, ◌⊎◌, update, Bool, true, false, ◌&&◌, if◌then◌else◌, ltb, ◌==◌, List, [], ◌∷◌, All,
}
use optr_jasmine.Vst.Flash.{Spare}
use optr_jasmine.Vst.Page.{VPage}
use optr_jasmine.Ftl.{ftl_buf}
use optr_jasmine.Ftl.Recover.{Recovering, process_page}

-- A page found: its bank, where it stands, its spare area, and what reading it leaves in
-- FTL_BUF(bank).
pub record Found : Type 0 where
  pub bank : ℕ
  pub ppn : ℕ
  pub spare : Spare
  pub buf : VPage

-- The state after the read of a page.
unfoldable pub arrive : Found → Recovering → Recovering
arrive f r = record r {
  ftl = record r.ftl { spare = f.spare; ram = update r.ftl.ram (ftl_buf f.bank) f.buf };
}

-- `retrieve_page_entries` in mode 1, for the pages in the order they are found.
unfoldable pub remap : List Found → Recovering → Recovering
unfolding process_page arrive
remap [] r = r
remap (f ∷ found) r = remap found (process_page true f.ppn (arrive f r))

-- `f` holds a version of `lpn` that the recovery may use, newer than `since`.
abbrev usable : ℕ → ℕ → ℕ → Found → Bool
usable lpn e since f = f.spare.lpn == lpn && (ltb f.spare.epoch e && ltb since f.spare.epoch)

-- The newest usable version of `lpn` among those found and the one at hand, the first of them found
-- if the epochs are equal: its epoch and where it stands.
unfoldable pub newest : ℕ → ℕ → List Found → ℕ × ℕ → ℕ × ℕ
newest lpn e [] best = best
newest lpn e (f ∷ found) best =
    newest lpn e found (if usable lpn e best.0 f then (f.spare.epoch, f.ppn) else best)

-- `r` is `best`, or one of the copies of `lpn` found.
pub OneOf : ℕ → ℕ × ℕ → ℕ × ℕ → List Found → Type 0
OneOf lpn r best [] = r ≡ best
OneOf lpn r best (f ∷ found) =
    ((r ≡ (f.spare.epoch, f.ppn)) × (f.spare.lpn ≡ lpn)) ⊎ OneOf lpn r best found

-- The newest version: not older than the one at hand, nor than any copy found of an epoch below
-- `e`, and it is one of these.
pub record IsNewest (lpn e : ℕ) (found : List Found) (best r : ℕ × ℕ) : Type 0 where
  pub not_older : best.0 ≤ r.0
  pub greatest :
      All
        (λ (f : Found).
          ((f.spare.lpn == lpn && ltb f.spare.epoch e) ≡ false) ⊎ (f.spare.epoch ≤ r.0))
        found
  pub one_of : OneOf lpn r best found
