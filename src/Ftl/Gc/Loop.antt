-- ===== src/Ftl/Gc/Loop.antt =====
-- ftl_optr/blkmgr.c: the loop of `garbage_collection` over the pages of its victim, to its end.
use optr_jasmine.Prelude.{
  ℕ, ◌+◌, ◌*◌, ◌<◌, ◌≡◌, inl, inr, refl, arith, true, false, some, ◌==◌, Bool-cases, for_try,
  for_try_inv,
}
use optr_jasmine.Config.{pages_per_vblk}
use optr_jasmine.Pgmap.{get_ppn}
use optr_jasmine.Ftl.{Ftl}
use optr_jasmine.Ftl.Gc.{gc_page_round}
use optr_jasmine.Ftl.Gc.Victim.{is_valid, count_valid, HasRoom, Kept, Done, Done-start}
use optr_jasmine.Ftl.Gc.Round.{gc_page_round-Done}

-- What the loop does to the victim.
pub record VictimMoved (bank vt_blk : ℕ) (lpns : ℕ → ℕ) (s : Ftl) (n : ℕ) (s' : Ftl) : Type 0 where
  pub count : n ≡ count_valid s vt_blk lpns 127
  pub kept : (k : ℕ) → k < 127 → is_valid s vt_blk lpns k ≡ true → Kept bank vt_blk lpns k n s s'
  pub gone : (k : ℕ) → k < 127 → is_valid s' vt_blk lpns k ≡ false
  pub stay :
      (q : ℕ)
      → ((k : ℕ) → k < 127 → is_valid s vt_blk lpns k ≡ true → (lpns k == q) ≡ false)
      → get_ppn s'.pgmap q ≡ get_ppn s.pgmap q

pub Done-gone :
    (bank vt_blk : ℕ) (lpns : ℕ → ℕ) (s : Ftl) (n : ℕ) (s' : Ftl)
    → HasRoom bank vt_blk lpns s
    → Done bank vt_blk lpns s 127 n s'
    → (k : ℕ) → k < 127
    → is_valid s' vt_blk lpns k ≡ false
Done-gone bank vt_blk lpns s n s' h d k lt =
    let count = d.count in
    let pages = h.pages in
    let other = h.other in
    elim (Bool-cases (is_valid s vt_blk lpns k)) [
      | inl v ↦ let kept = d.kept k lt v in let from = kept.from in let to = kept.to in ground arith
      | inr stale ↦ elim (d.fate (lpns k)) [
        | inl e ↦ rw e stale
        | inr (from, to, j, j_lt, same, was) ↦ ground arith
      ]
    ]

pub Done-stay :
    (bank vt_blk : ℕ) (lpns : ℕ → ℕ) (s : Ftl) (n : ℕ) (s' : Ftl)
    → Done bank vt_blk lpns s 127 n s'
    → (q : ℕ) → ((k : ℕ) → k < 127 → is_valid s vt_blk lpns k ≡ true → (lpns k == q) ≡ false)
    → get_ppn s'.pgmap q ≡ get_ppn s.pgmap q
Done-stay bank vt_blk lpns s n s' d q none_there = elim (d.fate q) [
  | inl e ↦ e
  | inr (from, to, k, lt, same, was) ↦
      let there : get_ppn s.pgmap (lpns k) ≡ vt_blk * pages_per_vblk + k = rw same was in
      let apart = none_there k lt (ground arith) in absurd (ground arith)
]

-- When the open block of region 1 is another block than the victim and has room for the victim's
-- valid pages, in erased data pages and in its count, the log has room for as many entries, and the
-- firmware does not run without data, the loop over the victim's 127 data pages runs to its end: it
-- has counted the valid pages, the logical page of each stands in the open block and reads as it did
-- in the victim, with its logical page in the spare area, the map has no page in the victim any more
-- that its summary names, and no other logical page moves.
pub gc_page_round-VictimMoved :
    (bank vt_blk : ℕ) (lpns : ℕ → ℕ) (s : Ftl)
    → HasRoom bank vt_blk lpns s
    → (y : ℕ × Ftl) × (for_try 127 0 (gc_page_round bank vt_blk lpns) (0, s) ≡ some y)
      × VictimMoved bank vt_blk lpns s y.0 y.1
gc_page_round-VictimMoved bank vt_blk lpns s h =
    let (y, e, d) =
      for_try_inv (λ i x. Done bank vt_blk lpns s i x.0 x.1) (gc_page_round bank vt_blk lpns) 127
        (λ k x lt d. gc_page_round-Done bank vt_blk lpns s k x.0 x.1 h lt d) 127 0 (0, s) refl
        (Done-start bank vt_blk lpns s h) in
    (
      y,
      e,
      record {
        count = d.count;
        kept = d.kept;
        gone = Done-gone bank vt_blk lpns s y.0 y.1 h d;
        stay = Done-stay bank vt_blk lpns s y.0 y.1 d;
      },
    )
