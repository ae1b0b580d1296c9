-- ===== src/Ftl/Store/Collect.antt =====
-- ftl_optr/blkmgr.c: the loop of `garbage_collection` over its victim, with the contents of the
-- logical pages and the counts of valid pages.
use optr_jasmine.Prelude.{
  ℕ, ◌+◌, ◌*◌, ◌/◌, ◌%◌, ◌<◌, ◌≡◌, ◌≢◌, refl, ap, subst, ◌∙◌, inl, inr, arith, Bool, true, false,
  ◌&&◌, some, ◌==◌, Bool-cases, ==_refl, one_if, count_true_none, for_try, for_try_inv,
}
use optr_jasmine.Config.{num_lpages, pages_per_vblk, vblks_per_bank}
use optr_jasmine.Blkmgr.{get_vcount}
use optr_jasmine.Pgmap.{get_ppn, get_active_ppn}
use optr_jasmine.Ftl.{Ftl}
use optr_jasmine.Ftl.Host.{get_bank}
use optr_jasmine.Ftl.Gc.{gc_page_round}
use optr_jasmine.Ftl.Gc.Moves.{CanMove, Moved}
use optr_jasmine.Ftl.Gc.Victim.{is_valid, HasRoom, Done, Done-start}
use optr_jasmine.Ftl.Gc.Round.{Done-skip, Done-move, gc_page_round-Chosen}
use optr_jasmine.Ftl.Gc.Loop.{Done-gone}
use optr_jasmine.Ftl.Store.{Contents, Refines}
use optr_jasmine.Ftl.Store.Refine.{move-Refines}
use optr_jasmine.Ftl.Store.Count.{
  stands_in, mapped_count, CountedBut, mapped_count_change, exact_after, same_cell,
}

-- The victim, which the counts leave out while its pages move.
abbrev pub is_victim : ℕ → ℕ → ℕ → ℕ → Bool
is_victim bank vt_blk b k = b == bank && k == vt_blk

-- The victim's page list `lpns` names the logical pages in it: each valid entry is a page of the bank,
-- and each page that the map has in the victim is listed at its place.
pub record Lists (bank vt_blk : ℕ) (lpns : ℕ → ℕ) (s : Ftl) : Type 0 where
  pub nonzero : vt_blk ≢ 0
  pub own :
      (k : ℕ)
      → k < 127
      → is_valid s vt_blk lpns k ≡ true
      → (get_bank (lpns k) ≡ bank) × (lpns k < num_lpages)
  pub names :
      (q : ℕ)
      → stands_in s.pgmap bank vt_blk q ≡ true
      → (get_ppn s.pgmap q % pages_per_vblk < 127) × (lpns (get_ppn s.pgmap q % pages_per_vblk) ≡ q)

move-CountedBut :
    (bank vt_blk vt_page lpn : ℕ) (s s' : Ftl)
    → CountedBut (is_victim bank vt_blk) s
    → CanMove bank vt_blk vt_page s
    → get_bank lpn ≡ bank
    → lpn < num_lpages
    → get_ppn s.pgmap lpn ≡ vt_blk * pages_per_vblk + vt_page
    → get_active_ppn s.pgmap bank 1 ≢ 0
    → Moved bank vt_blk vt_page lpn s s'
    → CountedBut (is_victim bank vt_blk) s'
move-CountedBut bank vt_blk vt_page lpn s s' h v own lt at nz w =
    let ppn = get_active_ppn s.pgmap bank 1 in
    let page = v.page in
    let from = v.from in
    let room = v.room in
    let target : ppn / pages_per_vblk < vblks_per_bank = ground arith in
    record {
      exact = λ b k b_lt k_lt other.
          let here = w.place lpn in
          let moved_from : stands_in s.pgmap b k lpn ≡ false = ground arith in
          exact_after (get_vcount s.blkmgr b k) (get_vcount s'.blkmgr b k)
            (mapped_count s.pgmap b k) (mapped_count s'.pgmap b k) false
            (stands_in s'.pgmap b k lpn) (h.exact b k b_lt k_lt other)
            (subst
              (λ x.
                mapped_count s'.pgmap b k + one_if x
                ≡ mapped_count s.pgmap b k + one_if (stands_in s'.pgmap b k lpn))
              moved_from (mapped_count_change s.pgmap s'.pgmap lpn ppn b k lt w.place))
            (w.counts b k
              ∙ rw (same_cell b k bank (ppn / pages_per_vblk) k_lt target, here, ==_refl lpn)
                  (ground arith))
            (λ t. absurd (ground (arith, t))) (λ n. ground arith);
      inside = λ q q_lt. let old = h.inside q q_lt in rw (w.place q) (ground arith);
    }

-- What the loop has done to the first `i` pages of the victim.
record Collecting (c : Contents) (bank vt_blk : ℕ) (lpns : ℕ → ℕ) (s : Ftl) (i n : ℕ) (s' : Ftl)
    : Type 0 where
  done : Done bank vt_blk lpns s i n s'
  counted : CountedBut (is_victim bank vt_blk) s'
  refines : Refines c s'
  left : mapped_count s'.pgmap bank vt_blk + n ≡ mapped_count s.pgmap bank vt_blk

Collecting-step :
    (c : Contents) (bank vt_blk : ℕ) (lpns : ℕ → ℕ) (s : Ftl) (i n : ℕ) (s' : Ftl)
    → HasRoom bank vt_blk lpns s
    → Lists bank vt_blk lpns s
    → get_active_ppn s.pgmap bank 1 ≢ 0
    → i < 127
    → Collecting c bank vt_blk lpns s i n s'
    → (y : ℕ × Ftl) × (gc_page_round bank vt_blk lpns i (n, s') ≡ some y)
      × Collecting c bank vt_blk lpns s (i + 1) y.0 y.1
Collecting-step c bank vt_blk lpns s i n s' h l nz lt g =
    elim (gc_page_round-Chosen bank vt_blk lpns s i n s' h lt g.done) [
      | inr (e, stale) ↦ (
        (n, s'),
        e,
        record {
          done = Done-skip bank vt_blk lpns s i n s' stale g.done;
          counted = g.counted;
          refines = g.refines;
          left = g.left;
        },
      )
      | inl (s'', e, valid, valid', less, can, moved, m) ↦
          let (own, own_lt) = l.own i lt valid in
          let nonzero = l.nonzero in
          let other = h.other in
          let pages = h.pages in
          let active = g.done.active in
          let at : get_ppn s'.pgmap (lpns i) ≡ vt_blk * pages_per_vblk + i = ground arith in
          let nz' : get_active_ppn s'.pgmap bank 1 ≢ 0 = ground arith in
          let change =
            mapped_count_change s'.pgmap s''.pgmap (lpns i) (get_active_ppn s'.pgmap bank 1) bank
              vt_blk own_lt m.place in
          let here = m.place (lpns i) in
          let was : stands_in s'.pgmap bank vt_blk (lpns i) ≡ true = ground arith in
          let now : stands_in s''.pgmap bank vt_blk (lpns i) ≡ false = ground arith in
          let left = g.left in
          let fewer : mapped_count s''.pgmap bank vt_blk + 1
              ≡ mapped_count s'.pgmap bank vt_blk + 0 =
            subst
              (λ x.
                mapped_count s''.pgmap bank vt_blk + 1
                ≡ mapped_count s'.pgmap bank vt_blk + one_if x)
              now
              (subst
                (λ x.
                  mapped_count s''.pgmap bank vt_blk + one_if x
                  ≡ mapped_count s'.pgmap bank vt_blk
                    + one_if (stands_in s''.pgmap bank vt_blk (lpns i)))
                was change) in
          (
            (n + 1, s''),
            e,
            record {
              done = Done-move bank vt_blk lpns s i n s' s'' h g.done less valid m;
              counted =
                  move-CountedBut bank vt_blk i (lpns i) s' s'' g.counted can own own_lt at nz' m;
              refines =
                  move-Refines c s' bank vt_blk i (lpns i) g.refines can own at (ground arith) nz'
                    moved;
              left = omega arith;
            },
          )
    ]

-- The victim when the loop is done with it: the counts of all other blocks are exact, the contents are
-- what they were, no logical page stands in it, and the loop has counted as many as stood in it.
pub record Emptied (c : Contents) (bank vt_blk : ℕ) (s : Ftl) (n : ℕ) (s' : Ftl) : Type 0 where
  pub counted : CountedBut (is_victim bank vt_blk) s'
  pub refines : Refines c s'
  pub nowhere : (q : ℕ) → stands_in s'.pgmap bank vt_blk q ≡ false
  pub number : n ≡ mapped_count s.pgmap bank vt_blk
  pub none_left : mapped_count s'.pgmap bank vt_blk ≡ 0

nowhere_left :
    (bank vt_blk : ℕ) (lpns : ℕ → ℕ) (s : Ftl) (n : ℕ) (s' : Ftl)
    → HasRoom bank vt_blk lpns s
    → Lists bank vt_blk lpns s
    → Done bank vt_blk lpns s 127 n s'
    → (q : ℕ) → stands_in s'.pgmap bank vt_blk q ≡ false
nowhere_left bank vt_blk lpns s n s' h l d q =
    elim (Bool-cases (stands_in s'.pgmap bank vt_blk q)) [
      | inr out ↦ out
      | inl there ↦
          let count = d.count in
          let pages = h.pages in
          let other = h.other in
          absurd (elim (d.fate q) [
            | inr (from, to, k, k_lt, same, was) ↦ ground arith
            | inl e ↦
                let stood : stands_in s.pgmap bank vt_blk q ≡ true = ground arith in
                let (k_lt, listed) = l.names q stood in
                let gone =
                  Done-gone bank vt_blk lpns s n s' h d (get_ppn s.pgmap q % pages_per_vblk) k_lt in
                let at : get_ppn s'.pgmap (lpns (get_ppn s.pgmap q % pages_per_vblk))
                    ≡ get_ppn s.pgmap q =
                  ap (get_ppn s'.pgmap) listed ∙ e in
                ground arith
          ])
    ]

pub gc_loop-Emptied :
    (c : Contents) (bank vt_blk : ℕ) (lpns : ℕ → ℕ) (s : Ftl)
    → HasRoom bank vt_blk lpns s
    → Lists bank vt_blk lpns s
    → get_active_ppn s.pgmap bank 1 ≢ 0
    → CountedBut (is_victim bank vt_blk) s
    → Refines c s
    → (n : ℕ) × (s' : Ftl) × (for_try 127 0 (gc_page_round bank vt_blk lpns) (0, s) ≡ some (n, s'))
      × Emptied c bank vt_blk s n s'
unfolding mapped_count
gc_loop-Emptied c bank vt_blk lpns s h l nz counted refines =
    let (y, e, g) =
      for_try_inv (λ i x. Collecting c bank vt_blk lpns s i x.0 x.1)
        (gc_page_round bank vt_blk lpns) 127
        (λ k x lt g. Collecting-step c bank vt_blk lpns s k x.0 x.1 h l nz lt g) 127 0 (0, s) refl
        (record {
          done = Done-start bank vt_blk lpns s h;
          counted = counted;
          refines = refines;
          left = omega arith;
        }) in
    let nowhere = nowhere_left bank vt_blk lpns s y.0 y.1 h l g.done in
    let zero_left : mapped_count y.1.pgmap bank vt_blk ≡ 0 =
      count_true_none (stands_in y.1.pgmap bank vt_blk) num_lpages (λ q lt. nowhere q) in
    let left = g.left in
    (
      y.0,
      y.1,
      e,
      record {
        counted = g.counted;
        refines = g.refines;
        nowhere = nowhere;
        number = omega arith;
        none_left = zero_left;
      },
    )
