-- ===== src/Ftl/Gc/Round.antt =====
-- ftl_optr/blkmgr.c: one round of the loop of `garbage_collection` over the pages of its victim.
use optr_jasmine.Prelude.{
  ℕ, ◌+◌, ◌-◌, ◌*◌, ◌/◌, ◌%◌, ◌≤◌, ◌<◌, ◌≡◌, ◌⊎◌, inl, inr, refl, sym, subst, ◌∙◌, arith, true,
  false, some, ◌==◌, Bool-cases, ==_refl, inc32,
}
use optr_jasmine.Config.{pages_per_vblk, vblks_per_bank, sectors_per_page}
use optr_jasmine.Pgmap.{get_ppn, get_active_ppn}
use optr_jasmine.Vst.Flash.Access.{Agrees, read-same}
use optr_jasmine.Ftl.{Ftl}
use optr_jasmine.Ftl.Gc.{move_page, gc_page_round}
use optr_jasmine.Ftl.Gc.Moves.{CanMove, Moved, move_page-Moved}
use optr_jasmine.Ftl.Gc.Victim.{
  is_valid, count_valid, count_valid-add, count_valid_le, HasRoom, Kept, Done, Done-is_valid,
  Done-CanMove,
}

-- A page that is not valid is passed over.
pub Done-skip :
    (bank vt_blk : ℕ) (lpns : ℕ → ℕ) (s : Ftl) (i n : ℕ) (s' : Ftl)
    → is_valid s vt_blk lpns i ≡ false
    → Done bank vt_blk lpns s i n s'
    → Done bank vt_blk lpns s (i + 1) n s'
Done-skip bank vt_blk lpns s i n s' stale d = record {
  count = d.count ∙ sym (count_valid-add s vt_blk lpns i ∙ rw stale (omega arith));
  active = d.active;
  vcount = d.vcount;
  cnt = d.cnt;
  real = d.real;
  junk = d.junk;
  source = d.source;
  erased = d.erased;
  fate = λ q. elim (d.fate q) [
    | inl e ↦ inl e
    | inr (from, to, k, lt, same, was) ↦ inr (from, to, k, omega arith, same, was)
  ];
  kept = λ k lt v. elim (Bool-cases (k == i)) [
    | inl e ↦ absurd (
        let same : k ≡ i = ground arith in
        ground (arith, subst (λ x. is_valid s vt_blk lpns x ≡ true) same v, stale))
    | inr ne ↦ d.kept k (ground arith) v
  ];
}

-- A page that was kept stays so when another one moves.
Kept-stays :
    (bank vt_blk : ℕ) (lpns : ℕ → ℕ) (s : Ftl) (i n k : ℕ) (s' s'' : Ftl)
    → HasRoom bank vt_blk lpns s
    → Done bank vt_blk lpns s i n s'
    → n < count_valid s vt_blk lpns 127
    → Moved bank vt_blk i (lpns i) s' s''
    → (lpns k == lpns i) ≡ false
    → Kept bank vt_blk lpns k n s s'
    → Kept bank vt_blk lpns k (n + 1) s s''
Kept-stays bank vt_blk lpns s i n k s' s'' h d less m ne kept =
    let place : get_ppn s''.pgmap (lpns k) ≡ get_ppn s'.pgmap (lpns k) =
      m.place (lpns k) ∙ rw ne refl in
    let ppn = get_ppn s'.pgmap (lpns k) in
    let from = kept.from in
    let to = kept.to in
    let pages = h.pages in
    let active = d.active in
    record {
      from = omega arith;
      to = omega arith;
      stored = λ dst.
          let (r, got, agrees) = kept.stored dst in
          (
            r,
            rw place (
                read-same s'.flash s''.flash bank (ppn / pages_per_vblk) (ppn % pages_per_vblk) dst
                  m.junk
                  (m.others bank (ppn / pages_per_vblk) (ppn % pages_per_vblk) (ground arith))
                ∙ got),
            agrees,
          );
    }

-- The page that moves is kept.
Kept-Moved :
    (bank vt_blk : ℕ) (lpns : ℕ → ℕ) (s : Ftl) (i n : ℕ) (s' s'' : Ftl)
    → Done bank vt_blk lpns s i n s'
    → Moved bank vt_blk i (lpns i) s' s''
    → Kept bank vt_blk lpns i (n + 1) s s''
Kept-Moved bank vt_blk lpns s i n s' s'' d m =
    let active = d.active in
    let place : get_ppn s''.pgmap (lpns i) ≡ get_active_ppn s'.pgmap bank 1 =
      m.place (lpns i) ∙ rw (==_refl (lpns i)) refl in
    record {
      from = omega arith;
      to = omega arith;
      stored = λ dst.
          let (r, got, agrees) = m.stored dst in
          (
            r,
            rw place (got ∙ rw d.junk refl),
            subst (λ x. Agrees x.vpage r 0 sectors_per_page) (d.source i) agrees,
          );
    }

-- A valid page moves.
pub Done-move :
    (bank vt_blk : ℕ) (lpns : ℕ → ℕ) (s : Ftl) (i n : ℕ) (s' s'' : Ftl)
    → HasRoom bank vt_blk lpns s
    → Done bank vt_blk lpns s i n s'
    → n < count_valid s vt_blk lpns 127
    → is_valid s vt_blk lpns i ≡ true
    → Moved bank vt_blk i (lpns i) s' s''
    → Done bank vt_blk lpns s (i + 1) (n + 1) s''
Done-move bank vt_blk lpns s i n s' s'' h d less valid m =
    let a0 = get_active_ppn s.pgmap bank 1 in
    let blk = a0 / pages_per_vblk in
    let pages = h.pages in
    let other = h.other in
    let active = d.active in
    let count = d.count in
    let same_blk : get_active_ppn s'.pgmap bank 1 / pages_per_vblk ≡ blk = omega arith in
    let page : get_active_ppn s'.pgmap bank 1 % pages_per_vblk ≡ a0 % pages_per_vblk + n =
      omega arith in
    let moved_count = m.counts bank blk in
    record {
      count = sym (count_valid-add s vt_blk lpns i ∙ rw valid (omega arith));
      active = omega (arith, m.active);
      vcount =
          moved_count
          ∙ rw (same_blk, ==_refl (bank * vblks_per_bank + blk), d.vcount) (omega arith);
      cnt = omega (arith, m.cnt, d.cnt);
      real = m.real;
      junk = m.junk ∙ d.junk;
      source = λ p. m.others bank vt_blk p (ground arith) ∙ d.source p;
      erased = λ p from to. rw (m.others bank blk p (ground arith)) (d.erased p (omega arith) to);
      fate = λ q. elim (Bool-cases (q == lpns i)) [
        | inl e ↦
            let same : q ≡ lpns i = ground arith in
            let place = m.place q in
            inr (
              ground arith,
              ground arith,
              i,
              omega arith,
              sym same,
              rw same (ground (arith, valid)),
            )
        | inr ne ↦
            let place : get_ppn s''.pgmap q ≡ get_ppn s'.pgmap q = m.place q ∙ rw ne refl in
            elim (d.fate q) [
              | inl e ↦ inl (place ∙ e)
              | inr (from, to, k, lt, same, was) ↦
                  inr (omega arith, omega arith, k, omega arith, same, was)
            ]
      ];
      kept = λ k lt v. elim (Bool-cases (k == i)) [
        | inl e ↦
            let same : i ≡ k = ground arith in
            subst (λ x. Kept bank vt_blk lpns x (n + 1) s s'') same
              (Kept-Moved bank vt_blk lpns s i n s' s'' d m)
        | inr ne ↦
            let apart : (lpns k == lpns i) ≡ false = ground arith in
            Kept-stays bank vt_blk lpns s i n k s' s'' h d less m apart (d.kept k (ground arith) v)
      ];
    }

-- What a round of the loop does: the page is valid and moves, or it is passed over.
abbrev pub Chosen : ℕ → ℕ → (ℕ → ℕ) → Ftl → ℕ → ℕ → Ftl → Type 0
Chosen bank vt_blk lpns s i n s' =
    ((s'' : Ftl) × (gc_page_round bank vt_blk lpns i (n, s') ≡ some (n + 1, s''))
      × (is_valid s vt_blk lpns i ≡ true)
      × (is_valid s' vt_blk lpns i ≡ true)
      × (n < count_valid s vt_blk lpns 127)
      × CanMove bank vt_blk i s'
      × (move_page bank vt_blk i (lpns i) s' ≡ some s'')
      × Moved bank vt_blk i (lpns i) s' s'')
    ⊎ ((gc_page_round bank vt_blk lpns i (n, s') ≡ some (n, s'))
        × (is_valid s vt_blk lpns i ≡ false))

pub gc_page_round-Chosen :
    (bank vt_blk : ℕ) (lpns : ℕ → ℕ) (s : Ftl) (i n : ℕ) (s' : Ftl)
    → HasRoom bank vt_blk lpns s
    → i < 127
    → Done bank vt_blk lpns s i n s'
    → Chosen bank vt_blk lpns s i n s'
unfolding gc_page_round
gc_page_round-Chosen bank vt_blk lpns s i n s' h lt d =
    let count = d.count in
    let log = h.log in
    let pages = h.pages in
    let next = count_valid-add s vt_blk lpns i in
    let more : count_valid s vt_blk lpns (i + 1) ≤ count_valid s vt_blk lpns 127 =
      let e : (126 - i) + (i + 1) ≡ 127 = omega arith in
      subst (λ x. count_valid s vt_blk lpns (i + 1) ≤ count_valid s vt_blk lpns x) e
        (count_valid_le s vt_blk lpns (i + 1) (126 - i)) in
    let same = Done-is_valid bank vt_blk lpns s i n s' h d lt (ground arith) in
    elim (Bool-cases (is_valid s vt_blk lpns i)) [
      | inl v ↦
          let less : n < count_valid s vt_blk lpns 127 = ground arith in
          let can = Done-CanMove bank vt_blk lpns s i n s' h d lt less in
          let (s'', e, m) = move_page-Moved bank vt_blk i (lpns i) s' can in
          let word : inc32 n ≡ n + 1 = omega arith in
          inl (s'', rw (same, v, e, word) refl, v, same ∙ v, less, can, e, m)
      | inr stale ↦ inr (rw (same, stale) refl, stale)
    ]

-- One round of the loop.
pub gc_page_round-Done :
    (bank vt_blk : ℕ) (lpns : ℕ → ℕ) (s : Ftl) (i n : ℕ) (s' : Ftl)
    → HasRoom bank vt_blk lpns s
    → i < 127
    → Done bank vt_blk lpns s i n s'
    → (y : ℕ × Ftl) × (gc_page_round bank vt_blk lpns i (n, s') ≡ some y)
      × Done bank vt_blk lpns s (i + 1) y.0 y.1
gc_page_round-Done bank vt_blk lpns s i n s' h lt d =
    elim (gc_page_round-Chosen bank vt_blk lpns s i n s' h lt d) [
      | inl (s'', e, v, v', less, can, moved, m) ↦
          ((n + 1, s''), e, Done-move bank vt_blk lpns s i n s' s'' h d less v m)
      | inr (e, stale) ↦ ((n, s'), e, Done-skip bank vt_blk lpns s i n s' stale d)
    ]
