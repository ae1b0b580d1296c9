-- ===== src/Ftl/Store/Refine.antt =====
-- Every step of the firmware does to the contents what its event says.
use optr_jasmine.Prelude.{
  ℕ, ◌+◌, ◌*◌, ◌/◌, ◌%◌, ◌<◌, ◌≡◌, ◌≢◌, refl, sym, subst, ◌∙◌, inl, inr, arith, true, false, ◌&&◌,
  Option, some, List, if◌then◌else◌, ltb, leb, ◌==◌, Bool-cases, ==_refl, add32,
}
use optr_jasmine.Config.{pages_per_vblk}
use optr_jasmine.Pgmap.{get_ppn, get_active_ppn, pgmap_trim}
use optr_jasmine.Pgmap.Trim.{trim-get_ppn}
use optr_jasmine.Vst.Page.{VPage}
use optr_jasmine.Vst.Flash.{Flash, vst_erase_block}
use optr_jasmine.Vst.Flash.Stands.{Stands, Stands-same}
use optr_jasmine.Ftl.{Ftl, cache_buf, on_pgmap}
use optr_jasmine.Ftl.Host.{get_bank}
use optr_jasmine.Ftl.Dequeue.{write_out, blkmgr_erase_vt_blk}
use optr_jasmine.Ftl.Dequeue.Write.{CanWrite, out_spare, WroteOut}
use optr_jasmine.Ftl.Gc.{move_page}
use optr_jasmine.Config.{num_cache_buffers_per_bank}
use optr_jasmine.Ftl.Store.Went.{write_out-WriteSteps, write_out-Went, move_page-Went}
use optr_jasmine.Ftl.Gc.Moves.{CanMove, gc_spare, move_page-Moved}
use optr_jasmine.Ftl.Store.{
  Contents, Event, put, trim, apply, apply_all, HoldsAt, Refines, Step, flush, move, erase, discard,
  Run, here, next,
}

-- A page that neither the map nor the flash changed.
HoldsAt-same :
    (s s' : Ftl) (q : ℕ) (v : VPage)
    → get_ppn s'.pgmap q ≡ get_ppn s.pgmap q
    → s'.flash.pages
        (get_bank q)
        (get_ppn s.pgmap q / pages_per_vblk)
        (get_ppn s.pgmap q % pages_per_vblk)
      ≡ s.flash.pages
          (get_bank q)
          (get_ppn s.pgmap q / pages_per_vblk)
          (get_ppn s.pgmap q % pages_per_vblk)
    → HoldsAt s q v
    → HoldsAt s' q v
HoldsAt-same s s' q v map same h = record {
  spare = h.spare;
  names = h.names;
  stands = rw map (
      Stands-same s.flash s'.flash (get_bank q) (get_ppn s.pgmap q / pages_per_vblk)
        (get_ppn s.pgmap q % pages_per_vblk) v h.spare same h.stands);
}

-- A page that was written is no page that is erased.
written-ne :
    (f : Flash) (b k p bank blk page : ℕ)
    → (f.pages b k p).is_erased ≡ false
    → (f.pages bank blk page).is_erased ≡ true
    → (b == bank && (k == blk && p == page)) ≡ false
written-ne f b k p bank blk page w e = elim (Bool-cases (b == bank && (k == blk && p == page))) [
  | inl same ↦
      let eb : b ≡ bank = ground arith in
      let ek : k ≡ blk = ground arith in
      let ep : p ≡ page = ground arith in
      absurd
        (let e' : (f.pages b k p).is_erased ≡ true = rw (eb, ek, ep) e in ground (arith, w, e'))
  | inr other ↦ other
]

-- What a logical page finds in the map when one of them was put at a page that was erased.
module _ (c : Contents) (s s' : Ftl) (lpn ppn : ℕ) (h : Refines c s)
    (place : (q : ℕ) → get_ppn s'.pgmap q ≡ (if q == lpn then ppn else get_ppn s.pgmap q))
    (written : (b k p : ℕ)
      → (s.flash.pages b k p).is_erased ≡ false
      → s'.flash.pages b k p ≡ s.flash.pages b k p) where
  HoldsAt-others : (q : ℕ) (v : VPage) → (q == lpn) ≡ false → c q ≡ some v → HoldsAt s' q v
  HoldsAt-others q v ne e =
      let old = h.held q v e in
      HoldsAt-same s s' q v (place q ∙ rw ne refl)
        (written (get_bank q) (get_ppn s.pgmap q / pages_per_vblk)
          (get_ppn s.pgmap q % pages_per_vblk) old.stands.written)
        old

  Refines-put : (v : VPage) → ppn ≢ 0 → HoldsAt s' lpn v → Refines (apply (put lpn v) c) s'
  Refines-put v nz there = record {
    mapped = λ q. elim (Bool-cases (q == lpn)) [
      | inl e ↦ rw (place q, e) (ground arith)
      | inr ne ↦ rw (place q, ne) (h.mapped q)
    ];
    held = λ q w e. elim (Bool-cases (q == lpn)) [
      | inl same ↦
          let eq : q ≡ lpn = ground arith in
          let ev : v ≡ w = ground (arith, e, same) in
          subst (λ x. HoldsAt s' x w) (sym eq) (subst (λ x. HoldsAt s' lpn x) ev there)
      | inr ne ↦ HoldsAt-others q w ne (ground (arith, e, ne))
    ];
  }

  -- The page that is put holds what it held before.
  Refines-quiet :
      ppn ≢ 0
      → ((v : VPage) → c lpn ≡ some v → HoldsAt s' lpn v)
      → get_ppn s.pgmap lpn ≢ 0
      → Refines c s'
  Refines-quiet nz there was = record {
    mapped = λ q. elim (Bool-cases (q == lpn)) [
      | inl e ↦
          let eq : q ≡ lpn = ground arith in
          let old = h.mapped q in
          rw (place q, e)
            (let was' : get_ppn s.pgmap q ≢ 0 = rw eq was in ground (arith, old, was'))
      | inr ne ↦ rw (place q, ne) (h.mapped q)
    ];
    held = λ q w e. elim (Bool-cases (q == lpn)) [
      | inl same ↦
          let eq : q ≡ lpn = ground arith in
          subst (λ x. HoldsAt s' x w) (sym eq) (there w (subst (λ x. c x ≡ some w) eq e))
      | inr ne ↦ HoldsAt-others q w ne e
    ];
  }

-- Where a result is known, the state that was reached is it.
same_result : {r : Option Ftl} (s' t : Ftl) → r ≡ some s' → r ≡ some t → s' ≡ t
same_result s' t e e' = ground (arith, e, e')

pub WroteOut-Refines :
    (c : Contents) (s : Ftl) (bank idx : ℕ) (t : Ftl)
    → Refines c s
    → CanWrite bank idx s
    → get_bank ((s.caches.banks bank).ents idx).lpn ≡ bank
    → get_active_ppn s.pgmap bank 1 ≢ 0
    → WroteOut bank idx s t
    → Refines (apply (put ((s.caches.banks bank).ents idx).lpn (s.ram (cache_buf bank idx))) c) t
WroteOut-Refines c s bank idx t h v own nz w =
    let lpn = ((s.caches.banks bank).ents idx).lpn in
    let there : HoldsAt t lpn (s.ram (cache_buf bank idx)) = record {
      spare = out_spare bank idx s;
      names = refl;
      stands = rw (own, w.place lpn, ==_refl lpn) w.stands;
    } in
    Refines-put c s t lpn (get_active_ppn s.pgmap bank 1) h w.place
      (λ b k p used. w.others b k p (written-ne s.flash b k p bank _ _ used v.erased))
      (s.ram (cache_buf bank idx)) nz there

flush-Refines :
    (c : Contents) (s : Ftl) (bank idx : ℕ) {s' : Ftl}
    → Refines c s
    → idx < num_cache_buffers_per_bank
    → s.enable_gc_opt ≡ false
    → get_bank ((s.caches.banks bank).ents idx).lpn ≡ bank
    → write_out bank idx s ≡ some s'
    → get_ppn s'.pgmap ((s.caches.banks bank).ents idx).lpn ≢ 0
    → Refines (apply (put ((s.caches.banks bank).ents idx).lpn (s.ram (cache_buf bank idx))) c) s'
flush-Refines c s bank idx {s'} h lt real own e nz =
    let lpn = ((s.caches.banks bank).ents idx).lpn in
    let (ppn, spare, w, names, stands) =
      write_out-Went bank idx s (let it = own in omega (arith, it)) lt
        (write_out-WriteSteps bank idx s real e) in
    let at : get_ppn s'.pgmap lpn ≡ ppn = w.place lpn ∙ rw (==_refl lpn) refl in
    Refines-put c s s' lpn ppn h w.place w.written (s.ram (cache_buf bank idx))
      (subst (λ x. x ≢ 0) at nz)
      (record { spare = spare; names = names; stands = rw (own, at) stands })

valid-move-Refines :
    (c : Contents) (s : Ftl) (bank vt_blk vt_page lpn : ℕ) {s' : Ftl}
    → Refines c s
    → s.enable_gc_opt ≡ false
    → vt_page < pages_per_vblk
    → get_bank lpn ≡ bank
    → get_ppn s.pgmap lpn ≡ vt_blk * pages_per_vblk + vt_page
    → get_ppn s.pgmap lpn ≢ 0
    → move_page bank vt_blk vt_page lpn s ≡ some s'
    → get_ppn s'.pgmap lpn ≢ 0
    → Refines c s'
valid-move-Refines c s bank vt_blk vt_page lpn {s'} h real lt own from was e nz =
    let (ppn, spare, w, names, stands) =
      move_page-Went bank vt_blk vt_page lpn s (let it = own in omega (arith, it)) real e in
    let at : get_ppn s'.pgmap lpn ≡ ppn = w.place lpn ∙ rw (==_refl lpn) refl in
    let blk : get_ppn s.pgmap lpn / pages_per_vblk ≡ vt_blk = omega (arith, from) in
    let page : get_ppn s.pgmap lpn % pages_per_vblk ≡ vt_page = omega (arith, from) in
    Refines-quiet c s s' lpn ppn h w.place w.written (subst (λ x. x ≢ 0) at nz)
      (λ x held.
        let old = h.held lpn x held in
        record {
          spare = spare;
          names = names;
          stands = rw (own, at) (stands x old.spare (rw (← own, ← blk, ← page) old.stands));
        })
      was

pub move-Refines :
    (c : Contents) (s : Ftl) (bank vt_blk vt_page lpn : ℕ) {s' : Ftl}
    → Refines c s
    → CanMove bank vt_blk vt_page s
    → get_bank lpn ≡ bank
    → get_ppn s.pgmap lpn ≡ vt_blk * pages_per_vblk + vt_page
    → get_ppn s.pgmap lpn ≢ 0
    → get_active_ppn s.pgmap bank 1 ≢ 0
    → move_page bank vt_blk vt_page lpn s ≡ some s'
    → Refines c s'
move-Refines c s bank vt_blk vt_page lpn {s'} h v own at was nz e =
    let (t, e', w) = move_page-Moved bank vt_blk vt_page lpn s v in
    let from = v.from in
    let blk : get_ppn s.pgmap lpn / pages_per_vblk ≡ vt_blk = ground arith in
    let page : get_ppn s.pgmap lpn % pages_per_vblk ≡ vt_page = ground arith in
    let there : (x : VPage) → c lpn ≡ some x → HoldsAt t lpn x = λ x held.
      let old = h.held lpn x held in
      let stood : Stands s.flash bank vt_blk vt_page x old.spare =
        subst (λ b. Stands s.flash b vt_blk vt_page x old.spare) own
          (subst (λ k. Stands s.flash (get_bank lpn) k vt_page x old.spare) blk
            (subst
              (λ p.
                Stands s.flash (get_bank lpn) (get_ppn s.pgmap lpn / pages_per_vblk) p x old.spare)
              page old.stands)) in
      record {
        spare = gc_spare lpn s;
        names = refl;
        stands = rw (own, w.place lpn, ==_refl lpn) (w.stands x old.spare stood);
      } in
    subst (λ x. Refines c x) (same_result t s' e' e)
      (Refines-quiet c s t lpn (get_active_ppn s.pgmap bank 1) h w.place
        (λ b k p used. w.others b k p (written-ne s.flash b k p bank _ _ used v.erased)) nz there
        was)

pub erase-Refines :
    (c : Contents) (s : Ftl) (bank : ℕ)
    → Refines c s
    → ((q : ℕ)
        → get_bank q ≡ bank
        → get_ppn s.pgmap q ≢ 0
        → get_ppn s.pgmap q / pages_per_vblk ≢ (s.blkmgr.banks bank).vt_blk)
    → Refines c (blkmgr_erase_vt_blk bank s)
unfolding blkmgr_erase_vt_blk vst_erase_block
erase-Refines c s bank h free = elim (Bool-cases ((s.blkmgr.banks bank).vt_blk == 0)) [
  | inl z ↦ rw z h
  | inr nz ↦ rw nz (record {
    mapped = h.mapped;
    held = λ q v e.
        HoldsAt-same s _ q v refl (let old = h.mapped q in let apart = free q in ground (arith, e))
          (h.held q v e);
  })
]

discard-Refines :
    (c : Contents) (s : Ftl) (lpn n : ℕ)
    → Refines c s
    → Refines (apply (trim lpn n) c) (on_pgmap (pgmap_trim lpn n) s)
discard-Refines c s lpn n h = record {
  mapped = λ q. elim (Bool-cases (leb lpn q && ltb q (add32 lpn n))) [
    | inl e ↦ rw (trim-get_ppn n lpn s.pgmap q, e) refl
    | inr ne ↦ rw (trim-get_ppn n lpn s.pgmap q, ne) (h.mapped q)
  ];
  held = λ q v e. elim (Bool-cases (leb lpn q && ltb q (add32 lpn n))) [
    | inl dropped ↦ absurd (ground (arith, e, dropped))
    | inr ne ↦
        HoldsAt-same s (on_pgmap (pgmap_trim lpn n) s) q v
          (trim-get_ppn n lpn s.pgmap q ∙ rw ne refl) refl (h.held q v (ground (arith, e, ne)))
  ];
}

-- A step does to the contents what its event says: a buffer that is written out becomes the contents
-- of its page, a trim drops a range, and moving pages and erasing blocks are not seen.
Step-Refines :
    (c : Contents) {s : Ftl} {e : Event} {s' : Ftl}
    → Refines c s
    → Step s e s'
    → Refines (apply e c) s'
Step-Refines c {s} h (flush bank idx lt real own e nz) =
    flush-Refines c s bank idx h lt real own e nz
Step-Refines c {s} h (move bank vt_blk vt_page lpn real lt own from was e nz) =
    valid-move-Refines c s bank vt_blk vt_page lpn h real lt own from was e nz
Step-Refines c {s} h (erase bank free) = erase-Refines c s bank h free
Step-Refines c {s} h (discard lpn n) = discard-Refines c s lpn n h

-- A run of steps, in whatever order and however many, takes flash and map from standing for some
-- contents to standing for what the specification makes of them: a buffer that is written out
-- becomes the contents of its logical page, whether its bank's open block had room or was closed for
-- the next one, a trim drops its range, and moving a valid page and erasing a victim that no logical
-- page stands in change nothing. The steps are calls that succeed, with the firmware running with
-- data, on pages of the bank, none of which is put at page 0 of block 0.
pub Run-Refines :
    (c : Contents) {s : Ftl} {es : List Event} {s' : Ftl}
    → Refines c s
    → Run s es s'
    → Refines (apply_all es c) s'
Run-Refines c h here = h
Run-Refines c h (next {e} st r) = Run-Refines (apply e c) (Step-Refines c h st) r

-- Contents depend on the map and the flash only.
pub Refines-same :
    (c : Contents) (s s' : Ftl)
    → s'.pgmap ≡ s.pgmap
    → s'.flash ≡ s.flash
    → Refines c s
    → Refines c s'
Refines-same c s s' map same h = record {
  mapped = λ q. rw map (h.mapped q);
  held = λ q v e.
      let old = h.held q v e in
      record { spare = old.spare; names = old.names; stands = rw (map, same) old.stands };
}
