-- ===== src/Ftl/Store/Went.antt =====
-- ftl_optr/cache.c and ftl_optr/blkmgr.c: what a page that was written out or moved finds, if the
-- call succeeds, whether or not the open block was full.
use optr_jasmine.Prelude.{
  ℕ, ◌+◌, ◌-◌, ◌/◌, ◌%◌, ◌<◌, ◌≡◌, refl, ap, sym, ◌∙◌, arith, false, some, ◌==◌, Option-cases, inl,
  inr, subst, if◌then◌else◌, if_false,
}
use optr_jasmine.Config.{
  num_banks, num_cache_buffers_per_bank, pages_per_vblk, sectors_per_page, num_regions,
  num_mapents_per_page,
}
use optr_jasmine.Stat.{stat_region_balance_factor, stat_data_page, Stats}
use optr_jasmine.Blkmgr.{Blkmgr, get_vcount, set_vcount}
use optr_jasmine.Pgmap.{get_ppn, set_ppn, set_lpn}
use optr_jasmine.Cache.{CacheEnt, on_cache, clean_ent, get_cache_ent_epoch}
use optr_jasmine.Vst.Page.{VPage}
use optr_jasmine.Vst.Flash.{Flash, Spare, vst_write_page, vst_copyback_page}
use optr_jasmine.Vst.Flash.Once.{write-keeps, copyback-keeps}
use optr_jasmine.Vst.Flash.Stands.{Stands, write-Stands, copyback-Stands, Stands-same}
use optr_jasmine.Ftl.{Ftl, Chkpt, on_stats, on_caches, on_pgmap, cache_buf, ftl_buf, chkpt_buf}
use optr_jasmine.Ftl.Nand.{read_cell, nand_page_program, nand_page_ptprogram, nand_page_copyback}
use optr_jasmine.Ftl.Pages.{get_and_inc_active_ppn}
use optr_jasmine.Ftl.Pages.Alloc.Frame.{Kept, Kept-trans, active_ppn-Took}
use optr_jasmine.Ftl.Record.{log_insert_mapent}
use optr_jasmine.Ftl.Record.Mapents.{mapent, mapent-ram}
use optr_jasmine.Ftl.Dequeue.{unmap_old, map_new, write_out}
use optr_jasmine.Ftl.Gc.{move_page}
use optr_jasmine.Ftl.Gc.Moves.{gc_spare}
use optr_jasmine.Ftl.Store.Frame.{Placed, unmap_old-Kept, map_new-Placed, logged-Placed}

-- From `s` to `t` the logical page `lpn` went to `ppn`: in the map, in the log, and with no flash
-- page that was written changed.
pub record Went (bank lpn ppn : ℕ) (s t : Ftl) : Type 0 where
  pub place : (q : ℕ) → get_ppn t.pgmap q ≡ (if q == lpn then ppn else get_ppn s.pgmap q)
  pub written :
      (b k p : ℕ)
      → (s.flash.pages b k p).is_erased ≡ false
      → t.flash.pages b k p ≡ s.flash.pages b k p
  pub cnt : t.chkpt.cnt_mapents ≡ s.chkpt.cnt_mapents + 1
  pub last : mapent t s.chkpt.cnt_mapents ≡ (lpn, ppn)
  pub earlier : (i : ℕ) → i < s.chkpt.cnt_mapents → mapent t i ≡ mapent s i

on_stats-Kept : (bank : ℕ) (f : Stats → Stats) (s : Ftl) → Kept bank s (on_stats f s)
unfolding get_ppn
on_stats-Kept bank f s = record {
  map = λ q. refl;
  ents = λ b. refl;
  chkpt = refl;
  real = refl;
  ram = λ page ne. refl;
  written = λ b k p used. refl;
}

mapent-Kept :
    (bank : ℕ) (s u : Ftl) (i : ℕ) → bank < num_banks → Kept bank s u → mapent u i ≡ mapent s i
unfolding read_cell
mapent-Kept bank s u i lt h =
    let page = chkpt_buf (i / num_mapents_per_page) in
    let ne : (page == ftl_buf bank) ≡ false = ground arith in rw (h.ram page ne) refl

-- The steps together; the program changes the flash alone.
steps-Went :
    (bank lpn ppn : ℕ) (s u v t : Ftl)
    → bank < num_banks
    → Kept bank s u
    → Placed lpn ppn u v
    → t.pgmap ≡ v.pgmap
    → t.chkpt ≡ v.chkpt
    → t.ram ≡ v.ram
    → ((b k p : ℕ)
        → (v.flash.pages b k p).is_erased ≡ false
        → t.flash.pages b k p ≡ v.flash.pages b k p)
    → Went bank lpn ppn s t
unfolding get_ppn
steps-Went bank lpn ppn s u v t lt kept placed pgmap chkpt ram keeps =
    let n : u.chkpt.cnt_mapents ≡ s.chkpt.cnt_mapents =
      ap (λ (x : Chkpt). x.cnt_mapents) kept.chkpt in
    record {
      place = λ q. rw pgmap (placed.place q ∙ rw (kept.map q) refl);
      written = λ b k p used.
          let first = kept.written b k p used in
          let same : v.flash.pages b k p ≡ s.flash.pages b k p = rw placed.flash first in
          keeps b k p (rw same used) ∙ same;
      cnt = ap (λ (x : Chkpt). x.cnt_mapents) chkpt ∙ placed.cnt ∙ ap (λ k. k + 1) n;
      last = mapent-ram v t s.chkpt.cnt_mapents ram ∙ rw (← n) placed.last;
      earlier =
          λ i h. mapent-ram v t i ram ∙ placed.earlier i (rw n h) ∙ mapent-Kept bank s u i lt kept;
    }

-- The state that `write_out` programs the page in.
unfoldable pub staged : ℕ → ℕ → ℕ → CacheEnt → Ftl → Ftl
staged bank idx ppn ent v =
    on_stats stat_data_page (record (on_caches (on_cache bank (clean_ent idx)) v) {
      spare = record {
        lpn = ent.lpn;
        pg_span = ent.pg_span;
        epoch = get_cache_ent_epoch (on_cache bank (clean_ent idx) v.caches) bank idx;
      };
    })

-- What a program of a whole page gives, if it succeeds.
pub record Programmed (bank blk page : ℕ) (buf : VPage) (s t : Ftl) : Type 0 where
  pub same : t ≡ record s { flash = t.flash }
  pub stands : Stands t.flash bank blk page buf s.spare
  pub keeps :
      (b k p : ℕ)
      → (s.flash.pages b k p).is_erased ≡ false
      → t.flash.pages b k p ≡ s.flash.pages b k p

program-Programmed :
    (bank blk page buf : ℕ) (s : Ftl) {t : Ftl}
    → nand_page_program bank blk page buf s ≡ some t
    → Programmed bank blk page (s.ram buf) s t
unfolding nand_page_program nand_page_ptprogram
program-Programmed bank blk page buf s {t} e =
    elim (Option-cases
      (vst_write_page s.flash bank blk page 0 sectors_per_page (s.ram buf) s.spare)) [
        | inl z ↦ absurd (ground (arith, e, z))
        | inr (f, wrote) ↦
            let same : record s { flash = f } ≡ t = ground (arith, e, wrote) in
            subst (λ x. Programmed bank blk page (s.ram buf) s x) same
              (record {
                same = refl;
                stands = write-Stands s.flash bank blk page (s.ram buf) s.spare wrote;
                keeps = λ b k p used.
                    write-keeps s.flash bank blk page 0 sectors_per_page (s.ram buf) s.spare b k p
                      wrote used;
              })
      ]

-- The calls of a write-out that succeeds, and runs with data, with the states between them.
pub record WriteSteps (bank idx : ℕ) (s t : Ftl) : Type 0 where
  pub s1 : Ftl
  pub ppn : ℕ
  pub u : Ftl
  pub v : Ftl
  pub unmapped : unmap_old bank (get_ppn s.pgmap ((s.caches.banks bank).ents idx).lpn) s ≡ some s1
  pub taken :
      get_and_inc_active_ppn bank 1 (on_stats (stat_region_balance_factor bank 1) s1)
      ≡ some (ppn, u)
  pub mapped : map_new bank ((s.caches.banks bank).ents idx).lpn ppn u ≡ some v
  pub programmed :
      Programmed bank
        (ppn / pages_per_vblk)
        (ppn % pages_per_vblk)
        (v.ram (cache_buf bank idx))
        (staged bank idx ppn ((s.caches.banks bank).ents idx) v)
        t
  pub kept : Kept bank s u
  pub placed : Placed ((s.caches.banks bank).ents idx).lpn ppn u v
  pub blkmgr : t.blkmgr ≡ v.blkmgr

pub write_out-WriteSteps :
    (bank idx : ℕ) (s : Ftl) {t : Ftl}
    → s.enable_gc_opt ≡ false
    → write_out bank idx s ≡ some t
    → WriteSteps bank idx s t
unfolding write_out staged
write_out-WriteSteps bank idx s {t} real e =
    let ent = (s.caches.banks bank).ents idx in
    elim (Option-cases (unmap_old bank (get_ppn s.pgmap ent.lpn) s)) [
      | inl z ↦ absurd (ground (arith, e, z))
      | inr (s1, e1) ↦
          let s1' = on_stats (stat_region_balance_factor bank 1) s1 in
          elim (Option-cases (get_and_inc_active_ppn bank 1 s1')) [
            | inl z ↦ absurd (ground (arith, e, e1, z))
            | inr ((ppn, u), e2) ↦ elim (Option-cases (map_new bank ent.lpn ppn u)) [
              | inl z ↦ absurd (ground (arith, e, e1, e2, z))
              | inr (v, e3) ↦
                  let kept = Kept-trans bank s s1 u (unmap_old-Kept bank _ s e1) (
                    Kept-trans bank s1 s1' u
                      (on_stats-Kept bank (stat_region_balance_factor bank 1) s1)
                      (active_ppn-Took bank 1 s1' e2).kept) in
                  let placed = map_new-Placed bank ent.lpn ppn u e3 in
                  let on : v.enable_gc_opt ≡ false = placed.real ∙ kept.real ∙ real in
                  let st = staged bank idx ppn ent v in
                  let ran : nand_page_program bank (ppn / pages_per_vblk) (ppn % pages_per_vblk)
                        (cache_buf bank idx) st
                      ≡ some t =
                    sym (if_false v.enable_gc_opt _ _ on) ∙ rw (e1, e2, e3) at e in
                  let w =
                    program-Programmed bank (ppn / pages_per_vblk) (ppn % pages_per_vblk)
                      (cache_buf bank idx) st ran in
                  record {
                    s1 = s1;
                    ppn = ppn;
                    u = u;
                    v = v;
                    unmapped = e1;
                    taken = e2;
                    mapped = e3;
                    programmed = w;
                    kept = kept;
                    placed = placed;
                    blkmgr = ap (λ (x : Ftl). x.blkmgr) w.same;
                  }
            ]
          ]
    ]

-- The buffer's contents then stand at the new place.
pub write_out-Went :
    (bank idx : ℕ) (s : Ftl) {t : Ftl}
    → bank < num_banks
    → idx < num_cache_buffers_per_bank
    → WriteSteps bank idx s t
    → let lpn = ((s.caches.banks bank).ents idx).lpn in
      (ppn : ℕ) × (spare : Spare) × Went bank lpn ppn s t
      × (spare.lpn ≡ lpn)
      × Stands t.flash bank
          (ppn / pages_per_vblk)
          (ppn % pages_per_vblk)
          (s.ram (cache_buf bank idx))
          spare
unfolding staged
write_out-Went bank idx s {t} lt idx_lt steps =
    let ent = (s.caches.banks bank).ents idx in
    let ppn = steps.ppn in
    let w = steps.programmed in
    let st = staged bank idx ppn ent steps.v in
    let apart : (cache_buf bank idx == ftl_buf bank) ≡ false = ground arith in
    let buf : steps.v.ram (cache_buf bank idx) ≡ s.ram (cache_buf bank idx) =
      steps.placed.ram (cache_buf bank idx) (omega arith)
      ∙ steps.kept.ram (cache_buf bank idx) apart in
    (
      ppn,
      st.spare,
      steps-Went bank ent.lpn ppn s steps.u steps.v t lt steps.kept steps.placed
          (ap (λ (x : Ftl). x.pgmap) w.same) (ap (λ (x : Ftl). x.chkpt) w.same)
          (ap (λ (x : Ftl). x.ram) w.same) w.keeps,
      refl,
      subst (λ x. Stands t.flash bank (ppn / pages_per_vblk) (ppn % pages_per_vblk) x st.spare) buf
          w.stands,
    )

-- What a copy of a page within the bank gives, if it succeeds.
record CopiedBack (bank vt_blk vt_page blk page : ℕ) (s t : Ftl) : Type 0 where
  same : t ≡ record s { flash = t.flash }
  stands :
      (x : VPage) (spare : Spare)
      → Stands s.flash bank vt_blk vt_page x spare
      → Stands t.flash bank blk page x s.spare
  keeps :
      (b k p : ℕ)
      → (s.flash.pages b k p).is_erased ≡ false
      → t.flash.pages b k p ≡ s.flash.pages b k p

nand_page_copyback_lem :
    (bank vt_blk vt_page blk page : ℕ) (s : Ftl) {t : Ftl}
    → nand_page_copyback bank vt_blk vt_page blk page s ≡ some t
    → CopiedBack bank vt_blk vt_page blk page s t
unfolding nand_page_copyback
nand_page_copyback_lem bank vt_blk vt_page blk page s {t} e =
    elim (Option-cases (vst_copyback_page s.flash bank vt_blk vt_page blk page s.spare)) [
      | inl z ↦ absurd (ground (arith, e, z))
      | inr (f, copied) ↦
          let same : record s { flash = f } ≡ t = ground (arith, e, copied) in
          subst (λ x. CopiedBack bank vt_blk vt_page blk page s x) same
            (record {
              same = refl;
              stands = λ x spare h.
                  copyback-Stands s.flash bank vt_blk vt_page blk page x spare s.spare copied h;
              keeps = λ b k p used.
                  copyback-keeps s.flash bank vt_blk vt_page blk page s.spare b k p copied used;
            })
    ]

-- The state that `move_page` logs the page in.
entered : ℕ → ℕ → ℕ → Ftl → Blkmgr → Ftl
entered bank lpn ppn u m =
    record (on_pgmap
      (λ p. set_lpn bank (num_regions - 1) (ppn % pages_per_vblk) lpn (set_ppn lpn ppn p)) u) {
        blkmgr = m;
      }

entered-Placed :
    (bank lpn ppn : ℕ) (u v : Ftl) (m : Blkmgr)
    → log_insert_mapent lpn ppn (entered bank lpn ppn u m) ≡ some v
    → Placed lpn ppn u v
unfolding entered get_ppn set_ppn set_lpn
entered-Placed bank lpn ppn u v m e =
    logged-Placed lpn ppn u (entered bank lpn ppn u m) (λ q. refl) refl refl refl refl refl e

-- A move that succeeds, and runs with data: what the victim's page holds stands at the new place.
pub move_page-Went :
    (bank vt_blk vt_page lpn : ℕ) (s : Ftl) {t : Ftl}
    → bank < num_banks
    → s.enable_gc_opt ≡ false
    → move_page bank vt_blk vt_page lpn s ≡ some t
    → (ppn : ℕ) × (spare : Spare) × Went bank lpn ppn s t
      × (spare.lpn ≡ lpn)
      × ((x : VPage) (old : Spare)
          → Stands s.flash bank vt_blk vt_page x old
          → Stands t.flash bank (ppn / pages_per_vblk) (ppn % pages_per_vblk) x spare)
unfolding move_page entered
move_page-Went bank vt_blk vt_page lpn s {t} lt real e =
    elim (Option-cases (get_and_inc_active_ppn bank (num_regions - 1) s)) [
      | inl z ↦ absurd (ground (arith, e, z))
      | inr ((ppn, u), e1) ↦
          let blk = ppn / pages_per_vblk in
          elim (Option-cases (set_vcount u.blkmgr bank blk (get_vcount u.blkmgr bank blk + 1))) [
            | inl z ↦ absurd (ground (arith, e, e1, z))
            | inr (m, e2) ↦
                elim (Option-cases (log_insert_mapent lpn ppn (entered bank lpn ppn u m))) [
                  | inl z ↦ absurd (ground (arith, e, e1, e2, z))
                  | inr (v, e3) ↦
                      let kept = (active_ppn-Took bank (num_regions - 1) s e1).kept in
                      let placed = entered-Placed bank lpn ppn u v m e3 in
                      let on : v.enable_gc_opt ≡ false = placed.real ∙ kept.real ∙ real in
                      let st : Ftl = record v { spare = gc_spare lpn v } in
                      let ran : nand_page_copyback bank vt_blk vt_page blk (ppn % pages_per_vblk) st
                          ≡ some t =
                        sym (if_false v.enable_gc_opt _ _ on) ∙ rw (e1, e2, e3) at e in
                      let w =
                        nand_page_copyback_lem bank vt_blk vt_page blk (ppn % pages_per_vblk) st
                          ran in
                      (
                        ppn,
                        st.spare,
                        steps-Went bank lpn ppn s u v t lt kept placed
                            (ap (λ (x : Ftl). x.pgmap) w.same) (ap (λ (x : Ftl). x.chkpt) w.same)
                            (ap (λ (x : Ftl). x.ram) w.same) w.keeps,
                        refl,
                        λ x old h. w.stands x old (
                            Stands-same s.flash v.flash bank vt_blk vt_page x old
                              (ap (λ (f : Flash). f.pages bank vt_blk vt_page) placed.flash
                                ∙ kept.written bank vt_blk vt_page h.written)
                              h),
                      )
                ]
          ]
    ]
