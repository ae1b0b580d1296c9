-- ===== src/Ftl/Pages/Alloc/Frame.antt =====
-- ftl_optr/pgmap.c: what `get_and_inc_active_ppn` leaves alone, within a block and at its end.
use optr_jasmine.Prelude.{
  ℕ, ◌+◌, ◌-◌, ◌*◌, ◌/◌, ◌%◌, ◌<◌, ◌≡◌, refl, sym, ◌∙◌, arith, Option, false, not, none, some, ◌==◌,
  Bool-cases, Option-cases, inl, inr, ltb, subst, assert, ◌>>◌,
}
use optr_jasmine.Config.{pages_per_vblk, vblks_per_bank}
use optr_jasmine.Blkmgr.{on_list, on_bank, get_vcount, Blkmgr, get_and_inc_active_blk}
use optr_jasmine.Pgmap.{get_ppn, get_active_ppn, set_active_ppn, set_blk_time}
use optr_jasmine.Cache.{stall_cache, release_cache}
use optr_jasmine.Vst.Flash.{Flash, vst_write_page}
use optr_jasmine.Vst.Flash.Once.{write-keeps}
use optr_jasmine.Ftl.{Ftl, on_pgmap, ftl_buf}
use optr_jasmine.Ftl.Nand.{write_cells, nand_page_ptprogram}
use optr_jasmine.Ftl.Pages.{get_and_inc_active_ppn, next_ppn, close_blk, clear_lpns}
use optr_jasmine.Ftl.Pages.Alloc.{taken, summarised, closed, close_blk-closed, summary_page}

-- From `s` to `t` nothing of this changes: where the pages stand, what the cache entries hold, the
-- log, the DRAM but for the bank's FTL_BUF, and the flash pages that are written.
pub record Kept (bank : ℕ) (s t : Ftl) : Type 0 where
  pub map : (q : ℕ) → get_ppn t.pgmap q ≡ get_ppn s.pgmap q
  pub ents : (b : ℕ) → (t.caches.banks b).ents ≡ (s.caches.banks b).ents
  pub chkpt : t.chkpt ≡ s.chkpt
  pub real : t.enable_gc_opt ≡ s.enable_gc_opt
  pub ram : (page : ℕ) → (page == ftl_buf bank) ≡ false → t.ram page ≡ s.ram page
  pub written :
      (b k p : ℕ)
      → (s.flash.pages b k p).is_erased ≡ false
      → t.flash.pages b k p ≡ s.flash.pages b k p

pub Kept-trans : (bank : ℕ) (s t u : Ftl) → Kept bank s t → Kept bank t u → Kept bank s u
Kept-trans bank s t u h k = record {
  map = λ q. k.map q ∙ h.map q;
  ents = λ b. k.ents b ∙ h.ents b;
  chkpt = k.chkpt ∙ h.chkpt;
  real = k.real ∙ h.real;
  ram = λ page ne. k.ram page ne ∙ h.ram page ne;
  written = λ b i p w. let same = h.written b i p w in k.written b i p (rw same w) ∙ same;
}

closed-Kept :
    (bank region ppn blk blk_clean : ℕ) (s : Ftl) (m : Blkmgr) {f : Flash}
    → let t : Ftl = record s { blkmgr = m } in
      vst_write_page s.flash bank blk
          (pages_per_vblk - 1)
          0
          2
          (summary_page bank region blk_clean t)
          s.spare
        ≡ some f
      → Kept bank s (taken bank region ppn (closed bank region blk_clean f t))
unfolding closed summarised clear_lpns set_blk_time get_ppn write_cells set_active_ppn stall_cache
    release_cache
closed-Kept bank region ppn blk blk_clean s m {f} e = record {
  map = λ q. refl;
  ents = λ b. elim (Bool-cases (b == bank)) [ inl at ↦ ground (arith, at) | inr ne ↦ rw ne refl ];
  chkpt = refl;
  real = refl;
  ram = λ page ne. rw ne refl;
  written =
      λ b k p used. write-keeps s.flash bank blk (pages_per_vblk - 1) 0 2 _ s.spare b k p e used;
}

taken-Kept : (bank region ppn : ℕ) (s : Ftl) → Kept bank s (taken bank region ppn s)
unfolding get_ppn set_active_ppn
taken-Kept bank region ppn s = record {
  map = λ q. refl;
  ents = λ b. refl;
  chkpt = refl;
  real = refl;
  ram = λ page ne. refl;
  written = λ b k p used. refl;
}

closes_none :
    (bank region blk blk_clean : ℕ) (s : Ftl)
    → vst_write_page s.flash bank blk
        (pages_per_vblk - 1)
        0
        2
        (summary_page bank region blk_clean s)
        s.spare
      ≡ none
    → close_blk bank region blk blk_clean s ≡ none
unfolding close_blk nand_page_ptprogram summarised write_cells
closes_none bank region blk blk_clean s e = rw e refl

-- The end of the call, with the page and the state that it has then.
checked : ℕ → ℕ → ℕ → Ftl → Option (ℕ × Ftl)
checked bank region ppn u = do
  assert (ltb (ppn / pages_per_vblk) vblks_per_bank)
  assert (not (ppn % pages_per_vblk == pages_per_vblk - 1))
  some (ppn, on_pgmap (set_active_ppn bank region (ppn + 1)) u)

checked_ends :
    (bank region ppn' : ℕ) (u : Ftl) {ppn : ℕ} {t : Ftl}
    → checked bank region ppn' u ≡ some (ppn, t)
    → (t ≡ taken bank region ppn' u) × (ppn / pages_per_vblk < vblks_per_bank)
unfolding checked
checked_ends bank region ppn' u e = (ground (arith, e), ground (arith, e))

-- What the call does to the state if it succeeds, within a block and at its end.
pub record Took (bank ppn : ℕ) (s t : Ftl) : Type 0 where
  pub kept : Kept bank s t
  pub counts : (b k : ℕ) → get_vcount t.blkmgr b k ≡ get_vcount s.blkmgr b k
  pub inside : ppn / pages_per_vblk < vblks_per_bank

counts_closed :
    (bank region ppn blk_clean : ℕ) (s : Ftl) (f : Flash) (b k : ℕ)
    → let u : Ftl = record s { blkmgr = (get_and_inc_active_blk s.blkmgr bank region).1 } in
      get_vcount (taken bank region ppn (closed bank region blk_clean f u)).blkmgr b k
      ≡ get_vcount s.blkmgr b k
unfolding closed summarised write_cells get_vcount get_and_inc_active_blk on_list on_bank
counts_closed bank region ppn blk_clean s f b k = refl

pub active_ppn-Took :
    (bank region : ℕ) (s : Ftl) {ppn : ℕ} {t : Ftl}
    → get_and_inc_active_ppn bank region s ≡ some (ppn, t)
    → Took bank ppn s t
unfolding get_and_inc_active_ppn next_ppn checked
active_ppn-Took bank region s {ppn} {t} e =
    let old = get_active_ppn s.pgmap bank region in
    let blk = old / pages_per_vblk in
    let r = get_and_inc_active_blk s.blkmgr bank region in
    let u : Ftl = record s { blkmgr = r.1 } in
    elim (Bool-cases (old % pages_per_vblk == pages_per_vblk - 1)) [
      | inl at_end ↦
          elim (Option-cases (
            vst_write_page s.flash bank blk (pages_per_vblk - 1) 0 2
              (summary_page bank region r.0 u) s.spare)) [
                | inl refused ↦
                    absurd (ground (arith, e, at_end, closes_none bank region blk r.0 u refused))
                | inr (f, wrote) ↦
                    let (same, inside) =
                      checked_ends bank region (r.0 * pages_per_vblk) (closed bank region r.0 f u)
                        (rw (at_end, close_blk-closed bank region blk r.0 u wrote) at e) in
                    subst (λ x. Took bank ppn s x) (sym same)
                      (record {
                        kept = closed-Kept bank region (r.0 * pages_per_vblk) blk r.0 s r.1 wrote;
                        counts = counts_closed bank region (r.0 * pages_per_vblk) r.0 s f;
                        inside = inside;
                      })
              ]
      | inr within ↦
          let (same, inside) = checked_ends bank region old s (rw within at e) in
          subst (λ x. Took bank ppn s x) (sym same)
            (record { kept = taken-Kept bank region old s; counts = λ b k. refl; inside = inside })
    ]
