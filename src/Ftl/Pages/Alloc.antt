-- ===== src/Ftl/Pages/Alloc.antt =====
-- Which pages allocation hands out.
pub mod Frame
use optr_jasmine.Prelude.{
  ℕ, ◌+◌, ◌-◌, ◌*◌, ◌/◌, ◌%◌, ◌≤◌, ◌<◌, ◌≡◌, inl, inr, refl, ◌∙◌, arith, Bool, true, false, not,
  ◌&&◌, some, if◌then◌else◌, ltb, ◌==◌, Bool-cases, Option-cases, ==_refl, minus_one,
}
use optr_jasmine.Config.{pages_per_vblk, vblks_per_bank, num_banks}
use optr_jasmine.Blkmgr.{Blkmgr, get_and_inc_active_blk}
use optr_jasmine.Pgmap.{Pgmap, get_active_ppn, set_active_ppn, get_ppn, get_lpn, set_blk_time}
use optr_jasmine.Cache.{stall_cache, release_cache}
use optr_jasmine.Vst.Page.{VPage, or_else, untag_page, in_range}
use optr_jasmine.Vst.Flash.{Flash, Spare, vst_write_page, vst_read_page}
use optr_jasmine.Vst.Flash.Access.{accepts, write-accepts, read-write}
use optr_jasmine.Ftl.{Ftl, on_pgmap, on_caches, ftl_buf}
use optr_jasmine.Ftl.Nand.{
  nand_page_ptprogram, write_cells, poke, read_cell, read_cell-write_cells, read_cell-write_cell,
}
use optr_jasmine.Ftl.Pages.{get_and_inc_active_ppn, next_ppn, close_blk, clear_lpns}

-- A page that allocation may hand out: in the device, and not the last of its block, which is kept
-- for the summary.
abbrev pub is_data_page : ℕ → Bool
is_data_page ppn =
    ltb (ppn / pages_per_vblk) vblks_per_bank && not (ppn % pages_per_vblk == pages_per_vblk - 1)

-- The state after the page was taken from the open block.
abbrev taken : ℕ → ℕ → ℕ → Ftl → Ftl
taken bank region ppn s = on_pgmap (set_active_ppn bank region (ppn + 1)) s

active-taken :
    (bank region ppn : ℕ) (m : Pgmap)
    → get_active_ppn (set_active_ppn bank region ppn m) bank region ≡ ppn
unfolding get_active_ppn set_active_ppn
active-taken bank region ppn m = rw (==_refl bank, ==_refl region) refl

-- Within a block the next page is the one after the last one handed out, and nothing but the active
-- page changes.
pub active_ppn_within :
    (bank region : ℕ) (s : Ftl)
    → is_data_page (get_active_ppn s.pgmap bank region) ≡ true
    → let ppn = get_active_ppn s.pgmap bank region in
      get_and_inc_active_ppn bank region s ≡ some (ppn, taken bank region ppn s)
unfolding get_and_inc_active_ppn next_ppn
active_ppn_within bank region s h =
    let ppn = get_active_ppn s.pgmap bank region in
    let room : ltb (ppn / pages_per_vblk) vblks_per_bank ≡ true = ground arith in
    let inside : (ppn % pages_per_vblk == pages_per_vblk - 1) ≡ false = ground arith in
    rw (inside, room) (rw inside refl)

-- The words of the summary page in FTL_BUF, before it is written.
summarised : ℕ → ℕ → ℕ → Ftl → Ftl
summarised bank region blk_clean s =
    write_cells (ftl_buf bank) pages_per_vblk 1 (λ _. blk_clean)
      (write_cells (ftl_buf bank) 0 pages_per_vblk (get_lpn s.pgmap bank region) s)

-- The state once the summary page was written, and the flash is `f`.
closed : ℕ → ℕ → ℕ → Flash → Ftl → Ftl
unfolding summarised clear_lpns
closed bank region blk_clean f s =
    let s3 : Ftl = record (on_caches (stall_cache bank) (summarised bank region blk_clean s)) {
      flash = f;
    } in
    let s4 = on_pgmap (clear_lpns bank region) (on_caches (release_cache bank) s3) in
    on_pgmap (set_blk_time bank blk_clean s4.g_epoch) s4

close_blk-closed :
    (bank region blk blk_clean : ℕ) (s : Ftl) {f : Flash}
    → vst_write_page s.flash bank blk
        (pages_per_vblk - 1)
        0
        2
        ((summarised bank region blk_clean s).ram (ftl_buf bank))
        s.spare
      ≡ some f
    → close_blk bank region blk blk_clean s ≡ some (closed bank region blk_clean f s)
unfolding close_blk closed nand_page_ptprogram summarised write_cells
close_blk-closed bank region blk blk_clean s e = rw e refl

summary_cell :
    (bank region blk_clean : ℕ) (s : Ftl) (k : ℕ)
    → read_cell (summarised bank region blk_clean s) (ftl_buf bank) k ≡ (
        if k == pages_per_vblk
        then blk_clean
        else if ltb k pages_per_vblk
        then get_lpn s.pgmap bank region k
        else read_cell s (ftl_buf bank) k)
unfolding summarised
summary_cell bank region blk_clean s k =
    let t = write_cells (ftl_buf bank) 0 pages_per_vblk (get_lpn s.pgmap bank region) s in
    let first =
      read_cell-write_cells (ftl_buf bank) 0 pages_per_vblk (get_lpn s.pgmap bank region) s
        (ftl_buf bank) k in
    let same : k - 0 ≡ k = omega arith in
    let same_page = ==_refl (ftl_buf bank) in
    read_cell-write_cell (ftl_buf bank) pages_per_vblk blk_clean t (ftl_buf bank) k
    ∙ rw (first, same, same_page) (ground arith)

abbrev summary_page : ℕ → ℕ → ℕ → Ftl → VPage
summary_page bank region blk_clean s = (summarised bank region blk_clean s).ram (ftl_buf bank)

summary_tagged :
    (bank region blk_clean : ℕ) (s : Ftl) → (summary_page bank region blk_clean s).tagged ≡ false
unfolding summarised write_cells poke untag_page
summary_tagged bank region blk_clean s = rw (==_refl (ftl_buf bank)) refl

summary_word :
    (bank region blk_clean : ℕ) (s : Ftl) (k : ℕ)
    → or_else (λ _. minus_one) (summary_page bank region blk_clean s).cells k
      ≡ read_cell (summarised bank region blk_clean s) (ftl_buf bank) k
unfolding summarised write_cells poke untag_page read_cell
summary_word bank region blk_clean s k = rw (==_refl (ftl_buf bank)) refl

-- Reading the summary page of `blk` gives the page list that the region had, with the link to the
-- next open block behind it.
pub HasSummary : ℕ → ℕ → ℕ → ℕ → Pgmap → Spare → Flash → Type 0
HasSummary bank region blk blk_clean m spare f =
    (dst : VPage)
    → (r : VPage) × (vst_read_page f bank blk (pages_per_vblk - 1) 0 2 dst ≡ some (r, spare))
      × ((k : ℕ)
          → k ≤ pages_per_vblk
          → or_else (λ _. minus_one) r.cells k
            ≡ (if k == pages_per_vblk then blk_clean else get_lpn m bank region k))

write-HasSummary :
    (bank region blk blk_clean : ℕ) (s : Ftl) {f : Flash}
    → vst_write_page s.flash bank blk
        (pages_per_vblk - 1)
        0
        2
        (summary_page bank region blk_clean s)
        s.spare
      ≡ some f
    → HasSummary bank region blk blk_clean s.pgmap s.spare f
unfolding HasSummary
write-HasSummary bank region blk blk_clean s e dst =
    let (r, got, agrees) =
      read-write s.flash bank blk (pages_per_vblk - 1) 0 2 (summary_page bank region blk_clean s)
        dst s.spare e in
    (
      r,
      got,
      λ k h.
          let inside : in_range 0 256 k ≡ true = ground arith in
          agrees.meta (summary_tagged bank region blk_clean s) k inside
          ∙ summary_word bank region blk_clean s k
          ∙ summary_cell bank region blk_clean s k
          ∙ elim (Bool-cases (k == pages_per_vblk)) [
            | inl same ↦ rw same refl
            | inr other ↦
                let low : ltb k pages_per_vblk ≡ true = ground arith in rw (other, low) refl
          ],
    )

-- What allocation does when the open block of the region is full.
pub record NextBlk (bank region : ℕ) (s : Ftl) (blk_clean : ℕ) (m : Blkmgr) (s' : Ftl)
    : Type 0 where
  pub summary :
      HasSummary bank region
        (get_active_ppn s.pgmap bank region / pages_per_vblk)
        blk_clean
        s.pgmap
        s.spare
        s'.flash
  pub active : get_active_ppn s'.pgmap bank region ≡ blk_clean * pages_per_vblk + 1
  pub blkmgr : s'.blkmgr ≡ m
  pub mapped : (lpn : ℕ) → get_ppn s'.pgmap lpn ≡ get_ppn s.pgmap lpn

closed-NextBlk :
    (bank region : ℕ) (s : Ftl) (blk_clean : ℕ) (m : Blkmgr) {f : Flash}
    → let blk = get_active_ppn s.pgmap bank region / pages_per_vblk in
      let t : Ftl = record s { blkmgr = m } in
      vst_write_page s.flash bank blk
          (pages_per_vblk - 1)
          0
          2
          (summary_page bank region blk_clean t)
          s.spare
        ≡ some f
      → NextBlk bank region s blk_clean m (
          taken bank region
            (blk_clean * pages_per_vblk)
            (closed bank region blk_clean f (record s { blkmgr = m })))
unfolding closed summarised clear_lpns set_blk_time get_ppn write_cells set_active_ppn
closed-NextBlk bank region s blk_clean m {f} e = record {
  summary = write-HasSummary bank region _ blk_clean (record s { blkmgr = m }) e;
  active =
      active-taken bank region _ (closed bank region blk_clean f (record s { blkmgr = m })).pgmap;
  blkmgr = refl;
  mapped = λ lpn. refl;
}

write_possible :
    (bank blk : ℕ) (s : Ftl) (src : VPage)
    → bank < num_banks
    → blk < vblks_per_bank
    → (s.flash.pages bank blk (pages_per_vblk - 1)).is_erased ≡ true
    → (f : Flash) × (vst_write_page s.flash bank blk (pages_per_vblk - 1) 0 2 src s.spare ≡ some f)
unfolding accepts
write_possible bank blk s src b k erased =
    let w = write-accepts s.flash bank blk (pages_per_vblk - 1) 0 2 src s.spare in
    elim (Option-cases (vst_write_page s.flash bank blk (pages_per_vblk - 1) 0 2 src s.spare)) [
      | inl e ↦ absurd (ground (arith, w, e, erased))
      | inr found ↦ found
    ]

-- When the open block is full and its last page was not written, allocation closes the block: the
-- summary page then holds the region's page list and the link to the block that is opened next, as
-- a read of it shows. It hands out the first page of that block, the block manager has taken the
-- block, and no logical page moves.
pub active_ppn-NextBlk :
    (bank region : ℕ) (s : Ftl)
    → bank < num_banks
    → get_active_ppn s.pgmap bank region / pages_per_vblk < vblks_per_bank
    → get_active_ppn s.pgmap bank region % pages_per_vblk ≡ pages_per_vblk - 1
    → (s.flash.pages bank
        (get_active_ppn s.pgmap bank region / pages_per_vblk)
        (pages_per_vblk - 1)).is_erased
      ≡ true
    → (get_and_inc_active_blk s.blkmgr bank region).0 < vblks_per_bank
    → let (blk_clean, m) = get_and_inc_active_blk s.blkmgr bank region in
      (s' : Ftl) × (get_and_inc_active_ppn bank region s ≡ some (blk_clean * pages_per_vblk, s'))
      × NextBlk bank region s blk_clean m s'
unfolding get_and_inc_active_ppn next_ppn
active_ppn-NextBlk bank region s b inside full erased clean =
    let blk = get_active_ppn s.pgmap bank region / pages_per_vblk in
    let r = get_and_inc_active_blk s.blkmgr bank region in
    let t : Ftl = record s { blkmgr = r.1 } in
    let (f, e) = write_possible bank blk t (summary_page bank region r.0 t) b inside erased in
    let at_end : (get_active_ppn s.pgmap bank region % pages_per_vblk == pages_per_vblk - 1)
        ≡ true =
      ground arith in
    let room : ltb (r.0 * pages_per_vblk / pages_per_vblk) vblks_per_bank ≡ true = ground arith in
    let first : (r.0 * pages_per_vblk % pages_per_vblk == pages_per_vblk - 1) ≡ false =
      ground arith in
    (
      taken bank region (r.0 * pages_per_vblk) (closed bank region r.0 f t),
      rw (at_end, close_blk-closed bank region blk r.0 t e, room, first) refl,
      closed-NextBlk bank region s r.0 r.1 e,
    )
