-- ===== src/Ftl/Pages.antt =====
-- ftl_optr/pgmap.c: the next page of a region's open block and of the log.
pub mod Alloc
use optr_jasmine.Prelude.{
  ℕ, ◌+◌, ◌-◌, ◌*◌, ◌/◌, ◌%◌, not, Option, none, some, if◌then◌else◌, ltb, ◌==◌, assert, ◌>>◌,
  ◌>>=◌, for_range, update,
}
use optr_jasmine.Config.{pages_per_vblk, vblks_per_bank}
use optr_jasmine.Blkmgr.{Blkmgr, get_and_inc_active_blk, get_log_blk, revert_log_blk}
use optr_jasmine.Cache.{stall_cache, release_cache}
use optr_jasmine.Pgmap.{
  Pgmap, get_active_ppn, set_active_ppn, set_log_ppn, get_lpn, lpns_cell, set_blk_time,
}
use optr_jasmine.Ftl.{Ftl, ftl_buf, on_pgmap, on_caches, on_blkmgr}
use optr_jasmine.Ftl.Nand.{write_cells, nand_page_ptprogram}

-- mem_set_dram(LPNS(bank, region, 0), 0, sizeof(UINT32) * PAGES_PER_VBLK)
clear_lpns : ℕ → ℕ → Pgmap → Pgmap
clear_lpns bank region m = record m {
  lpns = for_range pages_per_vblk 0 (λ page l. update l (lpns_cell bank region page) 0) m.lpns;
}

-- The summary page of the full block `blk`: its page list and the link to the next open block.
close_blk : ℕ → ℕ → ℕ → ℕ → Ftl → Option Ftl
unfolding clear_lpns get_lpn write_cells nand_page_ptprogram
close_blk bank region blk blk_clean s = do
  let s1 = write_cells (ftl_buf bank) 0 pages_per_vblk (get_lpn s.pgmap bank region) s
  let s2 = write_cells (ftl_buf bank) pages_per_vblk 1 (λ _. blk_clean) s1
  s3 ←
      nand_page_ptprogram bank blk (pages_per_vblk - 1) 0 2 (ftl_buf bank)
        (on_caches (stall_cache bank) s2)
  let s4 = on_pgmap (clear_lpns bank region) (on_caches (release_cache bank) s3)
  some (on_pgmap (set_blk_time bank blk_clean s4.g_epoch) s4)

-- The page that the call hands out, and the state in which its block is open.
next_ppn : ℕ → ℕ → Ftl → Option (ℕ × Ftl)
unfolding close_blk
next_ppn bank region s =
    let ppn = get_active_ppn s.pgmap bank region in
    let blk = ppn / pages_per_vblk in
    let (blk_clean, m) = get_and_inc_active_blk s.blkmgr bank region in
    if ppn % pages_per_vblk == pages_per_vblk - 1
    then (do
      s' ← close_blk bank region blk blk_clean (record s { blkmgr = m })
      some (blk_clean * pages_per_vblk, s'))
    else some (ppn, s)

unfoldable pub get_and_inc_active_ppn : ℕ → ℕ → Ftl → Option (ℕ × Ftl)
unfolding next_ppn
get_and_inc_active_ppn bank region s = do
  (ppn, s') ← next_ppn bank region s
  assert (ltb (ppn / pages_per_vblk) vblks_per_bank)
  assert (not (ppn % pages_per_vblk == pages_per_vblk - 1))
  some (ppn, on_pgmap (set_active_ppn bank region (ppn + 1)) s')

unfoldable pub get_log_ppn : ℕ → Ftl → Option (ℕ × Ftl)
get_log_ppn bank s =
    let ppn = s.pgmap.log_ppn bank in
    if ppn % pages_per_vblk == pages_per_vblk - 1
    then (do
      (blk, m) ← get_log_blk s.blkmgr bank
      let ppn' = blk * pages_per_vblk
      some (ppn', on_pgmap (set_log_ppn bank (ppn' + 1)) (record s { blkmgr = m })))
    else some (ppn, on_pgmap (set_log_ppn bank (ppn + 1)) s)

unfoldable pub revert_log_ppn : ℕ → Ftl → Option Ftl
revert_log_ppn bank s = do
  (blk_log, m) ← get_log_blk (revert_log_blk s.blkmgr bank) bank
  some (on_pgmap (set_log_ppn bank (blk_log * pages_per_vblk)) (record s { blkmgr = m }))
