-- ===== src/Ftl/Commit.antt =====
-- ftl_optr/pgmap.c, blkmgr.c and log.c: the page map written to flash and read back, the log
-- reclaimed, and the commit tag. The page map fills 1,905 pages, the last of them 21 sectors of
-- one; page `i` stands in bank i % 16 at page i / 16 of the bank's map block.
pub mod Save
pub mod Restore
pub mod Erase
pub mod Table
use optr_jasmine.Prelude.{
  ℕ, zero, suc, ◌+◌, ◌-◌, ◌*◌, ◌/◌, ◌%◌, true, false, ◌&&◌, Option, none, some, if◌then◌else◌, ltb,
  ◌==◌, ◌>>=◌, for_range, for_try, sub32, inc32,
}
use optr_jasmine.Config.{num_banks, num_log_blks_per_bank, sectors_per_page, vc_max, vblks_per_bank}
use optr_jasmine.Stat.{stat_reclaim_log}
use optr_jasmine.Blkmgr.{
  Blkmgr, blkmgr_get_map_blk, blkmgr_toggle_map_blk_idx, blkmgr_reach_log_reclaim_threshold,
  push_rsv, get_vcount,
}
use optr_jasmine.Pgmap.{Pgmap}
use optr_jasmine.Vst.Page.{VPage, or_else}
use optr_jasmine.Vst.Flash.{vst_read_page, vst_write_page}
use optr_jasmine.Ftl.{Ftl, on_blkmgr, on_stats, on_chkpt, ftl_buf}
use optr_jasmine.Ftl.Nand.{
  read_cell, write_cell, write_cells, nand_page_ptread, nand_page_ptprogram, nand_block_erase,
}
use optr_jasmine.Ftl.Pages.{revert_log_ppn}
use optr_jasmine.Ftl.Record.{persist_tag, used_log_page}

abbrev pub cells_per_page : ℕ
cells_per_page = 4096

abbrev pub num_map_pages : ℕ
num_map_pages = 1905

-- PGMAP_COMMIT_PG
abbrev pub pgmap_commit_pg : ℕ
pgmap_commit_pg = 120

abbrev pub map_sects : ℕ → ℕ
map_sects i = if i == num_map_pages - 1 then 21 else sectors_per_page

-- Page `i` of the page map, as the flash reads it from DRAM.
abbrev pub map_page : Pgmap → ℕ → VPage
map_page m i = record {
  tagged = false;
  cells = some (λ k. m.page_map (i * cells_per_page + k));
  sects = λ _. record { lba = 0; ver = 0 };
}

abbrev pub load_map_page : ℕ → VPage → Pgmap → Pgmap
load_map_page i pp m = record m {
  page_map = λ lpn.
      if lpn / cells_per_page == i
      then or_else (λ _. 0) pp.cells (lpn % cells_per_page)
      else m.page_map lpn;
}

unfoldable pub check_pgmap_commit : ℕ → Ftl → Option (ℕ × Ftl)
unfolding nand_page_ptread read_cell
check_pgmap_commit blk s = do
  s' ← nand_page_ptread 0 blk pgmap_commit_pg 0 1 (ftl_buf 0) s
  some (if read_cell s' (ftl_buf 0) 0 == 815 then read_cell s' (ftl_buf 0) 1 else 0, s')

unfoldable pub record_pgmap_commit : ℕ → Ftl → Option Ftl
unfolding write_cells nand_page_ptprogram
record_pgmap_commit blk s =
    nand_page_ptprogram 0 blk pgmap_commit_pg 0 1 (ftl_buf 0)
      (write_cell (ftl_buf 0) 1 (sub32 s.g_epoch 1) (write_cell (ftl_buf 0) 0 815 s))

unfoldable pub blkmgr_erase_cur_map_blk : Ftl → Ftl
unfolding nand_block_erase
blkmgr_erase_cur_map_blk s =
    for_range num_banks 0 (λ bank t. nand_block_erase bank (blkmgr_get_map_blk t.blkmgr bank) t) s

unfoldable pub persist_map_page : ℕ → Ftl → Option Ftl
unfolding vst_write_page
persist_map_page i s = do
  let bank = i % num_banks
  f ←
      vst_write_page s.flash bank (blkmgr_get_map_blk s.blkmgr bank) (i / num_banks) 0 (map_sects i)
        (map_page s.pgmap i) s.spare
  some (record s { flash = f })

unfoldable pub pgmap_persist_map_table : Ftl → Option Ftl
unfolding persist_map_page record_pgmap_commit blkmgr_erase_cur_map_blk
pgmap_persist_map_table s = do
  s1 ← for_try num_map_pages 0 persist_map_page s
  s2 ← record_pgmap_commit (blkmgr_get_map_blk s1.blkmgr 0) s1
  some (blkmgr_erase_cur_map_blk (on_blkmgr blkmgr_toggle_map_blk_idx s2))

unfoldable pub restore_map_page : ℕ → Ftl → Option Ftl
unfolding vst_read_page
restore_map_page i s = do
  let bank = i % num_banks
  (pp, spare) ←
      vst_read_page s.flash bank (blkmgr_get_map_blk s.blkmgr bank) (i / num_banks) 0 (map_sects i)
        (map_page s.pgmap i)
  some (record s { pgmap = load_map_page i pp s.pgmap; spare = spare })

-- The table with the later commit is read, and its epoch becomes the current one.
unfoldable pub pgmap_restore_map_table : Ftl → Option Ftl
unfolding check_pgmap_commit restore_map_page
pgmap_restore_map_table s = do
  (e0, s1) ← check_pgmap_commit (blkmgr_get_map_blk s.blkmgr 0) s
  let s2 = on_blkmgr blkmgr_toggle_map_blk_idx s1
  (e1, s3) ← check_pgmap_commit (blkmgr_get_map_blk s2.blkmgr 0) s2
  let s4 = if ltb e1 e0 then on_blkmgr blkmgr_toggle_map_blk_idx s3 else s3
  if e0 == 0 && e1 == 0
      then some s3
      else for_try num_map_pages 0 restore_map_page
          (record s4 { g_epoch = if ltb e1 e0 then e0 else e1 })

-- do blk++ while its count is VC_MAX
skip_vc_max : ℕ → Blkmgr → ℕ → ℕ → Option ℕ
skip_vc_max zero m bank blk = none
skip_vc_max (suc fuel) m bank blk =
    let rest = skip_vc_max fuel m bank (inc32 blk) in
    if get_vcount m bank (inc32 blk) == vc_max then rest else some (inc32 blk)

erase_bank_log_blks : ℕ → Ftl → Option Ftl
unfolding skip_vc_max nand_block_erase
erase_bank_log_blks bank s =
    for_try num_log_blks_per_bank 0
      (λ cnt_erase (r : ℕ × Ftl). skip_vc_max vblks_per_bank s.blkmgr bank r.0 >>= λ next.
        some (next, nand_block_erase bank r.0 r.1))
      ((s.blkmgr.banks bank).blk_log_first, s)
    >>= λ (r : ℕ × Ftl). some r.1

-- The source's loop over the log blocks encloses the one over the banks; the erasures of different
-- banks do not depend on each other.
unfoldable pub erase_all_log_blks : Ftl → Option Ftl
unfolding erase_bank_log_blks
erase_all_log_blks s = for_try num_banks 0 erase_bank_log_blks s

unfoldable pub blkmgr_reclaim_log : Ftl → Option Ftl
unfolding pgmap_persist_map_table erase_all_log_blks
blkmgr_reclaim_log s = do
  s1 ← pgmap_persist_map_table (on_stats stat_reclaim_log s)
  s2 ← erase_all_log_blks s1
  some (on_blkmgr (λ m. record m { log_blk_cnt = num_log_blks_per_bank * num_banks }) s2)

-- The log is reclaimed when it is nearly full, and the tag is written again at its start; it is not
-- nearly full then, so two rounds are enough.
tag_rounds : ℕ → Ftl → Option Ftl
unfolding persist_tag blkmgr_reclaim_log revert_log_ppn
tag_rounds zero s = none
tag_rounds (suc fuel) s =
    let s1 = on_blkmgr (λ m. for_range num_banks 0 (λ bank k. push_rsv k bank) m) s in
    persist_tag s1.chkpt.bank_active s1 >>= λ s2.
    let s3 = on_chkpt used_log_page s2 in
    elim (blkmgr_reach_log_reclaim_threshold s3.blkmgr) [
      | false ↦ some s3
      | true ↦ blkmgr_reclaim_log s3 >>= λ s4. for_try num_banks 0 revert_log_ppn s4 >>= λ s5.
          tag_rounds fuel (on_chkpt (λ c. record c { bank_active = 0 }) s5)
    ]

unfoldable pub record_tag : Ftl → Option Ftl
unfolding tag_rounds
record_tag s = tag_rounds 2 s
