-- ===== src/Ftl/Open.antt =====
-- ftl_optr/ftl.c, pgmap.c, blkmgr.c and board.c: what happens when the device is opened.
use optr_jasmine.Prelude.{
  ℕ, ◌-◌, ◌*◌, ◌%◌, Bool, false, Option, some, if◌then◌else◌, ◌==◌, ◌>>=◌, for_range, for_try,
}
use optr_jasmine.Config.{num_banks, num_regions, pages_per_vblk, vblks_per_bank, vc_max}
use optr_jasmine.Blkmgr.{get_and_inc_active_blk, get_log_blk, set_vcount, is_bad_block}
use optr_jasmine.Blkmgr.Init.{init_blkmgr}
use optr_jasmine.Pgmap.{set_active_ppn, set_log_ppn}
use optr_jasmine.Cache.{init_cache}
use optr_jasmine.Ftl.{Ftl, on_pgmap, on_caches, try_blkmgr, ftl_buf, dep_buf}
use optr_jasmine.Ftl.Nand.{
  read_cell, write_cells, nand_page_ptread, nand_page_ptprogram, nand_block_erase,
}
use optr_jasmine.Ftl.Commit.{pgmap_restore_map_table, record_tag}
use optr_jasmine.Ftl.Recover.{Recovering, ftl_recovery}

-- All blocks of a bank but the first are erased.
erase_bank : ℕ → Ftl → Option Ftl
unfolding is_bad_block nand_block_erase set_vcount
erase_bank bank s =
    for_try (vblks_per_bank - 1) 1
      (λ blk t.
        if is_bad_block t.blkmgr bank blk
        then try_blkmgr (λ m. set_vcount m bank blk vc_max) t
        else try_blkmgr (λ m. set_vcount m bank blk 0) (nand_block_erase bank blk t))
      s

unfoldable pub erase_all_blks : Ftl → Option Ftl
unfolding erase_bank
erase_all_blks s = for_try num_banks 0 erase_bank s

-- The first open block of each region and the first log block of the bank.
open_bank : ℕ → Ftl → Option Ftl
unfolding get_and_inc_active_blk get_log_blk set_active_ppn set_log_ppn
open_bank bank s = do
  let s1 =
      for_range num_regions 0
        (λ region t.
          let (blk, m) = get_and_inc_active_blk t.blkmgr bank region in
          on_pgmap (set_active_ppn bank region (blk * pages_per_vblk)) (record t { blkmgr = m }))
        s
  (blk_log, m) ← get_log_blk s1.blkmgr bank
  some (on_pgmap (set_log_ppn bank (blk_log * pages_per_vblk)) (record s1 { blkmgr = m }))

unfoldable pub init_pgmap : Ftl → Option Ftl
unfolding open_bank pgmap_restore_map_table
init_pgmap s = do
  s1 ←
      for_try num_banks 0 open_bank
        (on_pgmap (λ m. record m { page_map = λ lpn. 0; blk_time = λ i. 0 }) s)
  pgmap_restore_map_table s1

-- 15 in each of the 128 words' bytes
unfoldable pub write_format_mark : Ftl → Option Ftl
unfolding write_cells nand_page_ptprogram
write_format_mark s =
    nand_page_ptprogram 0 0 0 0 1 (ftl_buf 0) (write_cells (ftl_buf 0) 0 128 (λ i. 0x0F0F0F0F) s)

unfoldable pub check_format_mark : Ftl → Option (Bool × Ftl)
unfolding nand_page_ptread read_cell
check_format_mark s = do
  s' ← nand_page_ptread 0 0 0 0 1 (ftl_buf 0) s
  some (read_cell s' (ftl_buf 0) 0 % 256 == 15, s')

unfoldable pub format : Ftl → Option Ftl
unfolding erase_all_blks write_format_mark record_tag
format s = do s1 ← erase_all_blks s; s2 ← write_format_mark s1; record_tag s2

-- mem_set_dram of DEP_BUF and of the tables
init_dram : Ftl → Ftl
unfolding write_cells
init_dram s =
    let t = write_cells dep_buf 0 4096 (λ i. 0) s in
    record t {
      blkmgr = record t.blkmgr { bad_blk_bmp = λ i. false; vcounts = λ i. 0; blk_ids = λ i. 0 };
      pgmap = record t.pgmap { page_map = λ i. 0; lpns = λ i. 0; blk_time = λ i. 0 };
      caches = record t.caches { epochs = λ i. 0 };
    }

unfoldable pub ftl_open : Recovering → Option Recovering
unfolding init_dram init_pgmap check_format_mark format init_cache
ftl_open r = do
  let s1 = init_dram r.ftl
  m ← init_blkmgr s1.blkmgr
  s2 ← init_pgmap (record s1 { blkmgr = m })
  (formatted, s3) ← check_format_mark (record s2 { g_ftl_read_buf_id = 0; g_ftl_write_buf_id = 0 })
  r' ←
      if formatted
      then ftl_recovery (record r { ftl = s3 })
      else (format (record s3 { g_epoch = 0 }) >>= λ s4. some (record r { ftl = s4 }))
  some (record r' { ftl = on_caches init_cache r'.ftl })
