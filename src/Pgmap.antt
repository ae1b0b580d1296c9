-- ===== src/Pgmap.antt =====
-- ftl_optr/pgmap.c: the page map, the page list of each open block, and the next page of each
-- region and of the log. What writes to flash (`get_and_inc_active_ppn`, the map table) or takes a
-- block (`get_log_ppn`) stands in Ftl.
pub mod Trim
mod Tests
use optr_jasmine.Prelude.{ℕ, ◌+◌, ◌-◌, ◌*◌, add32, update, for_range}
use optr_jasmine.Config.{num_banks, num_regions, pages_per_vblk, vblks_per_bank}

-- The array `pgmap` and the DRAM regions PAGE_MAP, LPNS and BLK_TIME.
pub record Pgmap : Type 0 where
  pub active_ppns : ℕ → ℕ → ℕ
  pub log_ppn : ℕ → ℕ
  pub page_map : ℕ → ℕ
  pub lpns : ℕ → ℕ
  pub blk_time : ℕ → ℕ

unfoldable pub set_ppn : ℕ → ℕ → Pgmap → Pgmap
set_ppn lpn ppn m = record m { page_map = update m.page_map lpn ppn }

unfoldable pub get_ppn : Pgmap → ℕ → ℕ
get_ppn m lpn = m.page_map lpn

-- LPNS(bank, region, page): a region's list fills whole sectors of 128 words.
abbrev pub lpns_cell : ℕ → ℕ → ℕ → ℕ
lpns_cell bank region page = (bank * num_regions + region) * pages_per_vblk + page

unfoldable pub set_lpn : ℕ → ℕ → ℕ → ℕ → Pgmap → Pgmap
set_lpn bank region page lpn m = record m { lpns = update m.lpns (lpns_cell bank region page) lpn }

unfoldable pub get_lpn : Pgmap → ℕ → ℕ → ℕ → ℕ
get_lpn m bank region page = m.lpns (lpns_cell bank region page)

unfoldable pub get_active_ppn : Pgmap → ℕ → ℕ → ℕ
get_active_ppn m bank region = m.active_ppns bank region

unfoldable pub set_active_ppn : ℕ → ℕ → ℕ → Pgmap → Pgmap
set_active_ppn bank region ppn m = record m {
  active_ppns = update m.active_ppns bank (update (m.active_ppns bank) region ppn);
}

unfoldable pub set_log_ppn : ℕ → ℕ → Pgmap → Pgmap
set_log_ppn bank ppn m = record m { log_ppn = update m.log_ppn bank ppn }

-- BLK_TIME(bank, blk)
unfoldable pub get_blk_time : Pgmap → ℕ → ℕ → ℕ
get_blk_time m bank blk = m.blk_time (bank * vblks_per_bank + blk)

unfoldable pub set_blk_time : ℕ → ℕ → ℕ → Pgmap → Pgmap
set_blk_time bank blk epoch m = record m {
  blk_time = update m.blk_time (bank * vblks_per_bank + blk) epoch;
}

-- for (p = lpn; p < lpn + n_pages; p++)
unfoldable pub pgmap_trim : ℕ → ℕ → Pgmap → Pgmap
unfolding set_ppn
pgmap_trim lpn n_pages m = for_range (add32 lpn n_pages - lpn) lpn (λ p s. set_ppn p 0 s) m
