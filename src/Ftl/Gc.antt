-- ===== src/Ftl/Gc.antt =====
-- ftl_optr/blkmgr.c: `garbage_collection`. The valid pages of the victim move to the open block of
-- the last region, and the victim is free again; it is erased later.
pub mod Moves
pub mod Victim
pub mod Round
pub mod Loop
use optr_jasmine.Prelude.{
  ℕ, ◌+◌, ◌-◌, ◌*◌, ◌/◌, ◌%◌, Option, some, if◌then◌else◌, ltb, ◌==◌, assert, ◌>>◌, ◌>>=◌, for_try,
  minus_two, inc32, u16,
}
use optr_jasmine.Config.{num_regions, pages_per_vblk}
use optr_jasmine.Stat.{stat_dirty_rate, stat_gc_erase_sync, stat_gc_vcount, stat_record_gc}
use optr_jasmine.Blkmgr.{get_vcount, set_vcount, get_victim_blk, on_bank, on_list}
use optr_jasmine.Pgmap.{get_ppn, set_ppn, set_lpn}
use optr_jasmine.Ftl.{Ftl, on_blkmgr, on_stats, on_pgmap, try_blkmgr, ftl_buf}
use optr_jasmine.Ftl.Nand.{read_cell, nand_page_ptread, nand_page_copyback, nand_block_erase}
use optr_jasmine.Ftl.Pages.{get_and_inc_active_ppn}
use optr_jasmine.Ftl.Record.{log_insert_mapent}

unfoldable pub cache_collect_dirty_rate : Ftl → Ftl
cache_collect_dirty_rate s =
    on_stats (stat_dirty_rate (λ bank. (s.caches.banks bank).n_dirty_bufs)) s

-- A victim that was not erased in the background is erased now.
unfoldable pub erase_pending : ℕ → Ftl → Ftl
unfolding nand_block_erase
erase_pending bank s =
    let vt_blk = (s.blkmgr.banks bank).vt_blk in
    if vt_blk == 0
    then s
    else on_blkmgr (on_bank bank (λ b. record b { vt_blk = 0 }))
        (nand_block_erase bank vt_blk (on_stats stat_gc_erase_sync s))

-- One valid page moves. Nothing sets the bytes of the span in the spare area, which lie on the
-- stack.
unfoldable pub move_page : ℕ → ℕ → ℕ → ℕ → Ftl → Option Ftl
unfolding get_and_inc_active_ppn log_insert_mapent nand_page_copyback get_vcount set_vcount
move_page bank vt_blk vt_page lpn s = do
  (gc_ppn, s1) ← get_and_inc_active_ppn bank (num_regions - 1) s
  let gc_blk = gc_ppn / pages_per_vblk
  let gc_page = gc_ppn % pages_per_vblk
  let s2 = on_pgmap (λ m. set_lpn bank (num_regions - 1) gc_page lpn (set_ppn lpn gc_ppn m)) s1
  s3 ← try_blkmgr (λ m. set_vcount m bank gc_blk (get_vcount m bank gc_blk + 1)) s2
  s4 ← log_insert_mapent lpn gc_ppn s3
  let s5 = record s4 {
    spare = record { lpn = lpn; pg_span = u16 (s4.flash.junk 0); epoch = minus_two };
  }
  if s5.enable_gc_opt then some s5 else nand_page_copyback bank vt_blk vt_page gc_blk gc_page s5

-- One round of the loop over the pages of the victim, with the count of valid pages.
unfoldable pub gc_page_round : ℕ → ℕ → (ℕ → ℕ) → ℕ → ℕ × Ftl → Option (ℕ × Ftl)
unfolding move_page
gc_page_round bank vt_blk lpns vt_page (n_valid, s) =
    let lpn = lpns vt_page in
    if get_ppn s.pgmap lpn == vt_blk * pages_per_vblk + vt_page
    then (move_page bank vt_blk vt_page lpn s >>= λ s'. some (inc32 n_valid, s'))
    else some (n_valid, s)

-- The victim's bookkeeping: its count, the counts of free blocks, and the tail of the list.
unfoldable pub free_victim : ℕ → ℕ → ℕ → Ftl → Option Ftl
free_victim bank region vt_blk s = do
  s1 ←
      try_blkmgr (λ m. set_vcount m bank vt_blk 0)
        (on_blkmgr (on_bank bank (λ b. record b { vt_blk = vt_blk })) s)
  some (
      on_blkmgr
        (λ m.
          on_list bank region (λ l. record l { free = inc32 l.free; tail = inc32 l.tail % l.size })
            (on_bank bank (λ b. record b { free_blk_cnt = inc32 b.free_blk_cnt }) m))
        s1)

unfoldable pub garbage_collection : ℕ → ℕ → Ftl → Option Ftl
unfolding cache_collect_dirty_rate erase_pending get_victim_blk nand_page_ptread read_cell
    gc_page_round free_victim
garbage_collection bank region s = do
  let s1 =
      erase_pending bank (cache_collect_dirty_rate (on_blkmgr (λ m. record m { first_gc = 0 }) s))
  (vt_blk, m, st) ← get_victim_blk s1.blkmgr s1.stats bank region
  let vcount = get_vcount m bank vt_blk
  s2 ←
      nand_page_ptread bank vt_blk (pages_per_vblk - 1) 0 1 (ftl_buf bank)
        (record s1 { blkmgr = m; stats = st })
  (n_valid, s3) ←
      for_try (pages_per_vblk - 1) 0 (gc_page_round bank vt_blk (read_cell s2 (ftl_buf bank)))
        (0, s2)
  assert (n_valid == vcount)
  assert (ltb n_valid (pages_per_vblk - 1))
  s4 ← free_victim bank region vt_blk (on_stats (stat_gc_vcount vcount) s3)
  some (on_stats (stat_record_gc bank 0) s4)
