-- ===== src/Ftl/Dequeue.antt =====
-- ftl_optr/cache.c: the operations of the write cache that use flash or the other components.
pub mod Unmap
pub mod Write
pub mod Flush
use optr_jasmine.Prelude.{
  ℕ, zero, suc, ◌+◌, ◌-◌, ◌*◌, ◌/◌, ◌%◌, Bool, true, false, not, ◌&&◌, Option, none, some,
  if◌then◌else◌, ltb, leb, ◌==◌, assert, ◌>>◌, ◌>>=◌, sub32, update, for_try,
}
use optr_jasmine.Config.{
  num_banks, num_cache_buffers_per_bank, pages_per_vblk, sectors_per_page, num_wr_buffers,
}
use optr_jasmine.Stat.{
  stat_update_distance, stat_get_dist_median, stat_region_balance_factor, stat_data_page,
  stat_gc_erase_async,
}
use optr_jasmine.Blkmgr.{BankBlks, dec_vcount, inc_vcount, on_bank}
use optr_jasmine.Pgmap.{get_ppn, set_ppn, set_lpn, get_blk_time}
use optr_jasmine.Cache.{
  Cache, CacheEnt, Caches, on_cache, no_buf, is_dirty, flush_victim, clean_victim, clean_ent,
  enqueue_ent, get_cache_ent_epoch, epoch_cell,
}
use optr_jasmine.Vst.Page.{VPage, tag_page, untag_page, splice, or_else, cells_per_sector}
use optr_jasmine.Ftl.{Ftl, on_blkmgr, on_stats, on_pgmap, on_caches, try_blkmgr, cache_buf, wr_buf}
use optr_jasmine.Ftl.Nand.{nand_page_program, nand_block_erase}
use optr_jasmine.Ftl.Pages.{get_and_inc_active_ppn}
use optr_jasmine.Ftl.Record.{log_insert_mapent}

-- One page of `vst_memcpy`, after the tag of the page was set.
copy_sects : VPage → VPage → ℕ → ℕ → VPage
unfolding tag_page untag_page
copy_sects dst src sect n =
    let host = tag_page dst in
    let meta = untag_page dst in
    if src.tagged then record host { sects = splice host.sects src.sects sect n } else record meta {
      cells = some (
          splice (or_else (λ _. 0) meta.cells) (or_else (λ _. 0) src.cells)
            (sect * cells_per_sector) (n * cells_per_sector));
    }

-- `vst_memcpy` of sectors [sect, sect + n) of one page buffer to the same place in another. A copy
-- that reaches the end of the page also sets the tag of the page behind it.
unfoldable pub mem_copy_sects : ℕ → ℕ → ℕ → ℕ → Ftl → Ftl
unfolding copy_sects tag_page untag_page
mem_copy_sects dst src sect n s =
    let behind = dst + (sect + n) / sectors_per_page in
    let set_tag = if (s.ram src).tagged then tag_page else untag_page in
    let ram = update s.ram behind (set_tag (s.ram behind)) in
    record s { ram = update ram dst (copy_sects (ram dst) (s.ram src) sect n) }

unfoldable pub enqueue : ℕ → ℕ → ℕ → ℕ → ℕ → Bool → Ftl → Option Ftl
unfolding mem_copy_sects enqueue_ent
enqueue bank lpn buf_id hole_left hole_right comp s = do
  c ← enqueue_ent lpn buf_id s.g_pg_span comp (s.caches.banks bank)
  let n = sectors_per_page - hole_left - hole_right
  let s1 =
      if s.enable_gc_opt
      then s
      else mem_copy_sects (cache_buf bank buf_id) (wr_buf s.g_ftl_write_buf_id) hole_left n s
  let s2 =
      on_caches
        (λ cs. record (on_cache bank (λ _. c) cs) {
          epochs = update cs.epochs (epoch_cell bank buf_id) s.g_epoch;
        })
        s1
  some (
      if s.enable_gc_opt
      then s2
      else record s2 { g_ftl_write_buf_id = (s.g_ftl_write_buf_id + 1) % num_wr_buffers })

-- What `dequeue` does with the block that held the page: one page less is valid in it.
unfoldable pub unmap_old : ℕ → ℕ → Ftl → Option Ftl
unfolding stat_get_dist_median dec_vcount
unmap_old bank old_ppn s = if old_ppn == 0 then some s else (do
  let blk = old_ppn / pages_per_vblk
  s1 ← try_blkmgr (λ m. dec_vcount m bank blk) s
  let dist = sub32 s.g_epoch (get_blk_time s.pgmap bank blk)
  let (median, st) = stat_get_dist_median (stat_update_distance dist s1.stats)
  some (record s1 { stats = st }))

-- The map, the page list of the block, its count and the log get the new page.
unfoldable pub map_new : ℕ → ℕ → ℕ → Ftl → Option Ftl
unfolding log_insert_mapent inc_vcount set_ppn set_lpn
map_new bank lpn new_ppn s = do
  let blk = new_ppn / pages_per_vblk
  let page = new_ppn % pages_per_vblk
  let s1 = on_pgmap (λ m. set_ppn lpn new_ppn (set_lpn bank 1 page lpn m)) s
  s2 ← try_blkmgr (λ m. inc_vcount m bank blk) s1
  log_insert_mapent lpn new_ppn s2

-- `dequeue` once it has its buffer.
unfoldable pub write_out : ℕ → ℕ → Ftl → Option Ftl
unfolding unmap_old get_and_inc_active_ppn map_new clean_ent nand_page_program get_cache_ent_epoch
write_out bank idx s = do
  let ent = (s.caches.banks bank).ents idx
  s1 ← unmap_old bank (get_ppn s.pgmap ent.lpn) s
  (new_ppn, s2) ← get_and_inc_active_ppn bank 1 (on_stats (stat_region_balance_factor bank 1) s1)
  s3 ← map_new bank ent.lpn new_ppn s2
  let s4 = on_caches (on_cache bank (clean_ent idx)) s3
  let s5 = record s4 {
    spare = record {
      lpn = ent.lpn;
      pg_span = ent.pg_span;
      epoch = get_cache_ent_epoch s4.caches bank idx;
    };
  }
  if s5.enable_gc_opt
      then some s5
      else nand_page_program bank (new_ppn / pages_per_vblk) (new_ppn % pages_per_vblk)
          (cache_buf bank idx) (on_stats stat_data_page s5)

-- The Boolean is `true` when the bank has no dirty buffer left to write.
unfoldable pub dequeue : ℕ → Ftl → Option (Bool × Ftl)
unfolding write_out
dequeue bank s =
    let s' = on_caches (on_cache bank (λ c. record c { buf_id_incomplete = no_buf })) s in
    if (s.caches.banks bank).stall
    then some (false, s)
    else elim (flush_victim (s'.caches.banks bank)) [
      | none ↦ some (true, s')
      | some idx ↦ write_out bank idx s' >>= λ s''. some (false, s'')
    ]

unfoldable pub blkmgr_erase_vt_blk : ℕ → Ftl → Ftl
unfolding nand_block_erase
blkmgr_erase_vt_blk bank s =
    let vt_blk = (s.blkmgr.banks bank).vt_blk in
    if vt_blk == 0
    then s
    else on_blkmgr (on_bank bank (λ b. record b { vt_blk = 0 }))
        (nand_block_erase bank vt_blk (on_stats stat_gc_erase_async s))

unfoldable pub pool_write_buf : Ftl → Option Ftl
unfolding dequeue blkmgr_erase_vt_blk
pool_write_buf s = do
  let bank = s.caches.pool_bank
  s' ←
      if ltb (num_cache_buffers_per_bank / 2) (s.caches.banks bank).n_dirty_bufs
      then (dequeue bank s >>= λ (r : Bool × Ftl). some r.1)
      else some (blkmgr_erase_vt_blk bank s)
  some (on_caches (λ c. record c { pool_bank = (c.pool_bank + 1) % num_banks }) s')

-- for (bank ...) done &= dequeue(bank)
unfoldable pub flush_round : Ftl → Option (Bool × Ftl)
unfolding dequeue
flush_round s =
    for_try num_banks 0
      (λ bank (r : Bool × Ftl).
        dequeue bank r.1 >>= λ (q : Bool × Ftl). some ((if r.0 then q.0 else false), q.1))
      (true, s)

unfoldable pub flush_rounds : ℕ → Ftl → Option Ftl
unfolding flush_round
flush_rounds zero s = none
flush_rounds (suc fuel) s = flush_round s >>= λ (r : Bool × Ftl). elim r.0 [
  | true ↦ some r.1
  | false ↦ flush_rounds fuel r.1
]

-- A bank has 32 buffers, so 33 rounds are enough unless a cache is stalled.
unfoldable pub flush_write_buf : Ftl → Option Ftl
unfolding flush_rounds
flush_write_buf s = flush_rounds 33 s

-- The loop of `get_clean_cache_buf`: while every buffer is dirty, the bank is served once in 16
-- rounds, and 32 more rounds find the buffer; so 48 are enough unless the cache is stalled.
unfoldable pub find_clean : ℕ → ℕ → ℕ → Ftl → Option (ℕ × Ftl)
unfolding pool_write_buf
find_clean zero bank idx s = none
find_clean (suc fuel) bank idx s = elim (is_dirty (s.caches.banks bank) idx) [
  | false ↦ some (idx, s)
  | true ↦
      pool_write_buf s >>= λ s'. find_clean fuel bank ((idx + 1) % num_cache_buffers_per_bank) s'
]

unfoldable pub get_clean_cache_buf : ℕ → Ftl → Option (ℕ × Ftl)
unfolding find_clean
get_clean_cache_buf bank s = do
  (idx, s') ← find_clean 49 bank 0 s
  some (clean_victim (s'.caches.banks bank) idx, s')
