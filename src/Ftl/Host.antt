-- ===== src/Ftl/Host.antt =====
-- ftl_optr/ftl.c: the host's commands, as the simulator calls them. Waiting for the hardware ends at
-- once; `num_busy_banks` returns nothing in this build, and 0 stands for it.
pub mod Split
use optr_jasmine.Prelude.{
  ℕ, zero, suc, ◌+◌, ◌-◌, ◌*◌, ◌/◌, ◌%◌, Bool, true, false, not, ◌&&◌, ◌||◌, Option, none, some,
  if◌then◌else◌, ltb, ◌==◌, assert, ◌>>◌, ◌>>=◌, for_range, for_try, update, minus_one, add32,
  sub32, inc32, u16,
}
use optr_jasmine.Config.{
  num_banks, num_regions, pages_per_vblk, sectors_per_page, num_rd_buffers, num_wr_buffers,
}
use optr_jasmine.Stat.{
  show_stat, stat_host_read, stat_host_write, stat_record_para, stat_record_full_write,
  stat_record_insert, stat_record_update_side, stat_record_update_center, stat_record_merge_write,
  stat_record_chkpt, stat_gc_flush_page, stat_chkpt_flush_page, stat_manual_flush_page,
  stat_record_flush,
}
use optr_jasmine.Blkmgr.{blkmgr_reach_batch_gc_threshold, reach_gc_threshold}
use optr_jasmine.Pgmap.{get_ppn, pgmap_trim}
use optr_jasmine.Cache.{
  on_cache, is_dirty, exist_in_cache, wait_buf_complete, stall_cache, release_cache,
  get_cache_ent_epoch, get_cache_ent_pg_span, cache_get_total_dirty_bufs,
}
use optr_jasmine.Vst.Page.{untag_page}
use optr_jasmine.Ftl.{Ftl, on_stats, on_pgmap, on_caches, rd_buf, wr_buf, cache_buf}
use optr_jasmine.Ftl.Nand.{nand_page_ptread, nand_page_ptread_to_host, read_cell}
use optr_jasmine.Ftl.Record.{
  insert_dep_entry, is_depents_full, record_depent, record_mapent, reach_chkpt_threshold,
  reach_flush_depent,
}
use optr_jasmine.Ftl.Dequeue.{
  enqueue, flush_write_buf, pool_write_buf, get_clean_cache_buf, mem_copy_sects,
}
use optr_jasmine.Ftl.Gc.{garbage_collection}
use optr_jasmine.Ftl.Commit.{record_tag, pgmap_persist_map_table}

abbrev pub get_bank : ℕ → ℕ
get_bank lpn = lpn % num_banks

-- `cnt_sect`: what is left of the request, up to the end of the page.
unfoldable pub page_sects : ℕ → ℕ → ℕ
page_sects base_sect remain_sect =
    if ltb (add32 base_sect remain_sect) sectors_per_page
    then remain_sect
    else sectors_per_page - base_sect

next_read_buf : Ftl → Ftl
next_read_buf s = record s { g_ftl_read_buf_id = (s.g_ftl_read_buf_id + 1) % num_rd_buffers }

-- One page of `ftl_read`: from flash, from nowhere, or from the cache.
unfoldable pub read_page : ℕ → ℕ → ℕ → Ftl → Option Ftl
unfolding nand_page_ptread_to_host exist_in_cache wait_buf_complete stall_cache release_cache
    mem_copy_sects untag_page next_read_buf
read_page lpn base_sect cnt_sect s =
    let bank = get_bank lpn in
    let ppn = get_ppn s.pgmap lpn in
    let buf_id = exist_in_cache (s.caches.banks bank) lpn in
    let buf = rd_buf s.g_ftl_read_buf_id in
    if buf_id == minus_one
    then (if not (ppn == 0)
        then (nand_page_ptread_to_host bank (ppn / pages_per_vblk) (ppn % pages_per_vblk) base_sect
              cnt_sect (on_caches (stall_cache bank) s)
            >>= λ s'. some (on_caches (release_cache bank) s'))
        else some (next_read_buf (record s { ram = update s.ram buf (untag_page (s.ram buf)) })))
    else some (
        next_read_buf (
          mem_copy_sects buf (cache_buf bank buf_id) base_sect cnt_sect
            (on_caches (on_cache bank (wait_buf_complete buf_id)) s)))

-- while (remain_sect != 0): each round takes at least one sector off.
unfoldable pub read_rounds : ℕ → ℕ → ℕ → ℕ → Ftl → Option Ftl
unfolding read_page
read_rounds zero lpn base_sect remain_sect s = if remain_sect == 0 then some s else none
read_rounds (suc fuel) lpn base_sect remain_sect s = elim (remain_sect == 0) [
  | true ↦ some s
  | false ↦
      let cnt_sect = page_sects base_sect remain_sect in
      read_page lpn base_sect cnt_sect (on_stats (stat_record_para 0) s) >>= λ s'.
      read_rounds fuel (lpn + 1) 0 (remain_sect - cnt_sect) s'
]

unfoldable pub ftl_read : ℕ → ℕ → Ftl → Option Ftl
unfolding read_rounds
ftl_read lba n_sect s =
    read_rounds n_sect (lba / sectors_per_page) (lba % sectors_per_page) n_sect
      (on_stats (stat_host_read n_sect) s)

-- Sectors of the mapped page are read into the cache buffer.
read_part : ℕ → ℕ → ℕ → ℕ → ℕ → Ftl → Option Ftl
unfolding nand_page_ptread stall_cache release_cache
read_part bank buf_id ppn sect n s = do
  s' ←
      nand_page_ptread bank (ppn / pages_per_vblk) (ppn % pages_per_vblk) sect n
        (cache_buf bank buf_id) (on_caches (stall_cache bank) s)
  some (on_caches (release_cache bank) s')

-- The sectors of the mapped page that the request leaves alone are read into the cache buffer. The
-- Boolean is `comp`.
unfoldable pub preread : ℕ → ℕ → ℕ → ℕ → ℕ → Ftl → Option (Bool × Ftl)
unfolding read_part
preread bank buf_id ppn base_sect cnt_sect s =
    if ppn == 0
    then some (true, on_stats (stat_record_insert bank) s)
    else if cnt_sect == sectors_per_page
    then some (true, on_stats (stat_record_full_write bank) s)
    else if base_sect == 0 || (base_sect + cnt_sect) % sectors_per_page == 0
    then (read_part bank buf_id ppn (if base_sect == 0 then cnt_sect else 0)
          (sectors_per_page - cnt_sect) (on_stats (stat_record_update_side bank) s)
        >>= λ s'. some (false, s'))
    else (read_part bank buf_id ppn 0 sectors_per_page (on_stats (stat_record_update_center bank) s)
        >>= λ s'. some (true, s'))

-- A page that the cache holds dirty: the epoch it was written in depends on the current one.
unfoldable pub record_merge : ℕ → ℕ → Ftl → Option Ftl
unfolding insert_dep_entry is_depents_full record_depent get_cache_ent_epoch get_cache_ent_pg_span
record_merge bank buf_id s = do
  let epoch_src = get_cache_ent_epoch s.caches bank buf_id
  let pg_span = get_cache_ent_pg_span s.caches bank buf_id
  let s1 = insert_dep_entry epoch_src pg_span s
  s2 ←
      if is_dirty (s.caches.banks bank) buf_id
      then (if is_depents_full s1 then record_depent s1 else some s1)
      else some s
  some (on_stats (stat_record_merge_write bank) s2)

-- One page of `ftl_write`.
unfoldable pub write_page : ℕ → ℕ → ℕ → Ftl → Option Ftl
unfolding exist_in_cache get_clean_cache_buf preread record_merge enqueue
write_page lpn base_sect cnt_sect s = do
  let bank = get_bank lpn
  let hit = exist_in_cache (s.caches.banks bank) lpn
  let hole_right = sectors_per_page - (base_sect + cnt_sect)
  if hit == minus_one
      then (do
        (buf_id, s1) ← get_clean_cache_buf bank s
        (comp, s2) ← preread bank buf_id (get_ppn s1.pgmap lpn) base_sect cnt_sect s1
        enqueue bank lpn buf_id base_sect hole_right comp s2)
      else (do s1 ← record_merge bank hit s; enqueue bank lpn hit base_sect hole_right true s1)

unfoldable pub write_rounds : ℕ → ℕ → ℕ → ℕ → Ftl → Option Ftl
unfolding pool_write_buf write_page
write_rounds zero lpn base_sect remain_sect s = if remain_sect == 0 then some s else none
write_rounds (suc fuel) lpn base_sect remain_sect s = elim (remain_sect == 0) [
  | true ↦ some s
  | false ↦
      let cnt_sect = page_sects base_sect remain_sect in
      pool_write_buf s >>= λ s1.
      write_page lpn base_sect cnt_sect (on_stats (stat_record_para 0) s1) >>= λ s2.
      write_rounds fuel (lpn + 1) 0 (remain_sect - cnt_sect) s2
]

unfoldable pub ftl_prefix_flush : Ftl → Option (ℕ × Ftl)
unfolding cache_get_total_dirty_bufs record_depent flush_write_buf
ftl_prefix_flush s = do
  let total_dirty_bufs = cache_get_total_dirty_bufs s.caches
  s1 ← record_depent s
  s2 ← flush_write_buf s1
  some (total_dirty_bufs, s2)

-- Each bank of region 1 that is short of free blocks collects one block.
gc_round : Ftl → Option Ftl
unfolding garbage_collection reach_gc_threshold
gc_round s =
    for_try num_banks 0
      (λ bank t. if reach_gc_threshold t.blkmgr bank 1 then garbage_collection bank 1 t else some t)
      s

gc_done : Ftl → Bool
unfolding reach_gc_threshold
gc_done s =
    for_range num_banks 0 (λ bank done. if reach_gc_threshold s.blkmgr bank 1 then false else done)
      true

-- while (!done_gc). The fuel bounds the blocks of a bank that a batch can free.
gc_rounds : ℕ → Ftl → Option Ftl
unfolding gc_round gc_done
gc_rounds zero s = none
gc_rounds (suc fuel) s =
    gc_round s >>= λ s'. elim (gc_done s') [ true ↦ some s' | false ↦ gc_rounds fuel s' ]

abbrev pub max_gc_rounds : ℕ
max_gc_rounds = 5000

batch_gc : Ftl → Option Ftl
unfolding ftl_prefix_flush gc_rounds
batch_gc s = do
  (total_dirty_bufs, s') ← ftl_prefix_flush s
  gc_rounds max_gc_rounds (on_stats (stat_gc_flush_page total_dirty_bufs) s')

checkpoint : Ftl → Option Ftl
unfolding ftl_prefix_flush record_mapent record_tag
checkpoint s = do
  (total_dirty_bufs, s') ← ftl_prefix_flush (on_stats stat_record_chkpt s)
  s'' ← record_mapent (on_stats (stat_chkpt_flush_page total_dirty_bufs) s')
  record_tag s''

manual_flush : Ftl → Option Ftl
unfolding ftl_prefix_flush
manual_flush s = do
  (total_dirty_bufs, s') ← ftl_prefix_flush s
  some (on_stats (stat_manual_flush_page total_dirty_bufs) s')

unfoldable pub ftl_write : ℕ → ℕ → Ftl → Option Ftl
unfolding write_rounds batch_gc checkpoint manual_flush reach_chkpt_threshold reach_flush_depent
ftl_write lba n_sect s = if n_sect == 0 then some s else (do
  let lpn = lba / sectors_per_page
  let lpn_end = sub32 (add32 lba n_sect) 1 / sectors_per_page
  s1 ←
      write_rounds n_sect lpn (lba % sectors_per_page) n_sect
        (record (on_stats (stat_host_write n_sect) s) {
          g_pg_span = u16 (add32 (sub32 lpn_end lpn) 1);
        })
  s2 ← if blkmgr_reach_batch_gc_threshold s1.blkmgr then batch_gc s1 else some s1
  let s3 = record s2 { g_epoch = inc32 s2.g_epoch }
  s4 ← if reach_chkpt_threshold s3 then checkpoint s3 else some s3
  if reach_flush_depent s4 then manual_flush s4 else some s4)

unfoldable pub ftl_flush : Ftl → Option Ftl
unfolding ftl_prefix_flush
ftl_flush s = do
  (total_dirty_bufs, s') ← ftl_prefix_flush s
  some (on_stats (stat_record_flush 0) s')

unfoldable pub ftl_close : Ftl → Option Ftl
unfolding ftl_flush record_mapent record_tag pgmap_persist_map_table
ftl_close s = do
  s1 ← ftl_flush (on_stats show_stat s)
  s2 ← record_mapent s1
  s3 ← record_tag s2
  pgmap_persist_map_table s3

-- The range entry `j` of the write buffer: only whole pages are trimmed.
unfoldable pub trim_ent : ℕ → Ftl → Ftl
unfolding read_cell pgmap_trim
trim_ent j s =
    let page = wr_buf s.g_ftl_write_buf_id in
    let lba = read_cell s page (2 * j) in
    let n_sects = read_cell s page (2 * j + 1) / 65536 in
    let lpn = sub32 (add32 lba sectors_per_page) 1 / sectors_per_page in
    let lpn_end = add32 lba n_sects / sectors_per_page in
    on_pgmap (pgmap_trim lpn (sub32 lpn_end lpn)) s

unfoldable pub ftl_trim : ℕ → Ftl → Ftl
unfolding trim_ent
ftl_trim n_range_ents s =
    for_range n_range_ents 0
      (λ i t.
        let t' = for_range 64 0 trim_ent t in
        record t' { g_ftl_write_buf_id = (t'.g_ftl_write_buf_id + 1) % num_wr_buffers })
      s
