-- ===== src/Blkmgr.antt =====
-- ftl_optr/blkmgr.c: the blocks of each bank. The block list of a region is a ring: [head, tail)
-- are free, [rsv, head) are in use and closed to garbage collection, [tail, rsv) are open to it.
-- The DRAM regions VCOUNT, BLK_LIST and the bitmap of bad blocks belong to this component; they are
-- indexed as the source computes their addresses. `garbage_collection`, `blkmgr_erase_vt_blk` and
-- `blkmgr_reclaim_log` use the whole firmware and stand in Ftl.
pub mod Init
mod Loops
mod Fields
pub mod Ring
pub mod Victim
pub mod Reserve
pub mod LogBlk
pub mod Vcount
mod Tests
use optr_jasmine.Prelude.{
  ℕ, zero, suc, ◌+◌, ◌-◌, ◌*◌, ◌/◌, ◌%◌, Bool, true, false, not, ◌&&◌, ◌||◌, Option, none, some,
  if◌then◌else◌, ltb, leb, ◌==◌, assert, ◌>>◌, ◌>>=◌, update, for_range, add32, sub32, inc32, dec32,
  inc16, u16,
}
use optr_jasmine.Config.{
  num_banks, num_regions, num_log_blks_per_bank, pages_per_vblk, vblks_per_bank, gc_threshold,
  batch_gc_threshold, vc_max,
}
use optr_jasmine.Stat.{Stats, stat_total_gc_blks, stat_constrained_gc_blks}

-- `blk_list_t`
pub record BlkList : Type 0 where
  pub rsv : ℕ
  pub head : ℕ
  pub tail : ℕ
  pub free : ℕ
  pub offset : ℕ
  pub size : ℕ

-- `blkmgr_t`
pub record BankBlks : Type 0 where
  pub free_blk_cnt : ℕ
  pub bad_blk_cnt : ℕ
  pub blk_lists : ℕ → BlkList
  pub blk_log : ℕ
  pub blk_log_first : ℕ
  pub blk_log_last : ℕ
  pub blks_map : ℕ → ℕ
  pub vt_blk : ℕ

-- The statics of blkmgr.c and its DRAM regions.
pub record Blkmgr : Type 0 where
  pub banks : ℕ → BankBlks
  pub map_blk_idx : ℕ
  pub log_blk_cnt : ℕ
  pub first_gc : ℕ
  pub bad_blk_bmp : ℕ → Bool
  pub vcounts : ℕ → ℕ
  pub blk_ids : ℕ → ℕ

abbrev pub blk_list : Blkmgr → ℕ → ℕ → BlkList
blk_list m bank region = (m.banks bank).blk_lists region

-- `blkmgr[bank] = f(blkmgr[bank])`, `blkmgr[bank].blk_lists[region] = f(...)`
unfoldable pub on_bank : ℕ → (BankBlks → BankBlks) → Blkmgr → Blkmgr
on_bank bank f m = record m { banks = update m.banks bank (f (m.banks bank)) }

unfoldable pub on_list : ℕ → ℕ → (BlkList → BlkList) → Blkmgr → Blkmgr
unfolding on_bank
on_list bank region f =
    on_bank bank λ b. record b { blk_lists = update b.blk_lists region (f (b.blk_lists region)) }

unfoldable pub blkmgr_get_map_blk : Blkmgr → ℕ → ℕ
blkmgr_get_map_blk m bank = (m.banks bank).blks_map m.map_blk_idx

unfoldable pub blkmgr_toggle_map_blk_idx : Blkmgr → Blkmgr
blkmgr_toggle_map_blk_idx m = record m { map_blk_idx = (m.map_blk_idx + 1) % 2 }

-- Bit `blk` of the bitmap at byte `bank * (VBLKS_PER_BANK / 8 + 1)`.
unfoldable pub is_bad_block : Blkmgr → ℕ → ℕ → Bool
is_bad_block m bank blk = m.bad_blk_bmp (bank * (vblks_per_bank / 8 + 1) * 8 + blk)

unfoldable pub get_blk_id : Blkmgr → ℕ → ℕ → ℕ → ℕ
get_blk_id m bank region id =
    m.blk_ids (bank * vblks_per_bank + (blk_list m bank region).offset + id)

unfoldable pub set_blk_id_global : Blkmgr → ℕ → ℕ → ℕ → Blkmgr
set_blk_id_global m bank id blk = record m {
  blk_ids = update m.blk_ids (bank * vblks_per_bank + id) (u16 blk);
}

unfoldable pub set_blk_id : Blkmgr → ℕ → ℕ → ℕ → ℕ → Blkmgr
set_blk_id m bank region id blk = record m {
  blk_ids =
      update m.blk_ids (bank * vblks_per_bank + (blk_list m bank region).offset + id) (u16 blk);
}

unfoldable pub get_vcount : Blkmgr → ℕ → ℕ → ℕ
get_vcount m bank blk = m.vcounts (bank * vblks_per_bank + blk)

unfoldable pub set_vcount : Blkmgr → ℕ → ℕ → ℕ → Option Blkmgr
set_vcount m bank blk vcount = do
  assert (u16 vcount == vc_max || leb (u16 vcount) pages_per_vblk)
  some (record m { vcounts = update m.vcounts (bank * vblks_per_bank + blk) (u16 vcount) })

unfoldable pub inc_vcount : Blkmgr → ℕ → ℕ → Option Blkmgr
unfolding get_vcount set_vcount
inc_vcount m bank blk = do
  let vcount = get_vcount m bank blk
  assert (ltb (inc32 vcount) pages_per_vblk)
  set_vcount m bank blk (inc32 vcount)

unfoldable pub dec_vcount : Blkmgr → ℕ → ℕ → Option Blkmgr
unfolding get_vcount set_vcount
dec_vcount m bank blk = do
  let vcount = get_vcount m bank blk
  assert (not (vcount == 0))
  set_vcount m bank blk (dec32 vcount)

unfoldable pub get_and_inc_active_blk : Blkmgr → ℕ → ℕ → ℕ × Blkmgr
unfolding get_blk_id
get_and_inc_active_blk m bank region =
    let m' = on_bank bank (λ b. record b { free_blk_cnt = dec32 b.free_blk_cnt }) m in
    let m'' = on_list bank region (λ l. record l { free = dec32 l.free }) m' in
    let head = (blk_list m'' bank region).head in
    (
      get_blk_id m'' bank region head,
      on_list bank region (λ l. record l { head = inc32 head % l.size }) m'',
    )

-- do blk_log++ while it is bad
skip_bad : ℕ → Blkmgr → ℕ → ℕ → Option ℕ
skip_bad zero m bank blk_log = none
skip_bad (suc fuel) m bank blk_log =
    let rest = skip_bad fuel m bank (inc32 blk_log) in
    if is_bad_block m bank (inc32 blk_log) then rest else some (inc32 blk_log)

-- Past the last log block the source prints a message and loops for ever.
unfoldable pub get_log_blk : Blkmgr → ℕ → Option (ℕ × Blkmgr)
unfolding skip_bad is_bad_block
get_log_blk m bank = do
  let b = m.banks bank
  assert (leb b.blk_log b.blk_log_last)
  next ← skip_bad vblks_per_bank m bank b.blk_log
  some (
    b.blk_log,
    on_bank bank (λ c. record c { blk_log = next })
        (record m { log_blk_cnt = dec32 m.log_blk_cnt }),
  )

unfoldable pub revert_log_blk : Blkmgr → ℕ → Blkmgr
revert_log_blk m bank = on_bank bank (λ b. record b { blk_log = b.blk_log_first }) m

unfoldable pub get_rsv_blk : Blkmgr → ℕ → ℕ → ℕ
unfolding get_blk_id
get_rsv_blk m bank region = get_blk_id m bank region (blk_list m bank region).rsv

-- the blocks of one list between `from` and `head`, going round
abbrev pub ring_distance : ℕ → ℕ → ℕ → ℕ
ring_distance from head size =
    if ltb from head then sub32 head from else sub32 (add32 head size) from

-- the inner loop of `n_cur_rsv_blks`, over the regions of one bank
bank_rsv_blks : Blkmgr → ℕ → ℕ → ℕ
bank_rsv_blks m bank =
    for_range num_regions 0
      λ region n. let l = blk_list m bank region in add32 n (ring_distance l.rsv l.head l.size)

unfoldable pub n_cur_rsv_blks : Blkmgr → ℕ
unfolding bank_rsv_blks
n_cur_rsv_blks m = for_range num_banks 0 (λ bank n. bank_rsv_blks m bank n) 0

push_rsv_list : BlkList → BlkList
push_rsv_list l = record l { rsv = sub32 (add32 l.head l.size) 1 % l.size }

-- The argument of `push_rsv` is hidden by its loop over all banks.
unfoldable pub push_rsv : Blkmgr → ℕ → Blkmgr
unfolding push_rsv_list
push_rsv m bank = record m {
  banks =
      for_range num_banks 0
        (λ k banks. update banks k (record (banks k) {
          blk_lists =
              for_range num_regions 0
                (λ region lists. update lists region (push_rsv_list (lists region)))
                (banks k).blk_lists;
        }))
        m.banks;
}

-- `n_blks` over the banks: how many blocks each is short of the threshold, region 1 only
missing_blks : Blkmgr → ℕ → ℕ
missing_blks m bank =
    let free = (blk_list m bank 1).free in if ltb free gc_threshold then gc_threshold - free else 0

unfoldable pub blkmgr_reach_batch_gc_threshold : Blkmgr → Bool
unfolding missing_blks
blkmgr_reach_batch_gc_threshold m =
    ltb batch_gc_threshold (for_range num_banks 0 (λ bank n. add32 n (missing_blks m bank)) 0)

unfoldable pub reach_gc_threshold : Blkmgr → ℕ → ℕ → Bool
reach_gc_threshold m bank region = ltb (blk_list m bank region).free gc_threshold

unfoldable pub blkmgr_reach_log_reclaim_threshold : Blkmgr → Bool
blkmgr_reach_log_reclaim_threshold m = ltb m.log_blk_cnt 3

unfoldable pub blkmgr_first_gc_triggered : Blkmgr → Bool
blkmgr_first_gc_triggered m = m.first_gc == 0

-- The scan of [tail, rsv) from index `i`, with the index and count of the best block so far.
scan_victim : ℕ → Blkmgr → ℕ → ℕ → ℕ → ℕ → ℕ → Option ℕ
scan_victim zero m bank region i idx vcount_min = none
scan_victim (suc fuel) m bank region i idx vcount_min =
    let l = blk_list m bank region in
    let vcount = get_vcount m bank (get_blk_id m bank region i) in
    let better = ltb vcount vcount_min in
    let rest =
      scan_victim fuel m bank region (inc32 i % l.size) (if better then i else idx)
        (if better then vcount else vcount_min) in
    if i == l.rsv then some idx else if ltb vcount pages_per_vblk then rest else none

-- `vcounts` is a copy of the bank's counts, which nothing changes during the scan.
unfoldable pub get_victim_blk : Blkmgr → Stats → ℕ → ℕ → Option (ℕ × Blkmgr × Stats)
unfolding scan_victim get_blk_id get_vcount set_blk_id
get_victim_blk m st bank region = do
  let l = blk_list m bank region
  let vcount_min = get_vcount m bank (get_blk_id m bank region l.tail)
  assert (ltb vcount_min pages_per_vblk)
  idx ← scan_victim (l.size + 1) m bank region (inc32 l.tail % l.size) l.tail vcount_min
  let st' =
      stat_constrained_gc_blks (ring_distance l.rsv l.head l.size)
        (stat_total_gc_blks (ring_distance l.tail l.head l.size) st)
  let tmp_blk = get_blk_id m bank region l.tail
  let vt_blk = get_blk_id m bank region idx
  some (vt_blk, set_blk_id (set_blk_id m bank region l.tail vt_blk) bank region idx tmp_blk, st')
