-- ===== src/Blkmgr/Tests.antt =====
-- The block manager with rings of six blocks.
use optr_jasmine.Prelude.{ℕ, ◌+◌, ◌*◌, ◌<◌, ◌≡◌, inl, inr, refl, arith, false, some, dec32}
use optr_jasmine.Config.{num_banks, num_regions}
use optr_jasmine.Blkmgr.{
  Blkmgr, blk_list, get_and_inc_active_blk, get_blk_id, get_log_blk, push_rsv, n_cur_rsv_blks,
  is_bad_block, get_vcount,
}
use optr_jasmine.Blkmgr.Ring.{IsRing, active_blk-IsRing}
use optr_jasmine.Blkmgr.Victim.{Picks, victim_blk-Picks}
use optr_jasmine.Blkmgr.Reserve.{n_cur_rsv_blks-push_rsv}
use optr_jasmine.Blkmgr.LogBlk.{NextGood, log_blk-NextGood}
use optr_jasmine.TestData.{test_blkmgr, test_list, test_stats}

test_list-IsRing : IsRing test_list
test_list-IsRing = record {
  small = omega arith;
  head_in = omega arith;
  tail_in = omega arith;
  free_in = omega arith;
  gap = inr refl;
}

active_blk-IsRing_example :
    let (blk, m') = get_and_inc_active_blk test_blkmgr 2 1 in
    (blk ≡ get_blk_id test_blkmgr 2 1 3)
    × IsRing (blk_list m' 2 1)
    × ((blk_list m' 2 1).free + 1 ≡ 3)
    × ((blk_list m' 2 1).tail ≡ 0)
    × ((blk_list m' 2 1).rsv ≡ 2)
active_blk-IsRing_example = active_blk-IsRing test_blkmgr 2 1 test_list-IsRing (omega arith)

small_counts : (j : ℕ) → j < 6 → get_vcount test_blkmgr 2 (get_blk_id test_blkmgr 2 1 j) < 128
unfolding get_vcount get_blk_id
small_counts j h = omega arith

small_ids : (i : ℕ) → get_blk_id test_blkmgr 2 1 i < 65536
unfolding get_blk_id
small_ids i = omega arith

victim_blk-Picks_example : Picks test_blkmgr 2 1 2 test_stats
victim_blk-Picks_example =
    victim_blk-Picks test_blkmgr 2 1 1 test_stats (omega arith) (omega arith) (omega arith)
      (omega arith) (inl refl) small_counts small_ids

n_cur_rsv_blks-push_rsv_example : n_cur_rsv_blks (push_rsv test_blkmgr 0) ≡ num_banks * num_regions
n_cur_rsv_blks-push_rsv_example =
    n_cur_rsv_blks-push_rsv test_blkmgr 0 (λ bank region b r. test_list-IsRing)

test_good : is_bad_block test_blkmgr 2 5 ≡ false
unfolding is_bad_block
test_good = refl

log_blk-NextGood_example :
    (m' : Blkmgr) × (get_log_blk test_blkmgr 2 ≡ some (4, m'))
    × NextGood test_blkmgr 2 4 (m'.banks 2).blk_log
    × (m'.log_blk_cnt ≡ dec32 16)
    × ((m'.banks 2).blk_log_first ≡ 4)
    × ((m'.banks 2).blk_log_last ≡ 5)
log_blk-NextGood_example =
    log_blk-NextGood test_blkmgr 2 5 (omega arith) (omega arith) (omega arith) test_good
