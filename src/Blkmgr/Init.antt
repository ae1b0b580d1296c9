-- ===== src/Blkmgr/Init.antt =====
-- ftl_optr/blkmgr.c: the block manager as it starts. In the simulator no block is found bad, and the
-- bitmap holds zeroes; the loops still ask it.
use optr_jasmine.Prelude.{
  ℕ, zero, suc, ◌+◌, ◌-◌, ◌*◌, true, false, Option, none, some, if◌then◌else◌, ◌==◌, ◌>>=◌, update,
  for_range, for_try, sub32, dec32,
}
use optr_jasmine.Config.{num_banks, num_log_blks_per_bank, vblks_per_bank, vc_max}
use optr_jasmine.Blkmgr.{
  Blkmgr, BankBlks, BlkList, on_bank, is_bad_block, set_vcount, set_blk_id_global,
}

-- do ... while (n_map != 2), from `blk` on: the map blocks of the bank, and the next block.
reserve_map : ℕ → ℕ → ℕ → ℕ → Blkmgr → Option (ℕ × Blkmgr)
unfolding is_bad_block on_bank
reserve_map zero bank blk n_map m = none
reserve_map (suc fuel) bank blk n_map m =
    let good =
      on_bank bank
        (λ b. record b {
          blks_map = update b.blks_map n_map blk;
          free_blk_cnt = dec32 b.free_blk_cnt;
        })
        m in
    elim (is_bad_block m bank blk) [
      | true ↦ if n_map == 2 then some (blk + 1, m) else reserve_map fuel bank (blk + 1) n_map m
      | false ↦
          if n_map + 1 == 2
          then some (blk + 1, good)
          else reserve_map fuel bank (blk + 1) (n_map + 1) good
    ]

-- The log block number `n_log` of the bank.
take_log : ℕ → ℕ → BankBlks → BankBlks
take_log blk n_log b =
    if n_log == 0
    then record b { blk_log = blk; blk_log_first = blk; free_blk_cnt = dec32 b.free_blk_cnt }
    else if n_log == num_log_blks_per_bank - 1
    then record b { blk_log_last = blk; free_blk_cnt = dec32 b.free_blk_cnt }
    else record b { free_blk_cnt = dec32 b.free_blk_cnt }

reserve_log : ℕ → ℕ → ℕ → ℕ → Blkmgr → Option (ℕ × Blkmgr)
unfolding is_bad_block on_bank take_log
reserve_log zero bank blk n_log m = none
reserve_log (suc fuel) bank blk n_log m =
    let good = on_bank bank (take_log blk n_log) m in
    elim (is_bad_block m bank blk) [
      | true ↦
          if n_log == num_log_blks_per_bank
          then some (blk + 1, m)
          else reserve_log fuel bank (blk + 1) n_log m
      | false ↦
          if n_log + 1 == num_log_blks_per_bank
          then some (blk + 1, good)
          else reserve_log fuel bank (blk + 1) (n_log + 1) good
    ]

-- The good blocks from `blk` on are listed; the result is how many there are.
unfoldable pub list_blks : ℕ → ℕ → ℕ → ℕ → Blkmgr → ℕ × Blkmgr
unfolding is_bad_block set_blk_id_global
list_blks zero bank blk id m = (id, m)
list_blks (suc n) bank blk id m = elim (is_bad_block m bank blk) [
  | true ↦ list_blks n bank (blk + 1) id m
  | false ↦ list_blks n bank (blk + 1) (id + 1) (set_blk_id_global m bank id blk)
]

-- Region 0 gets 60 blocks, region 1 the rest.
region_lists : ℕ → (ℕ → BlkList) → ℕ → BlkList
region_lists id lists region =
    if region == 0
    then record { rsv = 0; head = 0; tail = 0; free = 60; offset = 0; size = 60 }
    else if region == 1
    then record { rsv = 0; head = 0; tail = 0; free = sub32 id 60; offset = 60; size = sub32 id 60 }
    else lists region

-- The body of the loop of `init_blk_list` over the banks.
init_bank_blks : ℕ → Blkmgr → Option Blkmgr
unfolding set_vcount on_bank reserve_map reserve_log list_blks region_lists
init_bank_blks bank m = do
  m1 ← set_vcount m bank 0 vc_max
  m2 ← set_vcount m1 bank 1 vc_max
  let m3 =
      on_bank bank
        (λ b. record b { free_blk_cnt = dec32 (dec32 (sub32 vblks_per_bank b.bad_blk_cnt)) }) m2
  (blk_map, m4) ← reserve_map vblks_per_bank bank 2 0 m3
  (blk_log, m5) ← reserve_log vblks_per_bank bank blk_map 0 m4
  let (id, m6) = list_blks (vblks_per_bank - blk_log) bank blk_log 0 m5
  some (on_bank bank (λ b. record b { blk_lists = region_lists id b.blk_lists }) m6)

unfoldable pub init_blk_list : Blkmgr → Option Blkmgr
unfolding init_bank_blks
init_blk_list m = for_try num_banks 0 init_bank_blks m

unfoldable pub init_blkmgr : Blkmgr → Option Blkmgr
unfolding init_blk_list on_bank
init_blkmgr m = init_blk_list (
    for_range num_banks 0 (λ bank k. on_bank bank (λ b. record b { vt_blk = 0 }) k)
      (record m {
        bad_blk_bmp = λ i. false;
        vcounts = λ i. 0;
        map_blk_idx = 0;
        log_blk_cnt = num_log_blks_per_bank * num_banks;
        first_gc = 1;
      }))
