-- ===== src/Ftl/Tests.antt =====
-- The firmware on the small device.
use optr_jasmine.Prelude.{
  ℕ, ◌+◌, ◌*◌, ◌/◌, ◌%◌, ◌<◌, ◌≡◌, ◌⊎◌, inl, refl, arith, true, false, some, All, List, [], ◌∷◌,
  if◌then◌else◌, ◌==◌, for_try,
}
use optr_jasmine.Config.{num_cache_buffers_per_bank}
use optr_jasmine.Stat.{stat_host_read}
use optr_jasmine.Blkmgr.{
  blkmgr_get_map_blk, blkmgr_toggle_map_blk_idx, get_and_inc_active_blk, get_vcount, get_blk_id,
  on_list, on_bank,
}
use optr_jasmine.Pgmap.{get_ppn, set_ppn, get_active_ppn}
use optr_jasmine.Cache.{is_dirty}
use optr_jasmine.Cache.Lru.{Split}
use optr_jasmine.Cache.Tests.{test_cache-IsCache}
use optr_jasmine.Vst.Flash.{open_flash}
use optr_jasmine.Ftl.{Ftl, on_pgmap, on_stats, on_blkmgr}
use optr_jasmine.Ftl.Commit.{pgmap_persist_map_table, pgmap_restore_map_table}
use optr_jasmine.Ftl.Commit.Save.{IsReady}
use optr_jasmine.Ftl.Commit.Table.{TwoMapBlks, Restored, map_table-Restored}
use optr_jasmine.Ftl.Nand.{read_cell}
use optr_jasmine.Ftl.Pages.{get_and_inc_active_ppn}
use optr_jasmine.Ftl.Pages.Alloc.{NextBlk, active_ppn-NextBlk}
use optr_jasmine.Ftl.Record.Mapents.{replay}
use optr_jasmine.Ftl.Dequeue.{dequeue, write_out}
use optr_jasmine.Ftl.Dequeue.Write.{CanWrite, WroteOut, write_out-WroteOut}
use optr_jasmine.Ftl.Dequeue.Flush.{settle, dequeue-WroteOut}
use optr_jasmine.Ftl.Gc.{move_page, gc_page_round}
use optr_jasmine.Ftl.Gc.Victim.{HasRoom, count_valid}
use optr_jasmine.Ftl.Gc.Loop.{VictimMoved, gc_page_round-VictimMoved}
use optr_jasmine.Ftl.Gc.Moves.{CanMove, Moved, move_page-Moved}
use optr_jasmine.Ftl.Host.{ftl_read, write_rounds}
use optr_jasmine.Ftl.Host.Split.{
  Covers, parts_of, for_parts, read_part_of, write_part_of, ftl_read-parts, write_rounds-parts_of,
}
use optr_jasmine.Ftl.Recover.{process_mapent}
use optr_jasmine.Ftl.Recover.Newest.{Found}
use optr_jasmine.Ftl.Recover.Replay.{page_ent, process_mapent-replay}
use optr_jasmine.TestData.{test_ftl, test_page}

-- Buffer 3 of bank 0 can be written out.
test_CanWrite : CanWrite 0 3 (settle 0 test_ftl)
unfolding get_ppn get_active_ppn get_vcount open_flash
test_CanWrite = record {
  bank_ok = omega arith;
  idx_ok = omega arith;
  old = inl refl;
  page = refl;
  erased = refl;
  room = omega arith;
  log = omega arith;
  real = refl;
}

write_out-WroteOut_example :
    (s' : Ftl) × (write_out 0 3 (settle 0 test_ftl) ≡ some s') × WroteOut 0 3 (settle 0 test_ftl) s'
write_out-WroteOut_example = write_out-WroteOut 0 3 (settle 0 test_ftl) test_CanWrite

only_dirty :
    (idx : ℕ) → is_dirty (test_ftl.caches.banks 0) idx ≡ true → CanWrite 0 idx (settle 0 test_ftl)
only_dirty idx h = let e : idx ≡ 3 = ground arith in rw e test_CanWrite

dequeue-WroteOut_example :
    (((j : ℕ) → j < num_cache_buffers_per_bank → is_dirty (test_ftl.caches.banks 0) j ≡ false)
      × (dequeue 0 test_ftl ≡ some (true, settle 0 test_ftl)))
    ⊎ ((idx : ℕ) × (is_dirty (test_ftl.caches.banks 0) idx ≡ true)
        × ((b : Split idx (test_ftl.caches.banks 0).lru_list) × All
              (λ x. is_dirty (test_ftl.caches.banks 0) x ≡ false)
              b.after)
        × (s' : Ftl) × (dequeue 0 test_ftl ≡ some (false, s'))
        × WroteOut 0 idx (settle 0 test_ftl) s')
dequeue-WroteOut_example = dequeue-WroteOut 0 test_ftl test_cache-IsCache refl only_dirty

-- The open blocks are full.
abbrev full_ftl : Ftl
full_ftl = on_pgmap (λ m. record m { active_ppns = λ bank region. 1791 }) test_ftl

full_ppn : get_active_ppn full_ftl.pgmap 2 1 ≡ 1791
unfolding get_active_ppn
full_ppn = refl

clean_blk : (get_and_inc_active_blk full_ftl.blkmgr 2 1).0 < 4152
unfolding get_and_inc_active_blk get_blk_id on_list on_bank
clean_blk = omega arith

active_ppn-NextBlk_example :
    let (blk_clean, m) = get_and_inc_active_blk full_ftl.blkmgr 2 1 in
    (s' : Ftl) × (get_and_inc_active_ppn 2 1 full_ftl ≡ some (blk_clean * 128, s'))
    × NextBlk 2 1 full_ftl blk_clean m s'
unfolding get_active_ppn open_flash
active_ppn-NextBlk_example =
    active_ppn-NextBlk 2 1 full_ftl (omega arith) (omega arith) refl refl clean_blk

ftl_read-parts_example :
    (ftl_read 40 70 test_ftl
      ≡ for_parts read_part_of (parts_of 40 70) (on_stats (stat_host_read 70) test_ftl))
    × Covers 40 (parts_of 40 70) (40 + 70)
ftl_read-parts_example = ftl_read-parts 40 70 test_ftl (omega arith)

write_rounds-parts_of_example :
    (write_rounds 70 (40 / 32) (40 % 32) 70 test_ftl
      ≡ for_parts write_part_of (parts_of 40 70) test_ftl)
    × Covers 40 (parts_of 40 70) (40 + 70)
write_rounds-parts_of_example = write_rounds-parts_of 40 70 test_ftl (omega arith)

process_mapent-replay_example :
    get_ppn (process_mapent 0 test_ftl).pgmap 2
    ≡ replay (read_cell test_ftl 1453 1) (page_ent test_ftl 0) (get_ppn test_ftl.pgmap) 2
process_mapent-replay_example = process_mapent-replay 0 test_ftl 2

abbrev found_at : ℕ → ℕ → Found
found_at ppn epoch = record {
  bank = 0;
  ppn = ppn;
  spare = record { lpn = 32; pg_span = 1; epoch = epoch };
  buf = record test_page { tagged = true };
}

abbrev test_found : List Found
test_found = found_at 1670 5 ∷ found_at 1671 6 ∷ found_at 1672 9 ∷ []

-- Page 3 of block 20 of bank 0 can move.
test_CanMove : CanMove 0 20 3 test_ftl
unfolding get_active_ppn get_vcount open_flash
test_CanMove = record {
  from = refl;
  other = refl;
  page = refl;
  erased = refl;
  room = omega arith;
  log = omega arith;
  real = refl;
}

move_page-Moved_example :
    (s' : Ftl) × (move_page 0 20 3 48 test_ftl ≡ some s') × Moved 0 20 3 48 test_ftl s'
move_page-Moved_example = move_page-Moved 0 20 3 48 test_ftl test_CanMove

-- Logical page 48 stands at page 3 of block 20.
abbrev victim_ftl : Ftl
victim_ftl = on_pgmap (set_ppn 48 2563) test_ftl

abbrev victim_lpns : ℕ → ℕ
victim_lpns k = if k == 3 then 48 else 0

victim_count : count_valid victim_ftl 20 victim_lpns 127 ≡ 1
unfolding count_valid get_ppn set_ppn
victim_count = refl

victim_HasRoom : HasRoom 0 20 victim_lpns victim_ftl
unfolding get_active_ppn get_vcount open_flash set_ppn
victim_HasRoom = record {
  bank_ok = omega arith;
  victim = omega arith;
  other = refl;
  target = omega arith;
  pages = omega (arith, victim_count);
  room = omega (arith, victim_count);
  log = omega (arith, victim_count);
  erased = λ p from to. refl;
  real = refl;
}

gc_page_round-VictimMoved_example :
    (y : ℕ × Ftl) × (for_try 127 0 (gc_page_round 0 20 victim_lpns) (0, victim_ftl) ≡ some y)
    × VictimMoved 0 20 victim_lpns victim_ftl y.0 y.1
gc_page_round-VictimMoved_example =
    gc_page_round-VictimMoved 0 20 victim_lpns victim_ftl victim_HasRoom

test_IsReady : IsReady test_ftl
unfolding blkmgr_get_map_blk open_flash
test_IsReady = record { blks = λ b lt. omega arith; erased = λ b p lt le. refl }

test_TwoMapBlks : TwoMapBlks test_ftl.blkmgr
unfolding blkmgr_get_map_blk blkmgr_toggle_map_blk_idx
test_TwoMapBlks = record { apart = λ b. refl; other = omega arith }

-- A restarted device, which takes the other block for current.
abbrev restarted : Ftl
restarted = on_blkmgr (λ m. record m { map_blk_idx = 1 }) test_ftl

map_table-Restored_example :
    (s' : Ftl) × (pgmap_persist_map_table test_ftl ≡ some s')
    × (t' : Ftl) × (pgmap_restore_map_table (record restarted { flash = s'.flash }) ≡ some t')
    × Restored test_ftl t'
map_table-Restored_example =
    map_table-Restored test_ftl restarted test_IsReady test_TwoMapBlks (omega arith) (omega arith)
      (record { blks = λ b i. refl; idx = omega arith; idx' = omega arith })
