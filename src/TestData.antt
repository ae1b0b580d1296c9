-- ===== src/TestData.antt =====
-- A small device that the tests run on: its rings have six blocks, one buffer of its cache is
-- dirty, and its flash is erased.
use optr_jasmine.Prelude.{◌+◌, ◌%◌, false, some, ◌==◌, if◌then◌else◌, minus_one}
use optr_jasmine.Stat.{Stats, zero_stat}
use optr_jasmine.Blkmgr.{Blkmgr, BankBlks, BlkList}
use optr_jasmine.Pgmap.{Pgmap}
use optr_jasmine.Cache.{Cache, no_buf, count_up}
use optr_jasmine.Vst.Page.{VPage}
use optr_jasmine.Vst.Flash.{Flash, open_flash, blank_spare}
use optr_jasmine.Ftl.{Ftl}
use optr_jasmine.Recovery.{Recovery}
use optr_jasmine.Ftl.Recover.{Recovering}

abbrev pub test_stats : Stats
test_stats = record {
  stat = zero_stat;
  write_rate = record {
    total_insert = 0;
    total_full_write = 0;
    total_update = 0;
    total_merge = 0;
    total_write = 0;
  };
  dist = record {
    dist_bucket = λ i. 0;
    dist_count = 0;
    dist_median_record = 0;
    called_dist_median = 0;
  };
}

abbrev pub test_list : BlkList
test_list = record { rsv = 2; head = 3; tail = 0; free = 3; offset = 0; size = 6 }

abbrev pub test_bank : BankBlks
test_bank = record {
  free_blk_cnt = 6;
  bad_blk_cnt = 0;
  blk_lists = λ region. test_list;
  blk_log = 4;
  blk_log_first = 4;
  blk_log_last = 5;
  blks_map = λ i. i + 2;
  vt_blk = 0;
}

abbrev pub test_blkmgr : Blkmgr
test_blkmgr = record {
  banks = λ bank. test_bank;
  map_blk_idx = 0;
  log_blk_cnt = 16;
  first_gc = 1;
  bad_blk_bmp = λ i. false;
  vcounts = λ i. i % 100;
  blk_ids = λ i. i % 4152 + 10;
}

-- Buffer 3 holds page 32.
abbrev pub test_cache : Cache
test_cache = record {
  ents = λ i. record { dirty = i == 3; pg_span = 1; lpn = if i == 3 then 32 else minus_one };
  stall = false;
  n_dirty_bufs = 1;
  buf_id_incomplete = no_buf;
  lru_list = count_up 0 32;
}

-- The open block of each region is block 13, with five pages written.
abbrev pub test_pgmap : Pgmap
test_pgmap = record {
  active_ppns = λ bank region. 1669;
  log_ppn = λ bank. 512;
  page_map = λ lpn. 0;
  lpns = λ i. i;
  blk_time = λ i. 0;
}

abbrev pub test_page : VPage
test_page = record {
  tagged = false;
  cells = some (λ k. k);
  sects = λ i. record { lba = i; ver = 1 };
}

abbrev pub test_flash : Flash
test_flash = open_flash (λ i. 0)

abbrev pub test_ftl : Ftl
test_ftl = record {
  g_epoch = 7;
  g_pg_span = 1;
  g_ftl_read_buf_id = 0;
  g_ftl_write_buf_id = 0;
  enable_gc_opt = false;
  blkmgr = test_blkmgr;
  stats = test_stats;
  pgmap = test_pgmap;
  caches = record { banks = λ bank. test_cache; pool_bank = 0; epochs = λ i. 6 };
  chkpt = record {
    cnt_deps = 0;
    cnt_mapents = 0;
    bank_active = 0;
    require_flush_depent = false;
    pg_have_used = 0;
  };
  ram = λ page. test_page;
  flash = test_flash;
  spare = blank_spare;
}

-- Two dependencies, from epoch 5 to 8 and from 3 to 5, with the first incomplete write in epoch 7.
abbrev pub test_recovery : Recovery
test_recovery = record {
  epoch_commit = 2;
  epoch_max = 8;
  epoch_incomplete = 7;
  n_depent = 2;
  active_ppns = λ bank region. 1669;
  ents = λ i. if i == 0 then record { lo = 5; hi = 8 } else record { lo = 3; hi = 5 };
}

abbrev pub test_recovering : Recovering
test_recovering = record { ftl = test_ftl; recovery = test_recovery; epoch_prev = 0 }
