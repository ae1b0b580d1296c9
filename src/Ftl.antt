-- ===== src/Ftl.antt =====
-- The firmware as a whole: its state, and the operations that use several components. The host's
-- commands stand in Ftl.Host, the way to flash in Ftl.Nand, page allocation in Ftl.Pages, the log in
-- Ftl.Record, the write cache in Ftl.Dequeue, garbage collection in Ftl.Gc. The simulator's DRAM is
-- one array of pages; the tables that the firmware keeps behind the page buffers are fields of their
-- components.
pub mod Nand
pub mod Pages
pub mod Record
pub mod Dequeue
pub mod Gc
pub mod Commit
pub mod Host
pub mod Open
pub mod Recover
pub mod Store
mod Tests
use optr_jasmine.Prelude.{ℕ, ◌+◌, ◌*◌, Bool, Option, some, ◌>>=◌}
use optr_jasmine.Config.{num_cache_buffers_per_bank, num_rd_buffers}
use optr_jasmine.Stat.{Stats}
use optr_jasmine.Blkmgr.{Blkmgr}
use optr_jasmine.Pgmap.{Pgmap}
use optr_jasmine.Cache.{Caches}
use optr_jasmine.Vst.Page.{VPage}
use optr_jasmine.Vst.Flash.{Flash, Spare}

-- `chkpt_t`, with the static `pg_have_used` of ftl_optr/log.c
pub record Chkpt : Type 0 where
  pub cnt_deps : ℕ
  pub cnt_mapents : ℕ
  pub bank_active : ℕ
  pub require_flush_depent : Bool
  pub pg_have_used : ℕ

-- The globals of ftl.c, the components, and what vst/port.c keeps: the DRAM, the flash and the
-- spare area that the next program writes.
pub record Ftl : Type 0 where
  pub g_epoch : ℕ
  pub g_pg_span : ℕ
  pub g_ftl_read_buf_id : ℕ
  pub g_ftl_write_buf_id : ℕ
  pub enable_gc_opt : Bool
  pub blkmgr : Blkmgr
  pub stats : Stats
  pub pgmap : Pgmap
  pub caches : Caches
  pub chkpt : Chkpt
  pub ram : ℕ → VPage
  pub flash : Flash
  pub spare : Spare

abbrev pub on_blkmgr : (Blkmgr → Blkmgr) → Ftl → Ftl
on_blkmgr f s = record s { blkmgr = f s.blkmgr }

abbrev pub on_stats : (Stats → Stats) → Ftl → Ftl
on_stats f s = record s { stats = f s.stats }

abbrev pub on_pgmap : (Pgmap → Pgmap) → Ftl → Ftl
on_pgmap f s = record s { pgmap = f s.pgmap }

abbrev pub on_caches : (Caches → Caches) → Ftl → Ftl
on_caches f s = record s { caches = f s.caches }

abbrev pub on_chkpt : (Chkpt → Chkpt) → Ftl → Ftl
on_chkpt f s = record s { chkpt = f s.chkpt }

-- A step of the block manager that may stop the program.
abbrev pub try_blkmgr : (Blkmgr → Option Blkmgr) → Ftl → Option Ftl
try_blkmgr f s = f s.blkmgr >>= λ m. some (record s { blkmgr = m })

-- The pages of DRAM: RD_BUF, WR_BUF, COPY_BUF (32 pages), FTL_BUF, HIL_BUF and TEMP_BUF (one page
-- each), CACHE_BUF, HEAD_BUF, DEP_BUF, CHKPT_BUF.
abbrev pub rd_buf : ℕ → ℕ
rd_buf buf_id = buf_id

abbrev pub wr_buf : ℕ → ℕ
wr_buf buf_id = num_rd_buffers + buf_id

abbrev pub ftl_buf : ℕ → ℕ
ftl_buf bank = 1453 + bank

abbrev pub cache_buf : ℕ → ℕ → ℕ
cache_buf bank buf_id = 1471 + (bank * num_cache_buffers_per_bank + buf_id)

abbrev pub head_buf : ℕ → ℕ
head_buf bank = 1983 + bank

abbrev pub dep_buf : ℕ
dep_buf = 1999

abbrev pub chkpt_buf : ℕ → ℕ
chkpt_buf buf_id = 2000 + buf_id
