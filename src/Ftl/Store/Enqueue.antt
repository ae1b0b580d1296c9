-- ===== src/Ftl/Store/Enqueue.antt =====
-- ftl_optr/cache.c: `enqueue`, which keeps a bank ready as long as its open block and the log have
-- room for one more page.
use optr_jasmine.Prelude.{ℕ, ◌+◌, ◌%◌, ◌≤◌, ◌<◌, ◌≡◌, ◌⊎◌, false, update}
use optr_jasmine.Config.{num_banks, num_wr_buffers, pages_per_vblk}
use optr_jasmine.Pgmap.{get_active_ppn}
use optr_jasmine.Cache.{Cache, on_cache, epoch_cell}
use optr_jasmine.Ftl.{Ftl, on_caches, cache_buf, wr_buf}
use optr_jasmine.Ftl.Record.Mapents.{max_mapents}
use optr_jasmine.Ftl.Dequeue.{mem_copy_sects}
use optr_jasmine.Ftl.Store.Ready.{dirty_bufs, sum_to}
use optr_jasmine.Ftl.Store.Persist.{dirty_at, buf_lpn}

-- The bank has room for one more dirty buffer.
pub record HasRoom (bank : ℕ) (s : Ftl) : Type 0 where
  pub page : get_active_ppn s.pgmap bank 1 % pages_per_vblk + dirty_bufs s bank + 1 < pages_per_vblk
  pub entry : s.chkpt.cnt_mapents + sum_to num_banks (dirty_bufs s) + 1 ≤ max_mapents

-- What `enqueue` leaves of the state that counts for a flush.
record Same (s t : Ftl) : Type 0 where
  pgmap : t.pgmap ≡ s.pgmap
  flash : t.flash ≡ s.flash
  blkmgr : t.blkmgr ≡ s.blkmgr
  chkpt : t.chkpt ≡ s.chkpt
  real : t.enable_gc_opt ≡ false

entered : ℕ → ℕ → ℕ → ℕ → Cache → Ftl → Ftl
unfolding mem_copy_sects
entered bank buf_id hole_left n c s =
    record (on_caches
      (λ cs. record (on_cache bank (λ _. c) cs) {
        epochs = update cs.epochs (epoch_cell bank buf_id) s.g_epoch;
      })
      (mem_copy_sects (cache_buf bank buf_id) (wr_buf s.g_ftl_write_buf_id) hole_left n s)) {
        g_ftl_write_buf_id = (s.g_ftl_write_buf_id + 1) % num_wr_buffers;
      }

-- An entry of the cache afterwards: the new one, or one that was there.
Entry : ℕ → ℕ → ℕ → Ftl → Ftl → ℕ → ℕ → Type 0
Entry bank lpn buf_id s t b i =
    ((b ≡ bank) × (i ≡ buf_id) × (buf_lpn t b i ≡ lpn))
    ⊎ ((dirty_at t b i ≡ dirty_at s b i) × (buf_lpn t b i ≡ buf_lpn s b i))
