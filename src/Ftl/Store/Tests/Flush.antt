-- ===== src/Ftl/Store/Tests/Flush.antt =====
-- A flush of the small device: buffer 3 of each bank is dirty.
use optr_jasmine.Prelude.{
  ℕ, ◌+◌, ◌*◌, ◌<◌, ◌≡◌, ◌≢◌, refl, subst, arith, true, false, not, some, ltb, if◌then◌else◌, ◌==◌,
  Bool-cases, inl, inr, All, count_true,
}
use optr_jasmine.Config.{num_banks, num_cache_buffers_per_bank}
use optr_jasmine.Pgmap.{get_active_ppn, set_ppn}
use optr_jasmine.Blkmgr.{get_vcount}
use optr_jasmine.Cache.{Cache}
use optr_jasmine.Cache.Inv.{IsCache}
use optr_jasmine.Cache.Tests.{test_cache-IsCache}
use optr_jasmine.Vst.Page.{VPage, vpage_copy}
use optr_jasmine.Vst.Flash.{vst_write_page, open_flash}
use optr_jasmine.Ftl.{Ftl, wr_buf}
use optr_jasmine.Ftl.Dequeue.{flush_write_buf, get_clean_cache_buf}
use optr_jasmine.Cache.Lru.{Split}
use optr_jasmine.Ftl.Store.Search.{clean_cache_buf-Clean}
use optr_jasmine.Ftl.Store.{Contents, Refines}
use optr_jasmine.Ftl.Store.Refine.{Refines-same}
use optr_jasmine.Ftl.Store.Ready.{BankReady, CanFlush}
use optr_jasmine.Ftl.Store.Persist.{IsOnce, dirty_at, flush_write_buf-Persists}
use optr_jasmine.Ftl.Store.Tests.{full_ftl, full-Refines, full-IsCounted, stored, get_flash}
use optr_jasmine.TestData.{test_cache, test_page}

abbrev bank_cache : ℕ → Cache
bank_cache b = record test_cache {
  ents = λ i. record { dirty = i == 3; pg_span = 1; lpn = 32 + b };
}

abbrev flush_ftl : Ftl
flush_ftl = record full_ftl {
  caches = record { banks = bank_cache; pool_bank = 0; epochs = λ i. 6 };
}

bank_cache-IsCache : (b : ℕ) → IsCache (bank_cache b)
bank_cache-IsCache b = record {
  lru = test_cache-IsCache.lru;
  lru_length = test_cache-IsCache.lru_length;
  counted = test_cache-IsCache.counted;
}

flush-BankReady :
    (b : ℕ)
    → b < num_banks
    → BankReady b (bank_cache b) flush_ftl.pgmap flush_ftl.flash flush_ftl.blkmgr
unfolding get_active_ppn get_vcount set_ppn get_flash vst_write_page vpage_copy open_flash
flush-BankReady b lt = record {
  cache = bank_cache-IsCache b;
  free = refl;
  bufs = λ idx d. (ground (arith, d), ground arith, ground arith);
  first = omega arith;
  blk = omega arith;
  pages = omega arith;
  erased = λ p from to. ground arith;
  counts = ground arith;
}

flush-CanFlush : CanFlush flush_ftl
flush-CanFlush = record {
  banks = flush-BankReady;
  counted = record { exact = full-IsCounted.exact; inside = full-IsCounted.inside };
  log = omega arith;
  real = refl;
}

flush-IsOnce : IsOnce flush_ftl
flush-IsOnce b i b' i' lt lt' d d' e = (omega arith, ground (arith, d, d'))

flush_write_buf-Persists_example :
    (t : Ftl) × (flush_write_buf flush_ftl ≡ some t)
    × CanFlush t
    × ((b j : ℕ) → b < num_banks → j < num_cache_buffers_per_bank → dirty_at t b j ≡ false)
    × (c' : Contents) × Refines c' t
    × ((b i : ℕ) → b < num_banks → dirty_at flush_ftl b i ≡ true → c' (32 + b) ≡ some test_page)
    × ((q : ℕ)
        → ((b i : ℕ) → b < num_banks → dirty_at flush_ftl b i ≡ true → 32 + b ≢ q)
        → c' q ≡ stored q)
flush_write_buf-Persists_example =
    flush_write_buf-Persists stored flush_ftl flush-CanFlush flush-IsOnce
      (Refines-same stored full_ftl flush_ftl refl refl full-Refines)

-- Every buffer of bank 0 is dirty, and bank 1 is the next to serve.
abbrev full_cache : Cache
full_cache = record test_cache {
  ents = λ i. record { dirty = ltb i 32; pg_span = 1; lpn = 32 + i * 16 };
  n_dirty_bufs = 32;
}

abbrev search_ftl : Ftl
search_ftl = record full_ftl {
  caches = record {
    banks = λ b. if b == 0 then full_cache else bank_cache b;
    pool_bank = 1;
    epochs = λ i. 6;
  };
}

full_cache-IsCache : IsCache full_cache
unfolding count_true
full_cache-IsCache = record {
  lru = test_cache-IsCache.lru;
  lru_length = test_cache-IsCache.lru_length;
  counted = refl;
}

full-BankReady : BankReady 0 full_cache search_ftl.pgmap search_ftl.flash search_ftl.blkmgr
unfolding get_active_ppn get_vcount set_ppn get_flash vst_write_page vpage_copy open_flash
full-BankReady = record {
  cache = full_cache-IsCache;
  free = refl;
  bufs = λ idx d. (ground (arith, d), ground arith, ground (arith, d));
  first = omega arith;
  blk = omega arith;
  pages = omega arith;
  erased = λ p from to. ground arith;
  counts = ground arith;
}

search-CanFlush : CanFlush search_ftl
search-CanFlush = record {
  banks = λ b lt. elim (Bool-cases (b == 0)) [
    | inl z ↦
        let is : 0 ≡ b = ground arith in
        subst
          (λ x.
            BankReady x (search_ftl.caches.banks x) search_ftl.pgmap search_ftl.flash
              search_ftl.blkmgr)
          is full-BankReady
    | inr ne ↦ rw ne (flush-BankReady b lt)
  ];
  counted = record { exact = full-IsCounted.exact; inside = full-IsCounted.inside };
  log = omega arith;
  real = refl;
}

clean_cache_buf-Clean_example :
    (buf : ℕ) × (t : Ftl) × (get_clean_cache_buf 0 search_ftl ≡ some (buf, t))
    × CanFlush t
    × (dirty_at t 0 buf ≡ false)
    × (l : Split buf (t.caches.banks 0).lru_list) × All (λ x. not (dirty_at t 0 x) ≡ false) l.after
clean_cache_buf-Clean_example =
    clean_cache_buf-Clean 0 search_ftl search-CanFlush (omega arith) (omega arith)

-- A page of host data waits in the current write buffer.
abbrev host_page : VPage
host_page = record test_page { tagged = true }

abbrev host_ftl : Ftl
host_ftl = record flush_ftl { ram = λ page. if page == wr_buf 0 then host_page else test_page }
