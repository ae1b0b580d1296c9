-- ===== src/Cache/Tests.antt =====
-- The cache of a bank with one dirty buffer.
use mathlib.Core.List.Perm
use optr_jasmine.Prelude.{◌≡◌, refl, arith, true, some, ◌∷◌, ◌++◌, update}
use optr_jasmine.Cache.{Cache, count_up, enqueue_ent, flush_victim}
use optr_jasmine.Prelude.{count_true}
use optr_jasmine.Cache.Lemmas.{length-count_up}
use optr_jasmine.Cache.Lru.{Split}
use optr_jasmine.Cache.Inv.{IsCache, FlushChoice, enqueue_ent-IsCache, flush_victim-FlushChoice}
use optr_jasmine.TestData.{test_cache}

pub test_cache-IsCache : IsCache test_cache
unfolding count_true
test_cache-IsCache = record {
  lru = Perm.refl (count_up 0 32);
  lru_length = length-count_up 0 32;
  counted = refl;
}

enqueue_ent-IsCache_example :
    (c' : Cache) × (enqueue_ent 48 5 1 true test_cache ≡ some c')
    × IsCache c'
    × (c'.ents ≡ update test_cache.ents 5 (record { dirty = true; pg_span = 1; lpn = 48 }))
    × (s : Split 5 test_cache.lru_list) × (c'.lru_list ≡ 5 ∷ (s.before ++ s.after))
enqueue_ent-IsCache_example =
    enqueue_ent-IsCache test_cache 48 5 1 true test_cache-IsCache (omega arith)

flush_victim-FlushChoice_example : FlushChoice test_cache (flush_victim test_cache)
flush_victim-FlushChoice_example = flush_victim-FlushChoice test_cache test_cache-IsCache
