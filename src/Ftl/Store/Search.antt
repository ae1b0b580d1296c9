-- ===== src/Ftl/Store/Search.antt =====
-- ftl_optr/cache.c: the search of `get_clean_cache_buf`, which serves the banks in turn until a buffer
-- is clean.
use optr_jasmine.Prelude.{
  ℕ, zero, suc, ◌+◌, ◌-◌, ◌%◌, ◌≤◌, ◌<◌, ◌≡◌, Option, All, not, inl, inr, refl, sym, ap, ◌∙◌, subst,
  arith, Bool, true, false, some, ltb, ◌==◌, ◌>>=◌, Bool-cases, count_true_lt, count_true-le,
}
use optr_jasmine.Config.{num_banks, num_cache_buffers_per_bank}
use optr_jasmine.Cache.{Cache, is_dirty, clean_victim}
use optr_jasmine.Ftl.{Ftl}
use optr_jasmine.Ftl.Dequeue.{pool_write_buf, find_clean, get_clean_cache_buf}
use optr_jasmine.Ftl.Store.Ready.{CanFlush, dirty_bufs}
use optr_jasmine.Ftl.Store.Pool.{pool_write_buf-Pooled}
use optr_jasmine.Ftl.Store.Persist.{dirty_at}
use optr_jasmine.Cache.Lru.{Split, last_such-LastSuch}
use optr_jasmine.Cache.Inv.{IsCache, All-Mem, lru-Mem}

-- The search has found the clean buffer `i` and left the state `t`.
record Found (bank : ℕ) (r : Option (ℕ × Ftl)) : Type 0 where
  idx : ℕ
  state : Ftl
  result : r ≡ some (idx, state)
  idx_ok : idx < num_cache_buffers_per_bank
  is_clean : dirty_at state bank idx ≡ false
  can : CanFlush state

find_clean-clean :
    (fuel bank idx : ℕ) (s : Ftl)
    → dirty_at s bank idx ≡ false
    → find_clean (suc fuel) bank idx s ≡ some (idx, s)
unfolding find_clean
find_clean-clean fuel bank idx s h =
    ap
      (λ (b : Bool). elim b as (λ _. Option (ℕ × Ftl)) [
        | false ↦ some (idx, s)
        | true ↦ pool_write_buf s >>= λ s'.
            find_clean fuel bank ((idx + 1) % num_cache_buffers_per_bank) s'
      ])
      h

find_clean-next :
    (fuel bank idx : ℕ) (s t : Ftl)
    → dirty_at s bank idx ≡ true
    → pool_write_buf s ≡ some t
    → find_clean (suc fuel) bank idx s
      ≡ find_clean fuel bank ((idx + 1) % num_cache_buffers_per_bank) t
unfolding find_clean
find_clean-next fuel bank idx s t h e =
    ap
      (λ (b : Bool). elim b as (λ _. Option (ℕ × Ftl)) [
        | false ↦ some (idx, s)
        | true ↦ pool_write_buf s >>= λ s'.
            find_clean fuel bank ((idx + 1) % num_cache_buffers_per_bank) s'
      ])
      h
    ∙ rw e refl

Found-back : (bank : ℕ) {r r' : Option (ℕ × Ftl)} → r ≡ r' → Found bank r' → Found bank r
Found-back bank e f = record {
  idx = f.idx;
  state = f.state;
  result = e ∙ f.result;
  idx_ok = f.idx_ok;
  is_clean = f.is_clean;
  can = f.can;
}

Found-here :
    (fuel bank idx : ℕ) (s : Ftl)
    → CanFlush s
    → idx < num_cache_buffers_per_bank
    → dirty_at s bank idx ≡ false
    → Found bank (find_clean (suc fuel) bank idx s)
Found-here fuel bank idx s v lt clean = record {
  idx = idx;
  state = s;
  result = find_clean-clean fuel bank idx s clean;
  idx_ok = lt;
  is_clean = clean;
  can = v;
}

-- Once buffer `k` is clean, `d` places on, at most `d` rounds more are made.
find_clean-Found :
    (fuel d bank idx k : ℕ) (s : Ftl)
    → CanFlush s
    → s.caches.pool_bank < num_banks
    → idx < num_cache_buffers_per_bank
    → d < fuel
    → (idx + d) % num_cache_buffers_per_bank ≡ k
    → dirty_at s bank k ≡ false
    → Found bank (find_clean fuel bank idx s)
find_clean-Found zero d bank idx k s v pool lt few at clean = absurd (omega arith)
find_clean-Found (suc fuel) d bank idx k s v pool lt few at clean =
    elim (Bool-cases (dirty_at s bank idx)) [
      | inr now ↦ Found-here fuel bank idx s v lt now
      | inl dirty ↦
          let (t, e, p) = pool_write_buf-Pooled s v pool in
          let pool' = p.pool in
          elim (Bool-cases (d == 0)) [
            | inl z ↦
                let here : idx ≡ k = ground arith in
                absurd
                  (ground (arith, dirty, subst (λ x. dirty_at s bank x ≡ false) (sym here) clean))
            | inr ne ↦ Found-back bank (find_clean-next fuel bank idx s t dirty e) (
                find_clean-Found fuel (d - 1) bank ((idx + 1) % num_cache_buffers_per_bank) k t
                  p.can (omega arith) (omega arith) (ground arith) (ground arith)
                  (p.clean bank k clean))
          ]
    ]

-- A bank with fewer dirty buffers than buffers has a clean one.
some_clean :
    (bank : ℕ) (s : Ftl)
    → CanFlush s
    → bank < num_banks
    → dirty_bufs s bank < num_cache_buffers_per_bank
    → (k : ℕ) × (k < num_cache_buffers_per_bank) × (dirty_at s bank k ≡ false)
some_clean bank s v lt few =
    let e = (v.banks bank lt).cache.counted in
    count_true_lt (is_dirty (s.caches.banks bank)) num_cache_buffers_per_bank (omega arith)

Found-from :
    (fuel bank idx : ℕ) (s : Ftl)
    → CanFlush s
    → bank < num_banks
    → s.caches.pool_bank < num_banks
    → idx < num_cache_buffers_per_bank
    → num_cache_buffers_per_bank ≤ fuel
    → dirty_bufs s bank < num_cache_buffers_per_bank
    → Found bank (find_clean fuel bank idx s)
Found-from fuel bank idx s v lt pool idx_lt enough few =
    let (k, k_lt, clean) = some_clean bank s v lt few in
    find_clean-Found fuel ((k + num_cache_buffers_per_bank - idx) % num_cache_buffers_per_bank) bank
      idx k s v pool idx_lt (omega arith) (omega arith) clean

-- The bank is served after `r` others.
find_clean-served :
    (fuel r bank idx : ℕ) (s : Ftl)
    → CanFlush s
    → bank < num_banks
    → s.caches.pool_bank < num_banks
    → idx < num_cache_buffers_per_bank
    → (s.caches.pool_bank + r) % num_banks ≡ bank
    → r < num_banks
    → r + num_cache_buffers_per_bank < fuel
    → Found bank (find_clean fuel bank idx s)
find_clean-served zero r bank idx s v lt pool idx_lt at r_lt enough = absurd (omega arith)
find_clean-served (suc fuel) r bank idx s v lt pool idx_lt at r_lt enough =
    elim (Bool-cases (ltb (dirty_bufs s bank) num_cache_buffers_per_bank)) [
      | inl few ↦
          Found-from (suc fuel) bank idx s v lt pool idx_lt (omega arith) (ground (arith, few))
      | inr full ↦ elim (Bool-cases (dirty_at s bank idx)) [
        | inr now ↦ Found-here fuel bank idx s v idx_lt now
        | inl dirty ↦
            let (t, e, p) = pool_write_buf-Pooled s v pool in
            let pool' = p.pool in
            Found-back bank (find_clean-next fuel bank idx s t dirty e)
              (elim (Bool-cases (r == 0)) [
                | inl z ↦
                    let turn_is : s.caches.pool_bank ≡ bank = ground arith in
                    let less : dirty_bufs t bank ≡ dirty_bufs s bank - 1 =
                      subst (λ x. dirty_bufs t x ≡ dirty_bufs s x - 1) turn_is
                        (p.served (rw turn_is (ground (arith, full)))) in
                    let all =
                      count_true-le (is_dirty (s.caches.banks bank)) num_cache_buffers_per_bank in
                    let e' = (v.banks bank lt).cache.counted in
                    Found-from fuel bank ((idx + 1) % num_cache_buffers_per_bank) t p.can lt
                      (omega arith) (omega arith) (omega arith) (omega arith)
                | inr ne ↦
                    find_clean-served fuel (r - 1) bank ((idx + 1) % num_cache_buffers_per_bank) t
                      p.can lt (omega arith) (omega arith) (ground arith) (omega arith)
                      (ground arith)
              ])
      ]
    ]

-- The choice among the clean buffers.
clean_victim-Clean :
    (c : Cache) (idx : ℕ)
    → IsCache c
    → idx < num_cache_buffers_per_bank
    → is_dirty c idx ≡ false
    → let buf = clean_victim c idx in
      (is_dirty c buf ≡ false)
      × (s : Split buf c.lru_list) × All (λ x. not (is_dirty c x) ≡ false) s.after
unfolding clean_victim
clean_victim-Clean c idx v lt clean =
    elim (last_such-LastSuch (λ b. not (is_dirty c b)) c.lru_list idx) [
      | inl (none_such, e) ↦
          let no =
            All-Mem (λ b. not (is_dirty c b)) c.lru_list idx none_such (lru-Mem c idx v lt) in
          absurd (ground (arith, no, clean))
      | inr (s, is, after) ↦ (ground (arith, is), s, after)
    ]

-- The search of a clean buffer ends, even if every buffer of the bank is dirty, when every bank is
-- ready for its dirty buffers, the log has an entry for each, and the bank to serve next is one of the
-- 16. The buffer that it gives is clean, and every buffer of the bank that was used less recently is
-- dirty. The firmware can be flushed then as before.
pub clean_cache_buf-Clean :
    (bank : ℕ) (s : Ftl)
    → CanFlush s
    → bank < num_banks
    → s.caches.pool_bank < num_banks
    → (buf : ℕ) × (t : Ftl) × (get_clean_cache_buf bank s ≡ some (buf, t))
      × CanFlush t
      × (dirty_at t bank buf ≡ false)
      × (l : Split buf (t.caches.banks bank).lru_list) × All
          (λ x. not (dirty_at t bank x) ≡ false)
          l.after
unfolding get_clean_cache_buf
clean_cache_buf-Clean bank s v lt pool =
    let f =
      find_clean-served 49 ((bank + num_banks - s.caches.pool_bank) % num_banks) bank 0 s v lt pool
        (omega arith) (omega arith) (omega arith) (omega arith) in
    let (clean, split, after) =
      clean_victim-Clean (f.state.caches.banks bank) f.idx (f.can.banks bank lt).cache f.idx_ok
        f.is_clean in
    (
      clean_victim (f.state.caches.banks bank) f.idx,
      f.state,
      rw f.result refl,
      f.can,
      clean,
      split,
      after,
    )
