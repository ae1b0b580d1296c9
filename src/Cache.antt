-- ===== src/Cache.antt =====
-- ftl_optr/cache.c: the write cache of each bank, the parts that work on the cache alone. The calls
-- that write to flash (`dequeue`, `pool_write_buf`, `flush_write_buf`, `get_clean_cache_buf`) stand
-- in Ftl.Dequeue. In the simulator a bank is idle whenever it is asked, so waiting ends at once.
pub mod Lemmas
pub mod Inv
pub mod Lru
pub mod Tests
use optr_jasmine.Prelude.{
  ℕ, zero, suc, ◌+◌, ◌-◌, ◌*◌, ◌/◌, ◌%◌, Bool, true, false, not, ◌&&◌, Option, none, some, List, [],
  ◌∷◌, if◌then◌else◌, ltb, ◌==◌, assert, ◌>>◌, ◌>>=◌, update, for_range, minus_one, inc32, add32,
  inc16, dec16, get_or, set,
}
use optr_jasmine.Config.{num_banks, num_cache_buffers_per_bank, sectors_per_page}

-- `(UINT16) -1`, which `buf_id_incomplete` holds for no buffer
abbrev pub no_buf : ℕ
no_buf = 65535

-- `cache_ent_t`
pub record CacheEnt : Type 0 where
  pub dirty : Bool
  pub pg_span : ℕ
  pub lpn : ℕ

-- `cache_t`
pub record Cache : Type 0 where
  pub ents : ℕ → CacheEnt
  pub stall : Bool
  pub n_dirty_bufs : ℕ
  pub buf_id_incomplete : ℕ
  pub lru_list : List ℕ

-- The statics of cache.c and the DRAM region EPOCHS.
pub record Caches : Type 0 where
  pub banks : ℕ → Cache
  pub pool_bank : ℕ
  pub epochs : ℕ → ℕ

-- `cache[bank] = f(cache[bank])`
abbrev pub on_cache : ℕ → (Cache → Cache) → Caches → Caches
on_cache bank f c = record c { banks = update c.banks bank (f (c.banks bank)) }

abbrev pub is_dirty : Cache → ℕ → Bool
is_dirty c idx = (c.ents idx).dirty

-- i, i + 1, ..., i + n - 1
unfoldable pub count_up : ℕ → ℕ → List ℕ
count_up i zero = []
count_up i (suc n) = i ∷ count_up (i + 1) n

init_bank : Cache → Cache
unfolding count_up
init_bank c = record {
  ents = λ i.
      if ltb i num_cache_buffers_per_bank
      then record (c.ents i) { dirty = false; lpn = minus_one }
      else c.ents i;
  stall = false;
  n_dirty_bufs = 0;
  buf_id_incomplete = no_buf;
  lru_list = count_up 0 num_cache_buffers_per_bank;
}

unfoldable pub init_cache : Caches → Caches
unfolding init_bank
init_cache c = record c {
  pool_bank = 0;
  banks = for_range num_banks 0 (λ bank b. update b bank (init_bank (b bank))) c.banks;
}

unfoldable pub wait_buf_complete : ℕ → Cache → Cache
wait_buf_complete buf_id c =
    if buf_id == c.buf_id_incomplete then record c { buf_id_incomplete = no_buf } else c

-- The first place of `buf_id` in the list; `none` runs past its end.
find_lru : ℕ → List ℕ → ℕ → Option ℕ
find_lru buf_id [] idx = none
find_lru buf_id (x ∷ xs) idx =
    let rest = find_lru buf_id xs (idx + 1) in if x == buf_id then some idx else rest

-- for (i = idx_prev; i > 0; i--) lru_list[i] = lru_list[i - 1]
shift_lru : ℕ → List ℕ → List ℕ
shift_lru zero l = l
shift_lru (suc i) l = shift_lru i (set l (suc i) (get_or l i 0))

unfoldable pub touch_lru : ℕ → List ℕ → Option (List ℕ)
unfolding find_lru shift_lru
touch_lru buf_id l = do
  idx_prev ← find_lru buf_id l 0
  assert (ltb idx_prev num_cache_buffers_per_bank)
  some (set (shift_lru idx_prev l) 0 buf_id)

-- The bookkeeping of `enqueue`: all of it but the copy of the host's sectors.
unfoldable pub enqueue_ent : ℕ → ℕ → ℕ → Bool → Cache → Option Cache
unfolding wait_buf_complete touch_lru
enqueue_ent lpn buf_id pg_span comp c = do
  let c' = wait_buf_complete buf_id c
  lru ← touch_lru buf_id c'.lru_list
  some (record {
    ents = update c'.ents buf_id (record { dirty = true; pg_span = pg_span; lpn = lpn });
    stall = c'.stall;
    n_dirty_bufs = if is_dirty c' buf_id then c'.n_dirty_bufs else inc16 c'.n_dirty_bufs;
    buf_id_incomplete = if comp then c'.buf_id_incomplete else buf_id;
    lru_list = lru;
  })

-- while (idx < n && !dirty) idx++, with the rounds that are left
first_dirty : ℕ → ℕ → Cache → ℕ
first_dirty zero idx c = idx
first_dirty (suc n) idx c =
    let rest = first_dirty n (idx + 1) c in if is_dirty c idx then idx else rest

-- The last entry of the list that passes the test, the most recent one first; `idx` if none does.
pub last_such : (ℕ → Bool) → List ℕ → ℕ → ℕ
last_such p [] idx = idx
last_such p (b ∷ l) idx = last_such p l (if p b then b else idx)

-- The buffer that `dequeue` writes out: `none` if no entry is dirty.
unfoldable pub flush_victim : Cache → Option ℕ
unfolding first_dirty last_such
flush_victim c =
    let idx = first_dirty num_cache_buffers_per_bank 0 c in
    if idx == num_cache_buffers_per_bank then none else some (last_such (is_dirty c) c.lru_list idx)

-- The buffer that `get_clean_cache_buf` returns once its loop has found the clean entry `idx`.
unfoldable pub clean_victim : Cache → ℕ → ℕ
unfolding last_such
clean_victim c idx = last_such (λ b. not (is_dirty c b)) c.lru_list idx

-- The entry `idx` is written out.
unfoldable pub clean_ent : ℕ → Cache → Cache
clean_ent idx c = record c {
  ents = update c.ents idx (record (c.ents idx) { dirty = false });
  n_dirty_bufs = dec16 c.n_dirty_bufs;
  buf_id_incomplete = idx;
}

exist_from : ℕ → ℕ → Cache → ℕ → ℕ
exist_from zero i c lpn = minus_one
exist_from (suc n) i c lpn =
    let rest = exist_from n (i + 1) c lpn in if (c.ents i).lpn == lpn then i else rest

unfoldable pub exist_in_cache : Cache → ℕ → ℕ
unfolding exist_from
exist_in_cache c lpn = exist_from num_cache_buffers_per_bank 0 c lpn

-- EPOCHS(bank, buf_id)
abbrev pub epoch_cell : ℕ → ℕ → ℕ
epoch_cell bank buf_id = bank * num_cache_buffers_per_bank + buf_id

unfoldable pub get_cache_ent_epoch : Caches → ℕ → ℕ → ℕ
get_cache_ent_epoch c bank buf_id = c.epochs (epoch_cell bank buf_id)

unfoldable pub get_cache_ent_pg_span : Caches → ℕ → ℕ → ℕ
get_cache_ent_pg_span c bank buf_id = ((c.banks bank).ents buf_id).pg_span

unfoldable pub stall_cache : ℕ → Caches → Caches
stall_cache bank = on_cache bank λ c. record c { stall = true }

unfoldable pub release_cache : ℕ → Caches → Caches
release_cache bank = on_cache bank λ c. record c { stall = false }

unfoldable pub cache_get_total_dirty_bufs : Caches → ℕ
cache_get_total_dirty_bufs c =
    for_range num_banks 0 (λ bank n. add32 n (c.banks bank).n_dirty_bufs) 0
