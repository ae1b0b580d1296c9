-- ===== src/Cache/Inv.antt =====
-- The invariant of a bank's cache, and what the operations on one cache keep and change.
use mathlib.Core.List.{Mem, Perm, mem-cons, not-mem-nil}
use mathlib.Core.List.Perm
use mathlib.Core.Logic.Or
use optr_jasmine.Prelude.{
  ℕ, zero, suc, ◌+◌, ◌≤◌, ◌<◌, ◌≡◌, ◌⊎◌, refl, ap, ◌∙◌, arith, Bool, true, false, List, [], ◌∷◌,
  ◌++◌, length, length-append, Option, some, none, ◌==◌, if◌then◌else◌, Bool-cases, inl, inr,
  ==_iff, update, update_self, All, inc16, sym, >>=-eq-some,
}
use optr_jasmine.Config.{num_cache_buffers_per_bank}
use optr_jasmine.Prelude.{count_true, count_true-le, count_true_change, count_true_pos, one_if}
use optr_jasmine.Cache.Lru.{Split, touch_lru-Touched, LastSuch, last_such-LastSuch}
use optr_jasmine.Cache.{
  Cache, CacheEnt, is_dirty, count_up, touch_lru, wait_buf_complete, enqueue_ent, first_dirty,
  last_such, flush_victim, clean_ent,
}

-- The list of recently used buffers holds each of the 32 buffers once, and `n_dirty_bufs` counts
-- the dirty entries.
pub record IsCache (c : Cache) : Type 0 where
  pub lru : Perm c.lru_list (count_up 0 num_cache_buffers_per_bank)
  pub lru_length : length c.lru_list ≡ num_cache_buffers_per_bank
  pub counted : c.n_dirty_bufs ≡ count_true (is_dirty c) num_cache_buffers_per_bank

count_up-Mem : (n i b : ℕ) → i ≤ b → b < i + n → Mem b (count_up i n)
unfolding count_up
count_up-Mem zero i b h g = absurd (omega arith)
count_up-Mem (suc n) i b h g = elim (Bool-cases (b == i)) [
  | inl e ↦ mem-cons.1 (Or.inl ((==_iff b i).0 e))
  | inr ne ↦ mem-cons.1 (Or.inr (count_up-Mem n (i + 1) b (ground arith) (omega arith)))
]

pub lru-Mem : (c : Cache) (b : ℕ) → IsCache c → b < num_cache_buffers_per_bank → Mem b c.lru_list
lru-Mem c b v h =
    (Perm.mem_iff v.lru).1 (count_up-Mem num_cache_buffers_per_bank 0 b (omega arith) (omega arith))

-- The cache after `enqueue_ent`, given the new list.
entered : Cache → ℕ → ℕ → ℕ → Bool → List ℕ → Cache
unfolding wait_buf_complete
entered c lpn buf_id pg_span comp lru =
    let c' = wait_buf_complete buf_id c in
    record {
      ents = update c'.ents buf_id (record { dirty = true; pg_span = pg_span; lpn = lpn });
      stall = c'.stall;
      n_dirty_bufs = if is_dirty c' buf_id then c'.n_dirty_bufs else inc16 c'.n_dirty_bufs;
      buf_id_incomplete = if comp then c'.buf_id_incomplete else buf_id;
      lru_list = lru;
    }

enqueue_ent-entered :
    (c : Cache) (lpn buf_id pg_span : ℕ) (comp : Bool) {lru : List ℕ}
    → touch_lru buf_id c.lru_list ≡ some lru
    → enqueue_ent lpn buf_id pg_span comp c ≡ some (entered c lpn buf_id pg_span comp lru)
unfolding enqueue_ent entered
enqueue_ent-entered c lpn buf_id pg_span comp e =
    elim (Bool-cases (buf_id == c.buf_id_incomplete)) [ inl h ↦ rw (h, e) | inr h ↦ rw (h, e) ]

dirty_count_update :
    (ents : ℕ → CacheEnt) (i : ℕ) (e : CacheEnt)
    → i < num_cache_buffers_per_bank
    → count_true (λ j. (update ents i e j).dirty) num_cache_buffers_per_bank + one_if (ents i).dirty
      ≡ count_true (λ j. (ents j).dirty) num_cache_buffers_per_bank + one_if e.dirty
dirty_count_update ents i e h =
    count_true_change (λ j. (ents j).dirty) (λ j. (update ents i e j).dirty)
      num_cache_buffers_per_bank i h (λ j b ne. rw ne)
    ∙ ap
        (λ (x : CacheEnt).
          count_true (λ j. (ents j).dirty) num_cache_buffers_per_bank + one_if x.dirty)
        (update_self ents i e)

entered-counted :
    (c : Cache) (lpn buf_id pg_span : ℕ) (comp : Bool) (lru : List ℕ)
    → c.n_dirty_bufs ≡ count_true (is_dirty c) num_cache_buffers_per_bank
    → buf_id < num_cache_buffers_per_bank
    → let c' = entered c lpn buf_id pg_span comp lru in
      c'.n_dirty_bufs ≡ count_true (is_dirty c') num_cache_buffers_per_bank
unfolding entered
entered-counted c lpn buf_id pg_span comp lru e h =
    let new : CacheEnt = record { dirty = true; pg_span = pg_span; lpn = lpn } in
    let change = dirty_count_update c.ents buf_id new h in
    let small = count_true-le (is_dirty c) num_cache_buffers_per_bank in
    elim (Bool-cases (buf_id == c.buf_id_incomplete)) [
      | inl b ↦ rw b (ground (arith, change, small))
      | inr b ↦ rw b (ground (arith, change, small))
    ]

entered-ents :
    (c : Cache) (lpn buf_id pg_span : ℕ) (comp : Bool) (lru : List ℕ)
    → (entered c lpn buf_id pg_span comp lru).ents
      ≡ update c.ents buf_id (record { dirty = true; pg_span = pg_span; lpn = lpn })
unfolding entered
entered-ents c lpn buf_id pg_span comp lru = elim (Bool-cases (buf_id == c.buf_id_incomplete)) [
  | inl b ↦ rw b refl
  | inr b ↦ rw b refl
]

front_length :
    (b : ℕ) (l before after : List ℕ)
    → l ≡ before ++ (b ∷ after)
    → length l ≡ num_cache_buffers_per_bank
    → length (b ∷ (before ++ after)) ≡ num_cache_buffers_per_bank
front_length b l before after whole len =
    omega (arith, ap length whole, length-append before (b ∷ after), length-append before after)

-- `enqueue` on a cache with its invariant succeeds on each of the 32 buffers and keeps the
-- invariant. The buffer's entry is dirty with the given page and span, the buffer is the most
-- recently used one, the order of the others stays, and no other entry changes.
pub enqueue_ent-IsCache :
    (c : Cache) (lpn buf_id pg_span : ℕ) (comp : Bool)
    → IsCache c
    → buf_id < num_cache_buffers_per_bank
    → (c' : Cache) × (enqueue_ent lpn buf_id pg_span comp c ≡ some c')
      × IsCache c'
      × (c'.ents ≡ update c.ents buf_id (record { dirty = true; pg_span = pg_span; lpn = lpn }))
      × (s : Split buf_id c.lru_list) × (c'.lru_list ≡ buf_id ∷ (s.before ++ s.after))
unfolding entered
enqueue_ent-IsCache c lpn buf_id pg_span comp v h =
    let (t, perm) = touch_lru-Touched buf_id c.lru_list (lru-Mem c buf_id v h) v.lru_length in
    let lru = buf_id ∷ (t.split.before ++ t.split.after) in
    (
      entered c lpn buf_id pg_span comp lru,
      enqueue_ent-entered c lpn buf_id pg_span comp t.result,
      record {
        lru = Perm.trans perm v.lru;
        lru_length =
            front_length buf_id c.lru_list t.split.before t.split.after t.split.whole v.lru_length;
        counted = entered-counted c lpn buf_id pg_span comp lru v.counted h;
      },
      entered-ents c lpn buf_id pg_span comp lru,
      t.split,
      refl,
    )

-- The scan of the entries ends at a dirty one, or past the last one when none is dirty.
abbrev pub FirstDirty : Cache → ℕ → ℕ → ℕ → Type 0
FirstDirty c idx n r =
    ((r ≡ idx + n) × ((j : ℕ) → idx ≤ j → j < idx + n → is_dirty c j ≡ false))
    ⊎ ((r < idx + n) × (is_dirty c r ≡ true))

FirstDirty-step :
    (n idx r : ℕ) (c : Cache)
    → is_dirty c idx ≡ false
    → FirstDirty c (idx + 1) n r
    → FirstDirty c idx (suc n) r
FirstDirty-step n idx r c k (inl (e, none_of)) = inl (
  omega arith,
  λ j p q. elim (Bool-cases (j == idx)) [
    | inl same ↦ ap (is_dirty c) ((==_iff j idx).0 same) ∙ k
    | inr ne ↦ none_of j (ground arith) (omega arith)
  ],
)
FirstDirty-step n idx r c k (inr (b, d)) = inr (omega arith, d)

first_dirty-FirstDirty : (n idx : ℕ) (c : Cache) → FirstDirty c idx n (first_dirty n idx c)
unfolding first_dirty
first_dirty-FirstDirty zero idx c = inl (omega arith, λ j p q. absurd (omega arith))
first_dirty-FirstDirty (suc n) idx c = elim (Bool-cases (is_dirty c idx)) [
  | inl d ↦ rw d (inr (omega arith, d))
  | inr k ↦
      rw k (
        FirstDirty-step n idx (first_dirty n (idx + 1) c) c k
          (first_dirty-FirstDirty n (idx + 1) c))
]

-- What `dequeue` picks: nothing when no entry is dirty, else a dirty buffer of the list with no
-- dirty one behind it.
abbrev pub FlushChoice : Cache → Option ℕ → Type 0
FlushChoice c r =
    ((r ≡ none) × ((j : ℕ) → j < num_cache_buffers_per_bank → is_dirty c j ≡ false))
    ⊎ ((b : ℕ) × (r ≡ some b)
        × (is_dirty c b ≡ true)
        × (s : Split b c.lru_list) × All (λ x. is_dirty c x ≡ false) s.after)

pub All-Mem : (p : ℕ → Bool) (l : List ℕ) (b : ℕ) → All (λ x. p x ≡ false) l → Mem b l → p b ≡ false
All-Mem p [] b h m = absurd (not-mem-nil m)
All-Mem p (x ∷ xs) b (h, hs) m = elim (Bool-cases (p b)) [
  | inl t ↦ absurd (
      Or.elim (λ k. elim k [ ]) (mem-cons.0 m) (λ same. ground (arith, ap p same, h, t))
        (λ rest. ground (arith, All-Mem p xs b hs rest, t)))
  | inr k ↦ k
]

last_choice :
    (c : Cache) (idx r : ℕ)
    → IsCache c
    → idx < num_cache_buffers_per_bank
    → is_dirty c idx ≡ true
    → LastSuch (is_dirty c) c.lru_list idx r
    → FlushChoice c (some r)
last_choice c idx r v b d (inl (clean, e)) =
    let no = All-Mem (is_dirty c) c.lru_list idx clean (lru-Mem c idx v b) in absurd (ground arith)
last_choice c idx r v b d (inr (s, h, after)) = inr (r, refl, h, s, after)

-- The buffer that `dequeue` writes out: none if and only if all 32 entries are clean, else a dirty
-- buffer such that every buffer used less recently is clean.
pub flush_victim-FlushChoice : (c : Cache) → IsCache c → FlushChoice c (flush_victim c)
unfolding flush_victim
flush_victim-FlushChoice c v =
    let idx = first_dirty num_cache_buffers_per_bank 0 c in
    elim (first_dirty-FirstDirty num_cache_buffers_per_bank 0 c) [
      | inl (e, none_of) ↦ rw e (inl (refl, λ j h. none_of j (omega arith) (omega arith)))
      | inr (b, d) ↦
          let ne : (idx == num_cache_buffers_per_bank) ≡ false = ground arith in
          rw ne (
            last_choice c idx (last_such (is_dirty c) c.lru_list idx) v b d
              (last_such-LastSuch (is_dirty c) c.lru_list idx))
    ]

-- Writing a dirty entry out keeps the cache's invariant, and takes one from the count of dirty
-- buffers.
pub clean_ent-IsCache :
    (c : Cache) (b : ℕ)
    → IsCache c
    → b < num_cache_buffers_per_bank
    → is_dirty c b ≡ true
    → IsCache (clean_ent b c) × ((clean_ent b c).n_dirty_bufs + 1 ≡ c.n_dirty_bufs)
unfolding clean_ent
clean_ent-IsCache c b v h d =
    let change = dirty_count_update c.ents b (record (c.ents b) { dirty = false }) h in
    let small = count_true-le (is_dirty c) num_cache_buffers_per_bank in
    let some_dirty = count_true_pos (is_dirty c) num_cache_buffers_per_bank b h d in
    let e = v.counted in
    (
      record {
        lru = v.lru;
        lru_length = v.lru_length;
        counted = ground (arith, change, small, some_dirty, e);
      },
      ground (arith, small, some_dirty, e),
    )

wait-stall : (buf_id : ℕ) (c : Cache) → (wait_buf_complete buf_id c).stall ≡ c.stall
unfolding wait_buf_complete
wait-stall buf_id c = elim (Bool-cases (buf_id == c.buf_id_incomplete)) [
  | inl b ↦ rw b refl
  | inr b ↦ rw b refl
]

-- `enqueue` does not stall the cache, and makes one buffer dirty at most.
pub enqueue_ent-dirty :
    (c c' : Cache) (lpn buf_id pg_span : ℕ) (comp : Bool)
    → enqueue_ent lpn buf_id pg_span comp c ≡ some c'
    → IsCache c
    → IsCache c'
    → buf_id < num_cache_buffers_per_bank
    → c'.ents ≡ update c.ents buf_id (record { dirty = true; pg_span = pg_span; lpn = lpn })
    → (c'.stall ≡ c.stall) × (c'.n_dirty_bufs ≤ c.n_dirty_bufs + 1)
unfolding enqueue_ent
enqueue_ent-dirty c c' lpn buf_id pg_span comp e v v' h ents =
    let (lru, e1, e2) = >>=-eq-some (touch_lru buf_id (wait_buf_complete buf_id c).lru_list) _ e in
    let new : CacheEnt = record { dirty = true; pg_span = pg_span; lpn = lpn } in
    let change = dirty_count_update c.ents buf_id new h in
    let same : count_true (is_dirty c') num_cache_buffers_per_bank
        ≡ count_true (λ j. (update c.ents buf_id new j).dirty) num_cache_buffers_per_bank =
      ap (λ (f : ℕ → CacheEnt). count_true (λ j. (f j).dirty) num_cache_buffers_per_bank) ents in
    let n = v.counted in
    let n' = v'.counted in
    let stalls : (wait_buf_complete buf_id c).stall ≡ c'.stall = cc in
    (sym stalls ∙ wait-stall buf_id c, ground arith)
