-- ===== src/Ftl/Store/Ready.antt =====
-- When every dirty buffer of every bank can be written out, one after the other.
use optr_jasmine.Prelude.{
  ℕ, zero, suc, ◌+◌, ◌/◌, ◌%◌, ◌≤◌, ◌<◌, ◌≡◌, ◌≢◌, inl, inr, refl, arith, true, false, ◌==◌,
  Bool-cases, count_true_pos,
}
use optr_jasmine.Config.{
  num_banks, num_lpages, pages_per_vblk, vblks_per_bank, num_cache_buffers_per_bank,
}
use optr_jasmine.Blkmgr.{Blkmgr, get_vcount}
use optr_jasmine.Pgmap.{Pgmap, get_active_ppn}
use optr_jasmine.Vst.Flash.{Flash}
use optr_jasmine.Cache.{Cache, is_dirty}
use optr_jasmine.Cache.Inv.{IsCache}
use optr_jasmine.Ftl.{Ftl}
use optr_jasmine.Ftl.Host.{get_bank}
use optr_jasmine.Ftl.Record.Mapents.{max_mapents}
use optr_jasmine.Ftl.Dequeue.Write.{CanWrite}
use optr_jasmine.Ftl.Store.Count.{IsCounted, IsCounted-CanUnmap}

abbrev pub dirty_bufs : Ftl → ℕ → ℕ
dirty_bufs s b = (s.caches.banks b).n_dirty_bufs

-- The sum of the values below `n`.
abbrev pub sum_to : ℕ → (ℕ → ℕ) → ℕ
sum_to zero f = 0
sum_to (suc n) f = sum_to n f + f n

sum_to_ge : (n b : ℕ) (f : ℕ → ℕ) → b < n → f b ≤ sum_to n f
sum_to_ge zero b f h = absurd (omega arith)
sum_to_ge (suc n) b f h = elim (Bool-cases (b == n)) [
  | inl e ↦ ground arith
  | inr ne ↦ let rest = sum_to_ge n b f (ground arith) in omega arith
]

pub sum_to_same : (n : ℕ) (f g : ℕ → ℕ) → ((j : ℕ) → j < n → g j ≡ f j) → sum_to n g ≡ sum_to n f
sum_to_same zero f g h = refl
sum_to_same (suc n) f g h =
    let rest = sum_to_same n f g (λ j lt. h j (omega arith)) in
    let here = h n (omega arith) in omega arith

pub sum_to_dec :
    (n b : ℕ) (f g : ℕ → ℕ)
    → b < n
    → g b + 1 ≡ f b
    → ((j : ℕ) → (j == b) ≡ false → g j ≡ f j)
    → sum_to n g + 1 ≡ sum_to n f
sum_to_dec zero b f g h e same = absurd (omega arith)
sum_to_dec (suc n) b f g h e same = elim (Bool-cases (n == b)) [
  | inl at ↦
      let is : n ≡ b = ground arith in
      let rest = sum_to_same n f g (λ j lt. same j (ground arith)) in
      let here : g n + 1 ≡ f n = rw is e in omega arith
  | inr ne ↦
      let rest = sum_to_dec n b f g (ground arith) e same in let here = same n ne in omega arith
]

-- The sum grows by what one value grows by.
pub sum_to_inc :
    (n b : ℕ) (f g : ℕ → ℕ)
    → b < n
    → g b ≤ f b + 1
    → ((j : ℕ) → (j == b) ≡ false → g j ≡ f j)
    → sum_to n g ≤ sum_to n f + 1
sum_to_inc zero b f g h le same = absurd (omega arith)
sum_to_inc (suc n) b f g h le same = elim (Bool-cases (n == b)) [
  | inl at ↦
      let is : n ≡ b = ground arith in
      let rest = sum_to_same n f g (λ j lt. same j (ground arith)) in
      let here : g n ≤ f n + 1 = rw is le in omega arith
  | inr ne ↦
      let rest = sum_to_inc n b f g (ground arith) le same in let here = same n ne in omega arith
]

-- The bank's cache `c` can be written out: it is not stalled and has its invariant, its dirty buffers
-- hold pages of the bank, and the open block has an erased page for each of them before the page
-- that its summary takes.
pub record BankReady (b : ℕ) (c : Cache) (m : Pgmap) (f : Flash) (k : Blkmgr) : Type 0 where
  pub cache : IsCache c
  pub free : c.stall ≡ false
  pub bufs :
      (idx : ℕ)
      → is_dirty c idx ≡ true
      → (idx < num_cache_buffers_per_bank)
        × (get_bank (c.ents idx).lpn ≡ b)
        × ((c.ents idx).lpn < num_lpages)
  pub first : get_active_ppn m b 1 ≢ 0
  pub blk : get_active_ppn m b 1 / pages_per_vblk < vblks_per_bank
  pub pages : get_active_ppn m b 1 % pages_per_vblk + c.n_dirty_bufs < pages_per_vblk
  pub erased :
      (p : ℕ)
      → get_active_ppn m b 1 % pages_per_vblk ≤ p
      → p < pages_per_vblk
      → (f.pages b (get_active_ppn m b 1 / pages_per_vblk) p).is_erased ≡ true
  pub counts :
      get_vcount k b (get_active_ppn m b 1 / pages_per_vblk) ≤ get_active_ppn m b 1 % pages_per_vblk

-- Every bank is ready, the counts of valid pages are exact, and the log has an entry for every dirty
-- buffer.
pub record CanFlush (s : Ftl) : Type 0 where
  pub banks : (b : ℕ) → b < num_banks → BankReady b (s.caches.banks b) s.pgmap s.flash s.blkmgr
  pub counted : IsCounted s
  pub log : s.chkpt.cnt_mapents + sum_to num_banks (dirty_bufs s) ≤ max_mapents
  pub real : s.enable_gc_opt ≡ false

pub has_dirty :
    (c : Cache) (idx : ℕ)
    → IsCache c
    → idx < num_cache_buffers_per_bank
    → is_dirty c idx ≡ true
    → 0 < c.n_dirty_bufs
has_dirty c idx v lt d =
    let pos = count_true_pos (is_dirty c) num_cache_buffers_per_bank idx lt d in
    let e = v.counted in omega arith

pub CanFlush-CanWrite :
    (bank idx : ℕ) (s : Ftl)
    → CanFlush s
    → bank < num_banks
    → is_dirty (s.caches.banks bank) idx ≡ true
    → CanWrite bank idx s
CanFlush-CanWrite bank idx s v lt d =
    let r = v.banks bank lt in
    let (idx_lt, own, lpn_lt) = r.bufs idx d in
    let pos = has_dirty (s.caches.banks bank) idx r.cache idx_lt d in
    let pages = r.pages in
    let blk = r.blk in
    let counts = r.counts in
    let log = v.log in
    let some_left = sum_to_ge num_banks bank (dirty_bufs s) lt in
    record {
      bank_ok = lt;
      idx_ok = idx_lt;
      old = IsCounted-CanUnmap s bank ((s.caches.banks bank).ents idx).lpn v.counted lt lpn_lt own;
      page = ground arith;
      erased =
          r.erased (get_active_ppn s.pgmap bank 1 % pages_per_vblk) (omega arith) (omega arith);
      room = omega arith;
      log = omega arith;
      real = v.real;
    }
