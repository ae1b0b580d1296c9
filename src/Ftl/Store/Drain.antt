-- ===== src/Ftl/Store/Drain.antt =====
-- A bank that can be flushed stays so while its buffers are written out.
use optr_jasmine.Prelude.{
  ℕ, ◌+◌, ◌/◌, ◌%◌, ◌≤◌, ◌<◌, ◌≡◌, inl, inr, refl, sym, ap, ◌∙◌, subst, arith, true, false, ◌&&◌,
  ◌==◌, Bool-cases,
}
use optr_jasmine.Config.{
  num_banks, num_lpages, pages_per_vblk, vblks_per_bank, num_cache_buffers_per_bank,
}
use optr_jasmine.Blkmgr.{Blkmgr, get_vcount}
use optr_jasmine.Pgmap.{Pgmap, get_ppn, get_active_ppn}
use optr_jasmine.Vst.Flash.{Flash, FlashPage}
use optr_jasmine.Cache.{Cache, CacheEnt, is_dirty, clean_ent}
use optr_jasmine.Cache.Inv.{clean_ent-IsCache}
use optr_jasmine.Ftl.{Ftl}
use optr_jasmine.Ftl.Host.{get_bank}
use optr_jasmine.Ftl.Dequeue.Unmap.{unmapped_le}
use optr_jasmine.Ftl.Dequeue.Write.{WroteOut}
use optr_jasmine.Ftl.Dequeue.Flush.{settled, settle, settled-IsCache}
use optr_jasmine.Ftl.Store.Count.{WroteOut-IsCounted}
use optr_jasmine.Ftl.Store.Ready.{
  BankReady, CanFlush, CanFlush-CanWrite, dirty_bufs, sum_to_same, sum_to_dec, has_dirty,
}

settled-BankReady :
    (b : ℕ) (c : Cache) (m : Pgmap) (f : Flash) (k : Blkmgr)
    → BankReady b c m f k
    → BankReady b (settled c) m f k
settled-BankReady b c m f k r = record {
  cache = settled-IsCache c r.cache;
  free = r.free;
  bufs = r.bufs;
  first = r.first;
  blk = r.blk;
  pages = r.pages;
  erased = r.erased;
  counts = r.counts;
}

pub settle_dirty : (bank j : ℕ) (s : Ftl) → dirty_bufs (settle bank s) j ≡ dirty_bufs s j
settle_dirty bank j s = elim (Bool-cases (j == bank)) [
  | inl e ↦ let at : j ≡ bank = ground arith in ground (arith, e, ap (dirty_bufs s) at)
  | inr e ↦ ground (arith, e)
]

pub settle-CanFlush : (bank : ℕ) (s : Ftl) → CanFlush s → CanFlush (settle bank s)
settle-CanFlush bank s v = record {
  banks = λ b lt. elim (Bool-cases (b == bank)) [
    | inl e ↦
        let at : b ≡ bank = ground arith in
        let r = settled-BankReady b (s.caches.banks b) s.pgmap s.flash s.blkmgr (v.banks b lt) in
        rw e (subst (λ x. BankReady b (settled (s.caches.banks x)) s.pgmap s.flash s.blkmgr) at r)
    | inr e ↦ rw e (v.banks b lt)
  ];
  counted = record { exact = v.counted.exact; inside = v.counted.inside };
  log =
      let same =
        sum_to_same num_banks (dirty_bufs s) (dirty_bufs (settle bank s))
          (λ j lt. settle_dirty bank j s) in
      let log = v.log in rw same log;
  real = v.real;
}

-- The counts of valid pages only grow in the block that is written to.
counts_le :
    (bank idx b k : ℕ) (s t : Ftl)
    → WroteOut bank idx s t
    → get_vcount t.blkmgr b k ≤ get_vcount s.blkmgr b k + 1
counts_le bank idx b k s t w =
    let le = unmapped_le s.blkmgr bank (get_ppn s.pgmap ((s.caches.banks bank).ents idx).lpn) b k in
    let here = w.counts b k in ground (arith, le, here)

counts_le_other :
    (bank idx b k : ℕ) (s t : Ftl)
    → WroteOut bank idx s t
    → (b == bank) ≡ false
    → k < vblks_per_bank
    → get_active_ppn s.pgmap bank 1 / pages_per_vblk < vblks_per_bank
    → get_vcount t.blkmgr b k ≤ get_vcount s.blkmgr b k
counts_le_other bank idx b k s t w ne lt lt' =
    let le = unmapped_le s.blkmgr bank (get_ppn s.pgmap ((s.caches.banks bank).ents idx).lpn) b k in
    let here = w.counts b k in ground (arith, le, here)

pub clean_bufs :
    (c : Cache) (idx j : ℕ)
    → is_dirty (clean_ent idx c) j ≡ true
    → (is_dirty c j ≡ true) × ((clean_ent idx c).ents j ≡ c.ents j)
unfolding clean_ent
clean_bufs c idx j dirty = elim (Bool-cases (j == idx)) [
  | inl e ↦ absurd (ground (arith, e, dirty))
  | inr e ↦ (ground (arith, e, dirty), rw e refl)
]

-- The bank that was written to, and another one.
written-BankReady :
    (bank idx : ℕ) (s t : Ftl)
    → BankReady bank (s.caches.banks bank) s.pgmap s.flash s.blkmgr
    → is_dirty (s.caches.banks bank) idx ≡ true
    → WroteOut bank idx s t
    → BankReady bank (clean_ent idx (s.caches.banks bank)) t.pgmap t.flash t.blkmgr
unfolding clean_ent
written-BankReady bank idx s t r d w =
    let (idx_lt, own, lpn_lt) = r.bufs idx d in
    let (cache, fewer) = clean_ent-IsCache (s.caches.banks bank) idx r.cache idx_lt d in
    let pages = r.pages in
    let left = has_dirty (s.caches.banks bank) idx r.cache idx_lt d in
    let active = w.active in
    let ppn = get_active_ppn s.pgmap bank 1 in
    let blk : (ppn + 1) / pages_per_vblk ≡ ppn / pages_per_vblk = omega arith in
    let page : (ppn + 1) % pages_per_vblk ≡ ppn % pages_per_vblk + 1 = omega arith in
    record {
      cache = cache;
      free = r.free;
      bufs = λ j dirty.
          let (was, same) = clean_bufs (s.caches.banks bank) idx j dirty in
          subst
            (λ (e : CacheEnt).
              (j < num_cache_buffers_per_bank) × (get_bank e.lpn ≡ bank) × (e.lpn < num_lpages))
            (sym same) (r.bufs j was);
      first = rw active (λ z. absurd (omega arith));
      blk = rw (active, blk) r.blk;
      pages = rw (active, page) (omega arith);
      erased = λ p from to.
          let from' : ppn % pages_per_vblk + 1 ≤ p = rw (active, page) at from in
          let ne : (bank == bank
                && (ppn / pages_per_vblk == ppn / pages_per_vblk && p == ppn % pages_per_vblk))
              ≡ false =
            ground (arith, from') in
          let old = r.erased p (omega arith) to in
          rw (active, blk)
            (ap (λ (x : FlashPage). x.is_erased) (w.others bank (ppn / pages_per_vblk) p ne) ∙ old);
      counts =
          rw (active, blk, page)
            (let le = counts_le bank idx bank (ppn / pages_per_vblk) s t w in
              let counts = r.counts in omega arith);
    }

other-BankReady :
    (bank idx b : ℕ) (s t : Ftl)
    → (b == bank) ≡ false
    → get_active_ppn s.pgmap bank 1 / pages_per_vblk < vblks_per_bank
    → BankReady b (s.caches.banks b) s.pgmap s.flash s.blkmgr
    → WroteOut bank idx s t
    → BankReady b (s.caches.banks b) t.pgmap t.flash t.blkmgr
other-BankReady bank idx b s t ne blk r w =
    let active = w.actives b ne in
    let ppn = get_active_ppn s.pgmap b 1 in
    record {
      cache = r.cache;
      free = r.free;
      bufs = r.bufs;
      first = rw active r.first;
      blk = rw active r.blk;
      pages = rw active r.pages;
      erased = λ p from to.
          let old = r.erased p (rw active at from) to in
          let elsewhere = w.others b (ppn / pages_per_vblk) p (ground (arith, ne)) in
          rw active (ap (λ (x : FlashPage). x.is_erased) elsewhere ∙ old);
      counts =
          let le = counts_le_other bank idx b (ppn / pages_per_vblk) s t w ne r.blk blk in
          let counts = r.counts in rw active (omega arith);
    }

-- Writing a dirty buffer out leaves one dirty buffer less in its bank.
pub WroteOut-CanFlush :
    (bank idx : ℕ) (s t : Ftl)
    → CanFlush s
    → bank < num_banks
    → is_dirty (s.caches.banks bank) idx ≡ true
    → WroteOut bank idx s t
    → CanFlush t
      × (dirty_bufs t bank + 1 ≡ dirty_bufs s bank)
      × ((b : ℕ) → (b == bank) ≡ false → dirty_bufs t b ≡ dirty_bufs s b)
WroteOut-CanFlush bank idx s t v lt d w =
    let r = v.banks bank lt in
    let (idx_lt, own, lpn_lt) = r.bufs idx d in
    let (cache, fewer) = clean_ent-IsCache (s.caches.banks bank) idx r.cache idx_lt d in
    let here : dirty_bufs t bank + 1 ≡ dirty_bufs s bank =
      ap (λ (c : Cache). c.n_dirty_bufs + 1) w.cache ∙ fewer in
    let there : (b : ℕ) → (b == bank) ≡ false → dirty_bufs t b ≡ dirty_bufs s b =
      λ b ne. ap (λ (c : Cache). c.n_dirty_bufs) (w.caches b ne) in
    let total = sum_to_dec num_banks bank (dirty_bufs s) (dirty_bufs t) lt here there in
    let log = v.log in
    let cnt = w.cnt in
    (
      record {
        banks = λ b b_lt. elim (Bool-cases (b == bank)) [
          | inl e ↦
              let at : bank ≡ b = ground arith in
              subst (λ x. BankReady x (t.caches.banks x) t.pgmap t.flash t.blkmgr) at
                (rw w.cache (written-BankReady bank idx s t r d w))
          | inr e ↦ rw (w.caches b e) (other-BankReady bank idx b s t e r.blk (v.banks b b_lt) w)
        ];
        counted =
            WroteOut-IsCounted bank idx s t v.counted (CanFlush-CanWrite bank idx s v lt d) lpn_lt
              own r.first w;
        log = omega arith;
        real = w.real;
      },
      here,
      there,
    )
