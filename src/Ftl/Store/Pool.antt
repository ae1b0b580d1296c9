-- ===== src/Ftl/Store/Pool.antt =====
-- ftl_optr/cache.c: `pool_write_buf`, which serves the banks in turn.
use optr_jasmine.Prelude.{
  ℕ, ◌+◌, ◌-◌, ◌/◌, ◌%◌, ◌<◌, ◌≡◌, inl, inr, refl, ap, ◌∙◌, arith, true, false, some, ltb, ◌==◌,
  Bool-cases,
}
use optr_jasmine.Config.{num_banks, num_cache_buffers_per_bank}
use optr_jasmine.Blkmgr.{on_bank, get_vcount}
use optr_jasmine.Cache.{Caches, CacheEnt, is_dirty}
use optr_jasmine.Vst.Flash.{vst_erase_block}
use optr_jasmine.Ftl.{Ftl, on_caches}
use optr_jasmine.Ftl.Nand.{nand_block_erase}
use optr_jasmine.Ftl.Dequeue.{blkmgr_erase_vt_blk, pool_write_buf}
use optr_jasmine.Ftl.Dequeue.Write.{WroteOut}
use optr_jasmine.Ftl.Dequeue.Flush.{settle}
use optr_jasmine.Ftl.Store.Ready.{CanFlush, dirty_bufs}
use optr_jasmine.Ftl.Store.Flush.{dequeue-Drained}
use optr_jasmine.Ftl.Store.Persist.{dirty_at, settle_ent, other_ent, now_clean, is_it}

-- From one state to the next no buffer becomes dirty, and the bank to serve stays.
record Cleaner (s u : Ftl) : Type 0 where
  pool : u.caches.pool_bank ≡ s.caches.pool_bank
  clean : (b i : ℕ) → dirty_at s b i ≡ false → dirty_at u b i ≡ false

settle-Cleaner : (s : Ftl) (b : ℕ) (u : Ftl) → Cleaner s u → Cleaner s (settle b u)
settle-Cleaner s bank u c = record {
  pool = c.pool;
  clean = λ b i h. ap (λ (x : CacheEnt). x.dirty) (settle_ent bank b i u) ∙ c.clean b i h;
}

write-Cleaner :
    (s : Ftl) (bank idx : ℕ) (u t : Ftl)
    → CanFlush u
    → bank < num_banks
    → dirty_at u bank idx ≡ true
    → WroteOut bank idx u t
    → Cleaner s u
    → Cleaner s t
write-Cleaner s bank idx u t v lt d w c = record {
  pool = w.pool ∙ c.pool;
  clean = λ b i h. elim (is_it bank idx b i) [
    | inl (eb, ei) ↦ rw (eb, ei) (now_clean bank idx u t w)
    | inr ne ↦ ap (λ (x : CacheEnt). x.dirty) (other_ent bank idx b i u t w ne) ∙ c.clean b i h
  ];
}

erase-CanFlush : (bank : ℕ) (s : Ftl) → CanFlush s → CanFlush (blkmgr_erase_vt_blk bank s)
unfolding blkmgr_erase_vt_blk nand_block_erase vst_erase_block get_vcount on_bank
erase-CanFlush bank s v = elim (Bool-cases ((s.blkmgr.banks bank).vt_blk == 0)) [
  | inl z ↦ rw z v
  | inr nz ↦ rw nz (record {
    banks = λ b lt.
        let r = v.banks b lt in
        record {
          cache = r.cache;
          free = r.free;
          bufs = r.bufs;
          first = r.first;
          blk = r.blk;
          pages = r.pages;
          erased = λ p from to. let old = r.erased p from to in ground (arith, old);
          counts = r.counts;
        };
    counted = record { exact = v.counted.exact; inside = v.counted.inside };
    log = v.log;
    real = v.real;
  })
]

erase_caches : (bank : ℕ) (s : Ftl) → (blkmgr_erase_vt_blk bank s).caches ≡ s.caches
unfolding blkmgr_erase_vt_blk nand_block_erase
erase_caches bank s = elim (Bool-cases ((s.blkmgr.banks bank).vt_blk == 0)) [
  | inl z ↦ rw z refl
  | inr nz ↦ rw nz refl
]

-- The next bank to serve.
turn : Ftl → Ftl
turn = on_caches (λ c. record c { pool_bank = (c.pool_bank + 1) % num_banks })

turn-CanFlush : (s : Ftl) → CanFlush s → CanFlush (turn s)
unfolding turn
turn-CanFlush s v = record {
  banks = v.banks;
  counted = record { exact = v.counted.exact; inside = v.counted.inside };
  log = v.log;
  real = v.real;
}

-- One call of `pool_write_buf`.
pub record Pooled (s t : Ftl) : Type 0 where
  pub can : CanFlush t
  pub pool : t.caches.pool_bank ≡ (s.caches.pool_bank + 1) % num_banks
  pub clean : (b i : ℕ) → dirty_at s b i ≡ false → dirty_at t b i ≡ false
  pub served :
      num_cache_buffers_per_bank / 2 < dirty_bufs s s.caches.pool_bank
      → dirty_bufs t s.caches.pool_bank ≡ dirty_bufs s s.caches.pool_bank - 1

pub pool_write_buf-Pooled :
    (s : Ftl)
    → CanFlush s
    → s.caches.pool_bank < num_banks
    → (t : Ftl) × (pool_write_buf s ≡ some t) × Pooled s t
unfolding pool_write_buf turn blkmgr_erase_vt_blk nand_block_erase
pool_write_buf-Pooled s v lt =
    let bank = s.caches.pool_bank in
    elim (Bool-cases (ltb (num_cache_buffers_per_bank / 2) (dirty_bufs s bank))) [
      | inl many ↦
          let (q, e, d) =
            dequeue-Drained (Cleaner s) (settle-Cleaner s) (write-Cleaner s) bank s v
              (record { pool = refl; clean = λ b i h. h }) lt in
          (
            turn q.1,
            rw (many, e) refl,
            record {
              can = turn-CanFlush q.1 d.can;
              pool = ap (λ x. (x + 1) % num_banks) d.holds.pool;
              clean = d.holds.clean;
              served = λ more. d.here;
            },
          )
      | inr few ↦ (
        turn (blkmgr_erase_vt_blk bank s),
        rw few refl,
        record {
          can = turn-CanFlush (blkmgr_erase_vt_blk bank s) (erase-CanFlush bank s v);
          pool = ap (λ (c : Caches). (c.pool_bank + 1) % num_banks) (erase_caches bank s);
          clean = λ b i h. ap (λ (c : Caches). is_dirty (c.banks b) i) (erase_caches bank s) ∙ h;
          served = λ more. absurd (ground (arith, more, few));
        },
      )
    ]
