-- ===== src/Ftl/Store/Persist.antt =====
-- ftl_optr/cache.c: what the host had written is on flash once `flush_write_buf` has returned.
use optr_jasmine.Prelude.{
  ℕ, ◌<◌, ◌≡◌, ◌≢◌, ◌⊎◌, ◌&&◌, inl, inr, refl, sym, ap, ◌∙◌, subst, arith, Bool, true, false, some,
  ◌==◌, Bool-cases, ==_refl, ==_iff,
}
use optr_jasmine.Config.{num_banks, num_cache_buffers_per_bank}
use optr_jasmine.Cache.{Cache, CacheEnt, is_dirty, clean_ent}
use optr_jasmine.Ftl.{Ftl, cache_buf}
use optr_jasmine.Ftl.Dequeue.{flush_write_buf}
use optr_jasmine.Ftl.Dequeue.Write.{WroteOut}
use optr_jasmine.Ftl.Dequeue.Flush.{settle}
use optr_jasmine.Ftl.Store.{Contents, Refines, apply, put}
use optr_jasmine.Ftl.Store.Refine.{WroteOut-Refines, Refines-same}
use optr_jasmine.Ftl.Store.Ready.{CanFlush, CanFlush-CanWrite}
use optr_jasmine.Ftl.Store.Flush.{flush_write_buf-Drained}

-- The logical page of a buffer.
abbrev pub buf_lpn : Ftl → ℕ → ℕ → ℕ
buf_lpn s b idx = ((s.caches.banks b).ents idx).lpn

abbrev pub dirty_at : Ftl → ℕ → ℕ → Bool
dirty_at s b idx = is_dirty (s.caches.banks b) idx

-- No two dirty buffers hold the same logical page.
abbrev pub IsOnce : Ftl → Type 0
IsOnce s =
    (b i b' i' : ℕ)
    → b < num_banks
    → b' < num_banks
    → dirty_at s b i ≡ true
    → dirty_at s b' i' ≡ true
    → buf_lpn s b i ≡ buf_lpn s b' i'
    → (b ≡ b') × (i ≡ i')

-- Between the state `s` and `u` of one flush: what is dirty was so, what was dirty is still so or is
-- among the contents on flash, and the other contents are those at the start.
record Persisting (c0 : Contents) (s u : Ftl) : Type 0 where
  contents : Contents
  refines : Refines contents u
  left :
      (b i : ℕ)
      → b < num_banks
      → dirty_at u b i ≡ true
      → (dirty_at s b i ≡ true) × ((u.caches.banks b).ents i ≡ (s.caches.banks b).ents i)
  wrote :
      (b i : ℕ)
      → b < num_banks
      → dirty_at s b i ≡ true
      → (dirty_at u b i ≡ true) ⊎ (contents (buf_lpn s b i) ≡ some (s.ram (cache_buf b i)))
  ram :
      (b i : ℕ)
      → b < num_banks
      → i < num_cache_buffers_per_bank
      → u.ram (cache_buf b i) ≡ s.ram (cache_buf b i)
  same :
      (q : ℕ)
      → ((b i : ℕ) → b < num_banks → dirty_at s b i ≡ true → buf_lpn s b i ≢ q)
      → contents q ≡ c0 q

settle_ents :
    (bank b : ℕ) (u : Ftl) → ((settle bank u).caches.banks b).ents ≡ (u.caches.banks b).ents
settle_ents bank b u = elim (Bool-cases (b == bank)) [
  | inl e ↦ let at : b ≡ bank = ground arith in rw e (ap (λ x. (u.caches.banks x).ents) (sym at))
  | inr e ↦ rw e refl
]

pub settle_ent :
    (bank b i : ℕ) (u : Ftl) → ((settle bank u).caches.banks b).ents i ≡ (u.caches.banks b).ents i
settle_ent bank b i u = ap (λ (f : ℕ → CacheEnt). f i) (settle_ents bank b u)

settle-Persisting :
    (c0 : Contents) (s : Ftl) (bank : ℕ) (u : Ftl)
    → Persisting c0 s u
    → Persisting c0 s (settle bank u)
settle-Persisting c0 s bank u p = record {
  contents = p.contents;
  refines = Refines-same p.contents u (settle bank u) refl refl p.refines;
  left = λ b i lt d.
      let e = settle_ent bank b i u in
      let (was, ent) = p.left b i lt (sym (ap (λ (x : CacheEnt). x.dirty) e) ∙ d) in (was, e ∙ ent);
  wrote = λ b i lt d. elim (p.wrote b i lt d) [
    | inl still ↦ inl (ap (λ (x : CacheEnt). x.dirty) (settle_ent bank b i u) ∙ still)
    | inr out ↦ inr out
  ];
  ram = p.ram;
  same = p.same;
}

-- A buffer behind `write_out`: only the one that was written out has changed.
pub other_ent :
    (bank idx b i : ℕ) (u t : Ftl)
    → WroteOut bank idx u t
    → (b == bank && i == idx) ≡ false
    → (t.caches.banks b).ents i ≡ (u.caches.banks b).ents i
unfolding clean_ent
other_ent bank idx b i u t w ne = elim (Bool-cases (b == bank)) [
  | inl e ↦
      let at : b ≡ bank = ground arith in
      let ni : (i == idx) ≡ false = ground (arith, ne, e) in
      let here : (t.caches.banks bank).ents i ≡ (u.caches.banks bank).ents i =
        ap (λ (c : Cache). c.ents i) w.cache ∙ rw ni refl in
      subst (λ x. (t.caches.banks x).ents i ≡ (u.caches.banks x).ents i) (sym at) here
  | inr e ↦ ap (λ (c : Cache). c.ents i) (w.caches b e)
]

pub now_clean : (bank idx : ℕ) (u t : Ftl) → WroteOut bank idx u t → dirty_at t bank idx ≡ false
unfolding clean_ent
now_clean bank idx u t w = ap (λ (c : Cache). is_dirty c idx) w.cache ∙ ground arith

-- Whether a buffer is the one that was written out.
pub is_it : (bank idx b i : ℕ) → ((b ≡ bank) × (i ≡ idx)) ⊎ ((b == bank && i == idx) ≡ false)
is_it bank idx b i = elim (Bool-cases (b == bank && i == idx)) [
  | inl e ↦ inl (ground arith, ground arith)
  | inr ne ↦ inr ne
]

write-Persisting :
    (c0 : Contents) (s : Ftl)
    → IsOnce s
    → (bank idx : ℕ) (u t : Ftl) → CanFlush u
    → bank < num_banks
    → dirty_at u bank idx ≡ true
    → WroteOut bank idx u t
    → Persisting c0 s u
    → Persisting c0 s t
write-Persisting c0 s once bank idx u t v lt d w p =
    let r = v.banks bank lt in
    let (idx_lt, own, lpn_lt) = r.bufs idx d in
    let lpn = buf_lpn u bank idx in
    let (was, ent) = p.left bank idx lt d in
    let lpn_was : lpn ≡ buf_lpn s bank idx = ap (λ (x : CacheEnt). x.lpn) ent in
    let now = apply (put lpn (u.ram (cache_buf bank idx))) p.contents in
    let is_put : now lpn ≡ some (s.ram (cache_buf bank idx)) =
      rw (==_refl lpn) (ap some (p.ram bank idx lt idx_lt)) in
    record {
      contents = now;
      refines =
          WroteOut-Refines p.contents u bank idx t p.refines (CanFlush-CanWrite bank idx u v lt d)
            own r.first w;
      left = λ b i b_lt dirty. elim (is_it bank idx b i) [
        | inl (eb, ei) ↦
            let clean : dirty_at t b i ≡ false = rw (eb, ei) (now_clean bank idx u t w) in
            absurd (ground (arith, clean, dirty))
        | inr ne ↦
            let e = other_ent bank idx b i u t w ne in
            let (before, ent') = p.left b i b_lt (sym (ap (λ (x : CacheEnt). x.dirty) e) ∙ dirty) in
            (before, e ∙ ent')
      ];
      wrote = λ b i b_lt dirty. elim (Bool-cases (buf_lpn s b i == lpn)) [
        | inl e ↦
            let eq : buf_lpn s b i ≡ lpn = (==_iff (buf_lpn s b i) lpn).0 e in
            let (eb, ei) = once b i bank idx b_lt lt dirty was (eq ∙ lpn_was) in
            let buf : cache_buf bank idx ≡ cache_buf b i = rw (eb, ei) refl in
            inr (ap now eq ∙ is_put ∙ ap (λ x. some (s.ram x)) buf)
        | inr ne ↦ elim (p.wrote b i b_lt dirty) [
          | inr out ↦ inr (rw ne out)
          | inl still ↦ elim (is_it bank idx b i) [
            | inl (eb, ei) ↦
                let eq : buf_lpn s b i ≡ lpn = rw (eb, ei) (sym lpn_was) in
                absurd (ground (arith, ne, eq))
            | inr other ↦
                inl (ap (λ (x : CacheEnt). x.dirty) (other_ent bank idx b i u t w other) ∙ still)
          ]
        ]
      ];
      ram = λ b i b_lt i_lt. w.buffers b i b_lt i_lt ∙ p.ram b i b_lt i_lt;
      same = λ q no.
          let apart = no bank idx lt was in
          let ne : (q == lpn) ≡ false = ground (arith, apart, lpn_was) in rw ne (p.same q no);
    }

-- A flush of the cache ends, if every bank is ready for its dirty buffers, the log has an entry for
-- each, and no two of them hold the same logical page. Every buffer of every bank is clean then, and
-- the cache can be flushed again. If the flash stood for some contents before, it stands for new ones:
-- each logical page that a dirty buffer held has what stood in the buffer, and the others what they
-- had.
pub flush_write_buf-Persists :
    (c : Contents) (s : Ftl)
    → CanFlush s
    → IsOnce s
    → Refines c s
    → (t : Ftl) × (flush_write_buf s ≡ some t)
      × CanFlush t
      × ((b j : ℕ) → b < num_banks → j < num_cache_buffers_per_bank → dirty_at t b j ≡ false)
      × (c' : Contents) × Refines c' t
      × ((b i : ℕ)
          → b < num_banks
          → dirty_at s b i ≡ true
          → c' (buf_lpn s b i) ≡ some (s.ram (cache_buf b i)))
      × ((q : ℕ)
          → ((b i : ℕ) → b < num_banks → dirty_at s b i ≡ true → buf_lpn s b i ≢ q)
          → c' q ≡ c q)
flush_write_buf-Persists c s v once refines =
    let start : Persisting c s s = record {
      contents = c;
      refines = refines;
      left = λ b i lt d. (d, refl);
      wrote = λ b i lt d. inl d;
      ram = λ b i lt i_lt. refl;
      same = λ q no. refl;
    } in
    let (t, e, can, p, clean) =
      flush_write_buf-Drained (Persisting c s) (settle-Persisting c s) (write-Persisting c s once) s
        v start in
    (
      t,
      e,
      can,
      clean,
      p.contents,
      p.refines,
      λ b i lt d. elim (p.wrote b i lt d) [
        | inl still ↦
            let (i_lt, own, lpn_lt) = (v.banks b lt).bufs i d in
            absurd (ground (arith, still, clean b i lt i_lt))
        | inr out ↦ out
      ],
      p.same,
    )
