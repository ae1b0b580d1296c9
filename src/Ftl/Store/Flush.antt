-- ===== src/Ftl/Store/Flush.antt =====
-- ftl_optr/cache.c: `flush_write_buf`, whose rounds over the banks end with every buffer clean.
use optr_jasmine.Prelude.{
  ℕ, zero, suc, ◌+◌, ◌-◌, ◌≤◌, ◌<◌, ◌≡◌, inl, inr, refl, sym, ap, ◌∙◌, arith, Bool, true, false,
  some, if◌then◌else◌, ◌==◌, Option, ◌>>=◌, Bool-cases, ==_refl, count_true_none, count_true-le,
  for_try_inv,
}
use optr_jasmine.Config.{num_banks, num_cache_buffers_per_bank}
use optr_jasmine.Cache.{is_dirty}
use optr_jasmine.Ftl.{Ftl}
use optr_jasmine.Ftl.Dequeue.{dequeue, flush_round, flush_rounds, flush_write_buf}
use optr_jasmine.Ftl.Dequeue.Write.{WroteOut}
use optr_jasmine.Ftl.Dequeue.Flush.{settle, dequeue-WroteOut}
use optr_jasmine.Ftl.Store.Ready.{CanFlush, CanFlush-CanWrite, dirty_bufs, has_dirty}
use optr_jasmine.Ftl.Store.Drain.{settle-CanFlush, settle_dirty, WroteOut-CanFlush}

both_true : (a b : Bool) → (if a then b else false) ≡ true → (a ≡ true) × (b ≡ true)
both_true a b h = ground (arith, h)

-- Behind a round, by its flag.
after_round : ℕ → Ftl → Bool → Option Ftl
after_round fuel s true = some s
after_round fuel s false = flush_rounds fuel s

flush_rounds-after :
    (fuel : ℕ) (s u : Ftl) (flag is : Bool)
    → flush_round s ≡ some (flag, u)
    → flag ≡ is
    → flush_rounds (suc fuel) s ≡ after_round fuel u is
unfolding flush_rounds after_round
flush_rounds-after fuel s u true true e same = rw e refl
flush_rounds-after fuel s u true false e same = absurd (ground (arith, same))
flush_rounds-after fuel s u false true e same = absurd (ground (arith, same))
flush_rounds-after fuel s u false false e same = rw e refl

-- A property that writing out keeps holds at the end of the flush.
module _ (P : Ftl → Type 0) (P-settle : (b : ℕ) (s : Ftl) → P s → P (settle b s))
    (P-write : (b idx : ℕ) (s t : Ftl)
      → CanFlush s
      → b < num_banks
      → is_dirty (s.caches.banks b) idx ≡ true
      → WroteOut b idx s t
      → P s
      → P t) where
  -- One call of `dequeue`.
  pub record Drained (b : ℕ) (s : Ftl) (q : Bool × Ftl) : Type 0 where
    pub can : CanFlush q.1
    pub holds : P q.1
    pub others : (j : ℕ) → (j == b) ≡ false → dirty_bufs q.1 j ≡ dirty_bufs s j
    pub here : dirty_bufs q.1 b ≡ dirty_bufs s b - 1
    pub none_left : (q.0 ≡ true) → dirty_bufs s b ≡ 0
    pub some_left : dirty_bufs s b ≡ 0 → q.0 ≡ true

  pub dequeue-Drained :
      (b : ℕ) (s : Ftl)
      → CanFlush s
      → P s
      → b < num_banks
      → (q : Bool × Ftl) × (dequeue b s ≡ some q) × Drained b s q
  dequeue-Drained b s v h lt =
      let r = v.banks b lt in
      let u = settle b s in
      let v' = settle-CanFlush b s v in
      let at : (idx : ℕ)
          → is_dirty (s.caches.banks b) idx ≡ true
          → is_dirty (u.caches.banks b) idx ≡ true =
        λ idx d. rw (==_refl b) d in
      elim (dequeue-WroteOut b s r.cache r.free
        (λ idx d. CanFlush-CanWrite b idx u v' lt (at idx d))) [
          | inl (clean, e) ↦
              let zero_left : dirty_bufs s b ≡ 0 =
                r.cache.counted
                ∙ count_true_none (is_dirty (s.caches.banks b)) num_cache_buffers_per_bank clean in
              (
                (true, u),
                e,
                record {
                  can = v';
                  holds = P-settle b s h;
                  others = λ j ne. settle_dirty b j s;
                  here = settle_dirty b b s ∙ omega arith;
                  none_left = λ t. zero_left;
                  some_left = λ z. refl;
                },
              )
          | inr (idx, d, split, t, e, w) ↦
              let (can, fewer, same) = WroteOut-CanFlush b idx u t v' lt (at idx d) w in
              let old = settle_dirty b b s in
              (
                (false, t),
                e,
                record {
                  can = can;
                  holds = P-write b idx u t v' lt (at idx d) w (P-settle b s h);
                  others = λ j ne. same j ne ∙ settle_dirty b j s;
                  here = omega arith;
                  none_left = λ f. absurd (ground (arith, f));
                  some_left = λ z. absurd (omega arith);
                },
              )
        ]

  -- What the round has done before bank `k`.
  record Swept (s : Ftl) (k : ℕ) (q : Bool × Ftl) : Type 0 where
    can : CanFlush q.1
    holds : P q.1
    later : (b : ℕ) → k ≤ b → dirty_bufs q.1 b ≡ dirty_bufs s b
    done : (b : ℕ) → b < k → dirty_bufs q.1 b ≡ dirty_bufs s b - 1
    none_left : (q.0 ≡ true) → (b : ℕ) → b < k → dirty_bufs s b ≡ 0
    some_left : ((b : ℕ) → b < k → dirty_bufs s b ≡ 0) → q.0 ≡ true

  Swept-next :
      (s : Ftl) (k : ℕ) (p q : Bool × Ftl)
      → Swept s k p
      → Drained k p.1 q
      → Swept s (k + 1) (if p.0 then q.0 else false, q.1)
  Swept-next s k p q w d =
      let now = w.later k (omega arith) in
      record {
        can = d.can;
        holds = d.holds;
        later = λ b le. d.others b (ground arith) ∙ w.later b (omega arith);
        done = λ b lt. elim (Bool-cases (b == k)) [
          | inl e ↦ let is : b ≡ k = ground arith in rw is (d.here ∙ ap (λ x. x - 1) now)
          | inr ne ↦ d.others b ne ∙ w.done b (ground arith)
        ];
        none_left = λ t b lt.
            let (before, here) = both_true p.0 q.0 t in
            elim (Bool-cases (b == k)) [
              | inl e ↦ let is : b ≡ k = ground arith in rw is (sym now ∙ d.none_left here)
              | inr ne ↦ w.none_left before b (ground arith)
            ];
        some_left = λ z.
            let before = w.some_left (λ b lt. z b (omega arith)) in
            rw before (d.some_left (now ∙ z k (omega arith)));
      }

  flush_round-Swept :
      (s : Ftl)
      → CanFlush s
      → P s
      → (q : Bool × Ftl) × (flush_round s ≡ some q) × Swept s num_banks q
  unfolding flush_round
  flush_round-Swept s v h =
      for_try_inv (Swept s)
        (λ bank (r : Bool × Ftl).
          dequeue bank r.1 >>= λ (q : Bool × Ftl). some ((if r.0 then q.0 else false), q.1))
        num_banks
        (λ k p lt w.
          let (q, e, d) = dequeue-Drained k p.1 w.can w.holds lt in
          (((if p.0 then q.0 else false), q.1), rw e refl, Swept-next s k p q w d))
        num_banks 0 (true, s) refl
        (record {
          can = v;
          holds = h;
          later = λ b le. refl;
          done = λ b lt. absurd (omega arith);
          none_left = λ t b lt. absurd (omega arith);
          some_left = λ z. refl;
        })

  flush_rounds-Drained :
      (fuel : ℕ) (s : Ftl)
      → CanFlush s
      → P s
      → ((b : ℕ) → b < num_banks → dirty_bufs s b < fuel)
      → (t : Ftl) × (flush_rounds fuel s ≡ some t)
        × CanFlush t
        × P t
        × ((b : ℕ) → b < num_banks → dirty_bufs t b ≡ 0)
  unfolding after_round
  flush_rounds-Drained zero s v h few = let no = few 0 (omega arith) in absurd (omega arith)
  flush_rounds-Drained (suc fuel) s v h few =
      let ((flag, u), e, w) = flush_round-Swept s v h in
      let left : (b : ℕ) → b < num_banks → dirty_bufs u b ≡ dirty_bufs s b - 1 = w.done in
      elim (Bool-cases flag) [
        | inl t ↦ (
          u,
          flush_rounds-after fuel s u flag true e t,
          w.can,
          w.holds,
          λ b lt. let z = w.none_left t b lt in left b lt ∙ omega arith,
        )
        | inr f ↦ elim (Bool-cases (fuel == 0)) [
          | inl none_more ↦
              let all : flag ≡ true = w.some_left (λ b lt. let l = few b lt in ground arith) in
              absurd (ground (arith, f, all))
          | inr more ↦
              let (t, e', can, holds, clean) =
                flush_rounds-Drained fuel u w.can w.holds
                  (λ b lt. let l = few b lt in let d = left b lt in ground arith) in
              (t, flush_rounds-after fuel s u flag false e f ∙ e', can, holds, clean)
        ]
      ]

  -- A flush of the cache ends, and leaves every buffer clean.
  pub flush_write_buf-Drained :
      (s : Ftl)
      → CanFlush s
      → P s
      → (t : Ftl) × (flush_write_buf s ≡ some t)
        × CanFlush t
        × P t
        × ((b j : ℕ)
            → b < num_banks
            → j < num_cache_buffers_per_bank
            → is_dirty (t.caches.banks b) j ≡ false)
  unfolding flush_write_buf
  flush_write_buf-Drained s v h =
      let few : (b : ℕ) → b < num_banks → dirty_bufs s b < 33 = λ b lt.
        let e = (v.banks b lt).cache.counted in
        let le = count_true-le (is_dirty (s.caches.banks b)) num_cache_buffers_per_bank in
        omega arith in
      let (t, e, can, holds, clean) = flush_rounds-Drained 33 s v h few in
      (
        t,
        e,
        can,
        holds,
        λ b j b_lt j_lt. elim (Bool-cases (is_dirty (t.caches.banks b) j)) [
          | inl d ↦
              let pos = has_dirty (t.caches.banks b) j (can.banks b b_lt).cache j_lt d in
              let none_left = clean b b_lt in absurd (omega arith)
          | inr is_clean ↦ is_clean
        ],
      )
