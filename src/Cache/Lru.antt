-- ===== src/Cache/Lru.antt =====
-- The list of recently used buffers: `touch_lru` moves a buffer to the front, and the flush picks
-- the dirty buffer that stands last.
use mathlib.Core.List.{Mem, Perm, perm_middle, mem-cons, not-mem-nil}
use mathlib.Core.List.Perm
use mathlib.Core.Logic.Or
use optr_jasmine.Prelude.{
  ℕ, zero, suc, ◌+◌, ◌<◌, ◌≡◌, refl, sym, ap, ◌∙◌, arith, Bool, true, false, ◌==◌, List, [], ◌∷◌,
  ◌++◌, set, get_or, length, ◌⊎◌, some, none, Option-cases, Bool-cases, inl, inr, ==_iff, lt→ltb,
  length-append, All, subst, if◌then◌else◌,
}
use native.Mathlib.Nat.{zero-add}
use optr_jasmine.Config.{num_cache_buffers_per_bank}
use optr_jasmine.Cache.{touch_lru, find_lru, shift_lru, last_such}

-- `l` with one occurrence of `b` picked out.
pub record Split (b : ℕ) (l : List ℕ) : Type 0 where
  pub before : List ℕ
  pub after : List ℕ
  pub whole : l ≡ before ++ (b ∷ after)

find_lru-Split :
    (b : ℕ) (l : List ℕ) (k : ℕ) {r : ℕ}
    → find_lru b l k ≡ some r
    → (s : Split b l) × (r ≡ k + length s.before)
unfolding find_lru
find_lru-Split b [] k e = absurd (ground arith)
find_lru-Split b (x ∷ xs) k {r} e = elim (Bool-cases (x == b)) [
  | inl same ↦ (
    record { before = []; after = xs; whole = ap (λ y. y ∷ xs) ((==_iff x b).0 same) },
    ground arith,
  )
  | inr other ↦
      let (s, h) = find_lru-Split b xs (k + 1) {r = r} (ground arith) in
      (
        record { before = x ∷ s.before; after = s.after; whole = ap (λ ys. x ∷ ys) s.whole },
        omega arith,
      )
]

find_lru-none : (b : ℕ) (l : List ℕ) (k : ℕ) → find_lru b l k ≡ none → ¬ Mem b l
unfolding find_lru
find_lru-none b [] k e m = not-mem-nil m
find_lru-none b (x ∷ xs) k e m =
    Or.elim (λ p. elim p [ ]) (mem-cons.0 m) (λ same. ground arith)
      (λ rest. find_lru-none b xs (k + 1) (ground arith) rest)

-- The loop shifts the elements in front of the place by one.
shift_lru-cons : (i h : ℕ) (t : List ℕ) → shift_lru (suc i) (h ∷ t) ≡ h ∷ set (shift_lru i t) 0 h
unfolding shift_lru
shift_lru-cons zero h t = refl
shift_lru-cons (suc i) h t = shift_lru-cons i h (set t (suc i) (get_or t i 0))

shift_lru-zero : (l : List ℕ) → shift_lru 0 l ≡ l
unfolding shift_lru
shift_lru-zero l = refl

shift_lru-front :
    (b x : ℕ) (before after : List ℕ)
    → set (shift_lru (length before) (before ++ (x ∷ after))) 0 b ≡ b ∷ (before ++ after)
shift_lru-front b x [] after = ap (λ l. set l 0 b) (shift_lru-zero (x ∷ after))
shift_lru-front b x (h ∷ t) after =
    rw (shift_lru-cons (length t) h (t ++ (x ∷ after)), shift_lru-front h x t after)

touch_lru-split :
    (b r : ℕ) (l before after : List ℕ)
    → l ≡ before ++ (b ∷ after)
    → r ≡ 0 + length before
    → length l ≡ num_cache_buffers_per_bank
    → find_lru b l 0 ≡ some r
    → touch_lru b l ≡ some (b ∷ (before ++ after))
unfolding touch_lru
touch_lru-split b r l before after whole place len e =
    let short : length before < length l =
      omega (arith, ap length whole, length-append before (b ∷ after)) in
    let front : set (shift_lru r l) 0 b ≡ b ∷ (before ++ after) =
      rw (whole, place, zero-add) (shift_lru-front b b before after) in
    rw (e, lt→ltb r num_cache_buffers_per_bank (omega arith)) (ap some front)

-- What `touch_lru` makes of a list that has the buffer: the buffer in front, and the rest in the
-- order it had.
pub record Touched (b : ℕ) (l : List ℕ) : Type 0 where
  pub split : Split b l
  pub result : touch_lru b l ≡ some (b ∷ (split.before ++ split.after))

-- The loops of `enqueue` over the list of recently used buffers find a buffer that is in a list of
-- 32, and move it to the front. No entry is lost: the new list is a permutation of the old one.
pub touch_lru-Touched :
    (b : ℕ) (l : List ℕ)
    → Mem b l
    → length l ≡ num_cache_buffers_per_bank
    → (t : Touched b l) × Perm (b ∷ (t.split.before ++ t.split.after)) l
touch_lru-Touched b l m len = elim (Option-cases (find_lru b l 0)) [
  | inl e ↦ absurd (find_lru-none b l 0 e m)
  | inr (r, e) ↦
      let (s, i) = find_lru-Split b l 0 e in
      (
        record { split = s; result = touch_lru-split b r l s.before s.after s.whole i len e },
        subst (Perm (b ∷ (s.before ++ s.after))) (sym s.whole)
            (Perm.symm (perm_middle s.before s.after)),
      )
]

-- Where a scan for the last entry that passes a test may end.
abbrev pub LastSuch : (ℕ → Bool) → List ℕ → ℕ → ℕ → Type 0
LastSuch p l idx r =
    (All (λ x. p x ≡ false) l × (r ≡ idx))
    ⊎ ((s : Split r l) × (p r ≡ true) × All (λ x. p x ≡ false) s.after)

pub last_such-LastSuch :
    (p : ℕ → Bool) (l : List ℕ) (idx : ℕ) → LastSuch p l idx (last_such p l idx)
unfolding last_such
last_such-LastSuch p [] idx = inl (tt, refl)
last_such-LastSuch p (x ∷ xs) idx = go (last_such-LastSuch p xs (if p x then x else idx))
  where
    go :
        LastSuch p xs (if p x then x else idx) (last_such p xs (if p x then x else idx))
        → LastSuch p (x ∷ xs) idx (last_such p xs (if p x then x else idx))
    go (inr (s, h, after)) = inr (
      record { before = x ∷ s.before; after = s.after; whole = ap (λ ys. x ∷ ys) s.whole },
      h,
      after,
    )
    go (inl (none_of, e)) = elim (Bool-cases (p x)) [
      | inl h ↦
          let e' : last_such p xs (if p x then x else idx) ≡ x = e ∙ rw h in
          inr (
            record { before = []; after = xs; whole = ap (λ y. y ∷ xs) (sym e') },
            subst (λ r. p r ≡ true) (sym e') h,
            none_of,
          )
      | inr h ↦ inl ((h, none_of), e ∙ rw h)
    ]
