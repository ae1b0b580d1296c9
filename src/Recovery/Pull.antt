-- ===== src/Recovery/Pull.antt =====
-- The pull of the incomplete epoch over a list of dependencies in order of their sources.
use optr_jasmine.Prelude.{
  ℕ, zero, suc, ◌≤◌, ◌<◌, ◌≡◌, ◌⊎◌, inl, inr, refl, arith, ◌&&◌, if◌then◌else◌, ltb, leb,
  Bool-cases,
}
use optr_jasmine.Recovery.{RecoveryEnt, pull}

-- No dependency of the first `n` has its source below `e` and its destination at `e` or above.
abbrev pub Closed : (ℕ → RecoveryEnt) → ℕ → ℕ → Type 0
Closed a n e = (i : ℕ) → i < n → (e ≤ (a i).lo) ⊎ ((a i).hi < e)

-- The sources do not decrease.
abbrev pub IsSorted : (ℕ → RecoveryEnt) → ℕ → Type 0
IsSorted a n = (i j : ℕ) → i ≤ j → j < n → (a i).lo ≤ (a j).lo

-- The greatest closed epoch up to `e`.
pub record IsGreatestClosed (a : ℕ → RecoveryEnt) (n e r : ℕ) : Type 0 where
  pub below : r ≤ e
  pub closed : Closed a n r
  pub greatest : (x : ℕ) → x ≤ e → Closed a n x → x ≤ r

-- One step of the pull.
pulled : RecoveryEnt → ℕ → ℕ
pulled d e = if ltb d.lo e && leb e d.hi then d.lo else e

pulled_le : (d : RecoveryEnt) (e : ℕ) → pulled d e ≤ e
unfolding pulled
pulled_le d e = ground arith

pulled_off : (d : RecoveryEnt) (e : ℕ) → (pulled d e ≤ d.lo) ⊎ ((pulled d e ≡ e) × (d.hi < e))
unfolding pulled
pulled_off d e = ground arith

pulled_keeps : (d : RecoveryEnt) (e x : ℕ) → x ≤ e → (x ≤ d.lo) ⊎ (d.hi < x) → x ≤ pulled d e
unfolding pulled
pulled_keeps d e x h (inl c) = ground arith
pulled_keeps d e x h (inr c) = ground arith

pull-zero : (a : ℕ → RecoveryEnt) (e : ℕ) → pull 0 a e ≡ e
unfolding pull
pull-zero a e = refl

pull-suc : (n : ℕ) (a : ℕ → RecoveryEnt) (e : ℕ) → pull (suc n) a e ≡ pull n a (pulled (a n) e)
unfolding pull pulled
pull-suc n a e = refl

-- The result is the epoch it starts with, or the source of a dependency.
pull_source :
    (n : ℕ) (a : ℕ → RecoveryEnt) (e : ℕ)
    → (pull n a e ≡ e) ⊎ ((i : ℕ) × (i < n) × (pull n a e ≡ (a i).lo))
unfolding pull
pull_source zero a e = inl refl
pull_source (suc n) a e = elim (Bool-cases (ltb (a n).lo e && leb e (a n).hi)) [
  | inl h ↦ rw h (elim (pull_source n a (a n).lo) [
    | inl s ↦ inr (n, omega arith, s)
    | inr (i, b, s) ↦ inr (i, omega arith, s)
  ])
  | inr h ↦
      rw h (elim (pull_source n a e) [ inl s ↦ inl s | inr (i, b, s) ↦ inr (i, omega arith, s) ])
]

last_closed :
    (n : ℕ) (a : ℕ → RecoveryEnt) (e : ℕ)
    → IsSorted a (suc n)
    → pull n a (pulled (a n) e) ≤ pulled (a n) e
    → (pull n a (pulled (a n) e) ≤ (a n).lo) ⊎ ((a n).hi < pull n a (pulled (a n) e))
last_closed n a e sorted below = elim (pulled_off (a n) e) [
  | inl low ↦ inl (omega arith)
  | inr (same, high) ↦ elim (pull_source n a (pulled (a n) e)) [
    | inl s ↦ inr (omega arith)
    | inr (i, b, s) ↦ inl (omega (arith, sorted i n (omega arith) (omega arith)))
  ]
]

-- Over a list in order of the sources, one pass of the loop from the end gives the greatest epoch
-- that is not above the first incomplete write and that no dependency of the list crosses.
pub pull-IsGreatestClosed :
    (n : ℕ) (a : ℕ → RecoveryEnt) (e : ℕ) → IsSorted a n → IsGreatestClosed a n e (pull n a e)
pull-IsGreatestClosed zero a e sorted =
    rw (pull-zero a e)
      (record { below = omega arith; closed = λ i h. absurd (omega arith); greatest = λ x h c. h })
pull-IsGreatestClosed (suc n) a e sorted =
    let rest = pull-IsGreatestClosed n a (pulled (a n) e) (λ i j p q. sorted i j p (omega arith)) in
    let last = last_closed n a e sorted rest.below in
    rw (pull-suc n a e) (record {
      below = omega (arith, rest.below, pulled_le (a n) e);
      closed = λ i h. elim (Bool-cases (ltb i n)) [
        | inl inside ↦ rest.closed i (ground arith)
        | inr end ↦ let same : i ≡ n = ground arith in rw same last
      ];
      greatest = λ x h c.
          rest.greatest x (pulled_keeps (a n) e x h (c n (omega arith))) (λ i b. c i (omega arith));
    })
