-- ===== src/Prelude/Counts.antt =====
-- Counting the entries of an array that pass a test.
use Prim.Native.Nat.{ℕ, zero, suc, ◌+◌, ◌≤◌, ◌<◌}
use mathlib.Core.Path.{◌≡◌, refl}
use mathlib.Core.Logic.{inl, inr}
use mathlib.Core.Bool.{Bool, true, false}
use native.Mathlib.Omega.{arith}
use optr_jasmine.Prelude.Tests.{◌==◌, if◌then◌else◌, Bool-cases}

abbrev pub one_if : Bool → ℕ
one_if b = if b then 1 else 0

unfoldable pub count_true : (ℕ → Bool) → ℕ → ℕ
count_true p zero = 0
count_true p (suc n) = one_if (p n) + count_true p n

pub count_true-le : (p : ℕ → Bool) (n : ℕ) → count_true p n ≤ n
unfolding count_true
count_true-le p zero = omega arith
count_true-le p (suc n) = ground (arith, count_true-le p n)

pub count_true_same :
    (p q : ℕ → Bool) (n : ℕ) → ((j : ℕ) → j < n → p j ≡ q j) → count_true p n ≡ count_true q n
unfolding count_true
count_true_same p q zero h = refl
count_true_same p q (suc n) h =
    ground (arith, count_true_same p q n (λ j b. h j (omega arith)), h n (omega arith))

-- A change at one place changes the count by what stands there.
pub count_true_change :
    (p q : ℕ → Bool) (n i : ℕ)
    → i < n
    → ((j : ℕ) → j < n → (j == i) ≡ false → q j ≡ p j)
    → count_true q n + one_if (p i) ≡ count_true p n + one_if (q i)
unfolding count_true
count_true_change p q zero i h same = elim h [ ]
count_true_change p q (suc n) i h same = elim (Bool-cases (n == i)) [
  | inl e ↦ ground (arith, count_true_same q p n (λ j b. same j (omega arith) (ground arith)))
  | inr ne ↦ ground (
    arith,
    count_true_change p q n i (ground arith) (λ j b ne'. same j (omega arith) ne'),
    same n (omega arith) ne,
  )
]

-- A place that passes is counted.
pub count_true_pos : (p : ℕ → Bool) (n i : ℕ) → i < n → p i ≡ true → 0 < count_true p n
unfolding count_true
count_true_pos p zero i h t = elim h [ ]
count_true_pos p (suc n) i h t = elim (Bool-cases (n == i)) [
  | inl e ↦ ground arith
  | inr ne ↦ ground (arith, count_true_pos p n i (ground arith) t)
]

pub count_true_none : (p : ℕ → Bool) (n : ℕ) → ((j : ℕ) → j < n → p j ≡ false) → count_true p n ≡ 0
unfolding count_true
count_true_none p zero h = refl
count_true_none p (suc n) h =
    ground (arith, count_true_none p n (λ j b. h j (omega arith)), h n (omega arith))

-- A test that does not hold everywhere fails somewhere.
pub count_true_lt : (p : ℕ → Bool) (n : ℕ) → count_true p n < n → (k : ℕ) × (k < n) × (p k ≡ false)
unfolding count_true
count_true_lt p zero h = absurd (omega arith)
count_true_lt p (suc n) h = elim (Bool-cases (p n)) [
  | inl t ↦ let (k, lt, f) = count_true_lt p n (ground (arith, t, h)) in (k, omega arith, f)
  | inr f ↦ (n, omega arith, f)
]
