-- ===== src/Prelude/Arrays.antt =====
-- C arrays and DRAM regions as functions of the index.
use Prim.Native.Nat.{ℕ, zero, suc, ◌+◌, ◌<◌}
use mathlib.Core.Path.{◌≡◌, refl, subst}
use mathlib.Core.Logic.{◌≢◌}
use mathlib.Core.List.{List, [], ◌∷◌}
use native.Mathlib.Omega.{arith}
use mathlib.Core.Option.{Option, some}
use optr_jasmine.Prelude.Maybe.{◌>>=◌}
use optr_jasmine.Prelude.Tests.{◌==◌, if◌then◌else◌}

-- `a[i] = v`.
abbrev pub update {ℓ} : {A : Type ℓ} → (ℕ → A) → ℕ → A → ℕ → A
update a i v j = if j == i then v else a j

pub update_self {ℓ} : {A : Type ℓ} (a : ℕ → A) (i : ℕ) (v : A) → update a i v i ≡ v
update_self a i v = ground arith

pub update_ne {ℓ} : {A : Type ℓ} (a : ℕ → A) (i j : ℕ) (v : A) → j ≢ i → update a i v j ≡ a j
update_ne a i j v h = ground arith

-- A C loop over `rounds` indices from `k` on, each with one step on the state.
unfoldable pub for_range {ℓ} : {St : Type ℓ} → ℕ → ℕ → (ℕ → St → St) → St → St
for_range (suc rounds) k step x = for_range rounds (k + 1) step (step k x)
for_range zero k step x = x

-- A property of index and state that each step below `last` hands on holds at the loop's end.
pub for_range_inv {ℓ κ} :
    {St : Type ℓ} (Inv : ℕ → St → Type κ) (step : ℕ → St → St) (last : ℕ)
    → ((k : ℕ) (x : St) → k < last → Inv k x → Inv (k + 1) (step k x))
    → (rounds first : ℕ) (x : St) → first + rounds ≡ last
    → Inv first x
    → Inv last (for_range rounds first step x)
unfolding for_range
for_range_inv Inv step last hand_on (suc rounds) first x sum start =
    let next = hand_on first x (omega arith) start in
    for_range_inv Inv step last hand_on rounds (first + 1) (step first x) (omega arith) next
for_range_inv Inv step last hand_on zero first x sum start =
    let same : first ≡ last = omega arith in subst (λ k. Inv k x) same start

-- The same loop where a round may stop the program.
unfoldable pub for_try {ℓ} : {S : Type ℓ} → ℕ → ℕ → (ℕ → S → Option S) → S → Option S
for_try zero i body s = some s
for_try (suc n) i body s = body i s >>= λ s'. for_try n (i + 1) body s'

-- The elements of an array from index `i` on.
unfoldable pub slice {ℓ} : {A : Type ℓ} → (ℕ → A) → ℕ → ℕ → List A
slice a i zero = []
slice a i (suc n) = a i ∷ slice a (i + 1) n

-- A loop whose every round succeeds and hands the property on succeeds, and has it at its end.
pub for_try_inv {ℓ κ} :
    {S : Type ℓ} (Inv : ℕ → S → Type κ) (body : ℕ → S → Option S) (last : ℕ)
    → ((k : ℕ) (x : S) → k < last → Inv k x → (y : S) × (body k x ≡ some y) × Inv (k + 1) y)
    → (n first : ℕ) (x : S) → first + n ≡ last
    → Inv first x
    → (y : S) × (for_try n first body x ≡ some y) × Inv last y
unfolding for_try
for_try_inv Inv body last hand_on (suc n) first x sum start =
    let (y, e, next) = hand_on first x (omega arith) start in
    let (z, e', end) = for_try_inv Inv body last hand_on n (first + 1) y (omega arith) next in
    (z, rw e e', end)
for_try_inv Inv body last hand_on zero first x sum start =
    let same : first ≡ last = omega arith in (x, refl, subst (λ k. Inv k x) same start)
