-- ===== src/Blkmgr/Loops.antt =====
-- Loops of the block manager that change each element of an array once.
use optr_jasmine.Prelude.{
  ℕ, zero, suc, ◌+◌, ◌≡◌, ◌&&◌, if◌then◌else◌, ltb, leb, update, for_range, arith,
}

pub for_range-update {ℓ} :
    {A : Type ℓ} (f : A → A) (n i : ℕ) (a : ℕ → A) (j : ℕ)
    → for_range n i (λ k b. update b k (f (b k))) a j
      ≡ (if leb i j && ltb j (i + n) then f (a j) else a j)
unfolding for_range
for_range-update f zero i a j = ground arith
for_range-update f (suc n) i a j =
    ground (arith, for_range-update f n (i + 1) (update a i (f (a i))) j)
