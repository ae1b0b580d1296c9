-- ===== src/Vst/Ram/Search.antt =====
-- What the searches in memory find.
use optr_jasmine.Prelude.{
  ℕ, zero, suc, ◌+◌, ◌-◌, ◌%◌, ◌≤◌, ◌<◌, ◌≡◌, inl, inr, refl, arith, true, false, ◌||◌, some, ltb,
  ◌==◌, Bool-cases, subst,
}
use optr_jasmine.Vst.Ram.{search_min, vst_mem_search_min}

-- The first place of the least value among the first `n`.
pub record IsFirstMin (vals : ℕ → ℕ) (n r : ℕ) : Type 0 where
  pub inside : r < n
  pub least : (j : ℕ) → j < n → vals r ≤ vals j
  pub first : (j : ℕ) → j < r → vals r < vals j

min_same :
    (vals : ℕ → ℕ) (i idx : ℕ)
    → IsFirstMin vals i idx
    → vals idx ≤ vals i
    → IsFirstMin vals (suc i) idx
min_same vals i idx h le = record {
  inside = omega (arith, h.inside);
  least = λ j b. elim (Bool-cases (j == i)) [
    | inl e ↦ let e' : j ≡ i = ground arith in rw e' le
    | inr ne ↦ h.least j (ground arith)
  ];
  first = h.first;
}

min_less :
    (vals : ℕ → ℕ) (i idx : ℕ)
    → IsFirstMin vals i idx
    → vals i < vals idx
    → IsFirstMin vals (suc i) i
min_less vals i idx h lt = record {
  inside = omega arith;
  least = λ j b. elim (Bool-cases (j == i)) [
    | inl e ↦ let e' : j ≡ i = ground arith in rw e' (omega arith)
    | inr ne ↦ omega (arith, h.least j (ground arith))
  ];
  first = λ j b. omega (arith, h.least j b);
}

-- A zero is the least whatever follows.
min_zero :
    (vals : ℕ → ℕ) (i n r : ℕ) → vals r ≡ 0 → i ≤ n → IsFirstMin vals i r → IsFirstMin vals n r
min_zero vals i n r z le h = record {
  inside = omega (arith, h.inside);
  least = λ j b. omega arith;
  first = h.first;
}

search_min-IsFirstMin :
    (n : ℕ) (vals : ℕ → ℕ) (i idx : ℕ)
    → IsFirstMin vals i idx
    → IsFirstMin vals (i + n) (search_min n vals i idx (vals idx))
unfolding search_min
search_min-IsFirstMin zero vals i idx h = let e : i + 0 ≡ i = omega arith in rw e h
search_min-IsFirstMin (suc n) vals i idx h =
    let e : i + suc n ≡ suc i + n = omega arith in
    let e' : i + 1 ≡ suc i = omega arith in
    rw (e, e')
      (elim (Bool-cases (ltb (vals i) (vals idx))) [
        | inl less ↦ elim (Bool-cases (vals i == 0)) [
          | inl z ↦
              rw (less, z)
                (min_zero vals (suc i) (suc i + n) i (ground arith) (omega arith)
                  (min_less vals i idx h (ground arith)))
          | inr nz ↦
              rw (less, nz)
                (search_min-IsFirstMin n vals (suc i) i (min_less vals i idx h (ground arith)))
        ]
        | inr more ↦
            rw more
              (search_min-IsFirstMin n vals (suc i) idx (min_same vals i idx h (ground arith)))
      ])

one-IsFirstMin : (vals : ℕ → ℕ) → IsFirstMin vals 1 0
one-IsFirstMin vals = record {
  inside = omega arith;
  least = λ j b. let e : j ≡ 0 = omega arith in rw e (omega arith);
  first = λ j b. absurd (omega arith);
}

-- On an aligned address, a unit of 1, 2 or 4 bytes and at least one value, the search of the
-- minimum gives the first place of the least value, although it stops at the first zero.
pub mem_search_min-IsFirstMin :
    (addr unit size : ℕ) (vals : ℕ → ℕ)
    → (unit == 1 || (unit == 2 || unit == 4)) ≡ true
    → addr % unit ≡ 0
    → 0 < size
    → (r : ℕ) × (vst_mem_search_min addr unit size vals ≡ some r) × IsFirstMin vals size r
unfolding vst_mem_search_min
mem_search_min-IsFirstMin addr unit size vals u a z =
    let nz : (size == 0) ≡ false = ground arith in
    let e : 1 + (size - 1) ≡ size = omega arith in
    elim (Bool-cases (vals 0 == 0)) [
      | inl zero_first ↦ (
        0,
        rw (u, a, nz, zero_first) refl,
        min_zero vals 1 size 0 (ground arith) (omega arith) (one-IsFirstMin vals),
      )
      | inr go ↦ (
        search_min (size - 1) vals 1 0 (vals 0),
        rw (u, a, nz, go) refl,
        subst (λ n. IsFirstMin vals n (search_min (size - 1) vals 1 0 (vals 0))) e
            (search_min-IsFirstMin (size - 1) vals 1 0 (one-IsFirstMin vals)),
      )
    ]
