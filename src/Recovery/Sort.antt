-- ===== src/Recovery/Sort.antt =====
-- The insertion sort of the dependency list.
use optr_jasmine.Prelude.{
  ℕ, zero, suc, ◌+◌, ◌-◌, ◌≤◌, ◌<◌, ◌≡◌, ◌≢◌, inl, inr, refl, sym, subst, arith, true, ◌==◌, ltb,
  Bool-cases, for_range_inv, ◌∙◌,
}
use optr_jasmine.Recovery.{RecoveryEnt, swap_ents, sift, insertion_sort, check_sorted}
use optr_jasmine.Recovery.Pull.{IsSorted}

-- Neighbours in order up to `n`.
abbrev Ordered : (ℕ → RecoveryEnt) → ℕ → Type 0
Ordered a n = (k : ℕ) → k < n → (a k).lo ≤ (a (suc k)).lo

-- In order up to `n` but for the pair that ends at `j`, which may be the wrong way round.
record Gap (a : ℕ → RecoveryEnt) (n j : ℕ) : Type 0 where
  pairs : (k : ℕ) → k < n → suc k ≢ j → (a k).lo ≤ (a (suc k)).lo
  across : (k : ℕ) → suc k ≡ j → j < n → (a k).lo ≤ (a (suc j)).lo

swapped_low : (a : ℕ → RecoveryEnt) (j : ℕ) → swap_ents a j j ≡ a (suc j)
unfolding swap_ents
swapped_low a j = ground arith

swapped_high : (a : ℕ → RecoveryEnt) (j : ℕ) → swap_ents a j (suc j) ≡ a j
unfolding swap_ents
swapped_high a j = ground arith

swapped_else : (a : ℕ → RecoveryEnt) (j k : ℕ) → k ≢ j → k ≢ suc j → swap_ents a j k ≡ a k
unfolding swap_ents
swapped_else a j k p q = ground arith

Gap-swap :
    (a : ℕ → RecoveryEnt) (n j : ℕ)
    → suc j ≤ n
    → Gap a n (suc j)
    → (a (suc j)).lo < (a j).lo
    → Gap (swap_ents a j) n j
Gap-swap a n j b g less = record {
  pairs = λ k h ne. elim (Bool-cases (k == j)) [
    | inl e ↦
        let e' : k ≡ j = ground arith in rw (e', swapped_low a j, swapped_high a j) (omega arith)
    | inr away ↦ elim (Bool-cases (k == suc j)) [
      | inl e ↦
          let e' : k ≡ suc j = ground arith in
          let up = g.across j refl in
          rw (e', swapped_high a j, swapped_else a j (suc (suc j)) (omega arith) (omega arith))
            (g.across j refl (ground arith))
      | inr other ↦
          rw
            (
              swapped_else a j k (ground arith) (ground arith),
              swapped_else a j (suc k) (ground arith) (ground arith),
            )
            (g.pairs k h (ground arith))
    ]
  ];
  across = λ k e h.
      rw (swapped_high a j, swapped_else a j k (omega arith) (omega arith))
        (let e' : suc k ≡ j = e in
          subst (λ x. (a k).lo ≤ (a x).lo) e' (g.pairs k (omega arith) (omega arith)));
}

Gap-end :
    (a : ℕ → RecoveryEnt) (n j : ℕ) → Gap a n (suc j) → (a j).lo ≤ (a (suc j)).lo → Ordered a n
Gap-end a n j g h k b = elim (Bool-cases (k == j)) [
  | inl e ↦ let e' : k ≡ j = ground arith in rw e' h
  | inr other ↦ g.pairs k b (ground arith)
]

sift-Ordered : (j : ℕ) (a : ℕ → RecoveryEnt) (n : ℕ) → j ≤ n → Gap a n j → Ordered (sift j a) n
unfolding sift
sift-Ordered zero a n b g = λ k h. g.pairs k h (omega arith)
sift-Ordered (suc j) a n b g = elim (Bool-cases (ltb (a (suc j)).lo (a j).lo)) [
  | inl less ↦
      rw less (sift-Ordered j (swap_ents a j) n (omega arith) (Gap-swap a n j b g (ground arith)))
  | inr more ↦ rw more (Gap-end a n j g (ground arith))
]

-- One round of the outer loop: the first `i` are in order, and then the first `i + 1`.
round-Ordered :
    (i : ℕ) (a : ℕ → RecoveryEnt)
    → ((k : ℕ) → suc k < i → (a k).lo ≤ (a (suc k)).lo)
    → Ordered (sift i a) i
round-Ordered i a h =
    sift-Ordered i a i (omega arith)
      (record { pairs = λ k b ne. h k (omega arith); across = λ k e b. absurd (omega arith) })

sort-neighbours :
    (n : ℕ) (a : ℕ → RecoveryEnt) (k : ℕ)
    → suc k < n
    → (insertion_sort n a k).lo ≤ (insertion_sort n a (suc k)).lo
unfolding insertion_sort
sort-neighbours n a k h =
    for_range_inv (λ i b. (k : ℕ) → suc k < i → (b k).lo ≤ (b (suc k)).lo) (λ i b. sift i b) n
      (λ i b lt sorted k q. round-Ordered i b sorted k (omega arith)) (n - 1) 1 a (omega arith)
      (λ k q. absurd (omega arith)) k h

neighbours-IsSorted :
    (a : ℕ → RecoveryEnt) (n d i : ℕ)
    → ((k : ℕ) → suc k < n → (a k).lo ≤ (a (suc k)).lo)
    → i + d < n
    → (a i).lo ≤ (a (i + d)).lo
neighbours-IsSorted a n zero i h b = let e : i + 0 ≡ i = omega arith in rw e (omega arith)
neighbours-IsSorted a n (suc d) i h b =
    let e : i + suc d ≡ suc (i + d) = omega arith in
    rw e (omega (arith, neighbours-IsSorted a n d i h (omega arith), h (i + d) (omega arith)))

pub sort-IsSorted : (n : ℕ) (a : ℕ → RecoveryEnt) → IsSorted (insertion_sort n a) n
sort-IsSorted n a i j p q =
    let e : i + (j - i) ≡ j = omega arith in
    subst (λ x. (insertion_sort n a i).lo ≤ (insertion_sort n a x).lo) e
      (neighbours-IsSorted (insertion_sort n a) n (j - i) i (sort-neighbours n a) (omega arith))

pub check-neighbours :
    (n i : ℕ) (a : ℕ → RecoveryEnt)
    → ((k : ℕ) → i ≤ k → k < i + n → (a k).lo ≤ (a (suc k)).lo)
    → check_sorted n i a ≡ true
unfolding check_sorted
check-neighbours zero i a h = refl
check-neighbours (suc n) i a h =
    let e : i + 1 ≡ suc i = omega arith in
    let here = h i (omega arith) (omega arith) in
    let rest = check-neighbours n (suc i) a (λ k p q. h k (omega arith) (omega arith)) in
    rw e (ground (arith, here, rest))

-- The sort's own check passes.
pub sort-check_sorted :
    (n : ℕ) (a : ℕ → RecoveryEnt) → check_sorted (n - 1) 0 (insertion_sort n a) ≡ true
sort-check_sorted n a =
    check-neighbours (n - 1) 0 (insertion_sort n a) (λ k p q. sort-neighbours n a k (omega arith))

-- Every entry of one array up to `n` stands in the other, both ways.
pub record SameEnts (n : ℕ) (a b : ℕ → RecoveryEnt) : Type 0 where
  pub into : (i : ℕ) → i < n → (j : ℕ) × (j < n) × (b j ≡ a i)
  pub back : (i : ℕ) → i < n → (j : ℕ) × (j < n) × (a j ≡ b i)

same_refl : (n : ℕ) (a : ℕ → RecoveryEnt) → SameEnts n a a
same_refl n a = record { into = λ i h. (i, h, refl); back = λ i h. (i, h, refl) }

same_trans : (n : ℕ) (a b c : ℕ → RecoveryEnt) → SameEnts n a b → SameEnts n b c → SameEnts n a c
same_trans n a b c p q = record {
  into = λ i h. let (j, k, e) = p.into i h in let (j', k', e') = q.into j k in (j', k', e' ∙ e);
  back = λ i h. let (j, k, e) = q.back i h in let (j', k', e') = p.back j k in (j', k', e' ∙ e);
}

swap_finds :
    (n j : ℕ) (a : ℕ → RecoveryEnt) (i : ℕ)
    → suc j < n
    → i < n
    → (k : ℕ) × (k < n) × (swap_ents a j k ≡ a i) × (swap_ents a j i ≡ a k)
swap_finds n j a i b h = elim (Bool-cases (i == j)) [
  | inl e ↦
      let e' : i ≡ j = ground arith in (suc j, b, rw e' (swapped_high a j), rw e' (swapped_low a j))
  | inr away ↦ elim (Bool-cases (i == suc j)) [
    | inl e ↦
        let e' : i ≡ suc j = ground arith in
        (j, omega arith, rw e' (swapped_low a j), rw e' (swapped_high a j))
    | inr other ↦ let same = swapped_else a j i (ground arith) (ground arith) in (i, h, same, same)
  ]
]

swap-SameEnts : (n j : ℕ) (a : ℕ → RecoveryEnt) → suc j < n → SameEnts n a (swap_ents a j)
swap-SameEnts n j a b = record {
  into = λ i h. let (k, q, e, e') = swap_finds n j a i b h in (k, q, e);
  back = λ i h. let (k, q, e, e') = swap_finds n j a i b h in (k, q, sym e');
}

sift-SameEnts : (j n : ℕ) (a : ℕ → RecoveryEnt) → j < n → SameEnts n a (sift j a)
unfolding sift
sift-SameEnts zero n a b = same_refl n a
sift-SameEnts (suc j) n a b = elim (Bool-cases (ltb (a (suc j)).lo (a j).lo)) [
  | inl less ↦ rw less (
      same_trans n a (swap_ents a j) (sift j (swap_ents a j)) (swap-SameEnts n j a b)
        (sift-SameEnts j n (swap_ents a j) (omega arith)))
  | inr more ↦ rw more (same_refl n a)
]

-- The sort loses no dependency and adds none.
pub sort-SameEnts : (n : ℕ) (a : ℕ → RecoveryEnt) → SameEnts n a (insertion_sort n a)
unfolding insertion_sort
sort-SameEnts zero a = record {
  into = λ i h. absurd (omega arith);
  back = λ i h. absurd (omega arith);
}
sort-SameEnts (suc n) a =
    for_range_inv (λ i b. SameEnts (suc n) a b) (λ i b. sift i b) (suc n)
      (λ i b lt same. same_trans (suc n) a b (sift i b) same (sift-SameEnts i (suc n) b lt))
      (suc n - 1) 1 a (omega arith) (same_refl (suc n) a)
