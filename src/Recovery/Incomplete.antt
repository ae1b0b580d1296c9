-- ===== src/Recovery/Incomplete.antt =====
-- The first incomplete write, and the counts it is found from.
use optr_jasmine.Prelude.{
  ℕ, zero, suc, ◌+◌, ◌-◌, ◌≤◌, ◌<◌, ◌≡◌, ◌⊎◌, inl, inr, refl, sym, ◌∙◌, arith, true, false, ◌==◌,
  if◌then◌else◌, Bool-cases, List, [], ◌∷◌, length, All, sub32, add32,
}
use optr_jasmine.Recovery.{
  Recovery, RecoveryEnt, is_complete, scan_complete, find_first_incomplete_write, add_recovery_ent,
}

-- The scan from `idx` of `n` entries stops at `r`: all before it are complete, and it is not.
abbrev FirstHole : (ℕ → RecoveryEnt) → ℕ → ℕ → ℕ → Type 0
FirstHole ents idx n r =
    (idx ≤ r)
    × ((k : ℕ) → idx ≤ k → k < r → is_complete (ents k) ≡ true)
    × ((r ≡ idx + n) ⊎ ((r < idx + n) × (is_complete (ents r) ≡ false)))

hole_step :
    (ents : ℕ → RecoveryEnt) (idx n r : ℕ)
    → is_complete (ents idx) ≡ true
    → FirstHole ents (idx + 1) n r
    → FirstHole ents idx (suc n) r
hole_step ents idx n r c (low, before, stop) = (
  omega arith,
  λ k p q. elim (Bool-cases (k == idx)) [
    | inl e ↦ let e' : k ≡ idx = ground arith in rw e' c
    | inr ne ↦ before k (ground arith) q
  ],
  elim stop [ inl e ↦ inl (omega arith) | inr (b, h) ↦ inr (omega arith, h) ],
)

scan-FirstHole :
    (n : ℕ) (ents : ℕ → RecoveryEnt) (idx : ℕ) → FirstHole ents idx n (scan_complete n ents idx)
unfolding scan_complete
scan-FirstHole zero ents idx = (omega arith, λ k p q. absurd (omega arith), inl (omega arith))
scan-FirstHole (suc n) ents idx = elim (Bool-cases (is_complete (ents idx))) [
  | inl c ↦
      rw c
        (hole_step ents idx n (scan_complete n ents (idx + 1)) c (scan-FirstHole n ents (idx + 1)))
  | inr h ↦ rw h (omega arith, λ k p q. absurd (omega arith), inr (omega arith, h))
]

-- Between the last commit and the greatest epoch found, the first incomplete write is the first
-- epoch whose entry is not complete; it is the one after the greatest if all are complete.
pub first_incomplete_lem :
    (r : Recovery)
    → r.epoch_commit ≤ r.epoch_max
    → r.epoch_max + 1 < 4294967296
    → let e = (find_first_incomplete_write r).epoch_incomplete in
      (r.epoch_commit < e)
      × (e ≤ r.epoch_max + 1)
      × ((k : ℕ) → r.epoch_commit < k → k < e → is_complete (r.ents (k - r.epoch_commit)) ≡ true)
      × ((e ≡ r.epoch_max + 1) ⊎ (is_complete (r.ents (e - r.epoch_commit)) ≡ false))
unfolding find_first_incomplete_write
first_incomplete_lem r h b =
    let n = r.epoch_max - r.epoch_commit in
    let e : sub32 r.epoch_max r.epoch_commit ≡ n = omega arith in
    let i = scan_complete n r.ents 1 in
    let (low, before, stop) = scan-FirstHole n r.ents 1 in
    let top : i ≤ n + 1 = elim stop [ inl q ↦ omega arith | inr (q, _) ↦ omega arith ] in
    let wrap : add32 r.epoch_commit i ≡ r.epoch_commit + i = omega arith in
    let back : r.epoch_commit + i - r.epoch_commit ≡ i = omega arith in
    rw (e, wrap, back)
      (
        omega arith,
        omega arith,
        λ k p q. before (k - r.epoch_commit) (omega arith) (omega arith),
        elim stop [ inl q ↦ inl (omega arith) | inr (q, c) ↦ inr c ],
      )

-- The calls of `add_recovery_ent` for the pages found, each with its epoch and its span.
unfoldable pub collect : List (ℕ × ℕ) → Recovery → Recovery
unfolding add_recovery_ent
collect [] r = r
collect ((epoch, pg_span) ∷ found) r = collect found (add_recovery_ent epoch pg_span r)

-- How many of the pages are of the epoch.
unfoldable pub count_epoch : ℕ → List (ℕ × ℕ) → ℕ
count_epoch e [] = 0
count_epoch e ((epoch, _) ∷ found) = (if epoch == e then 1 else 0) + count_epoch e found

add-counts :
    (epoch pg_span e : ℕ) (r : Recovery)
    → r.epoch_commit < epoch
    → epoch < 4294967296
    → r.epoch_commit < e
    → (r.ents (e - r.epoch_commit)).hi + 1 < 4294967296
    → ((add_recovery_ent epoch pg_span r).ents (e - r.epoch_commit)).hi
      ≡ (r.ents (e - r.epoch_commit)).hi + (if epoch == e then 1 else 0)
unfolding add_recovery_ent
add-counts epoch pg_span e r p q h b =
    let idx : sub32 epoch r.epoch_commit ≡ epoch - r.epoch_commit = omega arith in
    rw idx (elim (Bool-cases (epoch == e)) [
      | inl same ↦ let same' : epoch ≡ e = ground arith in rw same' (ground arith)
      | inr other ↦ ground arith
    ])

add-commit :
    (epoch pg_span : ℕ) (r : Recovery)
    → (add_recovery_ent epoch pg_span r).epoch_commit ≡ r.epoch_commit
unfolding add_recovery_ent
add-commit epoch pg_span r = refl

-- The epochs of a page found, behind the last commit and in a word.
abbrev pub Behind : ℕ → ℕ × ℕ → Type 0
Behind commit (epoch, _) = (commit < epoch) × (epoch < 4294967296)

-- While no count can wrap, the count kept for an epoch behind the last commit grows by the number
-- of pages found that carry the epoch, whatever their order.
pub collect-count_epoch :
    (found : List (ℕ × ℕ)) (e commit : ℕ) (r : Recovery)
    → r.epoch_commit ≡ commit
    → All (Behind commit) found
    → commit < e
    → (r.ents (e - commit)).hi + length found < 4294967296
    → ((collect found r).ents (e - commit)).hi ≡ (r.ents (e - commit)).hi + count_epoch e found
unfolding collect count_epoch
collect-count_epoch [] e commit r c a h b = omega arith
collect-count_epoch ((epoch, pg_span) ∷ found) e commit r c ((p, q), a) h b =
    let c' : commit ≡ r.epoch_commit = sym c in
    let step : ((add_recovery_ent epoch pg_span r).ents (e - commit)).hi
        ≡ (r.ents (e - commit)).hi + (if epoch == e then 1 else 0) =
      rw c' (add-counts epoch pg_span e r (omega arith) q (omega arith) (rw c (omega arith))) in
    let small : (if epoch == e then 1 else 0) ≤ 1 = ground arith in
    collect-count_epoch found e commit (add_recovery_ent epoch pg_span r)
      (add-commit epoch pg_span r ∙ c) a h (omega arith)
    ∙ omega arith
