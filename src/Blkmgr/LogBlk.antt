-- ===== src/Blkmgr/LogBlk.antt =====
-- The log blocks of a bank: the next one is the first good block behind the current one.
use optr_jasmine.Prelude.{
  ℕ, zero, suc, ◌+◌, ◌≤◌, ◌<◌, ◌≡◌, inl, inr, arith, refl, some, true, false, ◌==◌, leb, Bool-cases,
  le→leb, subst, sym, ==_iff, ==_refl, inc32, dec32,
}
use optr_jasmine.Config.{vblks_per_bank}
use optr_jasmine.Blkmgr.{Blkmgr, is_bad_block, skip_bad, get_log_blk, on_bank}

-- The first good block behind `from`, with every block between them bad.
pub record NextGood (m : Blkmgr) (bank from next : ℕ) : Type 0 where
  pub behind : from < next
  pub good : is_bad_block m bank next ≡ false
  pub between : (b : ℕ) → from < b → b < next → is_bad_block m bank b ≡ true

skip_bad-NextGood :
    (fuel : ℕ) (m : Blkmgr) (bank from good : ℕ)
    → from < good
    → good ≤ from + fuel
    → good < vblks_per_bank
    → is_bad_block m bank good ≡ false
    → (next : ℕ) × (skip_bad fuel m bank from ≡ some next) × NextGood m bank from next
unfolding skip_bad
skip_bad-NextGood zero m bank from good h f s g = absurd (omega arith)
skip_bad-NextGood (suc fuel) m bank from good h f s g =
    let e : inc32 from ≡ suc from = omega arith in
    rw e (elim (Bool-cases (is_bad_block m bank (suc from))) [
      | inl bad ↦
          let (n, r, v) =
            skip_bad-NextGood fuel m bank (suc from) good (ground arith) (omega arith) s g in
          (
            n,
            rw bad r,
            record {
              behind = omega (arith, v.behind);
              good = v.good;
              between = λ b p q. elim (Bool-cases (b == suc from)) [
                | inl same ↦
                    subst (λ x. is_bad_block m bank x ≡ true) (sym ((==_iff b (suc from)).0 same))
                      bad
                | inr other ↦ v.between b (ground arith) q
              ];
            },
          )
      | inr ok ↦ (
        suc from,
        rw ok,
        record { behind = omega arith; good = ok; between = λ b p q. absurd (omega arith) },
      )
    ])

-- While the current log block is not past the last one and a good block stands behind it, the call
-- returns the current block and counts it, and the new current block is the first good one behind
-- it. Its loop stops.
pub log_blk-NextGood :
    (m : Blkmgr) (bank good : ℕ)
    → (m.banks bank).blk_log ≤ (m.banks bank).blk_log_last
    → (m.banks bank).blk_log < good
    → good < vblks_per_bank
    → is_bad_block m bank good ≡ false
    → (m' : Blkmgr) × (get_log_blk m bank ≡ some ((m.banks bank).blk_log, m'))
      × NextGood m bank (m.banks bank).blk_log (m'.banks bank).blk_log
      × (m'.log_blk_cnt ≡ dec32 m.log_blk_cnt)
      × ((m'.banks bank).blk_log_first ≡ (m.banks bank).blk_log_first)
      × ((m'.banks bank).blk_log_last ≡ (m.banks bank).blk_log_last)
unfolding get_log_blk on_bank
log_blk-NextGood m bank good h b s g =
    let from = (m.banks bank).blk_log in
    let (n, r, v) = skip_bad-NextGood vblks_per_bank m bank from good b (omega arith) s g in
    let ok : leb from (m.banks bank).blk_log_last ≡ true = le→leb from _ h in
    (
      on_bank bank (λ c. record c { blk_log = n }) (record m { log_blk_cnt = dec32 m.log_blk_cnt }),
      rw (ok, r),
      rw ==_refl v,
      refl,
      rw ==_refl,
      rw ==_refl,
    )
