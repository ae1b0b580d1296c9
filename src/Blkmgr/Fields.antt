-- ===== src/Blkmgr/Fields.antt =====
-- What a change of one bank, or of one block list, leaves alone.
use optr_jasmine.Prelude.{
  ℕ, ◌≡◌, refl, ◌∙◌, sym, subst, ◌==◌, ap, Bool-cases, inl, inr, ==_iff, arith, update_self,
  update_ne, ◌≢◌,
}
use optr_jasmine.Blkmgr.{Blkmgr, BankBlks, BlkList, blk_list, on_bank, on_list}

pub banks-on_bank :
    (bank : ℕ) (f : BankBlks → BankBlks) (m : Blkmgr)
    → (on_bank bank f m).banks bank ≡ f (m.banks bank)
unfolding on_bank
banks-on_bank bank f m = update_self m.banks bank (f (m.banks bank))

pub banks-on_bank_ne :
    (bank : ℕ) (f : BankBlks → BankBlks) (m : Blkmgr) (b : ℕ)
    → b ≢ bank
    → (on_bank bank f m).banks b ≡ m.banks b
unfolding on_bank
banks-on_bank_ne bank f m b h = update_ne m.banks bank b (f (m.banks bank)) h

pub blk_list-on_bank :
    (bank : ℕ) (f : BankBlks → BankBlks) (m : Blkmgr) (b region : ℕ)
    → (f (m.banks bank)).blk_lists ≡ (m.banks bank).blk_lists
    → blk_list (on_bank bank f m) b region ≡ blk_list m b region
blk_list-on_bank bank f m b region h = elim (Bool-cases (b == bank)) [
  | inl same ↦
      subst (λ x. blk_list (on_bank bank f m) x region ≡ blk_list m x region)
        (sym ((==_iff b bank).0 same))
        (ap (λ (c : BankBlks). c.blk_lists region) (banks-on_bank bank f m)
          ∙ ap (λ (l : ℕ → BlkList). l region) h)
  | inr other ↦
      ap (λ (c : BankBlks). c.blk_lists region) (banks-on_bank_ne bank f m b (ground arith))
]

pub blk_list-on_list :
    (bank region : ℕ) (f : BlkList → BlkList) (m : Blkmgr)
    → blk_list (on_list bank region f m) bank region ≡ f (blk_list m bank region)
unfolding on_list
blk_list-on_list bank region f m =
    ap (λ (b : BankBlks). b.blk_lists region) (update_self m.banks bank _)
    ∙ update_self (m.banks bank).blk_lists region _

pub blk_ids-on_list :
    (bank region : ℕ) (f : BlkList → BlkList) (m : Blkmgr) (i : ℕ)
    → (on_list bank region f m).blk_ids i ≡ m.blk_ids i
unfolding on_list
blk_ids-on_list bank region f m i = refl

pub blk_ids-on_bank :
    (bank : ℕ) (f : BankBlks → BankBlks) (m : Blkmgr) (i : ℕ)
    → (on_bank bank f m).blk_ids i ≡ m.blk_ids i
unfolding on_bank
blk_ids-on_bank bank f m i = refl

pub ruleset fields = (blk_list-on_list, blk_ids-on_list, blk_ids-on_bank)
