-- ===== src/Ftl/Commit/Erase.antt =====
-- ftl_optr/pgmap.c: `blkmgr_erase_cur_map_blk`, which erases the map block of each bank.
use optr_jasmine.Prelude.{
  ℕ, ◌+◌, ◌<◌, ◌≡◌, refl, ap, inl, inr, arith, false, ◌==◌, Bool-cases, for_range_inv, none,
}
use optr_jasmine.Config.{num_banks, pages_per_vblk}
use optr_jasmine.Blkmgr.{blkmgr_get_map_blk}
use optr_jasmine.Vst.Page.{vpage_free}
use optr_jasmine.Vst.Flash.{Flash, vst_erase_block}
use optr_jasmine.Ftl.{Ftl}
use optr_jasmine.Ftl.Nand.{nand_block_erase}
use optr_jasmine.Ftl.Commit.{blkmgr_erase_cur_map_blk}

-- The blocks `blk` of the first `i` banks are erased, and no other block has changed.
pub record Cleared (f : Flash) (blk : ℕ → ℕ) (i : ℕ) (f' : Flash) : Type 0 where
  pub elsewhere : (b k p : ℕ) → (k == blk b) ≡ false → f'.pages b k p ≡ f.pages b k p
  pub empty :
      (b p : ℕ)
      → b < i
      → p < pages_per_vblk
      → ((f'.pages b (blk b) p).vpage.tagged ≡ false) × ((f'.pages b (blk b) p).vpage.cells ≡ none)

erase-Cleared :
    (f : Flash) (blk : ℕ → ℕ) (i : ℕ) (g : Flash)
    → Cleared f blk i g
    → Cleared f blk (i + 1) (vst_erase_block g i (blk i))
unfolding vst_erase_block vpage_free
erase-Cleared f blk i g v = record {
  elsewhere = λ b k p ne.
      let old = v.elsewhere b k p ne in
      elim (Bool-cases (b == i)) [
        | inl e ↦ let eq : b ≡ i = ground arith in ground (arith, old, ne, ap blk eq)
        | inr other ↦ ground (arith, old, other)
      ];
  empty = λ b p lt p_lt. elim (Bool-cases (b == i)) [
    | inl e ↦ let eq : b ≡ i = ground arith in rw eq (ground arith)
    | inr other ↦ let old = v.empty b p (ground arith) p_lt in ground (arith, other, old)
  ];
}

-- The loop over the banks.
pub erase_cur_map_blk-Cleared :
    (s : Ftl)
    → (f : Flash) × (blkmgr_erase_cur_map_blk s ≡ record s { flash = f })
      × Cleared s.flash (blkmgr_get_map_blk s.blkmgr) num_banks f
unfolding blkmgr_erase_cur_map_blk nand_block_erase
erase_cur_map_blk-Cleared s =
    for_range_inv
      (λ i (t : Ftl).
        (f : Flash) × (t ≡ record s { flash = f })
        × Cleared s.flash (blkmgr_get_map_blk s.blkmgr) i f)
      (λ bank t. nand_block_erase bank (blkmgr_get_map_blk t.blkmgr bank) t) num_banks
      (λ i t lt (f, kept, v). (
        vst_erase_block f i (blkmgr_get_map_blk s.blkmgr i),
        ap (λ (x : Ftl). nand_block_erase i (blkmgr_get_map_blk x.blkmgr i) x) kept,
        erase-Cleared s.flash (blkmgr_get_map_blk s.blkmgr) i f v,
      ))
      num_banks 0 s (omega arith)
      (
        s.flash,
        refl,
        record { elsewhere = λ b k p ne. refl; empty = λ b p lt p_lt. absurd (omega arith) },
      )
