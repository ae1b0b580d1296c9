-- ===== src/Ftl/Store/Copy.antt =====
-- vst/src/vram.c: what `vst_memcpy` makes of a page buffer, when it copies sectors of one page
-- buffer to the same place in another.
use optr_jasmine.Prelude.{ℕ, ◌*◌, ◌≡◌, arith, true, false, ◌==◌}
use optr_jasmine.Vst.Page.{VPage, in_range, or_else, cells_per_sector, tag_page, untag_page}
use optr_jasmine.Ftl.{Ftl}
use optr_jasmine.Ftl.Dequeue.{mem_copy_sects}

-- `r` is the page `dst` with sectors [sect, sect + n) from `src`: the same kind of page as `src`,
-- with its sectors or its cells there, and what `dst` held of host data elsewhere.
pub record Copied (src dst r : VPage) (sect n : ℕ) : Type 0 where
  pub kind : r.tagged ≡ src.tagged
  pub host : src.tagged ≡ true → (i : ℕ) → in_range sect n i ≡ true → r.sects i ≡ src.sects i
  pub meta :
      src.tagged ≡ false
      → (i : ℕ) → in_range (sect * cells_per_sector) (n * cells_per_sector) i ≡ true
      → or_else (λ _. 0) r.cells i ≡ or_else (λ _. 0) src.cells i
  pub kept :
      src.tagged ≡ true
      → dst.tagged ≡ true
      → (i : ℕ) → in_range sect n i ≡ false
      → r.sects i ≡ dst.sects i

pub mem_copy_sects-Copied :
    (dst src sect n : ℕ) (s : Ftl)
    → Copied (s.ram src) (s.ram dst) ((mem_copy_sects dst src sect n s).ram dst) sect n
unfolding mem_copy_sects tag_page untag_page
mem_copy_sects-Copied dst src sect n s = record {
  kind = ground arith;
  host = λ t i h. ground arith;
  meta = λ t i h. ground arith;
  kept = λ t d i h. ground arith;
}

pub mem_copy_sects-other :
    (dst src sect n : ℕ) (s : Ftl) (page : ℕ)
    → (page == dst) ≡ false
    → (s.ram src).tagged ≡ true
    → (s.ram page).tagged ≡ true
    → (mem_copy_sects dst src sect n s).ram page ≡ s.ram page
unfolding mem_copy_sects tag_page untag_page
mem_copy_sects-other dst src sect n s page ne t h = ground arith
