-- ===== src/Vst/Flash/Tests.antt =====
-- The emulated flash on a device that holds nothing.
use optr_jasmine.Prelude.{
  ℕ, ◌≡◌, refl, true, false, List, [], ◌∷◌, All, Option, none, some, is_some, leb, ◌==◌, ◌&&◌, ◌+◌,
}
use optr_jasmine.Vst.Page.{VPage, vpage_copy}
use optr_jasmine.Vst.Flash.{
  Flash, blank_spare, open_flash, vst_write_page, vst_read_page, vst_erase_block, vst_copyback_page,
}
use optr_jasmine.Vst.Flash.Access.{Agrees, read-write, read-copyback}
use optr_jasmine.Vst.Flash.Once.{copyback, erase, FlashOp, run_ops, spares_blk, write_once}
use optr_jasmine.TestData.{test_flash, test_page}

-- The flash after a write of two sectors.
abbrev test_written : Option Flash
test_written = vst_write_page test_flash 1 20 3 0 2 test_page blank_spare

get_flash : Option Flash → Flash
get_flash none = test_flash
get_flash (some f) = f

test_write : test_written ≡ some (get_flash test_written)
unfolding vst_write_page vpage_copy open_flash get_flash
test_write = refl

read-write_example :
    (r : VPage) × (vst_read_page (get_flash test_written) 1 20 3 0 2 test_page
      ≡ some (r, blank_spare))
    × Agrees test_page r 0 2
read-write_example = read-write test_flash 1 20 3 0 2 test_page test_page blank_spare test_write

-- The page that was written, copied to block 21.
abbrev test_copied : Option Flash
test_copied = vst_copyback_page (get_flash test_written) 1 20 3 21 0 blank_spare

test_copy : test_copied ≡ some (get_flash test_copied)
unfolding vst_write_page vst_copyback_page vpage_copy open_flash get_flash
test_copy = refl

read-copyback_example :
    (r : VPage) × (vst_read_page (get_flash test_copied) 1 21 0 0 32 test_page
      ≡ some (r, blank_spare))
    × Agrees ((get_flash test_written).pages 1 20 3).vpage r 0 32
read-copyback_example =
    read-copyback (get_flash test_written) 1 20 3 21 0 test_page blank_spare refl test_copy

-- After the write, the copy, and the erasure of the block it went to.
abbrev test_ops : List FlashOp
test_ops = copyback 1 20 3 21 0 blank_spare ∷ erase 1 21 ∷ []

test_ran :
    run_ops test_ops (get_flash test_written)
    ≡ some (get_flash (run_ops test_ops (get_flash test_written)))
unfolding run_ops vst_copyback_page vst_write_page vpage_copy open_flash get_flash
test_ran = refl

test_spared : All (λ op. spares_blk 1 20 op ≡ true) test_ops
unfolding spares_blk
test_spared = (refl, (refl, tt))

write_once_example :
    let f' = get_flash test_written in
    let f'' = get_flash (run_ops test_ops f') in
    ((b k p : ℕ)
      → (b == 1 && (k == 20 && p == 3)) ≡ false
      → f'.pages b k p ≡ test_flash.pages b k p)
    × (f''.pages 1 20 3 ≡ f'.pages 1 20 3)
    × (vst_write_page f'' 1 20 3 0 1 test_page blank_spare ≡ none)
    × (vst_copyback_page f'' 1 22 0 20 3 blank_spare ≡ none)
    × (is_some (vst_write_page (vst_erase_block f'' 1 20) 1 20 3 0 1 test_page blank_spare)
        ≡ leb (0 + 1) 32)
    × ((b k p : ℕ)
        → (b == 1 && k == 20) ≡ false
        → (vst_erase_block f'' 1 20).pages b k p ≡ f''.pages b k p)
write_once_example =
    write_once test_flash 1 20 3 0 2 test_page blank_spare test_ops 0 1 test_page blank_spare 22 0
      test_write test_spared test_ran
