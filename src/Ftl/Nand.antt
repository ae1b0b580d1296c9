-- ===== src/Ftl/Nand.antt =====
-- vst/port.c and the memory calls of vst/src/vram.c that the firmware uses on its page buffers: the
-- wrappers around the emulated flash, with the static spare area, and 32-bit cells of DRAM. The
-- pages of DRAM have their place in it from the start, so their `data` is never NULL.
use optr_jasmine.Prelude.{
  ℕ, ◌+◌, ◌%◌, Option, some, if◌then◌else◌, ltb, leb, ◌&&◌, ◌-◌, ◌>>=◌, update, ◌≡◌, ◌∙◌, arith,
  ◌==◌, inl, inr, Bool-cases,
}
use optr_jasmine.Config.{sectors_per_page, num_rd_buffers}
use optr_jasmine.Vst.Page.{VPage, or_else, untag_page}
use optr_jasmine.Vst.Flash.{vst_read_page, vst_write_page, vst_copyback_page, vst_erase_block}
use optr_jasmine.Ftl.{Ftl, rd_buf}

-- vst_read_dram_32
unfoldable pub read_cell : Ftl → ℕ → ℕ → ℕ
read_cell s page k = or_else (λ _. 0) (s.ram page).cells k

-- The page after `n` words of `vals` were written from the cell `k` on.
unfoldable pub poke : VPage → ℕ → ℕ → (ℕ → ℕ) → VPage
unfolding untag_page
poke pp k n vals = record (untag_page pp) {
  cells =
      some (λ i. if leb k i && ltb i (k + n) then vals (i - k) else or_else (λ _. 0) pp.cells i);
}

-- vst_write_dram_32 for one word, vst_memcpy into one page for more
unfoldable pub write_cells : ℕ → ℕ → ℕ → (ℕ → ℕ) → Ftl → Ftl
unfolding poke
write_cells page k n vals s = record s { ram = update s.ram page (poke (s.ram page) k n vals) }

abbrev pub write_cell : ℕ → ℕ → ℕ → Ftl → Ftl
write_cell page k val = write_cells page k 1 (λ _. val)

unfoldable pub nand_page_ptread : ℕ → ℕ → ℕ → ℕ → ℕ → ℕ → Ftl → Option Ftl
unfolding vst_read_page
nand_page_ptread bank vblock page sect n_sect buf s = do
  (pp, spare) ← vst_read_page s.flash bank vblock page sect n_sect (s.ram buf)
  some (record s { ram = update s.ram buf pp; spare = spare })

-- The spare area is not read: the wrapper passes NULL.
unfoldable pub nand_page_ptread_to_host : ℕ → ℕ → ℕ → ℕ → ℕ → Ftl → Option Ftl
unfolding vst_read_page
nand_page_ptread_to_host bank vblock page sect n_sect s = do
  let buf = rd_buf s.g_ftl_read_buf_id
  (pp, spare) ← vst_read_page s.flash bank vblock page sect n_sect (s.ram buf)
  some (record s {
    ram = update s.ram buf pp;
    g_ftl_read_buf_id = (s.g_ftl_read_buf_id + 1) % num_rd_buffers;
  })

-- nand_page_ptprogram and nand_page_ptprogram_sync
unfoldable pub nand_page_ptprogram : ℕ → ℕ → ℕ → ℕ → ℕ → ℕ → Ftl → Option Ftl
unfolding vst_write_page
nand_page_ptprogram bank vblock page sect n_sect buf s = do
  f ← vst_write_page s.flash bank vblock page sect n_sect (s.ram buf) s.spare
  some (record s { flash = f })

unfoldable pub nand_page_program : ℕ → ℕ → ℕ → ℕ → Ftl → Option Ftl
unfolding nand_page_ptprogram
nand_page_program bank vblock page buf s =
    nand_page_ptprogram bank vblock page 0 sectors_per_page buf s

unfoldable pub nand_page_copyback : ℕ → ℕ → ℕ → ℕ → ℕ → Ftl → Option Ftl
unfolding vst_copyback_page
nand_page_copyback bank src_vblock src_page dst_vblock dst_page s = do
  f ← vst_copyback_page s.flash bank src_vblock src_page dst_vblock dst_page s.spare
  some (record s { flash = f })

-- nand_block_erase and nand_block_erase_sync
unfoldable pub nand_block_erase : ℕ → ℕ → Ftl → Ftl
nand_block_erase bank vblock s = record s { flash = vst_erase_block s.flash bank vblock }

-- What a write of `n` words leaves in DRAM.
pub read_cell-write_cells :
    (page k n : ℕ) (vals : ℕ → ℕ) (s : Ftl) (page' k' : ℕ)
    → read_cell (write_cells page k n vals s) page' k' ≡ (
        if page' == page && (leb k k' && ltb k' (k + n))
        then vals (k' - k)
        else read_cell s page' k')
unfolding read_cell write_cells poke untag_page
read_cell-write_cells page k n vals s page' k' = elim (Bool-cases (page' == page)) [
  | inl e ↦ let e' : page' ≡ page = ground arith in rw e' (ground arith)
  | inr ne ↦ ground arith
]

pub read_cell-write_cell :
    (page k val : ℕ) (s : Ftl) (page' k' : ℕ)
    → read_cell (write_cell page k val s) page' k'
      ≡ (if page' == page && k' == k then val else read_cell s page' k')
read_cell-write_cell page k val s page' k' =
    read_cell-write_cells page k 1 (λ _. val) s page' k' ∙ ground arith
