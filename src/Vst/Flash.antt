-- ===== src/Vst/Flash.antt =====
-- vst/src/vflash.c and checker.c: the emulated flash. A call whose assert or check fails stops the
-- program. The log lines, the operation counters of stat.c and the forks of `simulate_crash` are
-- left out; `n_write_erase_ops` counts what would trigger a crash.
pub mod Access
pub mod Once
pub mod Stands
mod Tests
use optr_jasmine.Prelude.{
  ℕ, ◌+◌, ◌-◌, ◌<◌, Bool, true, false, not, ◌&&◌, Option, none, some, if◌then◌else◌, ltb, ◌==◌,
  minus_one, assert, ◌>>◌, ◌>>=◌,
}
use optr_jasmine.Config.{num_banks, pages_per_vblk, vblks_per_bank, sectors_per_page}
use optr_jasmine.Vst.Page.{VPage, or_else, vpage_init, vpage_copy, vpage_free}

-- The twelve bytes of a spare area that the firmware uses.
pub record Spare : Type 0 where
  pub lpn : ℕ
  pub pg_span : ℕ
  pub epoch : ℕ

-- memset(spare, 0xff, SPARE_SIZE)
abbrev pub blank_spare : Spare
blank_spare = record { lpn = minus_one; pg_span = 65535; epoch = minus_one }

-- `flash_page_t`
pub record FlashPage : Type 0 where
  pub is_erased : Bool
  pub vpage : VPage
  pub spare : Spare

-- `flash_t` with the counter beside it, and what `malloc` returns
pub record Flash : Type 0 where
  pub pages : ℕ → ℕ → ℕ → FlashPage
  pub n_write_erase_ops : ℕ
  pub junk : ℕ → ℕ

-- ENABLE_CHK_NON_SEQ_WRITE, ENABLE_CHK_OVERWRITE
abbrev enable_chk_non_seq_write : Bool
enable_chk_non_seq_write = false

abbrev enable_chk_overwrite : Bool
enable_chk_overwrite = true

chk_non_seq_write : Flash → ℕ → ℕ → ℕ → Option (Unit {0})
chk_non_seq_write f bank blk page =
    if not enable_chk_non_seq_write
    then some tt
    else if page == 0
    then some tt
    else if (f.pages bank blk (page - 1)).is_erased
    then none
    else some tt

chk_overwrite : Flash → ℕ → ℕ → ℕ → Option (Unit {0})
chk_overwrite f bank blk page =
    if not enable_chk_overwrite
    then some tt
    else if not (f.pages bank blk page).is_erased
    then none
    else some tt

abbrev pub in_geometry : ℕ → ℕ → ℕ → Bool
in_geometry bank blk page =
    ltb bank num_banks && (ltb blk vblks_per_bank && ltb page pages_per_vblk)

-- `get_page(bank, blk, page) = v`
abbrev pub set_page : (ℕ → ℕ → ℕ → FlashPage) → ℕ → ℕ → ℕ → FlashPage → ℕ → ℕ → ℕ → FlashPage
set_page pages bank blk page v b k p =
    if b == bank && (k == blk && p == page) then v else pages b k p

-- The page that the DRAM address maps to is `dst`; it comes back with the spare area.
unfoldable pub vst_read_page : Flash → ℕ → ℕ → ℕ → ℕ → ℕ → VPage → Option (VPage × Spare)
vst_read_page f bank blk page sect n_sect dst = do
  assert (in_geometry bank blk page)
  dst' ← vpage_copy f.junk dst (f.pages bank blk page).vpage sect n_sect
  some (dst', (f.pages bank blk page).spare)

unfoldable pub vst_write_page : Flash → ℕ → ℕ → ℕ → ℕ → ℕ → VPage → Spare → Option Flash
unfolding chk_non_seq_write chk_overwrite
vst_write_page f bank blk page sect n_sect src spare = do
  assert (in_geometry bank blk page)
  chk_non_seq_write f bank blk page
  chk_overwrite f bank blk page
  v ← vpage_copy f.junk (f.pages bank blk page).vpage src sect n_sect
  some (record f {
    pages = set_page f.pages bank blk page (record { is_erased = false; vpage = v; spare = spare });
    n_write_erase_ops = f.n_write_erase_ops + 1;
  })

-- The source page as the copy reads it: where it is the target too, its NULL data is allocated
-- before it is read.
unfoldable pub copyback_src : (ℕ → ℕ) → Bool → VPage → VPage
copyback_src junk same src =
    if same && not src.tagged then record src { cells = some (or_else junk src.cells) } else src

unfoldable pub vst_copyback_page : Flash → ℕ → ℕ → ℕ → ℕ → ℕ → Spare → Option Flash
unfolding chk_overwrite copyback_src
vst_copyback_page f bank blk_src page_src blk_dst page_dst spare = do
  assert (in_geometry bank blk_src page_src)
  assert (in_geometry bank blk_dst page_dst)
  chk_overwrite f bank blk_dst page_dst
  let same = blk_src == blk_dst && page_src == page_dst
  v ←
      vpage_copy f.junk (f.pages bank blk_dst page_dst).vpage
        (copyback_src f.junk same (f.pages bank blk_src page_src).vpage) 0 sectors_per_page
  some (record f {
    pages =
        set_page f.pages bank blk_dst page_dst
          (record { is_erased = false; vpage = v; spare = spare });
    n_write_erase_ops = f.n_write_erase_ops + 1;
  })

erase_page : FlashPage → FlashPage
unfolding vpage_free
erase_page pp = record { is_erased = true; vpage = vpage_free pp.vpage; spare = blank_spare }

-- The loop erases each page of the block.
unfoldable pub vst_erase_block : Flash → ℕ → ℕ → Flash
unfolding erase_page
vst_erase_block f bank blk = record f {
  pages = λ b k p.
      if b == bank && (k == blk && ltb p pages_per_vblk)
      then erase_page (f.pages b k p)
      else f.pages b k p;
  n_write_erase_ops = f.n_write_erase_ops + 1;
}

-- After `calloc` a page holds zeroes; `open_flash` then erases it.
abbrev calloc_page : VPage
calloc_page = record { tagged = false; cells = none; sects = λ _. record { lba = 0; ver = 0 } }

unfoldable pub open_flash : (ℕ → ℕ) → Flash
unfolding vpage_init
open_flash junk = record {
  pages = λ b k p. record {
    is_erased = true;
    vpage = vpage_init calloc_page none;
    spare = blank_spare;
  };
  n_write_erase_ops = 0;
  junk = junk;
}
