-- ===== src/Config.antt =====
-- The geometry of the device and the limits of the firmware, as the headers fix them for the build
-- of the simulator: vst/include/jasmine.h, vst/include/nand.h (K9LCG08U1M), ftl_optr/ftl.h.
use Prim.Native.Nat.{ℕ}

-- NUM_BANKS for BANK_BMP = 0x00FF00FF
abbrev pub num_banks : ℕ
num_banks = 16

abbrev pub pages_per_vblk : ℕ
pages_per_vblk = 128

-- _PBLKS_PER_BANK + SPARE_PBLKS_PER_BANK
abbrev pub vblks_per_bank : ℕ
vblks_per_bank = 4152

-- SECTORS_PER_PHYPAGE * CHN_WIDTH
abbrev pub sectors_per_page : ℕ
sectors_per_page = 32

abbrev pub num_regions : ℕ
num_regions = 2

abbrev pub num_log_blks_per_bank : ℕ
num_log_blks_per_bank = 2

abbrev pub num_mapents_per_page : ℕ
num_mapents_per_page = 1800

abbrev pub num_depents_per_page : ℕ
num_depents_per_page = 750

abbrev pub gc_threshold : ℕ
gc_threshold = 120

abbrev pub batch_gc_threshold : ℕ
batch_gc_threshold = 16

-- NUM_CACHE_BUFFERS / NUM_BANKS
abbrev pub num_cache_buffers_per_bank : ℕ
num_cache_buffers_per_bank = 32

abbrev pub vc_max : ℕ
vc_max = 0xCDCD

-- NUM_LPAGES
abbrev pub num_lpages : ℕ
num_lpages = 7801404

-- NUM_RD_BUFFERS, NUM_WR_BUFFERS: of the 1,421 pages of DRAM that nothing else takes
abbrev pub num_rd_buffers : ℕ
num_rd_buffers = 192

abbrev pub num_wr_buffers : ℕ
num_wr_buffers = 1229
