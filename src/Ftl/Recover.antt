-- ===== src/Ftl/Recover.antt =====
-- ftl_optr/recovery.c: the walks over the log and the open blocks that rebuild the page map after a
-- crash. RECOVERY_PAGE_EPOCH, a word for each logical page, lies over the DRAM from its first page on:
-- over the host's buffers, FTL_BUF, HIL_BUF and TEMP_BUF, which are pages of `ram`, and then over the
-- words of RECOVERY, which are `ents`.
pub mod Epochs
pub mod Newest
pub mod Replay
use optr_jasmine.Prelude.{
  ℕ, zero, suc, ◌+◌, ◌-◌, ◌*◌, ◌/◌, ◌%◌, Bool, true, false, not, ◌&&◌, ◌||◌, Option, none, some,
  if◌then◌else◌, ltb, leb, ◌==◌, assert, ◌>>◌, ◌>>=◌, for_range, for_try, update, minus_one,
  minus_two, inc32, u16,
}
use optr_jasmine.Config.{
  num_banks, num_regions, pages_per_vblk, sectors_per_page, vblks_per_bank, num_lpages,
}
use optr_jasmine.Vst.Page.{untag_page}
use optr_jasmine.Pgmap.{set_ppn}
use optr_jasmine.Recovery.{
  Recovery, add_recovery_ent, add_depent, find_first_incomplete_write, pull_sorted,
}
use optr_jasmine.Ftl.{Ftl, on_pgmap, ftl_buf, cache_buf}
use optr_jasmine.Ftl.Nand.{read_cell, poke, write_cells, write_cell, nand_page_ptread}
use optr_jasmine.Ftl.Pages.{get_log_ppn, revert_log_ppn}

pub record Recovering : Type 0 where
  pub ftl : Ftl
  pub recovery : Recovery
  -- the local variable of `retrieve_page_entries`, which nothing initialises
  pub epoch_prev : ℕ

abbrev pub cells_per_page : ℕ
cells_per_page = 4096

-- The page of RECOVERY_ADDR, and the first logical page whose word lies there.
abbrev pub recovery_page : ℕ
recovery_page = cache_buf 0 0

abbrev pub recovery_lpn : ℕ
recovery_lpn = recovery_page * cells_per_page

-- The words, and the entries of RECOVERY, that RECOVERY_PAGE_EPOCH_BYTES covers.
abbrev epoch_words : ℕ
epoch_words = (num_lpages * 4 + 511) / 512 * 128

abbrev covered_ents : ℕ
covered_ents = (epoch_words - recovery_lpn) / 2

-- mem_set_dram, which also untags the pages.
unfoldable pub init_recovery : Recovering → Recovering
unfolding poke
init_recovery r = record r {
  ftl = record r.ftl {
    ram = λ page.
        if leb page (epoch_words / cells_per_page)
        then poke (r.ftl.ram page) 0 (epoch_words - page * cells_per_page) (λ _. 0)
        else r.ftl.ram page;
  };
  recovery = record r.recovery {
    ents = λ i. if ltb i covered_ents then record { lo = 0; hi = 0 } else r.recovery.ents i;
  };
}

-- The word RECOVERY_PAGE_EPOCH(lpn).
unfoldable pub page_epoch : ℕ → Recovering → ℕ
unfolding read_cell
page_epoch lpn r =
    let word = lpn - recovery_lpn in
    let ent = r.recovery.ents (word / 2) in
    if ltb (lpn / cells_per_page) recovery_page
    then read_cell r.ftl (lpn / cells_per_page) (lpn % cells_per_page)
    else if word % 2 == 0
    then ent.lo
    else ent.hi

-- mem_copy(&epoch_prev, RECOVERY_PAGE_EPOCH(lpn), ...): from a page that is tagged as host data
-- nothing is copied.
unfoldable pub load_epoch : ℕ → Recovering → Recovering
unfolding page_epoch
load_epoch lpn r =
    let page = lpn / cells_per_page in
    if ltb page recovery_page && (r.ftl.ram page).tagged
    then r
    else record r { epoch_prev = page_epoch lpn r }

-- mem_copy(RECOVERY_PAGE_EPOCH(lpn), &epoch, ...): the last word of a page untags the page behind it
-- too.
unfoldable pub store_epoch : ℕ → ℕ → Recovering → Recovering
unfolding write_cells untag_page
store_epoch lpn epoch r =
    let page = lpn / cells_per_page in
    let behind = (lpn + 1) / cells_per_page in
    let s = record r.ftl { ram = update r.ftl.ram behind (untag_page (r.ftl.ram behind)) } in
    let word = lpn - recovery_lpn in
    let ent = r.recovery.ents (word / 2) in
    let ent' = if word % 2 == 0 then record ent { lo = epoch } else record ent { hi = epoch } in
    if ltb page recovery_page
    then record r { ftl = write_cell page (lpn % cells_per_page) epoch s }
    else record r {
      ftl = s;
      recovery = record r.recovery { ents = update r.recovery.ents (word / 2) ent' };
    }

-- RECOVERY_COMMIT, RECOVERY_MAPENT, RECOVERY_DEPENT, and 0 for any other page
pub data LogPage : Type 0 where
  commit : LogPage
  mapent : LogPage
  depent : LogPage
  unknown : LogPage

unfoldable pub page_type : ℕ → LogPage
page_type magic =
    if magic == 100
    then commit
    else if magic == 200
    then mapent
    else if magic == 300
    then depent
    else unknown

-- The next log page of the bank is taken and read; it stays in FTL_BUF(bank).
unfoldable pub next_log_page : ℕ → Ftl → Option (LogPage × Ftl)
unfolding get_log_ppn nand_page_ptread read_cell page_type
next_log_page bank s = do
  (ppn, s1) ← get_log_ppn bank s
  s2 ←
      nand_page_ptread bank (ppn / pages_per_vblk) (ppn % pages_per_vblk) 0 sectors_per_page
        (ftl_buf bank) s1
  some (page_type (read_cell s2 (ftl_buf bank) 0), s2)

unfoldable pub process_commit : ℕ → Recovering → Recovering
unfolding read_cell
process_commit bank r =
    let cell = read_cell r.ftl (ftl_buf bank) in
    record r {
      recovery = record r.recovery {
        epoch_commit = cell 1;
        active_ppns = λ b region. cell (2 + (b * num_regions + region));
        epoch_max = cell 1;
        epoch_incomplete = inc32 (cell 1);
      };
    }

unfoldable pub reach_last_commit : ℕ → Recovering → Bool
unfolding read_cell
reach_last_commit bank r = read_cell r.ftl (ftl_buf bank) 1 == r.recovery.epoch_commit

unfoldable pub process_mapent : ℕ → Ftl → Ftl
unfolding read_cell set_ppn
process_mapent bank s =
    for_range (read_cell s (ftl_buf bank) 1) 0
      (λ i t.
        on_pgmap
          (set_ppn (read_cell s (ftl_buf bank) (2 + 2 * i))
            (read_cell s (ftl_buf bank) (3 + 2 * i)))
          t)
      s

unfoldable pub process_depent : ℕ → Recovering → Recovering
unfolding read_cell add_recovery_ent
process_depent bank r =
    let cell = read_cell r.ftl (ftl_buf bank) in
    record r {
      recovery =
          for_range (cell 1) 0
            (λ i t.
              let src = cell (2 + 3 * i) in
              if ltb t.epoch_commit src then add_recovery_ent src (u16 (cell (4 + 3 * i))) t else t)
            r.recovery;
    }

unfoldable pub build_depent_list : ℕ → Recovering → Recovering
unfolding read_cell add_depent
build_depent_list bank r =
    let cell = read_cell r.ftl (ftl_buf bank) in
    record r {
      recovery =
          for_range (cell 1) 0
            (λ i t. record (add_depent (cell (2 + 3 * i)) (cell (3 + 3 * i)) t.n_depent t) {
              n_depent = inc32 t.n_depent;
            })
            r.recovery;
    }

-- The log has 2 blocks of 127 pages in each bank: no walk reads more.
abbrev pub log_fuel : ℕ
log_fuel = 4096

-- The loop of `find_last_commit`; the Boolean says whether a commit was found.
find_rounds : ℕ → ℕ → Bool → Recovering → Option (Bool × Recovering)
unfolding next_log_page process_commit
find_rounds zero bank found r = none
find_rounds (suc fuel) bank found r = next_log_page bank r.ftl >>= λ (p : LogPage × Ftl).
    let r' = record r { ftl = p.1 } in
    let bank' = (bank + 1) % num_banks in
    elim p.0 [
      | commit ↦ find_rounds fuel bank' true (process_commit bank r')
      | mapent ↦ find_rounds fuel bank' found r'
      | depent ↦ find_rounds fuel bank' found r'
      | unknown ↦ some (found, r')
    ]

-- The result is `done`: there is nothing but a full checkpoint.
unfoldable pub find_last_commit : Recovering → Option (Bool × Recovering)
unfolding find_rounds
find_last_commit r = do
  let e = r.ftl.g_epoch
  (found, r') ← find_rounds log_fuel 0 false (record r {
    recovery = record r.recovery { epoch_commit = e; epoch_max = e; epoch_incomplete = inc32 e };
  })
  some (not found, r')

revert_all : Ftl → Option Ftl
unfolding revert_log_ppn
revert_all s = for_try num_banks 0 revert_log_ppn s

-- The walk up to the last commit, which `collect_recovery_entries`, `pull_epoch_incomplete` and
-- `remap_page_entries` share; only the first processes the mapping entries. It gives the next bank.
walk_rounds : ℕ → Bool → ℕ → Recovering → Option (ℕ × Recovering)
unfolding next_log_page process_mapent reach_last_commit
walk_rounds zero map_too bank r = none
walk_rounds (suc fuel) map_too bank r = next_log_page bank r.ftl >>= λ (p : LogPage × Ftl).
    let r' = record r { ftl = p.1 } in
    let bank' = (bank + 1) % num_banks in
    elim p.0 [
      | commit ↦ elim (reach_last_commit bank r') [
        | true ↦ some (bank', r')
        | false ↦ walk_rounds fuel map_too bank' r'
      ]
      | mapent ↦
          walk_rounds fuel map_too bank'
            (if map_too then record r' { ftl = process_mapent bank r'.ftl } else r')
      | depent ↦ walk_rounds fuel map_too bank' r'
      | unknown ↦ some (bank', r')
    ]

walk_to_commit : Bool → Recovering → Option (ℕ × Recovering)
unfolding revert_all walk_rounds
walk_to_commit map_too r = do
  s ← revert_all r.ftl
  walk_rounds log_fuel map_too 0 (record r { ftl = s })

-- do ... while (type == RECOVERY_DEPENT)
depent_rounds : ℕ → (ℕ → Recovering → Recovering) → ℕ → Recovering → Option Recovering
unfolding next_log_page
depent_rounds zero process bank r = none
depent_rounds (suc fuel) process bank r = next_log_page bank r.ftl >>= λ (p : LogPage × Ftl).
    let r' = record r { ftl = p.1 } in
    elim p.0 [
      | commit ↦ some r'
      | mapent ↦ some r'
      | depent ↦ depent_rounds fuel process ((bank + 1) % num_banks) (process bank r')
      | unknown ↦ some r'
    ]

-- What `retrieve_page_entries` does with the spare area of one page: mode 0 collects, mode 1 remaps
-- what is older than the first incomplete epoch, the newest page of each last.
unfoldable pub process_page : Bool → ℕ → Recovering → Recovering
unfolding set_ppn add_recovery_ent load_epoch store_epoch
process_page remap ppn r =
    let sp = r.ftl.spare in
    let c = r.recovery in
    let r' = load_epoch sp.lpn r in
    if remap
    then (if ltb sp.epoch c.epoch_incomplete && ltb r'.epoch_prev sp.epoch
        then store_epoch sp.lpn sp.epoch (record r' { ftl = on_pgmap (set_ppn sp.lpn ppn) r'.ftl })
        else r')
    else if sp.epoch == minus_two
    then record r { ftl = on_pgmap (set_ppn sp.lpn ppn) r.ftl }
    else if ltb c.epoch_commit sp.epoch
    then record r { recovery = add_recovery_ent sp.epoch sp.pg_span c }
    else r

-- for (pg ...), with the pages that are left; an erased page ends it.
page_rounds : ℕ → Bool → ℕ → ℕ → ℕ → Recovering → Option Recovering
unfolding nand_page_ptread process_page
page_rounds zero remap bank blk pg r = some r
page_rounds (suc n) remap bank blk pg r =
    nand_page_ptread bank blk pg 0 1 (ftl_buf bank) r.ftl >>= λ s.
    let r' = record r { ftl = s } in
    elim (s.spare.epoch == minus_one) [
      | true ↦ some r'
      | false ↦
          page_rounds n remap bank blk (pg + 1) (process_page remap (blk * pages_per_vblk + pg) r')
    ]

-- while (!done): from one open block to the next, which the summary page names. The chain visits
-- each block of the bank at most once.
blk_rounds : ℕ → Bool → ℕ → ℕ → ℕ → Recovering → Option Recovering
unfolding page_rounds nand_page_ptread read_cell
blk_rounds zero remap bank blk pg r = none
blk_rounds (suc fuel) remap bank blk pg r =
    page_rounds (pages_per_vblk - 1 - pg) remap bank blk pg r >>= λ r'.
    nand_page_ptread bank blk (pages_per_vblk - 1) 0 2 (ftl_buf bank) r'.ftl >>= λ s.
    let r'' = record r' { ftl = s } in
    let next_blk = read_cell s (ftl_buf bank) pages_per_vblk in
    elim (next_blk == minus_one) [
      | true ↦ some r''
      | false ↦ blk_rounds fuel remap bank next_blk 0 r''
    ]

unfoldable pub retrieve_page_entries : Bool → ℕ → ℕ → Recovering → Option Recovering
unfolding blk_rounds
retrieve_page_entries remap bank ppn r =
    blk_rounds (vblks_per_bank + 1) remap bank (ppn / pages_per_vblk) (ppn % pages_per_vblk) r

retrieve_all : Bool → Recovering → Option Recovering
unfolding retrieve_page_entries
retrieve_all remap r =
    for_try num_banks 0
      (λ bank t.
        for_try num_regions 0
          (λ region u. retrieve_page_entries remap bank (u.recovery.active_ppns bank region) u) t)
      r

unfoldable pub collect_recovery_entries : Recovering → Option Recovering
unfolding walk_to_commit retrieve_all depent_rounds process_depent
collect_recovery_entries r = do
  (bank, r1) ← walk_to_commit true r
  r2 ← retrieve_all false r1
  depent_rounds log_fuel process_depent bank r2

unfoldable pub pull_epoch_incomplete : Recovering → Option Recovering
unfolding walk_to_commit depent_rounds build_depent_list pull_sorted
pull_epoch_incomplete r = do
  (bank, r1) ← walk_to_commit false r
  r2 ← depent_rounds log_fuel build_depent_list bank r1
  c ← pull_sorted r2.recovery
  some (record r2 { recovery = c })

unfoldable pub remap_page_entries : Recovering → Option Recovering
unfolding walk_to_commit retrieve_all
remap_page_entries r = do (bank, r1) ← walk_to_commit false r; retrieve_all true r1

-- `analyze`, with its result
unfoldable pub analyze : Recovering → Option (Bool × Recovering)
unfolding find_last_commit collect_recovery_entries find_first_incomplete_write
    pull_epoch_incomplete
analyze r = do
  (done, r1) ← find_last_commit r
  if done then some (true, r1) else (do
    r2 ← collect_recovery_entries r1
    r3 ← pull_epoch_incomplete (record r2 { recovery = find_first_incomplete_write r2.recovery })
    some (false, r3))

unfoldable pub ftl_recovery : Recovering → Option Recovering
unfolding init_recovery analyze remap_page_entries
ftl_recovery r = do
  (done, r1) ← analyze (init_recovery r)
  if done then some r1 else remap_page_entries r1
