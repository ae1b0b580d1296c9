-- ===== src/Ftl/Record.antt =====
-- ftl_optr/log.c: the log of mapping entries, dependency entries and commit tags. `record_tag` and
-- what it reclaims stand in Ftl.Commit.
pub mod Mapents
use optr_jasmine.Prelude.{
  ℕ, zero, suc, ◌+◌, ◌-◌, ◌*◌, ◌/◌, ◌%◌, Bool, true, false, not, ◌||◌, Option, none, some,
  if◌then◌else◌, ltb, leb, ◌==◌, assert, ◌>>◌, ◌>>=◌, sub32, inc32, add32,
}
use optr_jasmine.Config.{
  num_banks, num_regions, num_mapents_per_page, num_depents_per_page, pages_per_vblk,
}
use optr_jasmine.Stat.{stat_record_dep, stat_chkpt_page, stat_tag_page, stat_dep_page}
use optr_jasmine.Blkmgr.{blkmgr_reach_log_reclaim_threshold}
use optr_jasmine.Pgmap.{get_active_ppn}
use optr_jasmine.Ftl.{Ftl, Chkpt, on_chkpt, on_stats, chkpt_buf, dep_buf, head_buf}
use optr_jasmine.Ftl.Nand.{write_cell, write_cells, nand_page_program}
use optr_jasmine.Ftl.Pages.{get_log_ppn}

unfoldable pub init_log : Chkpt → Chkpt
init_log c = record c {
  cnt_deps = 0;
  cnt_mapents = 0;
  bank_active = 0;
  require_flush_depent = false;
}

unfoldable pub set_dep_entry : ℕ → ℕ → ℕ → ℕ → Ftl → Ftl
unfolding write_cells
set_dep_entry idx src dst req_size s =
    write_cell dep_buf (2 + idx * 3 + 2) req_size
      (write_cell dep_buf (2 + idx * 3 + 1) dst (write_cell dep_buf (2 + idx * 3) src s))

unfoldable pub insert_dep_entry : ℕ → ℕ → Ftl → Ftl
insert_dep_entry epoch_src pg_span s =
    on_chkpt (λ c. record c { cnt_deps = inc32 c.cnt_deps })
      (set_dep_entry s.chkpt.cnt_deps epoch_src s.g_epoch pg_span s)

unfoldable pub is_depents_full : Ftl → Bool
is_depents_full s = leb num_depents_per_page s.chkpt.cnt_deps

unfoldable pub set_mapent : ℕ → ℕ → ℕ → Ftl → Option Ftl
unfolding write_cells
set_mapent idx lpn ppn s = do
  assert (ltb idx (2 * num_banks * num_mapents_per_page))
  let page = chkpt_buf (idx / num_mapents_per_page)
  let base = 2 + idx % num_mapents_per_page * 2
  some (write_cell page (base + 1) ppn (write_cell page base lpn s))

unfoldable pub log_insert_mapent : ℕ → ℕ → Ftl → Option Ftl
unfolding set_mapent
log_insert_mapent lpn ppn s = do
  s' ← set_mapent s.chkpt.cnt_mapents lpn ppn s
  some (on_chkpt (λ c. record c { cnt_mapents = inc32 c.cnt_mapents }) s')

unfoldable pub reach_chkpt_threshold : Ftl → Bool
reach_chkpt_threshold s =
    ltb ((num_banks - 1) * num_mapents_per_page - 512) s.chkpt.cnt_mapents
    || blkmgr_reach_log_reclaim_threshold s.blkmgr

-- A page of the log is written at the next log page of the bank.
unfoldable pub program_log : ℕ → ℕ → Ftl → Option Ftl
unfolding get_log_ppn nand_page_program
program_log bank buf s = do
  (ppn, s') ← get_log_ppn bank s
  nand_page_program bank (ppn / pages_per_vblk) (ppn % pages_per_vblk) buf s'

unfoldable pub persist_mapent : ℕ → ℕ → ℕ → Ftl → Option Ftl
unfolding write_cells program_log
persist_mapent bank idx cnt s =
    let page = chkpt_buf (idx / num_mapents_per_page) in
    program_log bank page
      (on_stats stat_chkpt_page (write_cell page 1 cnt (write_cell page 0 200 s)))

-- while (cnt_mapents): the state, the bank of the next page, and the count of pages written. A
-- round takes at least one entry off, so as many rounds as there are entries are enough.
mapent_rounds : ℕ → ℕ → ℕ → ℕ → Ftl → Option (ℕ × ℕ × Ftl)
unfolding persist_mapent
mapent_rounds zero bank idx pg_used s =
    if s.chkpt.cnt_mapents == 0 then some (bank, pg_used, s) else none
mapent_rounds (suc fuel) bank idx pg_used s = elim (s.chkpt.cnt_mapents == 0) [
  | true ↦ some (bank, pg_used, s)
  | false ↦
      let cnt = s.chkpt.cnt_mapents in
      let pg = if ltb num_mapents_per_page cnt then num_mapents_per_page else cnt in
      persist_mapent bank idx pg s >>= λ s'.
      mapent_rounds fuel ((bank + 1) % num_banks) (add32 idx pg) (inc32 pg_used)
        (on_chkpt (λ c. record c { cnt_mapents = sub32 cnt pg }) s')
]

unfoldable pub record_mapent : Ftl → Option Ftl
unfolding mapent_rounds
record_mapent s = do
  (bank, pg_used, s') ← mapent_rounds s.chkpt.cnt_mapents s.chkpt.bank_active 0 0 s
  some (
      on_chkpt (λ c. record c { pg_have_used = add32 c.pg_have_used pg_used; bank_active = bank })
        s')

unfoldable pub persist_tag : ℕ → Ftl → Option Ftl
unfolding write_cells program_log
persist_tag bank s =
    let page = head_buf bank in
    let ppns : ℕ → ℕ = λ i. get_active_ppn s.pgmap (i / num_regions) (i % num_regions) in
    program_log bank page (
      on_stats stat_tag_page (
        write_cells page 2 (num_banks * num_regions) ppns
          (write_cell page 1 (sub32 s.g_epoch 1) (write_cell page 0 100 s))))

unfoldable pub persist_depent : ℕ → ℕ → Ftl → Option Ftl
unfolding write_cells program_log
persist_depent cnt_deps bank s =
    program_log bank dep_buf
      (on_stats stat_dep_page (write_cell dep_buf 1 cnt_deps (write_cell dep_buf 0 300 s)))

-- The log page of the bank in turn has been used.
abbrev pub used_log_page : Chkpt → Chkpt
used_log_page c = record c {
  pg_have_used = inc32 c.pg_have_used;
  bank_active = (c.bank_active + 1) % num_banks;
}

unfoldable pub record_depent : Ftl → Option Ftl
unfolding persist_depent
record_depent s =
    let cnt = s.chkpt.cnt_deps in
    let s1 = on_chkpt (λ c. record c { require_flush_depent = false }) s in
    if cnt == 0 then some s1 else (do
      s2 ← persist_depent cnt s1.chkpt.bank_active (on_stats (stat_record_dep cnt) s1)
      some (on_chkpt (λ c. record (used_log_page c) { cnt_deps = 0 }) s2))

unfoldable pub reach_flush_depent : Ftl → Bool
reach_flush_depent s = s.chkpt.require_flush_depent

unfoldable pub schedule_flush_depent : Ftl → Ftl
schedule_flush_depent s = on_chkpt (λ c. record c { require_flush_depent = true }) s
