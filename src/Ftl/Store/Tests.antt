-- ===== src/Ftl/Store/Tests.antt =====
-- The store on the small device: page 48 is on flash, and buffer 3 of bank 0 holds page 32.
mod Flush
use optr_jasmine.Prelude.{
  subst, ℕ, ◌+◌, ◌%◌, ◌≡◌, ◌≢◌, refl, arith, false, some, none, Option, [], ◌∷◌, All, ◌==◌,
  if◌then◌else◌, Bool-cases, inl, inr, one_if, count_true_none,
}
use optr_jasmine.Pgmap.{set_ppn, get_ppn, get_active_ppn, pgmap_trim}
use optr_jasmine.Blkmgr.{get_vcount}
use optr_jasmine.Cache.{exist_in_cache}
use optr_jasmine.Vst.Page.{VPage, vpage_copy}
use optr_jasmine.Vst.Flash.{Flash, Spare, vst_write_page, open_flash}
use optr_jasmine.Vst.Flash.Stands.{write-Stands}
use optr_jasmine.Ftl.{Ftl, on_pgmap, cache_buf, rd_buf}
use optr_jasmine.Ftl.Host.{read_page}
use optr_jasmine.Ftl.Dequeue.{write_out}
use optr_jasmine.Ftl.Dequeue.Write.{CanWrite, WroteOut, write_out-WroteOut}
use optr_jasmine.Ftl.Store.{
  Contents, put, trim, apply_all, HoldsAt, Refines, flush, discard, here, next,
}
use optr_jasmine.Ftl.Store.Refine.{Run-Refines}
use optr_jasmine.Ftl.Store.Log.{is_trim, Run-Logged}
use optr_jasmine.Ftl.Record.Mapents.{Logged, replay_zero}
use optr_jasmine.Ftl.Store.Read.{Gives, read_page-Gives}
use optr_jasmine.Stat.{Stats}
use optr_jasmine.Blkmgr.{Blkmgr, get_victim_blk, get_blk_id, set_blk_id}
use optr_jasmine.TestData.{
  test_ftl, test_flash, test_page, test_blkmgr, test_bank, test_list, test_stats,
}
use optr_jasmine.Vst.Flash.{blank_spare}
use optr_jasmine.Vst.Flash.Stands.{Stands-same}
use optr_jasmine.Ftl.Gc.Victim.{count_valid}
use optr_jasmine.Ftl.Gc.{garbage_collection, erase_pending, cache_collect_dirty_rate}
use optr_jasmine.Ftl.Store.Count.{mapped_count, stands_in, IsCounted, mapped_count_change}
use optr_jasmine.Ftl.Store.Exact.{write_out-IsCounted}
use optr_jasmine.Ftl.Store.Prepare.{prepared, CanCollect}
use optr_jasmine.Ftl.Store.Garbage.{Collected, garbage_collection-Collected}

abbrev page_spare : Spare
page_spare = record { lpn = 48; pg_span = 1; epoch = 5 }

abbrev written : Option Flash
written = vst_write_page test_flash 0 20 3 0 32 test_page page_spare

get_flash : Option Flash → Flash
get_flash none = test_flash
get_flash (some f) = f

written-some : written ≡ some (get_flash written)
unfolding vst_write_page vpage_copy open_flash get_flash
written-some = refl

abbrev stored_ftl : Ftl
stored_ftl = record (on_pgmap (set_ppn 48 2563) test_ftl) { flash = get_flash written }

abbrev stored : Contents
stored q = if q == 48 then some test_page else none

stored-HoldsAt : HoldsAt stored_ftl 48 test_page
unfolding set_ppn get_ppn
stored-HoldsAt = record {
  spare = page_spare;
  names = refl;
  stands = write-Stands test_flash 0 20 3 test_page page_spare written-some;
}

stored-Refines : Refines stored stored_ftl
unfolding set_ppn get_ppn
stored-Refines = record {
  mapped = λ q. ground arith;
  held = λ q v e. elim (Bool-cases (q == 48)) [
    | inl same ↦
        let eq : 48 ≡ q = ground arith in
        let ev : test_page ≡ v = ground (arith, e, same) in
        subst (λ x. HoldsAt stored_ftl x v) eq
          (subst (λ x. HoldsAt stored_ftl 48 x) ev stored-HoldsAt)
    | inr ne ↦ absurd (ground (arith, e, ne))
  ];
}

read_page-Gives_example :
    (s' : Ftl) × (read_page 48 4 8 stored_ftl ≡ some s')
    × Gives (stored 48) 4 8 (s'.ram (rd_buf 0))
    × (s'.g_ftl_read_buf_id ≡ 1)
    × (s'.pgmap ≡ stored_ftl.pgmap)
    × (s'.flash ≡ stored_ftl.flash)
unfolding exist_in_cache
read_page-Gives_example = read_page-Gives stored stored_ftl 48 4 8 stored-Refines refl refl

stored_CanWrite : CanWrite 0 3 stored_ftl
unfolding get_ppn get_active_ppn get_vcount open_flash set_ppn get_flash vst_write_page vpage_copy
stored_CanWrite = record {
  bank_ok = omega arith;
  idx_ok = omega arith;
  old = inl refl;
  page = refl;
  erased = refl;
  room = omega arith;
  log = omega arith;
  real = refl;
}

abbrev after_flush : (s' : Ftl) × (write_out 0 3 stored_ftl ≡ some s') × WroteOut 0 3 stored_ftl s'
after_flush = write_out-WroteOut 0 3 stored_ftl stored_CanWrite

placed_there : get_ppn after_flush.0.pgmap 32 ≢ 0
unfolding get_active_ppn set_ppn
placed_there = let at = after_flush.2.place 32 in ground (arith, at)

Run-Refines_example :
    Refines
      (apply_all (put 32 (stored_ftl.ram (cache_buf 0 3)) ∷ trim 40 10 ∷ []) stored)
      (on_pgmap (pgmap_trim 40 10) after_flush.0)
Run-Refines_example = Run-Refines stored stored-Refines (
    next (flush 0 3 (omega arith) refl refl after_flush.1 placed_there) (next (discard 40 10) here))

stored_Logged : Logged (get_ppn stored_ftl.pgmap) stored_ftl
unfolding Logged
stored_Logged q = replay_zero _ (get_ppn stored_ftl.pgmap) q

no_trims : All (λ e. is_trim e ≡ false) (put 32 (stored_ftl.ram (cache_buf 0 3)) ∷ [])
unfolding is_trim
no_trims = (refl, tt)

Run-Logged_example : Logged (get_ppn stored_ftl.pgmap) after_flush.0
Run-Logged_example =
    Run-Logged (get_ppn stored_ftl.pgmap)
      (next (flush 0 3 (omega arith) refl refl after_flush.1 placed_there) here) no_trims
      stored_Logged

-- The device with exact counts, and block 20 the only one open to garbage collection; its last page
-- lists page 48 at its place.
abbrev list_page : VPage
list_page = record {
  tagged = false;
  cells = some (λ k. if k == 3 then 48 else 0);
  sects = λ i. record { lba = 0; ver = 0 };
}

abbrev listed : Option Flash
listed = vst_write_page (get_flash written) 0 20 127 0 2 list_page blank_spare

listed-some : listed ≡ some (get_flash listed)
unfolding vst_write_page vpage_copy open_flash get_flash
listed-some = refl

abbrev full_ftl : Ftl
full_ftl = record (on_pgmap (set_ppn 48 2563) test_ftl) {
  flash = get_flash listed;
  blkmgr = record test_blkmgr {
    banks = λ bank. record test_bank { blk_lists = λ region. record test_list { rsv = 1 } };
    vcounts = λ i. if i == 20 then 1 else 0;
    blk_ids = λ i. i % 4152 + 20;
  };
}

full-HoldsAt : HoldsAt full_ftl 48 test_page
unfolding set_ppn get_ppn vst_write_page vpage_copy open_flash get_flash
full-HoldsAt = record {
  spare = page_spare;
  names = refl;
  stands =
      Stands-same (get_flash written) (get_flash listed) 0 20 3 test_page page_spare refl
        (write-Stands test_flash 0 20 3 test_page page_spare written-some);
}

full-Refines : Refines stored full_ftl
unfolding set_ppn get_ppn
full-Refines = record {
  mapped = λ q. ground arith;
  held = λ q v e. elim (Bool-cases (q == 48)) [
    | inl same ↦
        let eq : 48 ≡ q = ground arith in
        let ev : test_page ≡ v = ground (arith, e, same) in
        subst (λ x. HoldsAt full_ftl x v) eq (subst (λ x. HoldsAt full_ftl 48 x) ev full-HoldsAt)
    | inr ne ↦ absurd (ground (arith, e, ne))
  ];
}

-- No page is mapped on the empty device.
empty_count : (b k : ℕ) → mapped_count test_ftl.pgmap b k ≡ 0
unfolding mapped_count get_ppn
empty_count b k = count_true_none (stands_in test_ftl.pgmap b k) 7801404 (λ j lt. ground arith)

full_count : (b k : ℕ) → mapped_count full_ftl.pgmap b k ≡ one_if (stands_in full_ftl.pgmap b k 48)
unfolding get_ppn set_ppn
full_count b k =
    let change =
      mapped_count_change test_ftl.pgmap full_ftl.pgmap 48 2563 b k (omega arith) (λ q. refl) in
    let was : stands_in test_ftl.pgmap b k 48 ≡ false = ground arith in
    let before = empty_count b k in ground (arith, change, was, before)

full-IsCounted : IsCounted full_ftl
unfolding get_vcount get_ppn set_ppn
full-IsCounted = record {
  exact = λ b k b_lt k_lt out. let n = full_count b k in inl (ground arith, ground arith);
  inside = λ q lt. ground arith;
}

full-CanCollect : CanCollect 0 20 full_ftl
unfolding get_ppn set_ppn get_active_ppn get_vcount count_valid vst_write_page vpage_copy open_flash
    get_flash
full-CanCollect = record {
  room = record {
    bank_ok = omega arith;
    victim = omega arith;
    other = refl;
    target = omega arith;
    pages = omega arith;
    room = omega arith;
    log = omega arith;
    erased = λ p from to. refl;
    real = refl;
  };
  lists = record {
    nonzero = omega arith;
    own = λ k lt v. (ground arith, ground arith);
    names = λ q v. (ground arith, ground arith);
  };
  open_page = omega arith;
  meta = refl;
  fresh = refl;
  pending = λ q own mapped at. ground arith;
  some_stale = omega arith;
}

abbrev picked : Option (ℕ × Blkmgr × Stats)
picked = get_victim_blk (prepared 0 full_ftl).blkmgr (prepared 0 full_ftl).stats 0 1

get_picked : Option (ℕ × Blkmgr × Stats) → Blkmgr × Stats
get_picked none = (test_blkmgr, test_stats)
get_picked (some (blk, m, st)) = (m, st)

picked-some : picked ≡ some (20, (get_picked picked).0, (get_picked picked).1)
unfolding get_victim_blk get_picked erase_pending get_blk_id get_vcount set_blk_id
    cache_collect_dirty_rate
picked-some = refl

garbage_collection-Collected_example :
    (s' : Ftl) × (garbage_collection 0 1 full_ftl ≡ some s') × Collected stored 0 20 s'
garbage_collection-Collected_example =
    garbage_collection-Collected stored 0 20 full_ftl full-Refines full-IsCounted full-CanCollect
      picked-some

full_CanWrite : CanWrite 0 3 full_ftl
unfolding get_ppn get_active_ppn get_vcount open_flash set_ppn get_flash vst_write_page vpage_copy
full_CanWrite = record {
  bank_ok = omega arith;
  idx_ok = omega arith;
  old = inl refl;
  page = refl;
  erased = refl;
  room = omega arith;
  log = omega arith;
  real = refl;
}

full_placed : (get_ppn (write_out-WroteOut 0 3 full_ftl full_CanWrite).0.pgmap 32 == 0) ≡ false
unfolding get_active_ppn set_ppn
full_placed =
    let at = (write_out-WroteOut 0 3 full_ftl full_CanWrite).2.place 32 in ground (arith, at)

write_out-IsCounted_example : IsCounted (write_out-WroteOut 0 3 full_ftl full_CanWrite).0
write_out-IsCounted_example =
    write_out-IsCounted 0 3 full_ftl full-IsCounted refl refl (omega arith)
      (write_out-WroteOut 0 3 full_ftl full_CanWrite).1 full_placed
