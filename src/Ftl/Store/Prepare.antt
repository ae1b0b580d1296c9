-- ===== src/Ftl/Store/Prepare.antt =====
-- ftl_optr/blkmgr.c: `garbage_collection` up to its loop: the block that waits is erased, the victim
-- chosen, and its page list read.
use optr_jasmine.Prelude.{
  ℕ, zero, suc, ◌-◌, ◌/◌, ◌%◌, ◌≤◌, ◌<◌, ◌≡◌, ◌≢◌, refl, ap, sym, subst, ◌∙◌, inl, inr, arith, Bool,
  true, false, some, ◌==◌, Bool-cases, ==_refl, minus_one, update,
}
use optr_jasmine.Config.{num_banks, pages_per_vblk, vblks_per_bank}
use optr_jasmine.Stat.{Stats}
use optr_jasmine.Blkmgr.{Blkmgr, get_vcount, get_victim_blk, on_bank}
use optr_jasmine.Blkmgr.Victim.{victim_blk-vcounts}
use optr_jasmine.Pgmap.{get_ppn, get_active_ppn}
use optr_jasmine.Vst.Page.{or_else}
use optr_jasmine.Vst.Flash.{FlashPage, in_geometry, vst_erase_block, vst_read_page}
use optr_jasmine.Vst.Flash.Access.{vpage_copy-Agrees, vpage_copy_total}
use optr_jasmine.Ftl.{Ftl, on_blkmgr, ftl_buf}
use optr_jasmine.Ftl.Nand.{nand_page_ptread, read_cell}
use optr_jasmine.Ftl.Host.{get_bank}
use optr_jasmine.Ftl.Dequeue.{blkmgr_erase_vt_blk}
use optr_jasmine.Ftl.Gc.{cache_collect_dirty_rate, erase_pending}
use optr_jasmine.Ftl.Gc.Victim.{count_valid, HasRoom}
use optr_jasmine.Ftl.Commit.Restore.{copied_cells}
use optr_jasmine.Ftl.Store.{Contents, Refines}
use optr_jasmine.Ftl.Store.Refine.{Refines-same, erase-Refines}
use optr_jasmine.Ftl.Store.Count.{CountedBut, IsCounted}
use optr_jasmine.Ftl.Store.Collect.{Lists}

-- What happens before the victim is chosen.
abbrev pub prepared : ℕ → Ftl → Ftl
prepared bank s =
    erase_pending bank (cache_collect_dirty_rate (on_blkmgr (λ m. record m { first_gc = 0 }) s))

record Prepared (c : Contents) (bank : ℕ) (s t : Ftl) : Type 0 where
  pgmap : t.pgmap ≡ s.pgmap
  cnt : t.chkpt.cnt_mapents ≡ s.chkpt.cnt_mapents
  real : t.enable_gc_opt ≡ s.enable_gc_opt
  vcounts : t.blkmgr.vcounts ≡ s.blkmgr.vcounts
  erased :
      (b k p : ℕ) → (s.flash.pages b k p).is_erased ≡ true → (t.flash.pages b k p).is_erased ≡ true
  same :
      (k p : ℕ)
      → (k == (s.blkmgr.banks bank).vt_blk) ≡ false
      → t.flash.pages bank k p ≡ s.flash.pages bank k p
  refines : Refines c t

-- No logical page stands in the block that waits to be erased.
abbrev pub NothingPending : ℕ → Ftl → Type 0
NothingPending bank s =
    (q : ℕ)
    → get_bank q ≡ bank
    → get_ppn s.pgmap q ≢ 0
    → get_ppn s.pgmap q / pages_per_vblk ≢ (s.blkmgr.banks bank).vt_blk

prepared-Prepared :
    (c : Contents) (bank : ℕ) (s : Ftl)
    → Refines c s
    → NothingPending bank s
    → Prepared c bank s (prepared bank s)
unfolding erase_pending blkmgr_erase_vt_blk cache_collect_dirty_rate vst_erase_block on_bank
prepared-Prepared c bank s h free = elim (Bool-cases ((s.blkmgr.banks bank).vt_blk == 0)) [
  | inl z ↦ rw z (record {
    pgmap = refl;
    cnt = refl;
    real = refl;
    vcounts = refl;
    erased = λ b k p e. e;
    same = λ k p ne. refl;
    refines = Refines-same c s _ refl refl h;
  })
  | inr nz ↦
      let kept : Refines c (blkmgr_erase_vt_blk bank s) = erase-Refines c s bank h free in
      rw nz (record {
        pgmap = refl;
        cnt = refl;
        real = refl;
        vcounts = refl;
        erased = λ b k p e. ground arith;
        same = λ k p ne. ground arith;
        refines = Refines-same c (blkmgr_erase_vt_blk bank s) _ (rw nz refl) (rw nz refl) kept;
      })
]

-- The page list in the last page of a block.
abbrev pub summary : ℕ → ℕ → Ftl → ℕ → ℕ
summary bank blk s =
    or_else (λ _. minus_one) (s.flash.pages bank blk (pages_per_vblk - 1)).vpage.cells

pub read_summary :
    (bank blk : ℕ) (s : Ftl)
    → bank < num_banks
    → blk < vblks_per_bank
    → (s.flash.pages bank blk (pages_per_vblk - 1)).vpage.tagged ≡ false
    → (u : Ftl) × (nand_page_ptread bank blk (pages_per_vblk - 1) 0 1 (ftl_buf bank) s ≡ some u)
      × (u ≡ record s { ram = u.ram; spare = u.spare })
      × ((k : ℕ) → k < 127 → read_cell u (ftl_buf bank) k ≡ summary bank blk s k)
unfolding nand_page_ptread vst_read_page read_cell
read_summary bank blk s b_lt k_lt meta =
    let page = s.flash.pages bank blk (pages_per_vblk - 1) in
    let dst = s.ram (ftl_buf bank) in
    let (r, e) = vpage_copy_total s.flash.junk dst page.vpage 0 1 refl in
    let a = vpage_copy-Agrees s.flash.junk dst page.vpage 0 1 e in
    let (c, has) = copied_cells s.flash.junk dst page.vpage 0 1 meta e in
    let inside : in_geometry bank blk (pages_per_vblk - 1) ≡ true = ground arith in
    (
      record s { ram = update s.ram (ftl_buf bank) r; spare = page.spare },
      rw (inside, e) refl,
      refl,
      λ k lt.
          rw (==_refl (ftl_buf bank), has)
            (ap (λ o. or_else (λ _. minus_one) o k) (sym has) ∙ a.meta meta k (ground arith)),
    )

count_valid-same :
    (s u : Ftl) (blk : ℕ) (lpns lpns' : ℕ → ℕ) (n : ℕ)
    → n ≤ 127
    → u.pgmap ≡ s.pgmap
    → ((k : ℕ) → k < 127 → lpns' k ≡ lpns k)
    → count_valid u blk lpns' n ≡ count_valid s blk lpns n
unfolding count_valid
count_valid-same s u blk lpns lpns' zero le map same = refl
count_valid-same s u blk lpns lpns' (suc n) le map same =
    rw (map, same n (omega arith), count_valid-same s u blk lpns lpns' n (omega arith) map same)
      refl

HasRoom-same :
    (bank blk : ℕ) (s u : Ftl) (lpns lpns' : ℕ → ℕ)
    → HasRoom bank blk lpns s
    → ((k : ℕ) → k < 127 → lpns' k ≡ lpns k)
    → u.pgmap ≡ s.pgmap
    → u.blkmgr.vcounts ≡ s.blkmgr.vcounts
    → u.chkpt.cnt_mapents ≡ s.chkpt.cnt_mapents
    → u.enable_gc_opt ≡ s.enable_gc_opt
    → ((b k p : ℕ)
        → (s.flash.pages b k p).is_erased ≡ true
        → (u.flash.pages b k p).is_erased ≡ true)
    → HasRoom bank blk lpns' u
unfolding get_vcount
HasRoom-same bank blk s u lpns lpns' h same map vcounts cnt real erased =
    let number = count_valid-same s u blk lpns lpns' 127 (omega arith) map same in
    record {
      bank_ok = h.bank_ok;
      victim = h.victim;
      other = rw map h.other;
      target = rw map h.target;
      pages = rw (number, map) h.pages;
      room = rw (number, map, vcounts) h.room;
      log = rw (number, cnt) h.log;
      erased = λ p from to. rw map (
          erased bank (get_active_ppn s.pgmap bank 1 / pages_per_vblk) p
            (h.erased p (subst (λ x. get_active_ppn x bank 1 % pages_per_vblk ≤ p) map from) to));
      real = rw real h.real;
    }

Lists-same :
    (bank blk : ℕ) (s u : Ftl) (lpns lpns' : ℕ → ℕ)
    → Lists bank blk lpns s
    → ((k : ℕ) → k < 127 → lpns' k ≡ lpns k)
    → u.pgmap ≡ s.pgmap
    → Lists bank blk lpns' u
Lists-same bank blk s u lpns lpns' h same map = record {
  nonzero = h.nonzero;
  own = λ k lt v. rw (same k lt) (h.own k lt (rw (← same k lt) (rw (← map) v)));
  names = λ q v.
      let (k_lt, listed) = h.names q (rw (← map) v) in
      rw map (k_lt, same (get_ppn s.pgmap q % pages_per_vblk) k_lt ∙ listed);
}

pub CountedBut-same :
    (skip : ℕ → ℕ → Bool) (s u : Ftl)
    → u.pgmap ≡ s.pgmap
    → u.blkmgr.vcounts ≡ s.blkmgr.vcounts
    → CountedBut skip s
    → CountedBut skip u
unfolding get_vcount
CountedBut-same skip s u map vcounts h = record {
  exact = λ b k b_lt k_lt out. rw (map, vcounts) (h.exact b k b_lt k_lt out);
  inside = λ q lt. rw map (h.inside q lt);
}

pub CountedBut-skip : (skip : ℕ → ℕ → Bool) (s : Ftl) → IsCounted s → CountedBut skip s
CountedBut-skip skip s h = record {
  exact = λ b k b_lt k_lt out. h.exact b k b_lt k_lt refl;
  inside = h.inside;
}

-- What a collection of `vt_blk` needs of the state before it.
pub record CanCollect (bank vt_blk : ℕ) (s : Ftl) : Type 0 where
  pub room : HasRoom bank vt_blk (summary bank vt_blk s) s
  pub lists : Lists bank vt_blk (summary bank vt_blk s) s
  pub open_page : get_active_ppn s.pgmap bank 1 ≢ 0
  pub meta : (s.flash.pages bank vt_blk (pages_per_vblk - 1)).vpage.tagged ≡ false
  pub fresh : (vt_blk == (s.blkmgr.banks bank).vt_blk) ≡ false
  pub pending : NothingPending bank s
  pub some_stale : get_vcount s.blkmgr bank vt_blk < 127

-- The collection when it has read the page list of its victim.
pub record Started (c : Contents) (bank vt_blk : ℕ) (s : Ftl) (m : Blkmgr) (st : Stats)
    : Type 0 where
  pub u : Ftl
  pub read :
      nand_page_ptread bank vt_blk
        (pages_per_vblk - 1)
        0
        1
        (ftl_buf bank)
        (record (prepared bank s) { blkmgr = m; stats = st })
      ≡ some u
  pub map : u.pgmap ≡ s.pgmap
  pub counts : u.blkmgr.vcounts ≡ s.blkmgr.vcounts
  pub vcounts : m.vcounts ≡ s.blkmgr.vcounts
  pub room : HasRoom bank vt_blk (read_cell u (ftl_buf bank)) u
  pub lists : Lists bank vt_blk (read_cell u (ftl_buf bank)) u
  pub refines : Refines c u

pub start-Started :
    (c : Contents) (bank vt_blk : ℕ) (s : Ftl) {m : Blkmgr} {st : Stats}
    → Refines c s
    → CanCollect bank vt_blk s
    → get_victim_blk (prepared bank s).blkmgr (prepared bank s).stats bank 1 ≡ some (vt_blk, m, st)
    → Started c bank vt_blk s m st
start-Started c bank vt_blk s {m} {st} h v chosen =
    let p = prepared-Prepared c bank s h v.pending in
    let t0 : Ftl = record (prepared bank s) { blkmgr = m; stats = st } in
    let vcounts =
      (victim_blk-vcounts (prepared bank s).blkmgr (prepared bank s).stats bank 1 chosen).0 in
    let summary_page = p.same vt_blk (pages_per_vblk - 1) v.fresh in
    let (u, e2, kept, cells) =
      read_summary bank vt_blk t0 v.room.bank_ok v.room.victim (rw summary_page v.meta) in
    let lpns = read_cell u (ftl_buf bank) in
    let map : u.pgmap ≡ s.pgmap = ap (λ (x : Ftl). x.pgmap) kept ∙ p.pgmap in
    let counts : u.blkmgr.vcounts ≡ s.blkmgr.vcounts =
      ap (λ (x : Ftl). x.blkmgr.vcounts) kept ∙ vcounts ∙ p.vcounts in
    let flash : u.flash ≡ (prepared bank s).flash = ap (λ (x : Ftl). x.flash) kept in
    let listed : (k : ℕ) → k < 127 → lpns k ≡ summary bank vt_blk s k = λ k lt.
      cells k lt
      ∙ ap (λ x. or_else (λ _. minus_one) x k)
          (ap (λ (x : FlashPage). x.vpage.cells) summary_page) in
    let room =
      HasRoom-same bank vt_blk s u (summary bank vt_blk s) lpns v.room listed map counts
        (ap (λ (x : Ftl). x.chkpt.cnt_mapents) kept ∙ p.cnt)
        (ap (λ (x : Ftl). x.enable_gc_opt) kept ∙ p.real)
        (λ b k q e. rw flash (p.erased b k q e)) in
    let lists = Lists-same bank vt_blk s u (summary bank vt_blk s) lpns v.lists listed map in
    record {
      u = u;
      read = e2;
      map = map;
      counts = counts;
      vcounts = vcounts ∙ p.vcounts;
      room = room;
      lists = lists;
      refines = Refines-same c (prepared bank s) u (map ∙ sym p.pgmap) flash p.refines;
    }
