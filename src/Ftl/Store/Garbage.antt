-- ===== src/Ftl/Store/Garbage.antt =====
-- ftl_optr/blkmgr.c: the whole of `garbage_collection`.
use optr_jasmine.Prelude.{
  ℕ, ◌+◌, ◌-◌, ◌*◌, ◌/◌, ◌%◌, ◌<◌, ◌≡◌, ◌≢◌, refl, ap, sym, subst, ◌∙◌, inl, inr, arith, true,
  false, some, Option, ltb, ◌==◌, Bool-cases, ==_refl, inc32, for_try, ◌>>=◌,
}
use optr_jasmine.Config.{num_banks, pages_per_vblk, vblks_per_bank}
use optr_jasmine.Stat.{Stats, stat_gc_vcount, stat_record_gc}
use optr_jasmine.Blkmgr.{Blkmgr, get_vcount, get_victim_blk, on_bank, on_list}
use optr_jasmine.Blkmgr.Vcount.{with_vcount, set_vcount_ok}
use optr_jasmine.Pgmap.{Pgmap, get_ppn}
use optr_jasmine.Ftl.{Ftl, on_blkmgr, on_stats, ftl_buf}
use optr_jasmine.Ftl.Nand.{nand_page_ptread, read_cell}
use optr_jasmine.Ftl.Host.{get_bank}
use optr_jasmine.Ftl.Gc.{gc_page_round, free_victim, garbage_collection}
use optr_jasmine.Ftl.Store.{Contents, Refines}
use optr_jasmine.Ftl.Store.Refine.{Refines-same}
use optr_jasmine.Ftl.Store.Count.{stands_in, mapped_count, CountedBut, IsCounted, same_cell}
use optr_jasmine.Ftl.Store.Collect.{is_victim, gc_loop-Emptied}
use optr_jasmine.Ftl.Store.Prepare.{
  prepared, NothingPending, CanCollect, start-Started, CountedBut-same, CountedBut-skip,
}

-- The victim is free: its count is 0 and exact.
freed-IsCounted :
    (bank blk : ℕ) (s t : Ftl)
    → bank < num_banks
    → blk < vblks_per_bank
    → t.pgmap ≡ s.pgmap
    → t.blkmgr.vcounts ≡ (with_vcount s.blkmgr bank blk 0).vcounts
    → CountedBut (is_victim bank blk) s
    → mapped_count s.pgmap bank blk ≡ 0
    → IsCounted t
unfolding get_vcount with_vcount
freed-IsCounted bank blk s t b_lt blk_lt map vcounts h z = record {
  exact = λ b k b_lt' k_lt out. elim (Bool-cases (is_victim bank blk b k)) [
    | inl here ↦
        let eb : b ≡ bank = ground arith in
        let ek : k ≡ blk = ground arith in
        rw (eb, ek, map, vcounts, ==_refl (bank * vblks_per_bank + blk)) (inl (sym z, omega arith))
    | inr other ↦
        let cell : (b * vblks_per_bank + k == bank * vblks_per_bank + blk) ≡ false =
          same_cell b k bank blk k_lt blk_lt ∙ other in
        rw (map, vcounts, cell) (h.exact b k b_lt' k_lt other)
  ];
  inside = λ q lt. rw map (h.inside q lt);
}

freed : ℕ → ℕ → ℕ → Ftl → Ftl
freed bank region blk s =
    on_blkmgr
      (λ m.
        on_list bank region (λ l. record l { free = inc32 l.free; tail = inc32 l.tail % l.size })
          (on_bank bank (λ b. record b { free_blk_cnt = inc32 b.free_blk_cnt }) m))
      (record s {
        blkmgr = with_vcount (on_bank bank (λ b. record b { vt_blk = blk }) s.blkmgr) bank blk 0;
      })

free_victim_lem :
    (bank region blk : ℕ) (s : Ftl)
    → (t : Ftl) × (free_victim bank region blk s ≡ some t)
      × (t.pgmap ≡ s.pgmap)
      × (t.flash ≡ s.flash)
      × (t.blkmgr.vcounts ≡ (with_vcount s.blkmgr bank blk 0).vcounts)
      × ((t.blkmgr.banks bank).vt_blk ≡ blk)
unfolding free_victim freed on_list on_bank with_vcount
free_victim_lem bank region blk s =
    let marked : Blkmgr = on_bank bank (λ b. record b { vt_blk = blk }) s.blkmgr in
    (
      freed bank region blk s,
      rw (set_vcount_ok marked bank blk 0 (omega arith)) refl,
      refl,
      refl,
      refl,
      rw (==_refl bank) refl,
    )

-- What a collection does.
pub record Collected (c : Contents) (bank vt_blk : ℕ) (s' : Ftl) : Type 0 where
  pub refines : Refines c s'
  pub counted : IsCounted s'
  pub victim : (s'.blkmgr.banks bank).vt_blk ≡ vt_blk
  pub pending : NothingPending bank s'

collection_steps :
    (bank vt_blk n : ℕ) (s u s' t : Ftl) {m : Blkmgr} {st : Stats}
    → get_victim_blk (prepared bank s).blkmgr (prepared bank s).stats bank 1 ≡ some (vt_blk, m, st)
    → nand_page_ptread bank vt_blk
        (pages_per_vblk - 1)
        0
        1
        (ftl_buf bank)
        (record (prepared bank s) { blkmgr = m; stats = st })
      ≡ some u
    → for_try 127 0 (gc_page_round bank vt_blk (read_cell u (ftl_buf bank))) (0, u) ≡ some (n, s')
    → n ≡ get_vcount m bank vt_blk
    → n < 127
    → free_victim bank 1 vt_blk (on_stats (stat_gc_vcount (get_vcount m bank vt_blk)) s') ≡ some t
    → garbage_collection bank 1 s ≡ some (on_stats (stat_record_gc bank 0) t)
unfolding garbage_collection
collection_steps bank vt_blk n s u s' t {m} e1 e2 e3 count few e4 =
    let same : (n == get_vcount m bank vt_blk) ≡ true = ground arith in
    let less : ltb n (pages_per_vblk - 1) ≡ true = ground arith in
    rw (e1, e2, e3, same, less)
      (ap (λ (o : Option Ftl). o >>= λ s4. some (on_stats (stat_record_gc bank 0) s4)) e4)

vcount_same :
    (m : Blkmgr) (s : Ftl) (bank blk : ℕ)
    → m.vcounts ≡ s.blkmgr.vcounts
    → get_vcount m bank blk ≡ get_vcount s.blkmgr bank blk
unfolding get_vcount
vcount_same m s bank blk e = ap (λ (f : ℕ → ℕ). f (bank * vblks_per_bank + blk)) e

stands_in-true :
    (m m' : Pgmap) (bank blk q : ℕ)
    → m' ≡ m
    → get_bank q ≡ bank
    → get_ppn m' q ≢ 0
    → get_ppn m' q / pages_per_vblk ≡ blk
    → stands_in m bank blk q ≡ true
stands_in-true m m' bank blk q e own mapped at =
    let mapped' : get_ppn m q ≢ 0 = subst (λ x. get_ppn x q ≢ 0) e mapped in
    let at' : get_ppn m q / pages_per_vblk ≡ blk =
      subst (λ x. get_ppn x q / pages_per_vblk ≡ blk) e at in
    ground arith

-- A collection of a block that the bank can collect runs to its end, its assertion on the count of
-- valid pages included. The contents of the logical pages stay, every block's count of valid pages is
-- again the number of logical pages that the map has in it, and the victim waits to be erased with no
-- logical page in it.
pub garbage_collection-Collected :
    (c : Contents) (bank vt_blk : ℕ) (s : Ftl) {m : Blkmgr} {st : Stats}
    → Refines c s
    → IsCounted s
    → CanCollect bank vt_blk s
    → get_victim_blk (prepared bank s).blkmgr (prepared bank s).stats bank 1 ≡ some (vt_blk, m, st)
    → (s' : Ftl) × (garbage_collection bank 1 s ≡ some s') × Collected c bank vt_blk s'
garbage_collection-Collected c bank vt_blk s {m} {st} h counted v chosen =
    let g0 = start-Started c bank vt_blk s h v chosen in
    let (n, s', e3, g) =
      gc_loop-Emptied c bank vt_blk (read_cell g0.u (ftl_buf bank)) g0.u g0.room g0.lists
        (rw g0.map v.open_page)
        (CountedBut-skip (is_victim bank vt_blk) g0.u
          (CountedBut-same (λ b k. false) s g0.u g0.map g0.counts counted))
        g0.refines in
    let whole = counted.exact bank vt_blk v.room.bank_ok v.room.victim refl in
    let vcount = vcount_same m s bank vt_blk g0.vcounts in
    let stale = v.some_stale in
    let exact : get_vcount s.blkmgr bank vt_blk ≡ mapped_count s.pgmap bank vt_blk = elim whole [
      | inl (e, le) ↦ e
      | inr (e, z) ↦ absurd (omega arith)
    ] in
    let number : n ≡ get_vcount m bank vt_blk =
      g.number ∙ ap (λ x. mapped_count x bank vt_blk) g0.map ∙ sym exact ∙ sym vcount in
    let (t, e4, map', flash', vcounts', victim) =
      free_victim_lem bank 1 vt_blk (on_stats (stat_gc_vcount (get_vcount m bank vt_blk)) s') in
    (
      on_stats (stat_record_gc bank 0) t,
      collection_steps bank vt_blk n s g0.u s' t chosen g0.read e3 number (omega arith) e4,
      record {
        refines = Refines-same c s' _ map' flash' g.refines;
        counted =
            freed-IsCounted bank vt_blk s' _ v.room.bank_ok v.room.victim map' vcounts' g.counted
              g.none_left;
        victim = victim;
        pending = λ q own mapped at.
            let out = g.nowhere q in
            let there : stands_in s'.pgmap bank vt_blk q ≡ true =
              stands_in-true s'.pgmap t.pgmap bank vt_blk q map' own mapped (at ∙ victim) in
            absurd (ground (arith, out, there));
      },
    )
