-- ===== src/Ftl/Store/Exact.antt =====
-- The counts of valid pages over a write-out, whether or not the open block was full.
use optr_jasmine.Prelude.{
  ℕ, ◌+◌, ◌*◌, ◌/◌, ◌≤◌, ◌<◌, ◌≡◌, refl, ap, ◌∙◌, inl, inr, arith, false, some, if◌then◌else◌, ◌==◌,
  ==_refl,
}
use optr_jasmine.Config.{num_banks, num_lpages, pages_per_vblk, vblks_per_bank, vc_max}
use optr_jasmine.Stat.{stat_region_balance_factor}
use optr_jasmine.Blkmgr.{Blkmgr, get_vcount}
use optr_jasmine.Pgmap.{get_ppn}
use optr_jasmine.Ftl.{Ftl, on_stats}
use optr_jasmine.Ftl.Host.{get_bank}
use optr_jasmine.Ftl.Pages.Alloc.Frame.{active_ppn-Took}
use optr_jasmine.Ftl.Dequeue.{write_out}
use optr_jasmine.Ftl.Dequeue.Unmap.{unmapped_count, unmapped_le, unmap_old-Unmapped}
use optr_jasmine.Ftl.Store.Count.{
  IsCounted, IsCounted-CanUnmap, stands_in, mapped_count, mapped_count_change, mapped_count_pos,
  exact_after, same_cell,
}
use optr_jasmine.Ftl.Store.Frame.{map_new-counts}
use optr_jasmine.Ftl.Store.Went.{staged, WriteSteps, write_out-WriteSteps}

-- What a write-out does to the counts.
record Counts (bank old ppn : ℕ) (s t : Ftl) : Type 0 where
  inside : ppn / pages_per_vblk < vblks_per_bank
  room : unmapped_count s.blkmgr bank old bank (ppn / pages_per_vblk) + 1 < pages_per_vblk
  counts :
      (b k : ℕ)
      → get_vcount t.blkmgr b k ≡ (
          if b * vblks_per_bank + k == bank * vblks_per_bank + ppn / pages_per_vblk
          then unmapped_count s.blkmgr bank old b k + 1
          else unmapped_count s.blkmgr bank old b k)

count_small :
    (s : Ftl) (b k : ℕ)
    → IsCounted s
    → b < num_banks
    → k < vblks_per_bank
    → get_vcount s.blkmgr b k ≤ vc_max
count_small s b k h b_lt k_lt = elim (h.exact b k b_lt k_lt refl) [
  | inl (e, le) ↦ omega arith
  | inr (e, z) ↦ omega arith
]

WriteSteps-Counts :
    (bank idx : ℕ) (s t : Ftl)
    → IsCounted s
    → bank < num_banks
    → ((s.caches.banks bank).ents idx).lpn < num_lpages
    → get_bank ((s.caches.banks bank).ents idx).lpn ≡ bank
    → (w : WriteSteps bank idx s t)
    → Counts bank (get_ppn s.pgmap ((s.caches.banks bank).ents idx).lpn) w.ppn s t
WriteSteps-Counts bank idx s t h b lt own w =
    let lpn = ((s.caches.banks bank).ents idx).lpn in
    let old = get_ppn s.pgmap lpn in
    let blk = w.ppn / pages_per_vblk in
    let un = unmap_old-Unmapped bank old s (IsCounted-CanUnmap s bank lpn h b lt own) in
    let took = active_ppn-Took bank 1 (on_stats (stat_region_balance_factor bank 1) w.s1) w.taken in
    let left : w.s1 ≡ record s { blkmgr = un.m; stats = un.st } =
      let r = un.result in let r' = w.unmapped in ground (arith, r, r') in
    let before : (x k : ℕ) → get_vcount w.u.blkmgr x k ≡ unmapped_count s.blkmgr bank old x k =
      λ x k. took.counts x k ∙ ap (λ (y : Ftl). get_vcount y.blkmgr x k) left ∙ un.counts x k in
    let here = before bank blk in
    let le = unmapped_le s.blkmgr bank old bank blk in
    let small = count_small s bank blk h b took.inside in
    let (room, counts) = map_new-counts bank lpn w.ppn w.u w.mapped (omega arith) in
    record {
      inside = took.inside;
      room = rw (← here) room;
      counts =
          λ x k. ap (λ (m : Blkmgr). get_vcount m x k) w.blkmgr ∙ counts x k ∙ rw (before x k) refl;
    }

-- If every block's count of valid pages is the number of logical pages that the map has in the
-- block, then it still is after a buffer of the bank's own pages was written out, wherever the old
-- place of the page was, and whether the bank's open block had room or was closed for the next one.
-- The write-out is one that succeeds, with the firmware running with data, and that does not put the
-- page at page 0 of block 0. Nothing is said of the other operations.
pub write_out-IsCounted :
    (bank idx : ℕ) (s : Ftl) {s' : Ftl}
    → IsCounted s
    → s.enable_gc_opt ≡ false
    → get_bank ((s.caches.banks bank).ents idx).lpn ≡ bank
    → ((s.caches.banks bank).ents idx).lpn < num_lpages
    → write_out bank idx s ≡ some s'
    → (get_ppn s'.pgmap ((s.caches.banks bank).ents idx).lpn == 0) ≡ false
    → IsCounted s'
unfolding get_ppn staged
write_out-IsCounted bank idx s {s'} h real own lt e nz =
    let lpn = ((s.caches.banks bank).ents idx).lpn in
    let old = get_ppn s.pgmap lpn in
    let old_in = h.inside lpn lt in
    let w = write_out-WriteSteps bank idx s real e in
    let b : bank < num_banks = omega (arith, own) in
    let c = WriteSteps-Counts bank idx s s' h b lt own w in
    let place : (q : ℕ) → get_ppn s'.pgmap q ≡ (if q == lpn then w.ppn else get_ppn s.pgmap q) =
      λ q.
        ap (λ (x : Ftl). get_ppn x.pgmap q) w.programmed.same
        ∙ w.placed.place q
        ∙ rw (w.kept.map q) refl in
    let less : (x k : ℕ) → get_vcount s.blkmgr x k ≤ unmapped_count s.blkmgr bank old x k + 1 =
      λ x k. ground arith in
    let here : get_ppn s'.pgmap lpn ≡ w.ppn = place lpn ∙ rw (==_refl lpn) refl in
    record {
      exact = λ x k x_lt k_lt skip.
          let was = stands_in s.pgmap x k lpn in
          let now = stands_in s'.pgmap x k lpn in
          let room = c.room in
          exact_after (get_vcount s.blkmgr x k) (get_vcount s'.blkmgr x k)
            (mapped_count s.pgmap x k) (mapped_count s'.pgmap x k) was now
            (h.exact x k x_lt k_lt refl)
            (mapped_count_change s.pgmap s'.pgmap lpn w.ppn x k lt place)
            (c.counts x k
              ∙ rw
                  (
                    same_cell x k bank (w.ppn / pages_per_vblk) k_lt c.inside,
                    same_cell x k bank (old / pages_per_vblk) k_lt old_in,
                    here,
                  )
                  (let nz' : (w.ppn == 0) ≡ false = rw (← here) nz in ground (arith, own, nz')))
            (λ t. mapped_count_pos s.pgmap x k lpn lt t)
            (λ n.
              let bank' : x ≡ bank = ground (arith, n, own) in
              let blk' : k ≡ w.ppn / pages_per_vblk = ground (arith, n, here) in
              rw (bank', blk')
                (let le = less bank (w.ppn / pages_per_vblk) in omega (arith, le, room)));
      inside = λ q q_lt.
          let old' = h.inside q q_lt in let target = c.inside in rw (place q) (ground arith);
    }
