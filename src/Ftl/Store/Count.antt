-- ===== src/Ftl/Store/Count.antt =====
-- The count of valid pages that the block manager keeps for each block is the number of logical pages
-- that the map has in it.
use optr_jasmine.Prelude.{
  ℕ, ◌+◌, ◌-◌, ◌*◌, ◌/◌, ◌≤◌, ◌<◌, ◌≡◌, ◌≢◌, ◌⊎◌, refl, ◌∙◌, inl, inr, arith, Bool, true, false,
  not, ◌&&◌, if◌then◌else◌, ◌==◌, Bool-cases, ==_refl, one_if, count_true, count_true_change,
  count_true_pos,
}
use optr_jasmine.Config.{num_banks, num_lpages, pages_per_vblk, vblks_per_bank, vc_max}
use optr_jasmine.Blkmgr.{get_vcount}
use optr_jasmine.Pgmap.{Pgmap, get_ppn, get_active_ppn}
use optr_jasmine.Ftl.{Ftl}
use optr_jasmine.Ftl.Host.{get_bank}
use optr_jasmine.Ftl.Dequeue.Unmap.{CanUnmap}
use optr_jasmine.Ftl.Dequeue.Write.{CanWrite, WroteOut}

-- The map has the logical page `q` in block `k` of the bank.
abbrev pub stands_in : Pgmap → ℕ → ℕ → ℕ → Bool
stands_in m b k q = get_bank q == b && (not (get_ppn m q == 0) && get_ppn m q / pages_per_vblk == k)

unfoldable pub mapped_count : Pgmap → ℕ → ℕ → ℕ
mapped_count m b k = count_true (stands_in m b k) num_lpages

-- For every block but those to skip: its count is exact and at most 128, or it is a block without
-- data, whose count says so.
pub record CountedBut (skip : ℕ → ℕ → Bool) (s : Ftl) : Type 0 where
  pub exact :
      (b k : ℕ)
      → b < num_banks
      → k < vblks_per_bank
      → skip b k ≡ false
      → ((get_vcount s.blkmgr b k ≡ mapped_count s.pgmap b k)
          × (get_vcount s.blkmgr b k ≤ pages_per_vblk))
        ⊎ ((get_vcount s.blkmgr b k ≡ vc_max) × (mapped_count s.pgmap b k ≡ 0))
  pub inside : (q : ℕ) → q < num_lpages → get_ppn s.pgmap q / pages_per_vblk < vblks_per_bank

abbrev pub IsCounted : Ftl → Type 0
IsCounted = CountedBut (λ b k. false)

-- What a new place for one logical page does to the number of pages in a block.
pub mapped_count_change :
    (m m' : Pgmap) (lpn ppn b k : ℕ)
    → lpn < num_lpages
    → ((q : ℕ) → get_ppn m' q ≡ (if q == lpn then ppn else get_ppn m q))
    → mapped_count m' b k + one_if (stands_in m b k lpn)
      ≡ mapped_count m b k + one_if (stands_in m' b k lpn)
unfolding mapped_count
mapped_count_change m m' lpn ppn b k lt place =
    count_true_change (stands_in m b k) (stands_in m' b k) num_lpages lpn lt
      (λ j j_lt ne. rw (place j, ne) refl)

pub mapped_count_pos :
    (m : Pgmap) (b k lpn : ℕ)
    → lpn < num_lpages
    → stands_in m b k lpn ≡ true
    → 0 < mapped_count m b k
unfolding mapped_count
mapped_count_pos m b k lpn lt h = count_true_pos (stands_in m b k) num_lpages lpn lt h

-- Where the counts are exact, a page that the map has somewhere can be taken off.
pub IsCounted-CanUnmap :
    (s : Ftl) (bank lpn : ℕ)
    → IsCounted s
    → bank < num_banks
    → lpn < num_lpages
    → get_bank lpn ≡ bank
    → CanUnmap s.blkmgr bank (get_ppn s.pgmap lpn)
IsCounted-CanUnmap s bank lpn h b lt own =
    let ppn = get_ppn s.pgmap lpn in
    elim (Bool-cases (ppn == 0)) [
      | inl z ↦ inl (ground arith)
      | inr nz ↦
          let pos = mapped_count_pos s.pgmap bank (ppn / pages_per_vblk) lpn lt (ground arith) in
          elim (h.exact bank (ppn / pages_per_vblk) b (h.inside lpn lt) refl) [
            | inl (e, le) ↦ inr (omega arith, le)
            | inr (e, none_there) ↦ absurd (omega arith)
          ]
    ]

pub same_cell :
    (b k bank blk : ℕ)
    → k < vblks_per_bank
    → blk < vblks_per_bank
    → (b * vblks_per_bank + k == bank * vblks_per_bank + blk) ≡ (b == bank && k == blk)
same_cell b k bank blk h h' = ground arith

-- One block's count, when one logical page leaves its old block and comes to a new one.
pub exact_after :
    (v v' c c' : ℕ) (was now : Bool)
    → ((v ≡ c) × (v ≤ pages_per_vblk)) ⊎ ((v ≡ vc_max) × (c ≡ 0))
    → c' + one_if was ≡ c + one_if now
    → v' ≡ (if now then (if was then v - 1 else v) + 1 else (if was then v - 1 else v))
    → (was ≡ true → 0 < c)
    → (now ≡ true → v < pages_per_vblk)
    → ((v' ≡ c') × (v' ≤ pages_per_vblk)) ⊎ ((v' ≡ vc_max) × (c' ≡ 0))
exact_after v v' c c' true true h e e' pos room = elim h [
  | inl (ev, le) ↦ let p = pos refl in let r = room refl in inl (omega arith, omega arith)
  | inr (ev, z) ↦ absurd (let p = pos refl in omega arith)
]
exact_after v v' c c' true false h e e' pos room = elim h [
  | inl (ev, le) ↦ let p = pos refl in inl (omega arith, omega arith)
  | inr (ev, z) ↦ absurd (let p = pos refl in omega arith)
]
exact_after v v' c c' false true h e e' pos room = elim h [
  | inl (ev, le) ↦ let r = room refl in inl (omega arith, omega arith)
  | inr (ev, z) ↦ absurd (let r = room refl in omega arith)
]
exact_after v v' c c' false false h e e' pos room = elim h [
  | inl (ev, le) ↦ inl (omega arith, omega arith)
  | inr (ev, z) ↦ inr (omega arith, omega arith)
]

pub WroteOut-IsCounted :
    (bank idx : ℕ) (s t : Ftl)
    → IsCounted s
    → CanWrite bank idx s
    → ((s.caches.banks bank).ents idx).lpn < num_lpages
    → get_bank ((s.caches.banks bank).ents idx).lpn ≡ bank
    → get_active_ppn s.pgmap bank 1 ≢ 0
    → WroteOut bank idx s t
    → IsCounted t
WroteOut-IsCounted bank idx s t h v lt own nz w =
    let lpn = ((s.caches.banks bank).ents idx).lpn in
    let ppn = get_active_ppn s.pgmap bank 1 in
    let page = v.page in
    let target : ppn / pages_per_vblk < vblks_per_bank = ground arith in
    record {
      exact = λ b k b_lt k_lt skip.
          let old = get_ppn s.pgmap lpn in
          let old_in = h.inside lpn lt in
          let was = stands_in s.pgmap b k lpn in
          let now = stands_in t.pgmap b k lpn in
          let here = w.place lpn in
          let room = v.room in
          exact_after (get_vcount s.blkmgr b k) (get_vcount t.blkmgr b k) (mapped_count s.pgmap b k)
            (mapped_count t.pgmap b k) was now (h.exact b k b_lt k_lt refl)
            (mapped_count_change s.pgmap t.pgmap lpn ppn b k lt w.place)
            (w.counts b k
              ∙ rw
                  (
                    same_cell b k bank (ppn / pages_per_vblk) k_lt target,
                    same_cell b k bank (old / pages_per_vblk) k_lt old_in,
                    here,
                    ==_refl lpn,
                  )
                  (ground arith))
            (λ t. mapped_count_pos s.pgmap b k lpn lt t) (λ n. ground arith);
      inside = λ q q_lt. let old = h.inside q q_lt in rw (w.place q) (ground arith);
    }
