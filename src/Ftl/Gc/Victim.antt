-- ===== src/Ftl/Gc/Victim.antt =====
-- ftl_optr/blkmgr.c: the loop of `garbage_collection` over the pages of its victim.
use optr_jasmine.Prelude.{
  ℕ, zero, suc, ◌+◌, ◌*◌, ◌/◌, ◌%◌, ◌≤◌, ◌<◌, ◌≡◌, ◌⊎◌, inl, inr, refl, arith, Bool, true, false,
  some, if◌then◌else◌, ◌==◌,
}
use optr_jasmine.Config.{num_banks, pages_per_vblk, vblks_per_bank, sectors_per_page}
use optr_jasmine.Blkmgr.{get_vcount}
use optr_jasmine.Pgmap.{get_ppn, get_active_ppn}
use optr_jasmine.Vst.Page.{VPage}
use optr_jasmine.Vst.Flash.{vst_read_page}
use optr_jasmine.Vst.Flash.Access.{Agrees}
use optr_jasmine.Ftl.{Ftl}
use optr_jasmine.Ftl.Record.Mapents.{max_mapents}
use optr_jasmine.Ftl.Gc.Moves.{CanMove, gc_spare}

-- The page of the block is valid: the map has its logical page there.
abbrev pub is_valid : Ftl → ℕ → (ℕ → ℕ) → ℕ → Bool
is_valid s vt_blk lpns i = get_ppn s.pgmap (lpns i) == vt_blk * pages_per_vblk + i

-- The valid pages among the first ones.
unfoldable pub count_valid : Ftl → ℕ → (ℕ → ℕ) → ℕ → ℕ
count_valid s vt_blk lpns zero = 0
count_valid s vt_blk lpns (suc i) =
    count_valid s vt_blk lpns i + (if is_valid s vt_blk lpns i then 1 else 0)

pub count_valid-add :
    (s : Ftl) (vt_blk : ℕ) (lpns : ℕ → ℕ) (i : ℕ)
    → count_valid s vt_blk lpns (i + 1)
      ≡ count_valid s vt_blk lpns i + (if is_valid s vt_blk lpns i then 1 else 0)
unfolding count_valid
count_valid-add s vt_blk lpns i = let e : i + 1 ≡ suc i = omega arith in rw e refl

pub count_valid_le :
    (s : Ftl) (vt_blk : ℕ) (lpns : ℕ → ℕ) (i d : ℕ)
    → count_valid s vt_blk lpns i ≤ count_valid s vt_blk lpns (d + i)
unfolding count_valid
count_valid_le s vt_blk lpns i zero = let e : 0 + i ≡ i = omega arith in rw e (omega arith)
count_valid_le s vt_blk lpns i (suc d) =
    let ih = count_valid_le s vt_blk lpns i d in
    let e : suc d + i ≡ suc (d + i) = omega arith in rw e (omega arith)

-- When the open block of region 1 can take every valid page of the victim.
pub record HasRoom (bank vt_blk : ℕ) (lpns : ℕ → ℕ) (s : Ftl) : Type 0 where
  pub bank_ok : bank < num_banks
  pub victim : vt_blk < vblks_per_bank
  pub other : ((get_active_ppn s.pgmap bank 1 / pages_per_vblk) == vt_blk) ≡ false
  pub target : get_active_ppn s.pgmap bank 1 / pages_per_vblk < vblks_per_bank
  pub pages :
      get_active_ppn s.pgmap bank 1 % pages_per_vblk + count_valid s vt_blk lpns 127
      < pages_per_vblk
  pub room :
      get_vcount s.blkmgr bank (get_active_ppn s.pgmap bank 1 / pages_per_vblk)
        + count_valid s vt_blk lpns 127
      ≤ pages_per_vblk
  pub log : s.chkpt.cnt_mapents + count_valid s vt_blk lpns 127 ≤ max_mapents
  pub erased :
      (p : ℕ)
      → get_active_ppn s.pgmap bank 1 % pages_per_vblk ≤ p
      → p < 127
      → (s.flash.pages bank (get_active_ppn s.pgmap bank 1 / pages_per_vblk) p).is_erased ≡ true
  pub real : s.enable_gc_opt ≡ false

-- Page `i` of the victim is kept: its logical page stands at a page of the open block that reads as
-- the victim's page did.
pub record Kept (bank vt_blk : ℕ) (lpns : ℕ → ℕ) (i n : ℕ) (s s' : Ftl) : Type 0 where
  pub from : get_active_ppn s.pgmap bank 1 ≤ get_ppn s'.pgmap (lpns i)
  pub to : get_ppn s'.pgmap (lpns i) < get_active_ppn s.pgmap bank 1 + n
  pub stored :
      (dst : VPage)
      → (r : VPage) × (vst_read_page s'.flash bank
            (get_ppn s'.pgmap (lpns i) / pages_per_vblk)
            (get_ppn s'.pgmap (lpns i) % pages_per_vblk)
            0
            sectors_per_page
            dst
          ≡ some (r, gc_spare (lpns i) s))
        × Agrees (s.flash.pages bank vt_blk i).vpage r 0 sectors_per_page

-- What the loop has done to the first `i` pages.
pub record Done (bank vt_blk : ℕ) (lpns : ℕ → ℕ) (s : Ftl) (i n : ℕ) (s' : Ftl) : Type 0 where
  pub count : n ≡ count_valid s vt_blk lpns i
  pub active : get_active_ppn s'.pgmap bank 1 ≡ get_active_ppn s.pgmap bank 1 + n
  pub vcount :
      get_vcount s'.blkmgr bank (get_active_ppn s.pgmap bank 1 / pages_per_vblk)
      ≡ get_vcount s.blkmgr bank (get_active_ppn s.pgmap bank 1 / pages_per_vblk) + n
  pub cnt : s'.chkpt.cnt_mapents ≡ s.chkpt.cnt_mapents + n
  pub real : s'.enable_gc_opt ≡ false
  pub junk : s'.flash.junk ≡ s.flash.junk
  pub source : (p : ℕ) → s'.flash.pages bank vt_blk p ≡ s.flash.pages bank vt_blk p
  pub erased :
      (p : ℕ)
      → get_active_ppn s.pgmap bank 1 % pages_per_vblk + n ≤ p
      → p < 127
      → (s'.flash.pages bank (get_active_ppn s.pgmap bank 1 / pages_per_vblk) p).is_erased ≡ true
  pub fate :
      (q : ℕ)
      → (get_ppn s'.pgmap q ≡ get_ppn s.pgmap q)
        ⊎ ((get_active_ppn s.pgmap bank 1 ≤ get_ppn s'.pgmap q)
            × (get_ppn s'.pgmap q < get_active_ppn s.pgmap bank 1 + n)
            × (k : ℕ) × (k < i)
            × (lpns k ≡ q)
            × (get_ppn s.pgmap q ≡ vt_blk * pages_per_vblk + k))
  pub kept : (k : ℕ) → k < i → is_valid s vt_blk lpns k ≡ true → Kept bank vt_blk lpns k n s s'

pub Done-start :
    (bank vt_blk : ℕ) (lpns : ℕ → ℕ) (s : Ftl)
    → HasRoom bank vt_blk lpns s
    → Done bank vt_blk lpns s 0 0 s
unfolding count_valid
Done-start bank vt_blk lpns s h = record {
  count = refl;
  active = omega arith;
  vcount = omega arith;
  cnt = omega arith;
  real = h.real;
  junk = refl;
  source = λ p. refl;
  erased = λ p from to. h.erased p (omega arith) to;
  fate = λ q. inl refl;
  kept = λ k lt v. absurd (omega arith);
}

-- A page is valid when the loop comes to it if it was at its start.
pub Done-is_valid :
    (bank vt_blk : ℕ) (lpns : ℕ → ℕ) (s : Ftl) (i n : ℕ) (s' : Ftl)
    → HasRoom bank vt_blk lpns s
    → Done bank vt_blk lpns s i n s'
    → i < 127
    → n ≤ count_valid s vt_blk lpns 127
    → is_valid s' vt_blk lpns i ≡ is_valid s vt_blk lpns i
Done-is_valid bank vt_blk lpns s i n s' h d lt le =
    let pages = h.pages in
    let other = h.other in
    elim (d.fate (lpns i)) [ inl e ↦ rw e refl | inr (from, to, k, k_lt, same, was) ↦ ground arith ]

pub Done-CanMove :
    (bank vt_blk : ℕ) (lpns : ℕ → ℕ) (s : Ftl) (i n : ℕ) (s' : Ftl)
    → HasRoom bank vt_blk lpns s
    → Done bank vt_blk lpns s i n s'
    → i < 127
    → n < count_valid s vt_blk lpns 127
    → CanMove bank vt_blk i s'
Done-CanMove bank vt_blk lpns s i n s' h d lt less =
    let a0 = get_active_ppn s.pgmap bank 1 in
    let bank_ok = h.bank_ok in
    let victim = h.victim in
    let pages = h.pages in
    let target = h.target in
    let room = h.room in
    let log = h.log in
    let blk : get_active_ppn s'.pgmap bank 1 / pages_per_vblk ≡ a0 / pages_per_vblk =
      omega (arith, d.active) in
    let page : get_active_ppn s'.pgmap bank 1 % pages_per_vblk ≡ a0 % pages_per_vblk + n =
      omega (arith, d.active) in
    record {
      from = ground arith;
      other = ground (arith, blk, h.other);
      page = ground arith;
      erased = rw (blk, page) (d.erased (a0 % pages_per_vblk + n) (omega arith) (omega arith));
      room = rw blk (omega (arith, d.vcount));
      log = omega (arith, d.cnt);
      real = d.real;
    }
