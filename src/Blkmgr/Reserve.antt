-- ===== src/Blkmgr/Reserve.antt =====
-- The reserve mark: which blocks a commit closes to garbage collection.
use optr_jasmine.Prelude.{
  ℕ, ◌+◌, ◌-◌, ◌*◌, ◌<◌, ◌≡◌, arith, refl, ◌==◌, if◌then◌else◌, ◌∙◌, ap, for_range, for_range_inv,
  Bool-cases, inl, inr, sub32, add32, update,
}
use native.Mathlib.Nat.{mod-eq_of_lt, add-mod_right}
use optr_jasmine.Config.{num_banks, num_regions}
use optr_jasmine.Blkmgr.Loops.{for_range-update}
use optr_jasmine.Blkmgr.Ring.{IsRing}
use optr_jasmine.Blkmgr.{
  Blkmgr, BankBlks, BlkList, blk_list, push_rsv, push_rsv_list, n_cur_rsv_blks, bank_rsv_blks,
  ring_distance,
}

push_lists : BankBlks → BankBlks
push_lists b = record b {
  blk_lists =
      for_range num_regions 0 (λ region lists. update lists region (push_rsv_list (lists region)))
        b.blk_lists;
}

blk_list-push_rsv :
    (m : Blkmgr) (any bank region : ℕ)
    → bank < num_banks
    → region < num_regions
    → blk_list (push_rsv m any) bank region ≡ push_rsv_list (blk_list m bank region)
unfolding push_rsv push_lists
blk_list-push_rsv m any bank region hb hr =
    ap (λ (b : BankBlks). b.blk_lists region) banks_of ∙ lists_of
  where
    banks_of : (push_rsv m any).banks bank ≡ push_lists (m.banks bank)
    banks_of = for_range-update push_lists num_banks 0 m.banks bank ∙ ground arith

    lists_of : (push_lists (m.banks bank)).blk_lists region ≡ push_rsv_list (blk_list m bank region)
    lists_of =
        for_range-update push_rsv_list num_regions 0 (m.banks bank).blk_lists region ∙ ground arith

before_head :
    (l : BlkList)
    → IsRing l
    → (push_rsv_list l).rsv ≡ (if l.head == 0 then l.size - 1 else l.head - 1)
unfolding push_rsv_list
before_head l v = elim (Bool-cases (l.head == 0)) [
  | inl z ↦
      let e : sub32 (add32 l.head l.size) 1 ≡ l.size - 1 = ground (arith, v.small, v.head_in) in
      rw (z, e) (mod-eq_of_lt {n = l.size - 1} {m = l.size} (omega (arith, v.head_in)))
  | inr p ↦
      let e : sub32 (add32 l.head l.size) 1 ≡ l.head - 1 + l.size =
        ground (arith, v.small, v.head_in) in
      rw (p, e, add-mod_right)
        (mod-eq_of_lt {n = l.head - 1} {m = l.size} (omega (arith, v.head_in)))
]

set_rsv-IsRing : (l : BlkList) (r : ℕ) → IsRing l → IsRing (record l { rsv = r })
set_rsv-IsRing l r v = record {
  small = v.small;
  head_in = v.head_in;
  tail_in = v.tail_in;
  free_in = v.free_in;
  gap = v.gap;
}

push_rsv_list-IsRing :
    (l : BlkList)
    → IsRing l
    → let l' = push_rsv_list l in
      (ring_distance l'.rsv l'.head l'.size ≡ 1) × (l'.rsv < l'.size) × IsRing l'
unfolding push_rsv_list
push_rsv_list-IsRing l v = rw (before_head l v) (elim (Bool-cases (l.head == 0)) [
  | inl z ↦
      rw z (ground (arith, v.small, v.head_in), omega (arith, v.head_in), set_rsv-IsRing l _ v)
  | inr p ↦
      rw p (ground (arith, v.small, v.head_in), omega (arith, v.head_in), set_rsv-IsRing l _ v)
])

-- `push_rsv`, which every commit calls, marks in each ring of each bank the place just before the
-- head: exactly one used block, the one being written, stays closed to garbage collection, and the
-- list is still a ring.
pub push_rsv_distance :
    (m : Blkmgr) (any bank region : ℕ)
    → bank < num_banks
    → region < num_regions
    → IsRing (blk_list m bank region)
    → let l = blk_list (push_rsv m any) bank region in
      (ring_distance l.rsv l.head l.size ≡ 1) × (l.rsv < l.size) × IsRing l
push_rsv_distance m any bank region hb hr v =
    rw (blk_list-push_rsv m any bank region hb hr) (push_rsv_list-IsRing (blk_list m bank region) v)

bank_rsv_blks-push_rsv :
    (m : Blkmgr) (any bank n : ℕ)
    → bank < num_banks
    → ((region : ℕ) → region < num_regions → IsRing (blk_list m bank region))
    → n ≡ bank * num_regions
    → bank_rsv_blks (push_rsv m any) bank n ≡ (bank + 1) * num_regions
unfolding bank_rsv_blks
bank_rsv_blks-push_rsv m any bank n hb rings e = omega (
  arith,
  for_range_inv (λ region k. k ≡ bank * num_regions + region)
      (λ region k.
        let l = blk_list (push_rsv m any) bank region in
        add32 k (ring_distance l.rsv l.head l.size))
      num_regions
      (λ region k hr e'.
        rw ((push_rsv_distance m any bank region hb hr (rings region hr)).0) (omega arith))
      num_regions 0 n refl (omega arith),
)

-- `n_cur_rsv_blks` counts the closed blocks of all rings: after `push_rsv` there is one for each.
pub n_cur_rsv_blks-push_rsv :
    (m : Blkmgr) (any : ℕ)
    → ((bank region : ℕ)
        → bank < num_banks
        → region < num_regions
        → IsRing (blk_list m bank region))
    → n_cur_rsv_blks (push_rsv m any) ≡ num_banks * num_regions
unfolding n_cur_rsv_blks
n_cur_rsv_blks-push_rsv m any rings =
    for_range_inv (λ bank n. n ≡ bank * num_regions)
      (λ bank n. bank_rsv_blks (push_rsv m any) bank n) num_banks
      (λ bank n hb e. bank_rsv_blks-push_rsv m any bank n hb (λ r hr. rings bank r hb hr) e)
      num_banks 0 0 refl refl
