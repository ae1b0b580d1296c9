-- ===== src/Blkmgr/Ring.antt =====
-- The block list as a ring: what is free, and what taking a block changes.
use optr_jasmine.Prelude.{
  ℕ, ◌+◌, ◌≤◌, ◌<◌, ◌≡◌, ◌⊎◌, arith, ◌==◌, if◌then◌else◌, Bool-cases, inl, inr, dec32, inc32, refl,
  ◌%◌,
}
use native.Mathlib.Nat.{mod-eq_of_lt, mod_self}
use optr_jasmine.Config.{vblks_per_bank}
use optr_jasmine.Blkmgr.Fields.{fields, blk_list-on_bank}
use optr_jasmine.Blkmgr.{Blkmgr, BlkList, blk_list, get_blk_id, get_and_inc_active_blk}

-- The free blocks are the `free` ones from `head` on, and `tail` is the first one behind them.
pub record IsRing (l : BlkList) : Type 0 where
  pub small : l.size ≤ vblks_per_bank
  pub head_in : l.head < l.size
  pub tail_in : l.tail < l.size
  pub free_in : l.free ≤ l.size
  pub gap : (l.tail ≡ l.head + l.free) ⊎ (l.tail + l.size ≡ l.head + l.free)

active_blk-list :
    (m : Blkmgr) (bank region : ℕ)
    → let l = blk_list m bank region in
      blk_list (get_and_inc_active_blk m bank region).1 bank region
      ≡ record l { free = dec32 l.free; head = inc32 l.head % l.size }
unfolding get_and_inc_active_blk
active_blk-list m bank region = simp (
  fields,
  blk_list-on_bank bank (λ b. record b { free_blk_cnt = dec32 b.free_blk_cnt }) m bank region refl,
)

active_blk-id :
    (m : Blkmgr) (bank region : ℕ)
    → (get_and_inc_active_blk m bank region).0
      ≡ get_blk_id m bank region (blk_list m bank region).head
unfolding get_and_inc_active_blk get_blk_id
active_blk-id m bank region = simp (
  fields,
  blk_list-on_bank bank (λ b. record b { free_blk_cnt = dec32 b.free_blk_cnt }) m bank region refl,
)

-- One step round a ring.
pub next_pos :
    (i size : ℕ)
    → i < size
    → size ≤ vblks_per_bank
    → inc32 i % size ≡ (if i + 1 == size then 0 else i + 1)
next_pos i size h small = elim (Bool-cases (i + 1 == size)) [
  | inl e ↦ let q : inc32 i ≡ size = ground arith in rw (e, q) (mod_self size)
  | inr n ↦
      let q : inc32 i ≡ i + 1 = omega arith in
      rw (n, q) (mod-eq_of_lt {n = i + 1} {m = size} (ground arith))
]

advance-IsRing :
    (l : BlkList)
    → IsRing l
    → 0 < l.free
    → IsRing (record l { free = dec32 l.free; head = inc32 l.head % l.size })
advance-IsRing l v h = record {
  small = v.small;
  head_in = ground (arith, next_pos l.head l.size v.head_in v.small);
  tail_in = v.tail_in;
  free_in = omega arith;
  gap = ground (arith, next_pos l.head l.size v.head_in v.small);
}

-- Taking a block from a region that has a free one returns the block at the head of its ring, makes
-- the ring's free part one block shorter and keeps it a ring; the tail and the reserve mark stay.
pub active_blk-IsRing :
    (m : Blkmgr) (bank region : ℕ)
    → IsRing (blk_list m bank region)
    → 0 < (blk_list m bank region).free
    → let (blk, m') = get_and_inc_active_blk m bank region in
      (blk ≡ get_blk_id m bank region (blk_list m bank region).head)
      × IsRing (blk_list m' bank region)
      × ((blk_list m' bank region).free + 1 ≡ (blk_list m bank region).free)
      × ((blk_list m' bank region).tail ≡ (blk_list m bank region).tail)
      × ((blk_list m' bank region).rsv ≡ (blk_list m bank region).rsv)
active_blk-IsRing m bank region v h = rw (active_blk-list m bank region) (
  active_blk-id m bank region,
  advance-IsRing _ v h,
  omega (arith, v.small, v.free_in),
  refl,
  refl,
)
