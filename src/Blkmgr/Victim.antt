-- ===== src/Blkmgr/Victim.antt =====
-- The victim of garbage collection: the block with the fewest valid pages among those open to it,
-- moved to the tail of the ring.
use optr_jasmine.Prelude.{
  ℕ, zero, suc, ◌+◌, ◌-◌, ◌%◌, ◌≤◌, ◌<◌, ◌≡◌, ◌≢◌, ◌⊎◌, inl, inr, arith, refl, ◌∙◌, sym, Option,
  some, true, false, ◌==◌, ltb, if◌then◌else◌, Bool-cases, inc32,
}
use optr_jasmine.Config.{vblks_per_bank, pages_per_vblk}
use optr_jasmine.Stat.{Stats, stat_total_gc_blks, stat_constrained_gc_blks}
use optr_jasmine.Blkmgr.Ring.{next_pos}
use optr_jasmine.Blkmgr.{
  Blkmgr, blk_list, get_blk_id, get_vcount, set_blk_id, scan_victim, get_victim_blk, ring_distance,
}

-- The place `j` steps from `i` in a ring.
abbrev pub pos : ℕ → ℕ → ℕ → ℕ
pos size i j = if ltb (i + j) size then i + j else i + j - size

module _ (m : Blkmgr) (bank region : ℕ) where
  abbrev pub at_pos : ℕ → ℕ
  at_pos i = get_vcount m bank (get_blk_id m bank region i)

  -- The result of a scan of `k` places from `i` on.
  record Scanned (size k i idx vcount_min : ℕ) (out : Option ℕ) : Type 0 where
    found : ℕ
    result : out ≡ some found
    low : at_pos found ≤ vcount_min
    origin : (found ≡ idx) ⊎ ((j : ℕ) × (j < k) × (found ≡ pos size i j))
    least : (j : ℕ) → j < k → at_pos found ≤ at_pos (pos size i j)

  pos-suc :
      (size i j : ℕ)
      → i < size
      → j < size
      → pos size i (suc j) ≡ pos size (if i + 1 == size then 0 else i + 1) j
  pos-suc size i j h g = ground arith

  -- One more place in front of a scan that has compared it with the best one so far.
  Scanned-step :
      (size k i idx vm idx' vm' : ℕ) (out : Option ℕ)
      → i < size
      → k < size
      → ((idx' ≡ i) × (vm' ≡ at_pos i)) ⊎ ((idx' ≡ idx) × (vm' ≡ vm))
      → vm' ≤ vm
      → vm' ≤ at_pos i
      → Scanned size k (if i + 1 == size then 0 else i + 1) idx' vm' out
      → Scanned size (suc k) i idx vm out
  Scanned-step size k i idx vm idx' vm' out hi hk better lo here s = record {
    found = s.found;
    result = s.result;
    low = omega (arith, s.low);
    origin = origin_step s.origin better;
    least = elim [
      | zero ↦ λ _. let e : pos size i 0 ≡ i = ground arith in rw e (omega (arith, s.low))
      | suc j ↦ λ h. rw (pos-suc size i j hi (omega arith)) (s.least j (omega arith))
    ];
  }
    where
      origin_step :
          ((s.found ≡ idx')
            ⊎ ((j : ℕ) × (j < k) × (s.found ≡ pos size (if i + 1 == size then 0 else i + 1) j)))
          → ((idx' ≡ i) × (vm' ≡ at_pos i)) ⊎ ((idx' ≡ idx) × (vm' ≡ vm))
          → (s.found ≡ idx) ⊎ ((j : ℕ) × (j < suc k) × (s.found ≡ pos size i j))
      origin_step (inl e) (inl b) = inr (0, omega arith, ground arith)
      origin_step (inl e) (inr b) = inl (e ∙ b.0)
      origin_step (inr (j, h, e)) b =
          inr (suc j, omega arith, e ∙ sym (pos-suc size i j hi (omega arith)))

  scan_victim-Scanned :
      (fuel k i idx vcount_min : ℕ)
      → let l = blk_list m bank region in
        l.size ≤ vblks_per_bank
        → i < l.size
        → l.rsv < l.size
        → k < l.size
        → ((i + k ≡ l.rsv) ⊎ (i + k ≡ l.rsv + l.size))
        → k < fuel
        → at_pos idx ≡ vcount_min
        → ((j : ℕ) → j < l.size → at_pos j < pages_per_vblk)
        → Scanned l.size k i idx vcount_min (scan_victim fuel m bank region i idx vcount_min)
  unfolding scan_victim
  scan_victim-Scanned zero k i idx vm small hi hr hk gap hf hm valid = absurd (omega arith)
  scan_victim-Scanned (suc fuel) zero i idx vm small hi hr hk gap hf hm valid =
      let e : (i == (blk_list m bank region).rsv) ≡ true = ground arith in
      rw e (record {
        found = idx;
        result = refl;
        low = omega arith;
        origin = inl refl;
        least = λ j h. elim h [ ];
      })
  scan_victim-Scanned (suc fuel) (suc k) i idx vm small hi hr hk gap hf hm valid =
      let n : (i == (blk_list m bank region).rsv) ≡ false = ground arith in
      let v : ltb (at_pos i) pages_per_vblk ≡ true = ground (arith, valid i hi) in
      rw (n, v, next_pos i _ hi small)
        (elim (Bool-cases (ltb (at_pos i) vm)) [
          | inl b ↦ rw b (
              Scanned-step _ k i idx vm i (at_pos i) _ hi (omega arith) (inl (refl, refl))
                (ground arith) (omega arith)
                (scan_victim-Scanned fuel k _ i (at_pos i) small (ground arith) hr (omega arith)
                  (ground arith) (omega arith) refl valid))
          | inr b ↦ rw b (
              Scanned-step _ k i idx vm idx vm _ hi (omega arith) (inr (refl, refl)) (omega arith)
                (ground arith)
                (scan_victim-Scanned fuel k _ idx vm small (ground arith) hr (omega arith)
                  (ground arith) (omega arith) hm valid))
        ])

  -- A pick among the `k` blocks from the tail on: the place it was found at, the block, and the
  -- state after the block at the tail and it have changed places.
  pub record Picks (k : ℕ) (st : Stats) : Type 0 where
    pub idx : ℕ
    pub after : Blkmgr
    pub stats : Stats
    pub result : get_victim_blk m st bank region ≡ some (get_blk_id m bank region idx, after, stats)
    pub steps : ℕ
    pub open_to_gc : steps < k
    pub place : idx ≡ pos (blk_list m bank region).size (blk_list m bank region).tail steps
    pub least :
        (j : ℕ)
        → j < k
        → at_pos idx ≤ at_pos (pos (blk_list m bank region).size (blk_list m bank region).tail j)
    pub at_tail :
        get_blk_id after bank region (blk_list m bank region).tail ≡ get_blk_id m bank region idx
    pub at_place :
        get_blk_id after bank region idx ≡ get_blk_id m bank region (blk_list m bank region).tail
    pub elsewhere :
        (i : ℕ)
        → i ≢ idx
        → i ≢ (blk_list m bank region).tail
        → get_blk_id after bank region i ≡ get_blk_id m bank region i
    pub lists : after.banks ≡ m.banks
    pub counts : after.vcounts ≡ m.vcounts

  swapped : ℕ → Blkmgr
  swapped idx =
      let l = blk_list m bank region in
      set_blk_id (set_blk_id m bank region l.tail (get_blk_id m bank region idx)) bank region idx
        (get_blk_id m bank region l.tail)

  swapped_ids :
      (idx i : ℕ)
      → ((j : ℕ) → get_blk_id m bank region j < 65536)
      → get_blk_id (swapped idx) bank region i ≡ (
          if i == idx
          then get_blk_id m bank region (blk_list m bank region).tail
          else if i == (blk_list m bank region).tail
          then get_blk_id m bank region idx
          else get_blk_id m bank region i)
  unfolding swapped set_blk_id get_blk_id
  swapped_ids idx i ids = ground (arith, ids idx, ids (blk_list m bank region).tail)

  first_scan :
      (k : ℕ)
      → let l = blk_list m bank region in
        l.size ≤ vblks_per_bank
        → l.tail < l.size
        → l.rsv < l.size
        → k < l.size
        → ((l.tail + suc k ≡ l.rsv) ⊎ (l.tail + suc k ≡ l.rsv + l.size))
        → ((j : ℕ) → j < l.size → at_pos j < pages_per_vblk)
        → Scanned l.size
            (suc k)
            l.tail
            l.tail
            (at_pos l.tail)
            (scan_victim (l.size + 1) m bank region (inc32 l.tail % l.size) l.tail (at_pos l.tail))
  first_scan k small ht hr hk gap valid =
      let l = blk_list m bank region in
      rw (next_pos l.tail _ ht small) (
        Scanned-step l.size k l.tail l.tail (at_pos l.tail) l.tail (at_pos l.tail) _ ht hk
          (inr (refl, refl)) (omega arith) (omega arith)
          (scan_victim-Scanned (l.size + 1) k _ l.tail (at_pos l.tail) small (ground arith) hr hk
            (ground arith) (omega arith) refl valid))

  scan_place :
      (size k tail vm : ℕ) (out : Option ℕ) (s : Scanned size (suc k) tail tail vm out)
      → tail < size
      → (j : ℕ) × (j < suc k) × (s.found ≡ pos size tail j)
  scan_place size k tail vm out s h = go s.origin
    where
      go :
          ((s.found ≡ tail) ⊎ ((j : ℕ) × (j < suc k) × (s.found ≡ pos size tail j)))
          → (j : ℕ) × (j < suc k) × (s.found ≡ pos size tail j)
      go (inl e) = (0, omega arith, ground arith)
      go (inr found) = found

  -- With `k + 1` blocks open to garbage collection, from the tail of the ring to its reserve mark,
  -- and every count below 128, the scan stops, and its victim has no more valid pages than any of
  -- them. It is one of them, and it changes places with the block at the tail; no other entry of
  -- the list, no ring and no count changes.
  pub victim_blk-Picks :
      (k : ℕ) (st : Stats)
      → let l = blk_list m bank region in
        l.size ≤ vblks_per_bank
        → l.tail < l.size
        → l.rsv < l.size
        → k < l.size
        → ((l.tail + suc k ≡ l.rsv) ⊎ (l.tail + suc k ≡ l.rsv + l.size))
        → ((j : ℕ) → j < l.size → at_pos j < pages_per_vblk)
        → ((i : ℕ) → get_blk_id m bank region i < 65536)
        → Picks (suc k) st
  unfolding get_victim_blk swapped set_blk_id
  victim_blk-Picks k st small ht hr hk gap valid ids =
      let l = blk_list m bank region in
      let s = first_scan k small ht hr hk gap valid in
      let (j, inside, place) = scan_place l.size k l.tail (at_pos l.tail) _ s ht in
      let c : ltb (at_pos l.tail) pages_per_vblk ≡ true = ground (arith, valid l.tail ht) in
      record {
        idx = s.found;
        after = swapped s.found;
        stats =
            stat_constrained_gc_blks (ring_distance l.rsv l.head l.size)
              (stat_total_gc_blks (ring_distance l.tail l.head l.size) st);
        result = rw (c, s.result);
        steps = j;
        open_to_gc = inside;
        place = place;
        least = s.least;
        at_tail = swapped_ids s.found l.tail ids ∙ ground arith;
        at_place = swapped_ids s.found s.found ids ∙ ground arith;
        elsewhere = λ i p q. swapped_ids s.found i ids ∙ ground arith;
        lists = refl;
        counts = refl;
      }

-- The choice of the victim changes no count and no bank.
pub victim_blk-vcounts :
    (m : Blkmgr) (st : Stats) (bank region : ℕ) {vt_blk : ℕ} {m' : Blkmgr} {st' : Stats}
    → get_victim_blk m st bank region ≡ some (vt_blk, m', st')
    → (m'.vcounts ≡ m.vcounts) × (m'.banks ≡ m.banks)
unfolding get_victim_blk set_blk_id
victim_blk-vcounts m st bank region e = ground (arith, e)
