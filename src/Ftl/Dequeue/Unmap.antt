-- ===== src/Ftl/Dequeue/Unmap.antt =====
-- What `dequeue` does with the old place of the page that it writes out.
use optr_jasmine.Prelude.{
  ℕ, ◌+◌, ◌-◌, ◌*◌, ◌/◌, ◌≤◌, ◌<◌, ◌≡◌, ◌⊎◌, inl, inr, refl, arith, true, some, if◌then◌else◌, ◌==◌,
  Bool-cases, sub32,
}
use optr_jasmine.Config.{pages_per_vblk, vblks_per_bank}
use optr_jasmine.Stat.{Stats, stat_get_dist_median, stat_update_distance}
use optr_jasmine.Blkmgr.{Blkmgr, get_vcount}
use optr_jasmine.Blkmgr.Vcount.{with_vcount, get_vcount_down, dec_vcount_ok}
use optr_jasmine.Pgmap.{get_blk_time}
use optr_jasmine.Ftl.{Ftl}
use optr_jasmine.Ftl.Dequeue.{unmap_old}

-- The page is unmapped, or its block has a valid page to take off.
abbrev pub CanUnmap : Blkmgr → ℕ → ℕ → Type 0
CanUnmap m bank ppn =
    (ppn ≡ 0)
    ⊎ ((0 < get_vcount m bank (ppn / pages_per_vblk))
        × (get_vcount m bank (ppn / pages_per_vblk) ≤ pages_per_vblk))

-- The counts of valid pages once the page is taken off.
abbrev pub unmapped_count : Blkmgr → ℕ → ℕ → ℕ → ℕ → ℕ
unmapped_count m bank ppn b k =
    if ppn == 0
    then get_vcount m b k
    else if b * vblks_per_bank + k == bank * vblks_per_bank + ppn / pages_per_vblk
    then get_vcount m b k - 1
    else get_vcount m b k

-- The statistics of the update distance.
aged : ℕ → ℕ → Ftl → Stats
aged bank ppn s =
    (stat_get_dist_median (
      stat_update_distance (sub32 s.g_epoch (get_blk_time s.pgmap bank (ppn / pages_per_vblk)))
        s.stats)).1

-- `unmap_old` changes the counts and the statistics only.
pub record Unmapped (bank ppn : ℕ) (s : Ftl) : Type 0 where
  pub m : Blkmgr
  pub st : Stats
  pub result : unmap_old bank ppn s ≡ some (record s { blkmgr = m; stats = st })
  pub counts : (b k : ℕ) → get_vcount m b k ≡ unmapped_count s.blkmgr bank ppn b k

Unmapped-none : (bank ppn : ℕ) (s : Ftl) → (ppn == 0) ≡ true → Unmapped bank ppn s
unfolding unmap_old
Unmapped-none bank ppn s z = record {
  m = s.blkmgr;
  st = s.stats;
  result = rw z refl;
  counts = λ b k. rw z refl;
}

pub unmap_old-Unmapped : (bank ppn : ℕ) (s : Ftl) → CanUnmap s.blkmgr bank ppn → Unmapped bank ppn s
unfolding unmap_old aged
unmap_old-Unmapped bank ppn s (inl z) = Unmapped-none bank ppn s (ground arith)
unmap_old-Unmapped bank ppn s (inr (p, h)) = elim (Bool-cases (ppn == 0)) [
  | inl z ↦ Unmapped-none bank ppn s z
  | inr nz ↦
      let blk = ppn / pages_per_vblk in
      record {
        m = with_vcount s.blkmgr bank blk (get_vcount s.blkmgr bank blk - 1);
        st = aged bank ppn s;
        result = rw (nz, dec_vcount_ok s.blkmgr bank blk p h) refl;
        counts = λ b k. rw nz (get_vcount_down s.blkmgr bank blk b k);
      }
]

pub unmapped_le : (m : Blkmgr) (bank ppn b k : ℕ) → unmapped_count m bank ppn b k ≤ get_vcount m b k
unmapped_le m bank ppn b k = ground arith
