-- ===== src/Blkmgr/Vcount.antt =====
-- The counts of valid pages: when a change succeeds, and what it changes.
use optr_jasmine.Prelude.{
  ℕ, ◌+◌, ◌-◌, ◌*◌, ◌≤◌, ◌<◌, ◌≡◌, refl, ap, sym, arith, true, false, ◌||◌, some, if◌then◌else◌,
  ltb, leb, ◌==◌, Bool-cases, inl, inr, update, inc32, dec32, u16,
}
use optr_jasmine.Config.{pages_per_vblk, vblks_per_bank, vc_max}
use optr_jasmine.Blkmgr.{Blkmgr, get_vcount, set_vcount, dec_vcount, inc_vcount}

-- The block manager with the count `v` for the block.
unfoldable pub with_vcount : Blkmgr → ℕ → ℕ → ℕ → Blkmgr
with_vcount m bank blk v = record m { vcounts = update m.vcounts (bank * vblks_per_bank + blk) v }

pub get_vcount-with_vcount :
    (m : Blkmgr) (bank blk v b k : ℕ)
    → get_vcount (with_vcount m bank blk v) b k
      ≡ (if b * vblks_per_bank + k == bank * vblks_per_bank + blk then v else get_vcount m b k)
unfolding get_vcount with_vcount
get_vcount-with_vcount m bank blk v b k = refl

pub set_vcount_ok :
    (m : Blkmgr) (bank blk v : ℕ)
    → v ≤ pages_per_vblk
    → set_vcount m bank blk v ≡ some (with_vcount m bank blk v)
unfolding set_vcount with_vcount
set_vcount_ok m bank blk v h =
    let same : u16 v ≡ v = omega arith in
    let ok : (v == vc_max || leb v pages_per_vblk) ≡ true = ground (arith, h) in rw (same, ok) refl

pub dec_vcount_ok :
    (m : Blkmgr) (bank blk : ℕ)
    → 0 < get_vcount m bank blk
    → get_vcount m bank blk ≤ pages_per_vblk
    → dec_vcount m bank blk ≡ some (with_vcount m bank blk (get_vcount m bank blk - 1))
unfolding dec_vcount
dec_vcount_ok m bank blk p h =
    let v = get_vcount m bank blk in
    let less : dec32 v ≡ v - 1 = omega arith in
    let nz : (v == 0) ≡ false = ground arith in
    rw (nz, less) (set_vcount_ok m bank blk (v - 1) (omega arith))

pub inc_vcount_ok :
    (m : Blkmgr) (bank blk : ℕ)
    → get_vcount m bank blk + 1 < pages_per_vblk
    → inc_vcount m bank blk ≡ some (with_vcount m bank blk (get_vcount m bank blk + 1))
unfolding inc_vcount
inc_vcount_ok m bank blk h =
    let v = get_vcount m bank blk in
    let more : inc32 v ≡ v + 1 = omega arith in
    let room : ltb (v + 1) pages_per_vblk ≡ true = ground (arith, h) in
    rw (more, room) (set_vcount_ok m bank blk (v + 1) (omega arith))

-- A count taken one down, at every place.
pub get_vcount_down :
    (m : Blkmgr) (bank blk b k : ℕ)
    → get_vcount (with_vcount m bank blk (get_vcount m bank blk - 1)) b k ≡ (
        if b * vblks_per_bank + k == bank * vblks_per_bank + blk
        then get_vcount m b k - 1
        else get_vcount m b k)
unfolding get_vcount with_vcount
get_vcount_down m bank blk b k =
    elim (Bool-cases (b * vblks_per_bank + k == bank * vblks_per_bank + blk)) [
      | inl e ↦
          let e' : b * vblks_per_bank + k ≡ bank * vblks_per_bank + blk = ground arith in
          rw e (ap (λ i. m.vcounts i - 1) (sym e'))
      | inr ne ↦ rw ne refl
    ]

pub get_vcount_up :
    (m : Blkmgr) (bank blk b k : ℕ)
    → get_vcount (with_vcount m bank blk (get_vcount m bank blk + 1)) b k ≡ (
        if b * vblks_per_bank + k == bank * vblks_per_bank + blk
        then get_vcount m b k + 1
        else get_vcount m b k)
unfolding get_vcount with_vcount
get_vcount_up m bank blk b k =
    elim (Bool-cases (b * vblks_per_bank + k == bank * vblks_per_bank + blk)) [
      | inl e ↦
          let e' : b * vblks_per_bank + k ≡ bank * vblks_per_bank + blk = ground arith in
          rw e (ap (λ i. m.vcounts i + 1) (sym e'))
      | inr ne ↦ rw ne refl
    ]
