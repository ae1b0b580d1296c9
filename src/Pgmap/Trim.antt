-- ===== src/Pgmap/Trim.antt =====
-- What a trim does to the page map.
use optr_jasmine.Prelude.{
  ℕ, zero, suc, ◌+◌, ◌-◌, ◌≡◌, add32, ◌∙◌, arith, ◌&&◌, if◌then◌else◌, leb, ltb, for_range,
}
use optr_jasmine.Pgmap.{Pgmap, set_ppn, get_ppn, pgmap_trim}

trim_range : ℕ → ℕ → Pgmap → Pgmap
trim_range n lpn m = for_range n lpn (λ p s. set_ppn p 0 s) m

trim_step :
    (p n lpn : ℕ) (m : Pgmap)
    → get_ppn (trim_range n (lpn + 1) (set_ppn lpn 0 m)) p
      ≡ (if leb (lpn + 1) p && ltb p (lpn + 1 + n) then 0 else get_ppn (set_ppn lpn 0 m) p)
    → get_ppn (trim_range (suc n) lpn m) p
      ≡ (if leb lpn p && ltb p (lpn + suc n) then 0 else get_ppn m p)
unfolding trim_range get_ppn set_ppn for_range
trim_step p n lpn m h = h ∙ ground arith

trim_range-get_ppn :
    (n lpn : ℕ) (m : Pgmap) (p : ℕ)
    → get_ppn (trim_range n lpn m) p ≡ (if leb lpn p && ltb p (lpn + n) then 0 else get_ppn m p)
unfolding trim_range get_ppn set_ppn for_range
trim_range-get_ppn zero lpn m p = ground arith
trim_range-get_ppn (suc n) lpn m p =
    trim_step p n lpn m (trim_range-get_ppn n (lpn + 1) (set_ppn lpn 0 m) p)

-- A trim makes the pages from `lpn` up to the 32-bit sum `lpn + n` unmapped and no others: a count
-- that wraps round, as for a range without a whole page, changes nothing.
pub trim-get_ppn :
    (n lpn : ℕ) (m : Pgmap) (p : ℕ)
    → get_ppn (pgmap_trim lpn n m) p ≡ (if leb lpn p && ltb p (add32 lpn n) then 0 else get_ppn m p)
unfolding pgmap_trim trim_range
trim-get_ppn n lpn m p = trim_range-get_ppn (add32 lpn n - lpn) lpn m p ∙ ground (arith)
