-- ===== src/Vst/Ram/Versions.antt =====
-- What the host wrote passes the check when it reads it back.
use optr_jasmine.Prelude.{
  ℕ, zero, suc, ◌+◌, ◌-◌, ◌<◌, ◌≡◌, inl, inr, refl, ◌∙◌, arith, true, ◌&&◌, if◌then◌else◌, ◌==◌,
  Bool-cases, inc32, update, update_self, subst, leb, ltb,
}
use optr_jasmine.Vst.Page.{VPage, Sector, tag_page}
use optr_jasmine.Vst.Ram.{HostRam, send_page, fill, chk_lpn_consistent}

-- Sector `lba + k` stands in place `s + k` with its version, for each `k` below `n`.
abbrev Holds : ℕ → ℕ → ℕ → (ℕ → ℕ) → VPage → Type 0
Holds n lba s vers pp =
    (k : ℕ) → k < n → pp.sects (s + k) ≡ record { lba = lba + k; ver = vers (lba + k) }

fill_outside :
    (n lba s : ℕ) (vers : ℕ → ℕ) (pp : VPage) (i j : ℕ)
    → i < s
    → j < lba
    → ((fill n lba s (vers, pp)).1.sects i ≡ pp.sects i) × ((fill n lba s (vers, pp)).0 j ≡ vers j)
unfolding fill
fill_outside zero lba s vers pp i j p q = (refl, refl)
fill_outside (suc n) lba s vers pp i j p q =
    let ver = inc32 (vers lba) in
    let (e, e') =
      fill_outside n (lba + 1) (s + 1) (update vers lba ver)
        (record pp { sects = update pp.sects s (record { lba = lba; ver = ver }) }) i j
        (omega arith) (omega arith) in
    (e ∙ ground arith, e' ∙ ground arith)

-- The sectors of one page that the host fills.
fill-Holds :
    (n lba s : ℕ) (vers : ℕ → ℕ) (pp : VPage)
    → let (vers', pp') = fill n lba s (vers, pp) in Holds n lba s vers' pp'
unfolding fill
fill-Holds zero lba s vers pp k h = absurd (omega arith)
fill-Holds (suc n) lba s vers pp k h =
    let ver = inc32 (vers lba) in
    let vers' = update vers lba ver in
    let new : Sector = record { lba = lba; ver = ver } in
    let pp' : VPage = record pp { sects = update pp.sects s new } in
    elim (Bool-cases (k == 0)) [
      | inl z ↦
          let e : k ≡ 0 = ground arith in
          let (p, q) =
            fill_outside n (lba + 1) (s + 1) vers' pp' s lba (omega arith) (omega arith) in
          let zs : s + 0 ≡ s = omega arith in
          let zl : lba + 0 ≡ lba = omega arith in rw (e, zs, zl, p, q) (ground arith)
      | inr nz ↦
          let es : s + 1 + (k - 1) ≡ s + k = ground arith in
          let el : lba + 1 + (k - 1) ≡ lba + k = ground arith in
          let rest = fill-Holds n (lba + 1) (s + 1) vers' pp' (k - 1) (ground arith) in
          rw (← es, ← el) rest
    ]

Holds-chk :
    (n lba s : ℕ) (vers : ℕ → ℕ) (pp : VPage)
    → Holds n lba s vers pp
    → chk_lpn_consistent n pp lba s vers ≡ true
unfolding chk_lpn_consistent
Holds-chk zero lba s vers pp h = refl
Holds-chk (suc n) lba s vers pp h =
    let here = h 0 (omega arith) in
    let zs : s + 0 ≡ s = omega arith in
    let zl : lba + 0 ≡ lba = omega arith in
    let here' : pp.sects s ≡ record { lba = lba; ver = vers lba } =
      subst (λ x. pp.sects x ≡ record { lba = lba; ver = vers lba }) zs
        (subst (λ x. pp.sects (s + 0) ≡ record { lba = x; ver = vers x }) zl here) in
    let rest = Holds-chk n (lba + 1) (s + 1) vers pp (λ k b.
      let es : s + 1 + k ≡ s + (k + 1) = omega arith in
      let el : lba + 1 + k ≡ lba + (k + 1) = omega arith in
      rw (es, el) (h (k + 1) (omega arith))) in
    ground (arith, here', rest)

fill-vers :
    (n lba s : ℕ) (vers : ℕ → ℕ) (pp : VPage) (j : ℕ)
    → (fill n lba s (vers, pp)).0 j
      ≡ (if leb lba j && ltb j (lba + n) then inc32 (vers j) else vers j)
unfolding fill
fill-vers zero lba s vers pp j = ground arith
fill-vers (suc n) lba s vers pp j =
    let ver = inc32 (vers lba) in
    let vers' = update vers lba ver in
    fill-vers n (lba + 1) (s + 1) vers'
      (record pp { sects = update pp.sects s (record { lba = lba; ver = ver }) }) j
    ∙ elim (Bool-cases (j == lba)) [
      | inl e ↦ let e' : j ≡ lba = ground arith in rw e' (ground arith)
      | inr ne ↦ ground arith
    ]

-- One page of `send_to_wbuf`: the versions of its sectors, and of no others, go up by one, and the
-- page that stands in the write buffer then passes the check of `recv_from_rbuf` for these sectors
-- against the new versions, whatever the page and the versions were before.
pub send_page-chk :
    (lba s m : ℕ) (h : HostRam)
    → let h' = send_page lba s m h in
      (chk_lpn_consistent m (h'.wbuf.pages h.wbuf.ptr) lba s h'.vers ≡ true)
      × ((j : ℕ)
          → h'.vers j ≡ (if leb lba j && ltb j (lba + m) then inc32 (h.vers j) else h.vers j))
unfolding send_page
send_page-chk lba s m h =
    let pp = tag_page (h.wbuf.pages h.wbuf.ptr) in
    let r = fill m lba s (h.vers, pp) in
    let there = update_self h.wbuf.pages h.wbuf.ptr r.1 in
    (
      rw there (Holds-chk m lba s r.0 r.1 (fill-Holds m lba s h.vers pp)),
      fill-vers m lba s h.vers pp,
    )
