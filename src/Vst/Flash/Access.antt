-- ===== src/Vst/Flash/Access.antt =====
-- What the emulated flash gives back, and which writes it refuses.
use optr_jasmine.Prelude.{
  refl, ℕ, ◌+◌, ◌*◌, ◌≡◌, Bool, true, false, ◌&&◌, some, leb, minus_one, arith, is_some,
  Option-cases, Bool-cases, inl, inr, ◌==◌, ◌∙◌,
}
use optr_jasmine.Config.{sectors_per_page}
use optr_jasmine.Vst.Page.{VPage, vpage_copy, in_range, or_else, cells_per_sector}
use optr_jasmine.Vst.Flash.{
  Spare, Flash, in_geometry, vst_read_page, vst_write_page, vst_copyback_page, copyback_src,
}

pub vpage_copy-fits :
    (junk : ℕ → ℕ) (dst src : VPage) (sect n : ℕ) {r : VPage}
    → vpage_copy junk dst src sect n ≡ some r
    → leb (sect + n) sectors_per_page ≡ true
unfolding vpage_copy
vpage_copy-fits junk dst src sect n e = ground arith

-- `r` has the contents of `src` in sectors [sect, sect + n): the same kind of page, with the same
-- sectors if it is host data and the same cells if it is metadata.
pub record Agrees (src r : VPage) (sect n : ℕ) : Type 0 where
  pub kind : r.tagged ≡ src.tagged
  pub host : src.tagged ≡ true → (i : ℕ) → in_range sect n i ≡ true → r.sects i ≡ src.sects i
  pub meta :
      src.tagged ≡ false
      → (i : ℕ) → in_range (sect * cells_per_sector) (n * cells_per_sector) i ≡ true
      → or_else (λ _. minus_one) r.cells i ≡ or_else (λ _. minus_one) src.cells i

pub vpage_copy-Agrees :
    (junk : ℕ → ℕ) (dst src : VPage) (sect n : ℕ) {r : VPage}
    → vpage_copy junk dst src sect n ≡ some r
    → Agrees src r sect n
unfolding vpage_copy
vpage_copy-Agrees junk dst src sect n e = record {
  kind = ground arith;
  host = λ t i h. ground arith;
  meta = λ t i h. ground arith;
}

-- What a successful write says of the state before and after it.
pub vpage_copy_total :
    (junk : ℕ → ℕ) (dst src : VPage) (sect n : ℕ)
    → leb (sect + n) sectors_per_page ≡ true
    → (r : VPage) × (vpage_copy junk dst src sect n ≡ some r)
unfolding vpage_copy
vpage_copy_total junk dst src sect n h = elim (Option-cases (vpage_copy junk dst src sect n)) [
  | inl z ↦ absurd (ground arith)
  | inr found ↦ found
]

pub Agrees-trans :
    (a b c : VPage) (sect n : ℕ) → Agrees a b sect n → Agrees b c sect n → Agrees a c sect n
Agrees-trans a b c sect n p q = record {
  kind = q.kind ∙ p.kind;
  host = λ t i h. q.host (p.kind ∙ t) i h ∙ p.host t i h;
  meta = λ t i h. q.meta (p.kind ∙ t) i h ∙ p.meta t i h;
}

pub record Wrote (f : Flash) (bank blk page sect n : ℕ) (src : VPage) (spare : Spare) (f' : Flash)
    : Type 0 where
  pub inside : in_geometry bank blk page ≡ true
  pub fits : leb (sect + n) sectors_per_page ≡ true
  pub stored : VPage
  pub copied : vpage_copy f.junk (f.pages bank blk page).vpage src sect n ≡ some stored
  pub there : f'.pages bank blk page ≡ record { is_erased = false; vpage = stored; spare = spare }
  pub elsewhere :
      (b k p : ℕ) → (b == bank && (k == blk && p == page)) ≡ false → f'.pages b k p ≡ f.pages b k p

pub write-Wrote :
    (f : Flash) (bank blk page sect n : ℕ) (src : VPage) (spare : Spare) {f' : Flash}
    → vst_write_page f bank blk page sect n src spare ≡ some f'
    → Wrote f bank blk page sect n src spare f'
unfolding vst_write_page
write-Wrote f bank blk page sect n src spare e =
    elim (Option-cases (vpage_copy f.junk (f.pages bank blk page).vpage src sect n)) [
      | inl z ↦ absurd (ground arith)
      | inr (v, c) ↦ record {
        inside = ground arith;
        fits = ground (arith, vpage_copy-fits f.junk (f.pages bank blk page).vpage src sect n c);
        stored = v;
        copied = c;
        there = ground arith;
        elsewhere = λ b k p h. ground arith;
      }
    ]

-- What a write of sectors [sect, sect + n) has stored, a read of the same sectors gives back, into
-- whatever page it is read: the buffer's contents there, and the spare area that was written.
pub read-write :
    (f : Flash) (bank blk page sect n : ℕ) (src dst : VPage) (spare : Spare) {f' : Flash}
    → vst_write_page f bank blk page sect n src spare ≡ some f'
    → (r : VPage) × (vst_read_page f' bank blk page sect n dst ≡ some (r, spare))
      × Agrees src r sect n
unfolding vst_read_page
read-write f bank blk page sect n src dst spare {f'} e =
    let w = write-Wrote f bank blk page sect n src spare e in
    let (r, c) = vpage_copy_total f'.junk dst w.stored sect n w.fits in
    let kept = vpage_copy-Agrees f.junk _ src sect n w.copied in
    let got = vpage_copy-Agrees f'.junk dst w.stored sect n c in
    (r, ground (arith, w.there), Agrees-trans src w.stored r sect n kept got)

-- The writes that the flash accepts.
unfoldable pub accepts : Flash → ℕ → ℕ → ℕ → ℕ → ℕ → Bool
accepts f bank blk page sect n =
    in_geometry bank blk page
    && ((f.pages bank blk page).is_erased && leb (sect + n) sectors_per_page)

pub write-accepts :
    (f : Flash) (bank blk page sect n : ℕ) (src : VPage) (spare : Spare)
    → is_some (vst_write_page f bank blk page sect n src spare) ≡ accepts f bank blk page sect n
unfolding vst_write_page vpage_copy accepts
write-accepts f bank blk page sect n src spare = ground arith

-- A copy within the bank succeeds when both pages lie in the flash and the target is erased.
pub copyback_possible :
    (f : Flash) (bank blk_src page_src blk_dst page_dst : ℕ) (spare : Spare)
    → in_geometry bank blk_src page_src ≡ true
    → in_geometry bank blk_dst page_dst ≡ true
    → (f.pages bank blk_dst page_dst).is_erased ≡ true
    → (f' : Flash) × (vst_copyback_page f bank blk_src page_src blk_dst page_dst spare ≡ some f')
unfolding vst_copyback_page vpage_copy
copyback_possible f bank blk_src page_src blk_dst page_dst spare from into erased =
    elim (Option-cases (vst_copyback_page f bank blk_src page_src blk_dst page_dst spare)) [
      | inl z ↦ absurd (ground (arith, from, into, erased))
      | inr found ↦ found
    ]

-- What a copy within the bank reads of its source.
abbrev pub source : Flash → ℕ → ℕ → ℕ → ℕ → ℕ → VPage
source f bank blk_src page_src blk_dst page_dst =
    copyback_src f.junk (blk_src == blk_dst && page_src == page_dst)
      (f.pages bank blk_src page_src).vpage

copyback_as_write :
    (f : Flash) (bank blk_src page_src blk_dst page_dst : ℕ) (spare : Spare) {f' : Flash}
    → vst_copyback_page f bank blk_src page_src blk_dst page_dst spare ≡ some f'
    → vst_write_page f bank blk_dst page_dst 0 sectors_per_page
        (source f bank blk_src page_src blk_dst page_dst)
        spare
      ≡ some f'
unfolding vst_copyback_page vst_write_page
copyback_as_write f bank blk_src page_src blk_dst page_dst spare e = ground (arith, e)

source_other :
    (f : Flash) (bank blk_src page_src blk_dst page_dst : ℕ)
    → (blk_src == blk_dst && page_src == page_dst) ≡ false
    → source f bank blk_src page_src blk_dst page_dst ≡ (f.pages bank blk_src page_src).vpage
unfolding copyback_src
source_other f bank blk_src page_src blk_dst page_dst ne = rw ne refl

-- A page in use is never copied to itself.
pub copyback_other :
    (f : Flash) (bank blk_src page_src blk_dst page_dst : ℕ) (spare : Spare) {f' : Flash}
    → vst_copyback_page f bank blk_src page_src blk_dst page_dst spare ≡ some f'
    → (f.pages bank blk_src page_src).is_erased ≡ false
    → (blk_src == blk_dst && page_src == page_dst) ≡ false
unfolding vst_copyback_page
copyback_other f bank blk_src page_src blk_dst page_dst spare e used =
    elim (Bool-cases (blk_src == blk_dst && page_src == page_dst)) [
      | inl same ↦
          let ek : blk_dst ≡ blk_src = ground arith in
          let ep : page_dst ≡ page_src = ground arith in absurd (ground (arith, e, used, ek, ep))
      | inr other ↦ other
    ]

-- A copy within the bank to another page is a write of what the source page holds.
pub copyback-write :
    (f : Flash) (bank blk_src page_src blk_dst page_dst : ℕ) (spare : Spare) {f' : Flash}
    → (blk_src == blk_dst && page_src == page_dst) ≡ false
    → vst_copyback_page f bank blk_src page_src blk_dst page_dst spare ≡ some f'
    → vst_write_page f bank blk_dst page_dst 0 sectors_per_page
        (f.pages bank blk_src page_src).vpage
        spare
      ≡ some f'
copyback-write f bank blk_src page_src blk_dst page_dst spare ne e =
    rw (← source_other f bank blk_src page_src blk_dst page_dst ne)
      (copyback_as_write f bank blk_src page_src blk_dst page_dst spare e)

-- What a copy within the bank makes of a page, a read of the target gives back, if the target is
-- not the source page itself: the contents of the source page and the spare area that was passed.
pub read-copyback :
    (f : Flash) (bank blk_src page_src blk_dst page_dst : ℕ) (dst : VPage) (spare : Spare)
    {f' : Flash}
    → (blk_src == blk_dst && page_src == page_dst) ≡ false
    → vst_copyback_page f bank blk_src page_src blk_dst page_dst spare ≡ some f'
    → (r : VPage) × (vst_read_page f' bank blk_dst page_dst 0 sectors_per_page dst
        ≡ some (r, spare))
      × Agrees (f.pages bank blk_src page_src).vpage r 0 sectors_per_page
read-copyback f bank blk_src page_src blk_dst page_dst dst spare ne e =
    read-write f bank blk_dst page_dst 0 sectors_per_page (f.pages bank blk_src page_src).vpage dst
      spare (copyback-write f bank blk_src page_src blk_dst page_dst spare ne e)

-- A copy within the bank changes no page but its target.
pub copyback-elsewhere :
    (f : Flash) (bank blk_src page_src blk_dst page_dst : ℕ) (spare : Spare) {f' : Flash}
    (b k p : ℕ)
    → vst_copyback_page f bank blk_src page_src blk_dst page_dst spare ≡ some f'
    → (b == bank && (k == blk_dst && p == page_dst)) ≡ false
    → f'.pages b k p ≡ f.pages b k p
copyback-elsewhere f bank blk_src page_src blk_dst page_dst spare b k p e other =
    let w =
      write-Wrote f bank blk_dst page_dst 0 sectors_per_page
        (source f bank blk_src page_src blk_dst page_dst) spare
        (copyback_as_write f bank blk_src page_src blk_dst page_dst spare e) in
    w.elsewhere b k p other

pub copyback-junk :
    (f : Flash) (bank blk_src page_src blk_dst page_dst : ℕ) (spare : Spare) {f' : Flash}
    → vst_copyback_page f bank blk_src page_src blk_dst page_dst spare ≡ some f'
    → f'.junk ≡ f.junk
unfolding vst_copyback_page
copyback-junk f bank blk_src page_src blk_dst page_dst spare e =
    elim (Option-cases (
      vpage_copy f.junk (f.pages bank blk_dst page_dst).vpage
        (source f bank blk_src page_src blk_dst page_dst) 0 sectors_per_page)) [
          | inl z ↦ absurd (ground arith)
          | inr (v, c) ↦ ground (arith, e, c)
        ]

-- A read looks at its page only.
pub read-same :
    (f f' : Flash) (bank blk page : ℕ) (dst : VPage)
    → f'.junk ≡ f.junk
    → f'.pages bank blk page ≡ f.pages bank blk page
    → vst_read_page f' bank blk page 0 sectors_per_page dst
      ≡ vst_read_page f bank blk page 0 sectors_per_page dst
unfolding vst_read_page
read-same f f' bank blk page dst j e = rw (j, e) refl
