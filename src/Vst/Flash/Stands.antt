-- ===== src/Vst/Flash/Stands.antt =====
-- What a flash page holds, told without a read: the contents that were written to it as a whole, and
-- the spare area.
use optr_jasmine.Prelude.{ℕ, ◌+◌, ◌≡◌, refl, true, false, some, leb, arith, inl, inr, Option-cases}
use optr_jasmine.Config.{sectors_per_page}
use optr_jasmine.Vst.Page.{VPage}
use optr_jasmine.Vst.Flash.{
  Spare, Flash, in_geometry, vst_read_page, vst_write_page, vst_copyback_page,
}
use optr_jasmine.Vst.Flash.Access.{
  accepts, write-accepts, Agrees, Agrees-trans, vpage_copy-Agrees, vpage_copy_total, write-Wrote,
  copyback-write, copyback_other,
}

-- The page holds `v` in all its sectors, with the spare area `spare`.
pub record Stands (f : Flash) (bank blk page : ℕ) (v : VPage) (spare : Spare) : Type 0 where
  pub inside : in_geometry bank blk page ≡ true
  pub written : (f.pages bank blk page).is_erased ≡ false
  pub tagged_with : (f.pages bank blk page).spare ≡ spare
  pub same : Agrees v (f.pages bank blk page).vpage 0 sectors_per_page

pub write-Stands :
    (f : Flash) (bank blk page : ℕ) (src : VPage) (spare : Spare) {f' : Flash}
    → vst_write_page f bank blk page 0 sectors_per_page src spare ≡ some f'
    → Stands f' bank blk page src spare
write-Stands f bank blk page src spare {f'} e =
    let w = write-Wrote f bank blk page 0 sectors_per_page src spare e in
    record {
      inside = w.inside;
      written = rw w.there refl;
      tagged_with = rw w.there refl;
      same = rw w.there (vpage_copy-Agrees f.junk _ src 0 sectors_per_page w.copied);
    }

-- A copy within the bank hands on what the source page holds.
pub copyback-Stands :
    (f : Flash) (bank blk_src page_src blk_dst page_dst : ℕ) (v : VPage) (spare spare' : Spare)
    {f' : Flash}
    → vst_copyback_page f bank blk_src page_src blk_dst page_dst spare' ≡ some f'
    → Stands f bank blk_src page_src v spare
    → Stands f' bank blk_dst page_dst v spare'
copyback-Stands f bank blk_src page_src blk_dst page_dst v spare spare' {f'} e h =
    let src = (f.pages bank blk_src page_src).vpage in
    let w = write-Stands f bank blk_dst page_dst src spare' (
      copyback-write f bank blk_src page_src blk_dst page_dst spare'
        (copyback_other f bank blk_src page_src blk_dst page_dst spare' e h.written) e) in
    record {
      inside = w.inside;
      written = w.written;
      tagged_with = w.tagged_with;
      same =
          Agrees-trans v src (f'.pages bank blk_dst page_dst).vpage 0 sectors_per_page h.same
            w.same;
    }

-- A page that nothing changed.
pub Stands-same :
    (f f' : Flash) (bank blk page : ℕ) (v : VPage) (spare : Spare)
    → f'.pages bank blk page ≡ f.pages bank blk page
    → Stands f bank blk page v spare
    → Stands f' bank blk page v spare
Stands-same f f' bank blk page v spare e h = record {
  inside = h.inside;
  written = rw e h.written;
  tagged_with = rw e h.tagged_with;
  same = rw e h.same;
}

Agrees-part :
    (v r : VPage) (sect n : ℕ)
    → leb (sect + n) sectors_per_page ≡ true
    → Agrees v r 0 sectors_per_page
    → Agrees v r sect n
Agrees-part v r sect n fits h = record {
  kind = h.kind;
  host = λ t i b. h.host t i (ground arith);
  meta = λ t i b. h.meta t i (ground arith);
}

-- A read of some of its sectors gives them.
pub read-Stands :
    (f : Flash) (bank blk page sect n : ℕ) (v dst : VPage) (spare : Spare)
    → leb (sect + n) sectors_per_page ≡ true
    → Stands f bank blk page v spare
    → (r : VPage) × (vst_read_page f bank blk page sect n dst ≡ some (r, spare)) × Agrees v r sect n
unfolding vst_read_page
read-Stands f bank blk page sect n v dst spare fits h =
    let stored = (f.pages bank blk page).vpage in
    let (r, c) = vpage_copy_total f.junk dst stored sect n fits in
    (
      r,
      rw (h.inside, c, h.tagged_with) refl,
      Agrees-trans v stored r sect n (Agrees-part v stored sect n fits h.same)
          (vpage_copy-Agrees f.junk dst stored sect n c),
    )

-- A page of the device that is erased takes a write of sectors that lie in it.
pub write_possible :
    (f : Flash) (bank blk page sect n : ℕ) (src : VPage) (spare : Spare)
    → in_geometry bank blk page ≡ true
    → (f.pages bank blk page).is_erased ≡ true
    → leb (sect + n) sectors_per_page ≡ true
    → (f' : Flash) × (vst_write_page f bank blk page sect n src spare ≡ some f')
unfolding accepts
write_possible f bank blk page sect n src spare inside erased fits =
    let w = write-accepts f bank blk page sect n src spare in
    elim (Option-cases (vst_write_page f bank blk page sect n src spare)) [
      | inl e ↦ absurd (ground (arith, w, e, inside, erased, fits))
      | inr found ↦ found
    ]
