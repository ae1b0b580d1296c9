-- ===== src/Ftl/Commit/Restore.antt =====
-- ftl_optr/pgmap.c: `pgmap_restore_map_table`, the loop that reads the page map back, and the commit
-- page that tells which table is valid.
use optr_jasmine.Prelude.{
  ℕ, ◌+◌, ◌*◌, ◌/◌, ◌%◌, ◌<◌, ◌≡◌, refl, ap, sym, ◌∙◌, inl, inr, arith, true, false, some, none,
  ◌==◌, if◌then◌else◌, Bool-cases, for_try, for_try_inv, minus_one,
}
use optr_jasmine.Config.{num_banks, num_lpages}
use optr_jasmine.Blkmgr.{blkmgr_get_map_blk}
use optr_jasmine.Pgmap.{Pgmap}
use optr_jasmine.Vst.Page.{VPage, vpage_copy, or_else}
use optr_jasmine.Vst.Flash.{Spare, vst_read_page}
use optr_jasmine.Vst.Flash.Access.{Agrees, Agrees-trans, vpage_copy-Agrees, vpage_copy_total}
use optr_jasmine.Ftl.{Ftl}
use optr_jasmine.Ftl.Commit.{
  num_map_pages, cells_per_page, map_sects, map_page, load_map_page, restore_map_page,
}
use optr_jasmine.Ftl.Commit.Save.{Saved, map_sects_fit}

-- A page of metadata that was copied into has cells.
pub copied_cells :
    (junk : ℕ → ℕ) (dst src : VPage) (sect n : ℕ) {r : VPage}
    → src.tagged ≡ false
    → vpage_copy junk dst src sect n ≡ some r
    → (c : ℕ → ℕ) × (r.cells ≡ some c)
unfolding vpage_copy
copied_cells junk dst src sect n {r} t e =
    elim r.cells as (λ o. r.cells ≡ o → (c : ℕ → ℕ) × (o ≡ some c)) [
      | none ↦ λ z. absurd (ground (arith, e, t, z))
      | some c ↦ λ z. (c, refl)
    ]
      refl

-- The table after page `i` was read into it.
load_map_page_lem :
    (m p : Pgmap) (i : ℕ) (r : VPage) (c : ℕ → ℕ)
    → i < num_map_pages
    → r.cells ≡ some c
    → Agrees (map_page m i) r 0 (map_sects i)
    → (lpn : ℕ) → lpn < num_lpages
    → (lpn / cells_per_page == i) ≡ true
    → (load_map_page i r p).page_map lpn ≡ m.page_map lpn
load_map_page_lem m p i r c lt has a lpn lpn_lt here =
    let cell = lpn % cells_per_page in
    let eq : i * cells_per_page + cell ≡ lpn = ground arith in
    let got = a.meta refl cell (ground arith) in
    rw (here, has) (ap (λ o. or_else (λ _. minus_one) o cell) (sym has) ∙ got ∙ ap m.page_map eq)

abbrev pub restored : Ftl → (ℕ → ℕ) → Spare → Ftl
restored t pm spare = record t { pgmap = record t.pgmap { page_map = pm }; spare = spare }

restore_map_page_lem :
    (m : Pgmap) (t : Ftl) (pm : ℕ → ℕ) (sp : Spare) (i : ℕ)
    → i < num_map_pages
    → Saved m t.flash (blkmgr_get_map_blk t.blkmgr) i
    → (pm' : ℕ → ℕ) × (sp' : Spare) × (restore_map_page i (restored t pm sp)
        ≡ some (restored t pm' sp'))
      × ((lpn : ℕ)
          → lpn < num_lpages
          → pm' lpn ≡ (if lpn / cells_per_page == i then m.page_map lpn else pm lpn))
unfolding restore_map_page vst_read_page
restore_map_page_lem m t pm sp i lt v =
    let blk = blkmgr_get_map_blk t.blkmgr in
    let p : Pgmap = record t.pgmap { page_map = pm } in
    let page = t.flash.pages (i % num_banks) (blk (i % num_banks)) (i / num_banks) in
    let (r, e) =
      vpage_copy_total t.flash.junk (map_page p i) page.vpage 0 (map_sects i) (map_sects_fit i) in
    let agrees =
      Agrees-trans (map_page m i) page.vpage r 0 (map_sects i) v.same
        (vpage_copy-Agrees t.flash.junk (map_page p i) page.vpage 0 (map_sects i) e) in
    let (c, has) =
      copied_cells t.flash.junk (map_page p i) page.vpage 0 (map_sects i) v.same.kind e in
    (
      (load_map_page i r p).page_map,
      page.spare,
      rw (v.inside, e) refl,
      λ lpn lpn_lt. elim (Bool-cases (lpn / cells_per_page == i)) [
        | inl here ↦ load_map_page_lem m p i r c lt has agrees lpn lpn_lt here ∙ rw here refl
        | inr there ↦ rw there refl
      ],
    )

-- The loop that reads the page map back gives every entry that was saved.
pub restore_loop_lem :
    (m : Pgmap) (t : Ftl)
    → ((i : ℕ) → i < num_map_pages → Saved m t.flash (blkmgr_get_map_blk t.blkmgr) i)
    → (pm : ℕ → ℕ) × (sp : Spare) × (for_try num_map_pages 0 restore_map_page t
        ≡ some (restored t pm sp))
      × ((lpn : ℕ) → lpn < num_lpages → pm lpn ≡ m.page_map lpn)
restore_loop_lem m t v =
    let (u, e, (pm, sp, same, h)) =
      for_try_inv
        (λ i (u : Ftl).
          (pm : ℕ → ℕ) × (sp : Spare) × (u ≡ restored t pm sp)
          × ((lpn : ℕ) → lpn < num_lpages → lpn / cells_per_page < i → pm lpn ≡ m.page_map lpn))
        restore_map_page num_map_pages
        (λ i u lt (pm, sp, same, h).
          let (pm', sp', e, h') = restore_map_page_lem m t pm sp i lt (v i lt) in
          (
            restored t pm' sp',
            ap (restore_map_page i) same ∙ e,
            (
              pm',
              sp',
              refl,
              λ lpn lpn_lt below. elim (Bool-cases (lpn / cells_per_page == i)) [
                | inl here ↦ h' lpn lpn_lt ∙ rw here refl
                | inr there ↦ h' lpn lpn_lt ∙ rw there (h lpn lpn_lt (ground arith))
              ],
            ),
          ))
        num_map_pages 0 t (omega arith)
        (t.pgmap.page_map, t.spare, refl, λ lpn lpn_lt below. absurd (omega arith)) in
    (pm, sp, e ∙ ap (λ x. some x) same, λ lpn lpn_lt. h lpn lpn_lt (omega arith))
