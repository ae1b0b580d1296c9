-- ===== src/Ftl/Commit/Save.antt =====
-- ftl_optr/pgmap.c: `pgmap_persist_map_table`, the loop that writes the page map.
use optr_jasmine.Prelude.{
  ℕ, ◌+◌, ◌/◌, ◌%◌, ◌≤◌, ◌<◌, ◌≡◌, ◌≢◌, refl, ap, subst, ◌∙◌, inl, inr, arith, true, false, ◌&&◌,
  some, leb, ◌==◌, Bool-cases, for_try, for_try_inv,
}
use optr_jasmine.Config.{num_banks, vblks_per_bank, sectors_per_page}
use optr_jasmine.Blkmgr.{blkmgr_get_map_blk}
use optr_jasmine.Pgmap.{Pgmap}
use optr_jasmine.Vst.Flash.{Flash, in_geometry}
use optr_jasmine.Vst.Flash.Access.{Agrees, write-Wrote, vpage_copy-Agrees}
use optr_jasmine.Vst.Flash.Stands.{write_possible}
use optr_jasmine.Ftl.{Ftl}
use optr_jasmine.Ftl.Commit.{num_map_pages, pgmap_commit_pg, map_sects, map_page, persist_map_page}

-- Page `i` of the map `m` stands in the blocks `blk` of the flash.
pub record Saved (m : Pgmap) (f : Flash) (blk : ℕ → ℕ) (i : ℕ) : Type 0 where
  pub inside : in_geometry (i % num_banks) (blk (i % num_banks)) (i / num_banks) ≡ true
  pub same :
      Agrees
        (map_page m i)
        (f.pages (i % num_banks) (blk (i % num_banks)) (i / num_banks)).vpage
        0
        (map_sects i)

-- The current map block of each bank lies in the device, and its pages up to the commit page are
-- erased.
pub record IsReady (s : Ftl) : Type 0 where
  pub blks : (bank : ℕ) → bank < num_banks → blkmgr_get_map_blk s.blkmgr bank < vblks_per_bank
  pub erased :
      (bank page : ℕ)
      → bank < num_banks
      → page ≤ pgmap_commit_pg
      → (s.flash.pages bank (blkmgr_get_map_blk s.blkmgr bank) page).is_erased ≡ true

-- The first `i` pages of the map are written.
pub record Saving (s : Ftl) (i : ℕ) (f : Flash) : Type 0 where
  pub saved : (j : ℕ) → j < i → Saved s.pgmap f (blkmgr_get_map_blk s.blkmgr) j
  pub erased :
      (j : ℕ)
      → i ≤ j
      → j < num_map_pages
      → (f.pages
          (j % num_banks)
          (blkmgr_get_map_blk s.blkmgr (j % num_banks))
          (j / num_banks)).is_erased
        ≡ true
  pub commit : (f.pages 0 (blkmgr_get_map_blk s.blkmgr 0) pgmap_commit_pg).is_erased ≡ true

-- Different pages of the map stand in different pages of the flash.
apart :
    (blk : ℕ → ℕ) (i j : ℕ)
    → i ≢ j
    → (j % num_banks == i % num_banks
        && (blk (j % num_banks) == blk (i % num_banks) && j / num_banks == i / num_banks))
      ≡ false
apart blk i j ne = ground arith

in_map_blk :
    (s : Ftl) (i : ℕ)
    → IsReady s
    → i < num_map_pages
    → in_geometry (i % num_banks) (blkmgr_get_map_blk s.blkmgr (i % num_banks)) (i / num_banks)
      ≡ true
in_map_blk s i r lt = let blk = r.blks (i % num_banks) (omega arith) in ground arith

pub map_sects_fit : (i : ℕ) → leb (0 + map_sects i) sectors_per_page ≡ true
map_sects_fit i = ground arith

persist_map_page-Saving :
    (s : Ftl) (i : ℕ) (f : Flash)
    → IsReady s
    → i < num_map_pages
    → Saving s i f
    → (f' : Flash) × (persist_map_page i (record s { flash = f }) ≡ some (record s { flash = f' }))
      × Saving s (i + 1) f'
unfolding persist_map_page
persist_map_page-Saving s i f r lt v =
    let blk = blkmgr_get_map_blk s.blkmgr in
    let bank = i % num_banks in
    let page = i / num_banks in
    let (f', e) =
      write_possible f bank (blk bank) page 0 (map_sects i) (map_page s.pgmap i) s.spare
        (in_map_blk s i r lt) (v.erased i (omega arith) lt) (map_sects_fit i) in
    let w = write-Wrote f bank (blk bank) page 0 (map_sects i) (map_page s.pgmap i) s.spare e in
    (
      f',
      rw e refl,
      record {
        saved = λ j j_lt. elim (Bool-cases (j == i)) [
          | inl same ↦
              let eq : i ≡ j = ground arith in
              subst (Saved s.pgmap f' blk) eq (record {
                inside = w.inside;
                same =
                    rw w.there
                      (vpage_copy-Agrees f.junk _ (map_page s.pgmap i) 0 (map_sects i) w.copied);
              })
          | inr ne ↦
              let old = v.saved j (ground arith) in
              let other =
                w.elsewhere (j % num_banks) (blk (j % num_banks)) (j / num_banks)
                  (apart blk i j (ground arith)) in
              record { inside = old.inside; same = rw other old.same }
        ];
        erased = λ j from to.
            rw
              (w.elsewhere (j % num_banks) (blk (j % num_banks)) (j / num_banks)
                (apart blk i j (omega arith)))
              (v.erased j (omega arith) to);
        commit = rw (w.elsewhere 0 (blk 0) pgmap_commit_pg (ground arith)) v.commit;
      },
    )

-- The loop that writes the page map.
pub persist_loop-Saving :
    (s : Ftl)
    → IsReady s
    → (f : Flash) × (for_try num_map_pages 0 persist_map_page s ≡ some (record s { flash = f }))
      × Saving s num_map_pages f
persist_loop-Saving s r =
    let (t, e, (f, kept, v)) =
      for_try_inv (λ i (t : Ftl). (f : Flash) × (t ≡ record s { flash = f }) × Saving s i f)
        persist_map_page num_map_pages
        (λ i t lt (f, kept, v).
          let (f', e, v') = persist_map_page-Saving s i f r lt v in
          (record s { flash = f' }, ap (persist_map_page i) kept ∙ e, (f', refl, v')))
        num_map_pages 0 s (omega arith)
        (
          s.flash,
          refl,
          record {
            saved = λ j lt. absurd (omega arith);
            erased =
                λ j from to. r.erased (j % num_banks) (j / num_banks) (omega arith) (omega arith);
            commit = r.erased 0 pgmap_commit_pg (omega arith) (omega arith);
          },
        ) in
    (f, e ∙ ap (λ x. some x) kept, v)
