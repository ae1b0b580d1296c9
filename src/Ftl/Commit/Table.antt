-- ===== src/Ftl/Commit/Table.antt =====
-- ftl_optr/pgmap.c: the page map goes to flash with `pgmap_persist_map_table` and comes back with
-- `pgmap_restore_map_table`, after which of the two tables is valid was found out.
use optr_jasmine.Prelude.{
  ℕ, ◌+◌, ◌/◌, ◌%◌, ◌<◌, ◌≡◌, refl, ap, sym, subst, ◌∙◌, inl, inr, arith, true, false, ◌&&◌, some,
  ltb, ◌==◌, if◌then◌else◌, Bool-cases, minus_one, update, sub32,
}
use optr_jasmine.Config.{num_banks, num_lpages, vblks_per_bank}
use optr_jasmine.Blkmgr.{Blkmgr, blkmgr_get_map_blk, blkmgr_toggle_map_blk_idx}
use optr_jasmine.Pgmap.{Pgmap}
use optr_jasmine.Vst.Page.{VPage, or_else}
use optr_jasmine.Vst.Flash.{Flash, Spare, in_geometry, vst_read_page}
use optr_jasmine.Vst.Flash.Access.{vpage_copy-Agrees, vpage_copy_total, write-Wrote}
use optr_jasmine.Vst.Flash.Stands.{write_possible}
use optr_jasmine.Ftl.{Ftl, ftl_buf}
use optr_jasmine.Ftl.Nand.{
  read_cell, write_cell, write_cells, nand_page_ptread, nand_page_ptprogram,
}
use optr_jasmine.Ftl.Commit.{
  num_map_pages, pgmap_commit_pg, check_pgmap_commit, record_pgmap_commit, pgmap_persist_map_table,
  pgmap_restore_map_table,
}
use optr_jasmine.Ftl.Commit.Save.{Saved, IsReady, persist_loop-Saving}
use optr_jasmine.Ftl.Commit.Erase.{erase_cur_map_blk-Cleared}
use optr_jasmine.Ftl.Commit.Restore.{restored, restore_loop_lem, copied_cells}

-- The first two cells of the commit page in block `blk` of bank 0.
pub record CommitPage (f : Flash) (blk e0 e1 : ℕ) : Type 0 where
  pub inside : blk < vblks_per_bank
  pub meta : (f.pages 0 blk pgmap_commit_pg).vpage.tagged ≡ false
  pub mark : or_else (λ _. minus_one) (f.pages 0 blk pgmap_commit_pg).vpage.cells 0 ≡ e0
  pub epoch : or_else (λ _. minus_one) (f.pages 0 blk pgmap_commit_pg).vpage.cells 1 ≡ e1

-- A check of the commit page changes the buffer and the spare area only.
abbrev peeked : (ℕ → VPage) → Spare → Ftl → Ftl
peeked ram spare s = record s { ram = ram; spare = spare }

check_pgmap_commit_lem :
    (s : Ftl) (blk e0 e1 : ℕ)
    → CommitPage s.flash blk e0 e1
    → (ram : ℕ → VPage) × (spare : Spare) × (check_pgmap_commit blk s
        ≡ some (if e0 == 815 then e1 else 0, peeked ram spare s))
unfolding check_pgmap_commit nand_page_ptread vst_read_page read_cell
check_pgmap_commit_lem s blk e0 e1 h =
    let page = s.flash.pages 0 blk pgmap_commit_pg in
    let dst = s.ram (ftl_buf 0) in
    let (r, e) = vpage_copy_total s.flash.junk dst page.vpage 0 1 refl in
    let a = vpage_copy-Agrees s.flash.junk dst page.vpage 0 1 e in
    let (c, has) = copied_cells s.flash.junk dst page.vpage 0 1 h.meta e in
    let c0 : c 0 ≡ e0 =
      ap (λ o. or_else (λ _. minus_one) o 0) (sym has) ∙ a.meta h.meta 0 refl ∙ h.mark in
    let c1 : c 1 ≡ e1 =
      ap (λ o. or_else (λ _. minus_one) o 1) (sym has) ∙ a.meta h.meta 1 refl ∙ h.epoch in
    let inside : in_geometry 0 blk pgmap_commit_pg ≡ true = let b = h.inside in ground arith in
    (update s.ram (ftl_buf 0) r, page.spare, rw (inside, e, has, c0, c1) refl)

-- The commit page is written behind the table.
record_pgmap_commit_lem :
    (s : Ftl) (blk : ℕ)
    → blk < vblks_per_bank
    → (s.flash.pages 0 blk pgmap_commit_pg).is_erased ≡ true
    → (ram : ℕ → VPage) × (f : Flash) × (record_pgmap_commit blk s
        ≡ some (record s { ram = ram; flash = f }))
      × CommitPage f blk 815 (sub32 s.g_epoch 1)
      × ((b k p : ℕ)
          → (b == 0 && (k == blk && p == pgmap_commit_pg)) ≡ false
          → f.pages b k p ≡ s.flash.pages b k p)
unfolding record_pgmap_commit write_cells nand_page_ptprogram
record_pgmap_commit_lem s blk lt erased =
    let buffered : Ftl =
      write_cell (ftl_buf 0) 1 (sub32 s.g_epoch 1) (write_cell (ftl_buf 0) 0 815 s) in
    let src = buffered.ram (ftl_buf 0) in
    let (f, e) =
      write_possible s.flash 0 blk pgmap_commit_pg 0 1 src s.spare (ground arith) erased refl in
    let w = write-Wrote s.flash 0 blk pgmap_commit_pg 0 1 src s.spare e in
    let a =
      vpage_copy-Agrees s.flash.junk (s.flash.pages 0 blk pgmap_commit_pg).vpage src 0 1 w.copied in
    (
      buffered.ram,
      f,
      rw e refl,
      record {
        inside = lt;
        meta = rw w.there a.kind;
        mark = rw w.there (a.meta refl 0 refl);
        epoch = rw w.there (a.meta refl 1 refl);
      },
      w.elsewhere,
    )

-- What is on flash when the table was written from `s`.
pub record Persisted (s : Ftl) (f : Flash) : Type 0 where
  pub saved : (i : ℕ) → i < num_map_pages → Saved s.pgmap f (blkmgr_get_map_blk s.blkmgr) i
  pub commit : CommitPage f (blkmgr_get_map_blk s.blkmgr 0) 815 (sub32 s.g_epoch 1)
  pub empty :
      CommitPage f (blkmgr_get_map_blk (blkmgr_toggle_map_blk_idx s.blkmgr) 0) minus_one minus_one

-- The two map blocks of each bank are different blocks of the device.
pub record TwoMapBlks (m : Blkmgr) : Type 0 where
  pub apart :
      (b : ℕ)
      → (blkmgr_get_map_blk m b == blkmgr_get_map_blk (blkmgr_toggle_map_blk_idx m) b) ≡ false
  pub other : blkmgr_get_map_blk (blkmgr_toggle_map_blk_idx m) 0 < vblks_per_bank

Saved-same :
    (m : Pgmap) (f f' : Flash) (blk : ℕ → ℕ) (i : ℕ)
    → f'.pages (i % num_banks) (blk (i % num_banks)) (i / num_banks)
      ≡ f.pages (i % num_banks) (blk (i % num_banks)) (i / num_banks)
    → Saved m f blk i
    → Saved m f' blk i
Saved-same m f f' blk i e h = record { inside = h.inside; same = rw e h.same }

Saved-blk :
    (m : Pgmap) (f : Flash) (blk blk' : ℕ → ℕ) (i : ℕ)
    → blk' (i % num_banks) ≡ blk (i % num_banks)
    → Saved m f blk i
    → Saved m f blk' i
Saved-blk m f blk blk' i e h = record { inside = rw e h.inside; same = rw e h.same }

CommitPage-same :
    (f f' : Flash) (blk e0 e1 : ℕ)
    → f'.pages 0 blk pgmap_commit_pg ≡ f.pages 0 blk pgmap_commit_pg
    → CommitPage f blk e0 e1
    → CommitPage f' blk e0 e1
CommitPage-same f f' blk e0 e1 e h = record {
  inside = h.inside;
  meta = rw e h.meta;
  mark = rw e h.mark;
  epoch = rw e h.epoch;
}

-- The whole of `pgmap_persist_map_table`.
persist_map_table-Persisted :
    (s : Ftl)
    → IsReady s
    → TwoMapBlks s.blkmgr
    → (s' : Ftl) × (pgmap_persist_map_table s ≡ some s')
      × Persisted s s'.flash
      × (s'.blkmgr ≡ blkmgr_toggle_map_blk_idx s.blkmgr)
      × (s'.pgmap ≡ s.pgmap)
unfolding pgmap_persist_map_table
persist_map_table-Persisted s r two =
    let blk = blkmgr_get_map_blk s.blkmgr in
    let (f1, e1, v) = persist_loop-Saving s r in
    let (ram, f2, e2, commit, others) =
      record_pgmap_commit_lem (record s { flash = f1 }) (blk 0) (r.blks 0 (omega arith)) v.commit in
    let s2 : Ftl = record s {
      ram = ram;
      flash = f2;
      blkmgr = blkmgr_toggle_map_blk_idx s.blkmgr;
    } in
    let (f3, e3, c) = erase_cur_map_blk-Cleared s2 in
    let (untagged, no_cells) = c.empty 0 pgmap_commit_pg (omega arith) (omega arith) in
    (
      record s2 { flash = f3 },
      rw (e1, e2) (ap (λ x. some x) e3),
      record {
        saved = λ i lt.
            Saved-same s.pgmap f2 f3 blk i
              (c.elsewhere (i % num_banks) (blk (i % num_banks)) (i / num_banks)
                (two.apart (i % num_banks)))
              (Saved-same s.pgmap f1 f2 blk i
                (others (i % num_banks) (blk (i % num_banks)) (i / num_banks) (ground arith))
                (v.saved i lt));
        commit =
            CommitPage-same f2 f3 (blk 0) 815 (sub32 s.g_epoch 1)
              (c.elsewhere 0 (blk 0) pgmap_commit_pg (two.apart 0)) commit;
        empty = record {
          inside = two.other;
          meta = untagged;
          mark = rw no_cells refl;
          epoch = rw no_cells refl;
        };
      },
      refl,
      refl,
    )

toggle_twice :
    (m : Blkmgr) (b : ℕ)
    → m.map_blk_idx < 2
    → blkmgr_get_map_blk (blkmgr_toggle_map_blk_idx (blkmgr_toggle_map_blk_idx m)) b
      ≡ blkmgr_get_map_blk m b
unfolding blkmgr_get_map_blk blkmgr_toggle_map_blk_idx
toggle_twice m b lt = ap (λ i. (m.banks b).blks_map i) (omega arith)

-- What a restart finds in the page map, and in which blocks.
pub record Restored (s t' : Ftl) : Type 0 where
  pub entries : (lpn : ℕ) → lpn < num_lpages → t'.pgmap.page_map lpn ≡ s.pgmap.page_map lpn
  pub epoch : t'.g_epoch ≡ sub32 s.g_epoch 1
  pub current : (b : ℕ) → blkmgr_get_map_blk t'.blkmgr b ≡ blkmgr_get_map_blk s.blkmgr b

module _ (s t : Ftl) (h : Persisted s t.flash) (late : 1 < s.g_epoch)
    (word : s.g_epoch < 4294967296) where
  -- The table that is current is the one that was written.
  restore_first :
      ((b : ℕ) → blkmgr_get_map_blk t.blkmgr b ≡ blkmgr_get_map_blk s.blkmgr b)
      → ((b : ℕ)
          → blkmgr_get_map_blk (blkmgr_toggle_map_blk_idx t.blkmgr) b
            ≡ blkmgr_get_map_blk (blkmgr_toggle_map_blk_idx s.blkmgr) b)
      → t.blkmgr.map_blk_idx < 2
      → (t' : Ftl) × (pgmap_restore_map_table t ≡ some t') × Restored s t'
  unfolding pgmap_restore_map_table
  restore_first same same' idx =
      let e = sub32 s.g_epoch 1 in
      let (ram0, sp0, c0) =
        check_pgmap_commit_lem t (blkmgr_get_map_blk t.blkmgr 0) 815 e
          (subst (λ k. CommitPage t.flash k 815 e) (sym (same 0)) h.commit) in
      let t2 : Ftl = record (peeked ram0 sp0 t) { blkmgr = blkmgr_toggle_map_blk_idx t.blkmgr } in
      let (ram1, sp1, c1) =
        check_pgmap_commit_lem t2 (blkmgr_get_map_blk t2.blkmgr 0) minus_one minus_one
          (subst (λ k. CommitPage t.flash k minus_one minus_one) (sym (same' 0)) h.empty) in
      let t4 : Ftl = record (peeked ram1 sp1 t2) {
        blkmgr = blkmgr_toggle_map_blk_idx (blkmgr_toggle_map_blk_idx t.blkmgr);
        g_epoch = e;
      } in
      let back : (b : ℕ) → blkmgr_get_map_blk t4.blkmgr b ≡ blkmgr_get_map_blk s.blkmgr b =
        λ b. toggle_twice t.blkmgr b idx ∙ same b in
      let (pm, sp, c2, entries) = restore_loop_lem s.pgmap t4 (λ i lt.
        Saved-blk s.pgmap t.flash (blkmgr_get_map_blk s.blkmgr) (blkmgr_get_map_blk t4.blkmgr) i
          (back (i % num_banks)) (h.saved i lt)) in
      let pos : ltb 0 e ≡ true = ground arith in
      let nz : (e == 0) ≡ false = ground arith in
      (
        restored t4 pm sp,
        rw (c0, c1, pos, nz) c2,
        record { entries = entries; epoch = refl {a = e}; current = back },
      )

  -- The table that is current is the erased one.
  restore_second :
      ((b : ℕ)
        → blkmgr_get_map_blk t.blkmgr b ≡ blkmgr_get_map_blk (blkmgr_toggle_map_blk_idx s.blkmgr) b)
      → ((b : ℕ)
          → blkmgr_get_map_blk (blkmgr_toggle_map_blk_idx t.blkmgr) b
            ≡ blkmgr_get_map_blk s.blkmgr b)
      → (t' : Ftl) × (pgmap_restore_map_table t ≡ some t') × Restored s t'
  unfolding pgmap_restore_map_table
  restore_second same' same =
      let e = sub32 s.g_epoch 1 in
      let (ram0, sp0, c0) =
        check_pgmap_commit_lem t (blkmgr_get_map_blk t.blkmgr 0) minus_one minus_one
          (subst (λ k. CommitPage t.flash k minus_one minus_one) (sym (same' 0)) h.empty) in
      let t2 : Ftl = record (peeked ram0 sp0 t) { blkmgr = blkmgr_toggle_map_blk_idx t.blkmgr } in
      let (ram1, sp1, c1) =
        check_pgmap_commit_lem t2 (blkmgr_get_map_blk t2.blkmgr 0) 815 e
          (subst (λ k. CommitPage t.flash k 815 e) (sym (same 0)) h.commit) in
      let t4 : Ftl = record (peeked ram1 sp1 t2) { g_epoch = e } in
      let (pm, sp, c2, entries) = restore_loop_lem s.pgmap t4 (λ i lt.
        Saved-blk s.pgmap t.flash (blkmgr_get_map_blk s.blkmgr) (blkmgr_get_map_blk t4.blkmgr) i
          (same (i % num_banks)) (h.saved i lt)) in
      let pos : ltb e 0 ≡ false = ground arith in
      let nz : (e == 0) ≡ false = ground arith in
      (
        restored t4 pm sp,
        rw (c0, c1, pos, nz) c2,
        record { entries = entries; epoch = refl {a = e}; current = same },
      )

-- A restarted firmware knows the same map blocks.
pub record SameMapBlks (m k : Blkmgr) : Type 0 where
  pub blks : (b i : ℕ) → (k.banks b).blks_map i ≡ (m.banks b).blks_map i
  pub idx : m.map_blk_idx < 2
  pub idx' : k.map_blk_idx < 2

same_first :
    (m k : Blkmgr)
    → SameMapBlks m k
    → (k.map_blk_idx == m.map_blk_idx) ≡ true
    → (b : ℕ)
    → (blkmgr_get_map_blk k b ≡ blkmgr_get_map_blk m b)
      × (blkmgr_get_map_blk (blkmgr_toggle_map_blk_idx k) b
          ≡ blkmgr_get_map_blk (blkmgr_toggle_map_blk_idx m) b)
unfolding blkmgr_get_map_blk blkmgr_toggle_map_blk_idx
same_first m k h e b =
    let eq : k.map_blk_idx ≡ m.map_blk_idx = ground arith in
    (
      h.blks b k.map_blk_idx ∙ ap (m.banks b).blks_map eq,
      h.blks b ((k.map_blk_idx + 1) % 2) ∙ ap (λ i. (m.banks b).blks_map ((i + 1) % 2)) eq,
    )

same_second :
    (m k : Blkmgr)
    → SameMapBlks m k
    → (k.map_blk_idx == m.map_blk_idx) ≡ false
    → (b : ℕ)
    → (blkmgr_get_map_blk k b ≡ blkmgr_get_map_blk (blkmgr_toggle_map_blk_idx m) b)
      × (blkmgr_get_map_blk (blkmgr_toggle_map_blk_idx k) b ≡ blkmgr_get_map_blk m b)
unfolding blkmgr_get_map_blk blkmgr_toggle_map_blk_idx
same_second m k h ne b =
    let lt = h.idx in
    let lt' = h.idx' in
    let eq : k.map_blk_idx ≡ (m.map_blk_idx + 1) % 2 = ground arith in
    let eq' : (k.map_blk_idx + 1) % 2 ≡ m.map_blk_idx = ground arith in
    (
      h.blks b k.map_blk_idx ∙ ap (m.banks b).blks_map eq,
      h.blks b ((k.map_blk_idx + 1) % 2) ∙ ap (m.banks b).blks_map eq',
    )

-- A restart on what was written.
restore-Restored :
    (s t : Ftl)
    → Persisted s t.flash
    → 1 < s.g_epoch
    → s.g_epoch < 4294967296
    → SameMapBlks s.blkmgr t.blkmgr
    → (t' : Ftl) × (pgmap_restore_map_table t ≡ some t') × Restored s t'
restore-Restored s t h late word same =
    elim (Bool-cases (t.blkmgr.map_blk_idx == s.blkmgr.map_blk_idx)) [
      | inl first ↦
          restore_first s t h late word (λ b. (same_first s.blkmgr t.blkmgr same first b).0)
            (λ b. (same_first s.blkmgr t.blkmgr same first b).1) same.idx'
      | inr second ↦
          restore_second s t h late word (λ b. (same_second s.blkmgr t.blkmgr same second b).0)
            (λ b. (same_second s.blkmgr t.blkmgr same second b).1)
    ]

-- The page map survives a restart: where the current map blocks are erased up to the commit page, and
-- the epoch is greater than 1, `pgmap_persist_map_table` ends, and on the flash that it leaves
-- `pgmap_restore_map_table` ends from any state of a firmware that knows the same map blocks,
-- whichever of the two tables it takes for current. It gives every entry of the map back, resumes at
-- the epoch before the one of the checkpoint, and its current blocks are those that were written.
pub map_table-Restored :
    (s t : Ftl)
    → IsReady s
    → TwoMapBlks s.blkmgr
    → 1 < s.g_epoch
    → s.g_epoch < 4294967296
    → SameMapBlks s.blkmgr t.blkmgr
    → (s' : Ftl) × (pgmap_persist_map_table s ≡ some s')
      × (t' : Ftl) × (pgmap_restore_map_table (record t { flash = s'.flash }) ≡ some t')
      × Restored s t'
map_table-Restored s t r two late word same =
    let (s', e, h, toggled, kept) = persist_map_table-Persisted s r two in
    let (t', e', restored_all) =
      restore-Restored s (record t { flash = s'.flash }) h late word same in
    (s', e, t', e', restored_all)
