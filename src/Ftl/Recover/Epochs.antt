-- ===== src/Ftl/Recover/Epochs.antt =====
-- ftl_optr/recovery.c: the word that keeps the epoch of a logical page, and what
-- `retrieve_page_entries` does with it in mode 1.
use optr_jasmine.Prelude.{
  ℕ, ◌/◌, ◌%◌, ◌<◌, ◌≡◌, ap, inl, inr, refl, ◌∙◌, arith, Bool, true, false, ◌&&◌, if◌then◌else◌,
  ltb, ◌==◌, Bool-cases,
}
use optr_jasmine.Pgmap.{Pgmap, set_ppn, get_ppn}
use optr_jasmine.Vst.Page.{untag_page}
use optr_jasmine.Ftl.{Ftl, on_pgmap}
use optr_jasmine.Ftl.Nand.{read_cell, write_cells, poke}
use optr_jasmine.Ftl.Recover.{
  Recovering, cells_per_page, recovery_page, page_epoch, load_epoch, store_epoch, process_page,
}

-- What the recovery knows of `lpn`: the epoch of its version and where it stands.
abbrev pub known : Recovering → ℕ → ℕ × ℕ
known r lpn = (page_epoch lpn r, get_ppn r.ftl.pgmap lpn)

-- The logical pages whose epochs lie in front of FTL_BUF.
abbrev pub first_overlaid : ℕ
first_overlaid = 5951488

-- The word of the page lies in a DRAM page of host data.
abbrev pub is_host_data : Recovering → ℕ → Bool
is_host_data r lpn = (r.ftl.ram (lpn / cells_per_page)).tagged

module _ (lpn : ℕ) (low : lpn < first_overlaid) where
  pub page_epoch_low :
      (r : Recovering)
      → page_epoch lpn r ≡ read_cell r.ftl (lpn / cells_per_page) (lpn % cells_per_page)
  unfolding page_epoch
  page_epoch_low r =
      let here : ltb (lpn / cells_per_page) recovery_page ≡ true = ground arith in rw here refl

  pub read_cell-ram :
      (s t : Ftl)
      → s.ram (lpn / cells_per_page) ≡ t.ram (lpn / cells_per_page)
      → read_cell s (lpn / cells_per_page) (lpn % cells_per_page)
        ≡ read_cell t (lpn / cells_per_page) (lpn % cells_per_page)
  unfolding read_cell
  read_cell-ram s t e = rw e refl

  -- The word is stored, or stays, and its page does not become host data.
  store_epoch-page_epoch :
      (q epoch : ℕ) (r : Recovering)
      → page_epoch lpn (store_epoch q epoch r) ≡ (if lpn == q then epoch else page_epoch lpn r)
  unfolding store_epoch read_cell write_cells poke untag_page
  store_epoch-page_epoch q epoch r =
      rw (page_epoch_low r, page_epoch_low (store_epoch q epoch r)) (ground arith)

  store_epoch-untagged :
      (q epoch : ℕ) (r : Recovering)
      → is_host_data r lpn ≡ false
      → is_host_data (store_epoch q epoch r) lpn ≡ false
  unfolding store_epoch write_cells poke untag_page
  store_epoch-untagged q epoch r h = ground arith

load_epoch_same :
    (q : ℕ) (r : Recovering)
    → load_epoch q r ≡ record r { epoch_prev = (load_epoch q r).epoch_prev }
unfolding load_epoch
load_epoch_same q r = ground arith

store_epoch-pgmap : (q epoch : ℕ) (r : Recovering) → (store_epoch q epoch r).ftl.pgmap ≡ r.ftl.pgmap
unfolding store_epoch write_cells
store_epoch-pgmap q epoch r = ground arith

store_epoch-incomplete :
    (q epoch : ℕ) (r : Recovering)
    → (store_epoch q epoch r).recovery.epoch_incomplete ≡ r.recovery.epoch_incomplete
unfolding store_epoch write_cells
store_epoch-incomplete q epoch r = ground arith

-- The epoch that the page found is compared with.
prev_of : Recovering → ℕ
prev_of r = (load_epoch r.ftl.spare.lpn r).epoch_prev

-- The state with the page found put in the map.
placed : ℕ → Recovering → Recovering
unfolding prev_of
placed ppn r =
    store_epoch r.ftl.spare.lpn r.ftl.spare.epoch
      (record r { ftl = on_pgmap (set_ppn r.ftl.spare.lpn ppn) r.ftl; epoch_prev = prev_of r })

process_page_lem :
    (ppn : ℕ) (r : Recovering)
    → process_page true ppn r ≡ (
        if ltb r.ftl.spare.epoch r.recovery.epoch_incomplete && ltb (prev_of r) r.ftl.spare.epoch
        then placed ppn r
        else record r { epoch_prev = prev_of r })
unfolding process_page placed prev_of
process_page_lem ppn r =
    ap
      (λ (x : Recovering).
        if ltb r.ftl.spare.epoch r.recovery.epoch_incomplete && ltb x.epoch_prev r.ftl.spare.epoch
        then store_epoch r.ftl.spare.lpn r.ftl.spare.epoch
            (record x { ftl = on_pgmap (set_ppn r.ftl.spare.lpn ppn) x.ftl })
        else x)
      (load_epoch_same r.ftl.spare.lpn r)

module _ (lpn : ℕ) (low : lpn < first_overlaid) where
  prev_here :
      (r : Recovering)
      → is_host_data r lpn ≡ false
      → (lpn == r.ftl.spare.lpn) ≡ true
      → prev_of r ≡ page_epoch lpn r
  unfolding prev_of load_epoch
  prev_here r h e =
      let same : r.ftl.spare.lpn ≡ lpn = ground arith in
      rw same
        (let kind : (r.ftl.ram (lpn / cells_per_page)).tagged ≡ false = h in ground (arith, kind))

  page_epoch-map :
      (r : Recovering) (f : Pgmap → Pgmap) (prev : ℕ)
      → page_epoch lpn (record r { ftl = on_pgmap f r.ftl; epoch_prev = prev }) ≡ page_epoch lpn r
  unfolding page_epoch read_cell
  page_epoch-map r f prev = refl

  placed-known :
      (ppn : ℕ) (r : Recovering)
      → known (placed ppn r) lpn
        ≡ (if lpn == r.ftl.spare.lpn then (r.ftl.spare.epoch, ppn) else known r lpn)
  unfolding placed get_ppn set_ppn
  placed-known ppn r =
      let map =
        store_epoch-pgmap r.ftl.spare.lpn r.ftl.spare.epoch (record r {
          ftl = on_pgmap (set_ppn r.ftl.spare.lpn ppn) r.ftl;
          epoch_prev = prev_of r;
        }) in
      let word =
        store_epoch-page_epoch lpn low r.ftl.spare.lpn r.ftl.spare.epoch (record r {
          ftl = on_pgmap (set_ppn r.ftl.spare.lpn ppn) r.ftl;
          epoch_prev = prev_of r;
        }) in
      let same = page_epoch-map r (set_ppn r.ftl.spare.lpn ppn) (prev_of r) in
      rw (word, map, same)
        (elim (Bool-cases (lpn == r.ftl.spare.lpn)) [ inl e ↦ rw e refl | inr ne ↦ rw ne refl ])

  placed-untagged :
      (ppn : ℕ) (r : Recovering)
      → is_host_data r lpn ≡ false
      → is_host_data (placed ppn r) lpn ≡ false
  unfolding placed
  placed-untagged ppn r h =
      store_epoch-untagged lpn low r.ftl.spare.lpn r.ftl.spare.epoch
        (record r { ftl = on_pgmap (set_ppn r.ftl.spare.lpn ppn) r.ftl; epoch_prev = prev_of r }) h

  pub process-known :
      (ppn : ℕ) (r : Recovering)
      → is_host_data r lpn ≡ false
      → known (process_page true ppn r) lpn ≡ (
          if r.ftl.spare.lpn == lpn
            && (ltb r.ftl.spare.epoch r.recovery.epoch_incomplete
                && ltb (page_epoch lpn r) r.ftl.spare.epoch)
          then (r.ftl.spare.epoch, ppn)
          else known r lpn)
  process-known ppn r h =
      let sp = r.ftl.spare in
      let old = ltb sp.epoch r.recovery.epoch_incomplete in
      let kept = page_epoch-map r (λ m. m) (prev_of r) in
      rw (process_page_lem ppn r) (elim (Bool-cases (old && ltb (prev_of r) sp.epoch)) [
        | inl newer ↦ elim (Bool-cases (lpn == sp.lpn)) [
          | inl e ↦
              let prev = prev_here r h e in
              let here : (sp.lpn == lpn && (old && ltb (page_epoch lpn r) sp.epoch)) ≡ true =
                ground (arith, newer, e, prev) in
              rw (newer, here) (placed-known ppn r ∙ rw e refl)
          | inr ne ↦
              let there : (sp.lpn == lpn && (old && ltb (page_epoch lpn r) sp.epoch)) ≡ false =
                ground (arith, ne) in
              rw (newer, there) (placed-known ppn r ∙ rw ne refl)
        ]
        | inr older ↦
            let other : (sp.lpn == lpn && (old && ltb (page_epoch lpn r) sp.epoch)) ≡ false =
              elim (Bool-cases (lpn == sp.lpn)) [
                | inl e ↦ let prev = prev_here r h e in ground (arith, older, e, prev)
                | inr ne ↦ ground (arith, ne)
              ] in
            rw (older, other) (ap (λ x. (x, get_ppn r.ftl.pgmap lpn)) kept)
      ])

  pub process-untagged :
      (ppn : ℕ) (r : Recovering)
      → is_host_data r lpn ≡ false
      → is_host_data (process_page true ppn r) lpn ≡ false
  process-untagged ppn r h =
      rw (process_page_lem ppn r)
        (elim (Bool-cases (
          ltb r.ftl.spare.epoch r.recovery.epoch_incomplete && ltb (prev_of r) r.ftl.spare.epoch)) [
            | inl newer ↦ rw newer (placed-untagged ppn r h)
            | inr older ↦ rw older h
          ])

pub process-incomplete :
    (ppn : ℕ) (r : Recovering)
    → (process_page true ppn r).recovery.epoch_incomplete ≡ r.recovery.epoch_incomplete
unfolding placed
process-incomplete ppn r =
    rw (process_page_lem ppn r)
      (elim (Bool-cases
        (ltb r.ftl.spare.epoch r.recovery.epoch_incomplete && ltb (prev_of r) r.ftl.spare.epoch)) [
          | inl newer ↦ rw newer (store_epoch-incomplete r.ftl.spare.lpn r.ftl.spare.epoch _)
          | inr older ↦ rw older refl
        ])
