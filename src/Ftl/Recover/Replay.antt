-- ===== src/Ftl/Recover/Replay.antt =====
-- The mapping entries of a log page, read back into the page map.
use optr_jasmine.Prelude.{ℕ, suc, ◌+◌, ◌*◌, ◌≡◌, refl, ◌∙◌, ap, arith, for_range_inv, sym}
use optr_jasmine.Pgmap.{set_ppn, get_ppn}
use optr_jasmine.Ftl.{Ftl, on_pgmap, ftl_buf}
use optr_jasmine.Ftl.Nand.{read_cell}
use optr_jasmine.Ftl.Recover.{process_mapent}
use optr_jasmine.Ftl.Record.Mapents.{replay, replay_zero, replay_end, get_ppn-set_ppn}

-- The entries of a log page that stands in FTL_BUF(bank).
abbrev pub page_ent : Ftl → ℕ → ℕ → ℕ × ℕ
page_ent s bank i = (read_cell s (ftl_buf bank) (2 + 2 * i), read_cell s (ftl_buf bank) (3 + 2 * i))

suc_add : (i : ℕ) → suc i ≡ i + 1
suc_add i = omega arith

-- The recovery of a page of mapping entries applies its entries to the page map in order, as many
-- as the page counts.
pub process_mapent-replay :
    (bank : ℕ) (s : Ftl) (lpn : ℕ)
    → get_ppn (process_mapent bank s).pgmap lpn
      ≡ replay (read_cell s (ftl_buf bank) 1) (page_ent s bank) (get_ppn s.pgmap) lpn
unfolding process_mapent
process_mapent-replay bank s =
    for_range_inv
      (λ i (t : Ftl).
        (lpn : ℕ) → get_ppn t.pgmap lpn ≡ replay i (page_ent s bank) (get_ppn s.pgmap) lpn)
      (λ i t. on_pgmap (set_ppn (page_ent s bank i).0 (page_ent s bank i).1) t)
      (read_cell s (ftl_buf bank) 1)
      (λ i t b h lpn.
        get_ppn-set_ppn t.pgmap (page_ent s bank i).0 (page_ent s bank i).1 lpn
        ∙ replay_end i (page_ent s bank) (get_ppn s.pgmap) lpn (page_ent s bank i).0
            (page_ent s bank i).1 (get_ppn t.pgmap lpn) refl (sym (h lpn))
        ∙ ap (λ k. replay k (page_ent s bank) (get_ppn s.pgmap) lpn) (suc_add i))
      (read_cell s (ftl_buf bank) 1) 0 s (omega arith)
      (replay_zero (page_ent s bank) (get_ppn s.pgmap))
