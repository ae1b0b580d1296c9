-- ===== src/Ftl/Store.antt =====
-- What the firmware keeps on flash, as its clients see it: the contents of each logical page. A step
-- is a call of the firmware that changes the page map or the flash: a buffer is written out
-- (ftl_optr/cache.c: `dequeue`), a valid page moves (ftl_optr/blkmgr.c: `garbage_collection`), the
-- victim is erased (`blkmgr_erase_vt_blk`), pages are trimmed (ftl_optr/pgmap.c: `pgmap_trim`).
pub mod Refine
pub mod Frame
pub mod Went
pub mod Exact
pub mod Log
pub mod Read
pub mod Count
pub mod Collect
pub mod Prepare
pub mod Garbage
pub mod Ready
pub mod Drain
pub mod Flush
pub mod Persist
pub mod Pool
pub mod Search
pub mod Copy
pub mod Enqueue
mod Tests
use optr_jasmine.Prelude.{
  ℕ, ◌+◌, ◌*◌, ◌/◌, ◌%◌, ◌<◌, ◌≡◌, ◌≢◌, Bool, true, false, not, ◌&&◌, Option, none, some, List, [],
  ◌∷◌, if◌then◌else◌, ltb, leb, ◌==◌, add32, is_some,
}
use optr_jasmine.Config.{pages_per_vblk, num_banks, num_cache_buffers_per_bank}
use optr_jasmine.Pgmap.{get_ppn, get_active_ppn, pgmap_trim}
use optr_jasmine.Vst.Page.{VPage}
use optr_jasmine.Vst.Flash.{Spare}
use optr_jasmine.Vst.Flash.Stands.{Stands}
use optr_jasmine.Ftl.{Ftl, cache_buf, on_pgmap}
use optr_jasmine.Ftl.Host.{get_bank}
use optr_jasmine.Ftl.Dequeue.{write_out, blkmgr_erase_vt_blk}
use optr_jasmine.Ftl.Dequeue.Write.{CanWrite}
use optr_jasmine.Ftl.Gc.{move_page}
use optr_jasmine.Ftl.Gc.Moves.{CanMove}

-- The contents of each logical page; `none` for a page that was never written, or trimmed.
abbrev pub Contents : Type 0
Contents = ℕ → Option VPage

pub data Event : Type 0 where
  put : ℕ → VPage → Event
  trim : ℕ → ℕ → Event
  quiet : Event

-- The specification: a step puts a page, drops a range of pages, or is not seen.
abbrev pub apply : Event → Contents → Contents
apply (put lpn v) c q = if q == lpn then some v else c q
apply (trim lpn n) c q = if leb lpn q && ltb q (add32 lpn n) then none else c q
apply quiet c q = c q

abbrev pub apply_all : List Event → Contents → Contents
apply_all [] c = c
apply_all (e ∷ es) c = apply_all es (apply e c)

-- The flash page that the map gives for the logical page holds `v`, and names the logical page in
-- its spare area.
pub record HoldsAt (s : Ftl) (q : ℕ) (v : VPage) : Type 0 where
  pub spare : Spare
  pub names : spare.lpn ≡ q
  pub stands :
      Stands s.flash
        (get_bank q)
        (get_ppn s.pgmap q / pages_per_vblk)
        (get_ppn s.pgmap q % pages_per_vblk)
        v
        spare

-- The firmware's map and flash stand for the contents.
pub record Refines (c : Contents) (s : Ftl) : Type 0 where
  pub mapped : (q : ℕ) → not (get_ppn s.pgmap q == 0) ≡ is_some (c q)
  pub held : (q : ℕ) (v : VPage) → c q ≡ some v → HoldsAt s q v

-- The steps are calls that succeed, each with what it needs: the firmware does not run without data;
-- a buffer holds a page of its own bank; a page that moves is valid; a page is not put at page 0 of
-- block 0, which stands for an unmapped page; no logical page stands in a block that is erased.
pub data Step (s : Ftl) : Event → Ftl → Type 0 where
  flush :
      (bank idx : ℕ) {s' : Ftl}
      → idx < num_cache_buffers_per_bank
      → s.enable_gc_opt ≡ false
      → get_bank ((s.caches.banks bank).ents idx).lpn ≡ bank
      → write_out bank idx s ≡ some s'
      → get_ppn s'.pgmap ((s.caches.banks bank).ents idx).lpn ≢ 0
      → Step s (put ((s.caches.banks bank).ents idx).lpn (s.ram (cache_buf bank idx))) s'
  move :
      (bank vt_blk vt_page lpn : ℕ) {s' : Ftl}
      → s.enable_gc_opt ≡ false
      → vt_page < pages_per_vblk
      → get_bank lpn ≡ bank
      → get_ppn s.pgmap lpn ≡ vt_blk * pages_per_vblk + vt_page
      → get_ppn s.pgmap lpn ≢ 0
      → move_page bank vt_blk vt_page lpn s ≡ some s'
      → get_ppn s'.pgmap lpn ≢ 0
      → Step s quiet s'
  erase :
      (bank : ℕ)
      → ((q : ℕ)
          → get_bank q ≡ bank
          → get_ppn s.pgmap q ≢ 0
          → get_ppn s.pgmap q / pages_per_vblk ≢ (s.blkmgr.banks bank).vt_blk)
      → Step s quiet (blkmgr_erase_vt_blk bank s)
  discard : (lpn n : ℕ) → Step s (trim lpn n) (on_pgmap (pgmap_trim lpn n) s)

-- A run of steps.
pub data Run : Ftl → List Event → Ftl → Type 0 where
  here : {s : Ftl} → Run s [] s
  next : {s t u : Ftl} {e : Event} {es : List Event} → Step s e t → Run t es u → Run s (e ∷ es) u
