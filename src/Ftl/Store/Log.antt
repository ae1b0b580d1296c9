-- ===== src/Ftl/Store/Log.antt =====
-- The firmware's steps and the mapping entries that wait in DRAM for the next checkpoint
-- (ftl_optr/log.c: `log_insert_mapent`, called by `dequeue` and `garbage_collection`).
use optr_jasmine.Prelude.{
  ℕ, ◌≡◌, refl, arith, Bool, true, false, List, All, ◌==◌, Bool-cases, inl, inr,
}
use optr_jasmine.Ftl.{Ftl}
use optr_jasmine.Ftl.Dequeue.{blkmgr_erase_vt_blk}
use optr_jasmine.Ftl.Store.Went.{write_out-WriteSteps, write_out-Went, move_page-Went}
use optr_jasmine.Ftl.Record.Mapents.{Logged, noted-Logged, Logged-same}
use optr_jasmine.Ftl.Store.{
  Event, put, trim, quiet, Step, flush, move, erase, discard, Run, here, next,
}

unfoldable pub is_trim : Event → Bool
is_trim (put lpn v) = false
is_trim (trim lpn n) = true
is_trim quiet = false

erase-Logged :
    (base : ℕ → ℕ) (s : Ftl) (bank : ℕ) → Logged base s → Logged base (blkmgr_erase_vt_blk bank s)
unfolding blkmgr_erase_vt_blk
erase-Logged base s bank v = elim (Bool-cases ((s.blkmgr.banks bank).vt_blk == 0)) [
  | inl z ↦ rw z v
  | inr nz ↦ rw nz (Logged-same base s _ refl refl refl v)
]

Step-Logged :
    (base : ℕ → ℕ) {s : Ftl} {e : Event} {s' : Ftl}
    → Step s e s'
    → is_trim e ≡ false
    → Logged base s
    → Logged base s'
unfolding is_trim
Step-Logged base {s} {e} {s'} (flush bank idx lt real own ran nz) kept log =
    let (ppn, spare, w, names, stands) =
      write_out-Went bank idx s (let it = own in omega (arith, it)) lt
        (write_out-WriteSteps bank idx s real ran) in
    noted-Logged base s s' _ ppn log w.place w.cnt w.last w.earlier
Step-Logged base {s} {e} {s'} (move bank vt_blk vt_page lpn real lt own at was ran nz) kept log =
    let (ppn, spare, w, names, stands) =
      move_page-Went bank vt_blk vt_page lpn s (let it = own in omega (arith, it)) real ran in
    noted-Logged base s s' lpn ppn log w.place w.cnt w.last w.earlier
Step-Logged base {s} (erase bank free) kept log = erase-Logged base s bank log
Step-Logged base (discard lpn n) kept log = absurd (ground (arith, kept))

-- If the waiting entries, applied in order to the page map `base` of the last checkpoint, give the
-- page map, then they still do after any run of write-outs, page moves and erasures that succeed,
-- with the firmware running with data, whether an open block had room or was closed for the next
-- one. The run has no trims: a trim is not logged.
pub Run-Logged :
    (base : ℕ → ℕ) {s : Ftl} {es : List Event} {s' : Ftl}
    → Run s es s'
    → All (λ e. is_trim e ≡ false) es
    → Logged base s
    → Logged base s'
Run-Logged base here kept log = log
Run-Logged base (next {e} st r) (kept, rest) log =
    Run-Logged base r rest (Step-Logged base st kept log)
