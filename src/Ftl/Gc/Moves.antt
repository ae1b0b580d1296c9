-- ===== src/Ftl/Gc/Moves.antt =====
-- What garbage collection does to a valid page of its victim.
use optr_jasmine.Prelude.{
  ℕ, ◌+◌, ◌*◌, ◌/◌, ◌%◌, ◌<◌, ◌≡◌, refl, ap, ◌∙◌, arith, true, false, ◌&&◌, some, if◌then◌else◌,
  ◌==◌, ==_refl, minus_two, u16, if_false,
}
use optr_jasmine.Config.{pages_per_vblk, vblks_per_bank, sectors_per_page}
use optr_jasmine.Blkmgr.{get_vcount}
use optr_jasmine.Blkmgr.Vcount.{with_vcount, get_vcount_up, set_vcount_ok}
use optr_jasmine.Pgmap.{get_ppn, set_ppn, set_lpn, get_active_ppn, set_active_ppn}
use optr_jasmine.Vst.Page.{VPage}
use optr_jasmine.Vst.Flash.{Flash, Spare, vst_copyback_page, vst_read_page, in_geometry}
use optr_jasmine.Vst.Flash.Access.{
  Agrees, copyback_possible, copyback-elsewhere, copyback-junk, read-copyback,
}
use optr_jasmine.Vst.Flash.Stands.{Stands, copyback-Stands}
use optr_jasmine.Ftl.{Ftl, Chkpt}
use optr_jasmine.Ftl.Nand.{read_cell, nand_page_copyback}
use optr_jasmine.Ftl.Pages.Alloc.{is_data_page, active_ppn_within}
use optr_jasmine.Ftl.Record.{log_insert_mapent}
use optr_jasmine.Ftl.Record.Mapents.{max_mapents, mapent, mapent-ram, log_insert_mapent-Appended}
use optr_jasmine.Ftl.Gc.{move_page}

-- When page `vt_page` of the victim can move: it lies in the device, the next page of the open block
-- of region 1 is another page, a data page, erased, and not more than the block holds, the log has room, and the
-- firmware does not run without data.
pub record CanMove (bank vt_blk vt_page : ℕ) (s : Ftl) : Type 0 where
  pub from : in_geometry bank vt_blk vt_page ≡ true
  pub other :
      (vt_blk == get_active_ppn s.pgmap bank 1 / pages_per_vblk
        && vt_page == get_active_ppn s.pgmap bank 1 % pages_per_vblk)
      ≡ false
  pub page : is_data_page (get_active_ppn s.pgmap bank 1) ≡ true
  pub erased :
      (s.flash.pages bank
        (get_active_ppn s.pgmap bank 1 / pages_per_vblk)
        (get_active_ppn s.pgmap bank 1 % pages_per_vblk)).is_erased
      ≡ true
  pub room :
      get_vcount s.blkmgr bank (get_active_ppn s.pgmap bank 1 / pages_per_vblk) < pages_per_vblk
  pub log : s.chkpt.cnt_mapents < max_mapents
  pub real : s.enable_gc_opt ≡ false

-- The spare area of a page that garbage collection moved.
abbrev pub gc_spare : ℕ → Ftl → Spare
gc_spare lpn s = record { lpn = lpn; pg_span = u16 (s.flash.junk 0); epoch = minus_two }

pub record Moved (bank vt_blk vt_page lpn : ℕ) (s s' : Ftl) : Type 0 where
  pub place :
      (q : ℕ)
      → get_ppn s'.pgmap q ≡ (if q == lpn then get_active_ppn s.pgmap bank 1 else get_ppn s.pgmap q)
  pub stored :
      (dst : VPage)
      → (r : VPage) × (vst_read_page s'.flash bank
            (get_active_ppn s.pgmap bank 1 / pages_per_vblk)
            (get_active_ppn s.pgmap bank 1 % pages_per_vblk)
            0
            sectors_per_page
            dst
          ≡ some (r, gc_spare lpn s))
        × Agrees (s.flash.pages bank vt_blk vt_page).vpage r 0 sectors_per_page
  pub counts :
      (b k : ℕ)
      → get_vcount s'.blkmgr b k ≡ (
          if b * vblks_per_bank + k
            == bank * vblks_per_bank + get_active_ppn s.pgmap bank 1 / pages_per_vblk
          then get_vcount s.blkmgr b k + 1
          else get_vcount s.blkmgr b k)
  pub active : get_active_ppn s'.pgmap bank 1 ≡ get_active_ppn s.pgmap bank 1 + 1
  pub logged : mapent s' s.chkpt.cnt_mapents ≡ (lpn, get_active_ppn s.pgmap bank 1)
  pub stands :
      (v : VPage) (spare : Spare)
      → Stands s.flash bank vt_blk vt_page v spare
      → Stands s'.flash bank
          (get_active_ppn s.pgmap bank 1 / pages_per_vblk)
          (get_active_ppn s.pgmap bank 1 % pages_per_vblk)
          v
          (gc_spare lpn s)
  pub real : s'.enable_gc_opt ≡ false
  pub junk : s'.flash.junk ≡ s.flash.junk
  pub earlier : (i : ℕ) → i < s.chkpt.cnt_mapents → mapent s' i ≡ mapent s i
  pub cnt : s'.chkpt.cnt_mapents ≡ s.chkpt.cnt_mapents + 1
  pub others :
      (b k p : ℕ)
      → (b == bank
          && (k == get_active_ppn s.pgmap bank 1 / pages_per_vblk
              && p == get_active_ppn s.pgmap bank 1 % pages_per_vblk))
        ≡ false
      → s'.flash.pages b k p ≡ s.flash.pages b k p

-- The state that the move is logged in.
remapped : ℕ → ℕ → Ftl → Ftl
remapped bank lpn s =
    let ppn = get_active_ppn s.pgmap bank 1 in
    record s {
      pgmap =
          set_lpn bank 1 (ppn % pages_per_vblk) lpn
            (set_ppn lpn ppn (set_active_ppn bank 1 (ppn + 1) s.pgmap));
      blkmgr =
          with_vcount s.blkmgr bank (ppn / pages_per_vblk)
            (get_vcount s.blkmgr bank (ppn / pages_per_vblk) + 1);
    }

-- The state that the move ends in, given the log and the flash.
arrived : ℕ → ℕ → Ftl → Chkpt → (ℕ → VPage) → Flash → Ftl
unfolding remapped
arrived bank lpn s c ram f = record (remapped bank lpn s) {
  chkpt = c;
  ram = ram;
  spare = gc_spare lpn s;
  flash = f;
}

move_page_steps :
    (bank vt_blk vt_page lpn : ℕ) (s w : Ftl) {f : Flash}
    → is_data_page (get_active_ppn s.pgmap bank 1) ≡ true
    → get_vcount s.blkmgr bank (get_active_ppn s.pgmap bank 1 / pages_per_vblk) < pages_per_vblk
    → s.enable_gc_opt ≡ false
    → log_insert_mapent lpn (get_active_ppn s.pgmap bank 1) (remapped bank lpn s)
      ≡ some (record (remapped bank lpn s) { chkpt = w.chkpt; ram = w.ram })
    → vst_copyback_page s.flash bank vt_blk vt_page
        (get_active_ppn s.pgmap bank 1 / pages_per_vblk)
        (get_active_ppn s.pgmap bank 1 % pages_per_vblk)
        (gc_spare lpn s)
      ≡ some f
    → move_page bank vt_blk vt_page lpn s ≡ some (arrived bank lpn s w.chkpt w.ram f)
unfolding move_page remapped arrived nand_page_copyback
move_page_steps bank vt_blk vt_page lpn s w data_page room real log copy =
    let ppn = get_active_ppn s.pgmap bank 1 in
    rw
      (
        active_ppn_within bank 1 s data_page,
        set_vcount_ok s.blkmgr bank (ppn / pages_per_vblk)
            (get_vcount s.blkmgr bank (ppn / pages_per_vblk) + 1) (omega arith),
        log,
      )
      (if_false s.enable_gc_opt _ _ real ∙ rw copy refl)

arrived-place :
    (bank lpn : ℕ) (s : Ftl) (c : Chkpt) (ram : ℕ → VPage) (f : Flash) (q : ℕ)
    → get_ppn (arrived bank lpn s c ram f).pgmap q
      ≡ (if q == lpn then get_active_ppn s.pgmap bank 1 else get_ppn s.pgmap q)
unfolding arrived remapped get_ppn set_ppn set_lpn set_active_ppn
arrived-place bank lpn s c ram f q = refl

arrived-active :
    (bank lpn : ℕ) (s : Ftl) (c : Chkpt) (ram : ℕ → VPage) (f : Flash)
    → get_active_ppn (arrived bank lpn s c ram f).pgmap bank 1 ≡ get_active_ppn s.pgmap bank 1 + 1
unfolding arrived remapped get_active_ppn set_active_ppn set_ppn set_lpn
arrived-active bank lpn s c ram f = rw (==_refl bank) refl

arrived-counts :
    (bank lpn : ℕ) (s : Ftl) (c : Chkpt) (ram : ℕ → VPage) (f : Flash) (b k : ℕ)
    → get_vcount (arrived bank lpn s c ram f).blkmgr b k ≡ (
        if b * vblks_per_bank + k
          == bank * vblks_per_bank + get_active_ppn s.pgmap bank 1 / pages_per_vblk
        then get_vcount s.blkmgr b k + 1
        else get_vcount s.blkmgr b k)
unfolding arrived remapped
arrived-counts bank lpn s c ram f b k =
    get_vcount_up s.blkmgr bank (get_active_ppn s.pgmap bank 1 / pages_per_vblk) b k

arrived-mapent :
    (bank lpn : ℕ) (s w : Ftl) (f : Flash) (i : ℕ)
    → mapent (arrived bank lpn s w.chkpt w.ram f) i ≡ mapent w i
unfolding arrived remapped read_cell
arrived-mapent bank lpn s w f i = refl

-- A move that is logged and whose log leaves the flash alone.
record Noted (bank lpn : ℕ) (s : Ftl) : Type 0 where
  w : Ftl
  result :
      log_insert_mapent lpn (get_active_ppn s.pgmap bank 1) (remapped bank lpn s)
      ≡ some (record (remapped bank lpn s) { chkpt = w.chkpt; ram = w.ram })
  last : mapent w s.chkpt.cnt_mapents ≡ (lpn, get_active_ppn s.pgmap bank 1)
  cnt : w.chkpt.cnt_mapents ≡ s.chkpt.cnt_mapents + 1
  earlier : (i : ℕ) → i < s.chkpt.cnt_mapents → mapent w i ≡ mapent s i

log_insert_mapent-Noted :
    (bank lpn : ℕ) (s : Ftl) → s.chkpt.cnt_mapents < max_mapents → Noted bank lpn s
unfolding remapped
log_insert_mapent-Noted bank lpn s log =
    let (w, e, a) =
      log_insert_mapent-Appended lpn (get_active_ppn s.pgmap bank 1) (remapped bank lpn s) log in
    record {
      w = w;
      result = e ∙ ap (λ x. some x) a.same;
      last = a.ents s.chkpt.cnt_mapents ∙ rw (==_refl s.chkpt.cnt_mapents) refl;
      cnt = a.count;
      earlier = λ i h.
          let ne : (i == s.chkpt.cnt_mapents) ≡ false = ground arith in
          a.ents i ∙ rw ne (mapent-ram s (remapped bank lpn s) i refl);
    }

-- A data page lies in the device when its bank does.
data_page-in_geometry :
    (bank blk page ppn : ℕ)
    → in_geometry bank blk page ≡ true
    → is_data_page ppn ≡ true
    → in_geometry bank (ppn / pages_per_vblk) (ppn % pages_per_vblk) ≡ true
data_page-in_geometry bank blk page ppn from data_page = ground arith

-- A valid page of the victim that can move does: its logical page then stands at the next page of
-- the open block of region 1 and no other logical page moves, a read of that flash page gives what
-- the victim's page holds with the logical page in the spare area, the block has one valid page
-- more and no other count changes, no other page of the flash changes, and the log has one entry
-- more, the move.
pub move_page-Moved :
    (bank vt_blk vt_page lpn : ℕ) (s : Ftl)
    → CanMove bank vt_blk vt_page s
    → (s' : Ftl) × (move_page bank vt_blk vt_page lpn s ≡ some s')
      × Moved bank vt_blk vt_page lpn s s'
unfolding arrived remapped
move_page-Moved bank vt_blk vt_page lpn s v =
    let ppn = get_active_ppn s.pgmap bank 1 in
    let blk = ppn / pages_per_vblk in
    let page = ppn % pages_per_vblk in
    let n = log_insert_mapent-Noted bank lpn s v.log in
    let (f, ok) =
      copyback_possible s.flash bank vt_blk vt_page blk page (gc_spare lpn s) v.from
        (data_page-in_geometry bank vt_blk vt_page ppn v.from v.page) v.erased in
    (
      arrived bank lpn s n.w.chkpt n.w.ram f,
      move_page_steps bank vt_blk vt_page lpn s n.w v.page v.room v.real n.result ok,
      record {
        place = arrived-place bank lpn s n.w.chkpt n.w.ram f;
        stored = λ dst.
            read-copyback s.flash bank vt_blk vt_page blk page dst (gc_spare lpn s) v.other ok;
        counts = arrived-counts bank lpn s n.w.chkpt n.w.ram f;
        active = arrived-active bank lpn s n.w.chkpt n.w.ram f;
        logged = arrived-mapent bank lpn s n.w f s.chkpt.cnt_mapents ∙ n.last;
        stands = λ w spare h.
            copyback-Stands s.flash bank vt_blk vt_page blk page w spare (gc_spare lpn s) ok h;
        real = v.real;
        junk = copyback-junk s.flash bank vt_blk vt_page blk page (gc_spare lpn s) ok;
        cnt = n.cnt;
        earlier = λ i h. arrived-mapent bank lpn s n.w f i ∙ n.earlier i h;
        others = λ b k p.
            copyback-elsewhere s.flash bank vt_blk vt_page blk page (gc_spare lpn s) b k p ok;
      },
    )
