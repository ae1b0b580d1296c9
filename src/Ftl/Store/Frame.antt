-- ===== src/Ftl/Store/Frame.antt =====
-- ftl_optr/cache.c and ftl_optr/pgmap.c: what the calls of `dequeue` and `garbage_collection` up to
-- the program of the page leave alone, on each of their branches, if they succeed.
use optr_jasmine.Prelude.{
  ◌%◌, ◌*◌, ℕ, ◌+◌, ◌/◌, ◌<◌, ◌≤◌, ◌≡◌, refl, ap, ◌∙◌, arith, false, some, ◌==◌, Bool-cases,
  Option-cases, inl, inr, subst, ==_refl, if◌then◌else◌,
}
use optr_jasmine.Config.{pages_per_vblk, vblks_per_bank, vc_max}
use optr_jasmine.Blkmgr.{Blkmgr, get_vcount, dec_vcount, inc_vcount}
use optr_jasmine.Blkmgr.Vcount.{with_vcount, inc_vcount_ok, get_vcount_up}
use optr_jasmine.Pgmap.{Pgmap, set_ppn, set_lpn, get_ppn}
use optr_jasmine.Vst.Page.{VPage}
use optr_jasmine.Ftl.{on_pgmap, Ftl, Chkpt, chkpt_buf}
use optr_jasmine.Ftl.Pages.Alloc.Frame.{Kept}
use optr_jasmine.Ftl.Dequeue.{unmap_old, map_new}
use optr_jasmine.Ftl.Record.{log_insert_mapent, set_mapent}
use optr_jasmine.Ftl.Record.Mapents.{
  Appended, max_mapents, mapent, mapent-ram, log_insert_mapent-Appended,
}

pub unmap_old-Kept :
    (bank ppn : ℕ) (s : Ftl) {t : Ftl} → unmap_old bank ppn s ≡ some t → Kept bank s t
unfolding unmap_old get_ppn
unmap_old-Kept bank ppn s e = elim (Bool-cases (ppn == 0)) [
  | inl z ↦ record {
    map = λ q. ground (arith, e, z);
    ents = λ b. ground (arith, e, z);
    chkpt = ground (arith, e, z);
    real = ground (arith, e, z);
    ram = λ page h. ground (arith, e, z);
    written = λ b k p h. ground (arith, e, z);
  }
  | inr nz ↦ elim (Option-cases (dec_vcount s.blkmgr bank (ppn / pages_per_vblk))) [
    | inl none_left ↦ absurd (ground (arith, e, nz, none_left))
    | inr (m, got) ↦ record {
      map = λ q. ground (arith, e, nz, got);
      ents = λ b. ground (arith, e, nz, got);
      chkpt = ground (arith, e, nz, got);
      real = ground (arith, e, nz, got);
      ram = λ page h. ground (arith, e, nz, got);
      written = λ b k p h. ground (arith, e, nz, got);
    }
  ]
]

-- From `s` to `t` the logical page `lpn` was put at `ppn` in map and log.
pub record Placed (lpn ppn : ℕ) (s t : Ftl) : Type 0 where
  pub place : (q : ℕ) → get_ppn t.pgmap q ≡ (if q == lpn then ppn else get_ppn s.pgmap q)
  pub flash : t.flash ≡ s.flash
  pub caches : t.caches ≡ s.caches
  pub real : t.enable_gc_opt ≡ s.enable_gc_opt
  pub ram : (page : ℕ) → page < chkpt_buf 0 → t.ram page ≡ s.ram page
  pub cnt : t.chkpt.cnt_mapents ≡ s.chkpt.cnt_mapents + 1
  pub last : mapent t s.chkpt.cnt_mapents ≡ (lpn, ppn)
  pub earlier : (i : ℕ) → i < s.chkpt.cnt_mapents → mapent t i ≡ mapent s i

pub log_insert_mapent-Some :
    (lpn ppn : ℕ) (s : Ftl) {t : Ftl} → log_insert_mapent lpn ppn s ≡ some t → Appended lpn ppn s t
unfolding log_insert_mapent set_mapent
log_insert_mapent-Some lpn ppn s {t} e =
    let room : s.chkpt.cnt_mapents < max_mapents = ground (arith, e) in
    let (u, e', a) = log_insert_mapent-Appended lpn ppn s room in
    let same : u ≡ t = ground (arith, e, e') in subst (λ x. Appended lpn ppn s x) same a

-- An entry of the log that says what was just put in the map.
pub logged-Placed :
    (lpn ppn : ℕ) (s u : Ftl) {t : Ftl}
    → ((q : ℕ) → get_ppn u.pgmap q ≡ (if q == lpn then ppn else get_ppn s.pgmap q))
    → u.flash ≡ s.flash
    → u.caches ≡ s.caches
    → u.enable_gc_opt ≡ s.enable_gc_opt
    → u.ram ≡ s.ram
    → u.chkpt ≡ s.chkpt
    → log_insert_mapent lpn ppn u ≡ some t
    → Placed lpn ppn s t
logged-Placed lpn ppn s u {t} place flash caches real ram chkpt e =
    let a = log_insert_mapent-Some lpn ppn u e in
    let n : u.chkpt.cnt_mapents ≡ s.chkpt.cnt_mapents = ap (λ (x : Chkpt). x.cnt_mapents) chkpt in
    record {
      place = λ q. ap (λ (m : Pgmap). get_ppn m q) a.elsewhere ∙ place q;
      flash = ap (λ (x : Ftl). x.flash) a.same ∙ flash;
      caches = ap (λ (x : Ftl). x.caches) a.same ∙ caches;
      real = ap (λ (x : Ftl). x.enable_gc_opt) a.same ∙ real;
      ram = λ page low. a.ram page low ∙ ap (λ (f : ℕ → VPage). f page) ram;
      cnt = a.count ∙ ap (λ k. k + 1) n;
      last = rw (← n) (a.ents u.chkpt.cnt_mapents ∙ rw (==_refl u.chkpt.cnt_mapents) refl);
      earlier = λ i h.
          let ne : (i == u.chkpt.cnt_mapents) ≡ false = ground (arith, n) in
          a.ents i ∙ rw ne (mapent-ram s u i ram);
    }

pub map_new-Placed :
    (bank lpn ppn : ℕ) (s : Ftl) {t : Ftl} → map_new bank lpn ppn s ≡ some t → Placed lpn ppn s t
unfolding map_new get_ppn set_ppn set_lpn
map_new-Placed bank lpn ppn s e =
    elim (Option-cases (inc_vcount s.blkmgr bank (ppn / pages_per_vblk))) [
      | inl full ↦ absurd (ground (arith, e, full))
      | inr (m, got) ↦ logged-Placed lpn ppn s _ (λ q. refl) refl refl refl refl refl (rw got at e)
    ]

-- The state that `map_new` logs the page in.
counted : ℕ → ℕ → ℕ → Blkmgr → Ftl → Ftl
counted bank lpn ppn m s =
    record (on_pgmap (λ p. set_ppn lpn ppn (set_lpn bank 1 (ppn % pages_per_vblk) lpn p)) s) {
      blkmgr = m;
    }

inc_vcount-room :
    (m : Blkmgr) (bank blk : ℕ) {m' : Blkmgr}
    → inc_vcount m bank blk ≡ some m'
    → get_vcount m bank blk ≤ vc_max
    → get_vcount m bank blk + 1 < pages_per_vblk
unfolding inc_vcount
inc_vcount-room m bank blk e small = ground (arith, e, small)

-- The new place is counted.
pub map_new-counts :
    (bank lpn ppn : ℕ) (s : Ftl) {t : Ftl}
    → map_new bank lpn ppn s ≡ some t
    → get_vcount s.blkmgr bank (ppn / pages_per_vblk) ≤ vc_max
    → (get_vcount s.blkmgr bank (ppn / pages_per_vblk) + 1 < pages_per_vblk)
      × ((b k : ℕ)
          → get_vcount t.blkmgr b k ≡ (
              if b * vblks_per_bank + k == bank * vblks_per_bank + ppn / pages_per_vblk
              then get_vcount s.blkmgr b k + 1
              else get_vcount s.blkmgr b k))
unfolding map_new counted
map_new-counts bank lpn ppn s e small =
    let blk = ppn / pages_per_vblk in
    elim (Option-cases (inc_vcount s.blkmgr bank blk)) [
      | inl full ↦ absurd (ground (arith, e, full))
      | inr (m, got) ↦
          let room = inc_vcount-room s.blkmgr bank blk got small in
          let same : m ≡ with_vcount s.blkmgr bank blk (get_vcount s.blkmgr bank blk + 1) =
            let ok = inc_vcount_ok s.blkmgr bank blk room in ground (arith, got, ok) in
          let a = log_insert_mapent-Some lpn ppn (counted bank lpn ppn m s) (rw got at e) in
          (
            room,
            λ b k.
                ap (λ (x : Ftl). get_vcount x.blkmgr b k) a.same
                ∙ ap (λ (x : Blkmgr). get_vcount x b k) same
                ∙ get_vcount_up s.blkmgr bank blk b k,
          )
    ]
