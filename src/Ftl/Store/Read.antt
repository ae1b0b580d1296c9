-- ===== src/Ftl/Store/Read.antt =====
-- ftl_optr/ftl.c: what `ftl_read` gives the host for one page that the cache does not hold.
use optr_jasmine.Prelude.{
  ℕ, ◌+◌, ◌%◌, ◌/◌, ◌≡◌, Option, refl, arith, true, false, some, none, leb, minus_one, update,
  ==_refl, Option-cases, inl, inr, ◌==◌,
}
use optr_jasmine.Config.{pages_per_vblk, sectors_per_page, num_rd_buffers}
use optr_jasmine.Pgmap.{get_ppn}
use optr_jasmine.Cache.{exist_in_cache, stall_cache, release_cache}
use optr_jasmine.Vst.Page.{VPage, untag_page}
use optr_jasmine.Vst.Flash.{Spare, vst_read_page}
use optr_jasmine.Vst.Flash.Access.{Agrees}
use optr_jasmine.Vst.Flash.Stands.{read-Stands}
use optr_jasmine.Ftl.{Ftl, rd_buf}
use optr_jasmine.Ftl.Nand.{nand_page_ptread_to_host}
use optr_jasmine.Ftl.Host.{get_bank, read_page}
use optr_jasmine.Ftl.Store.{Contents, Refines}

-- What the host gets: the sectors of the contents, or a page without host data.
abbrev pub Gives : Option VPage → ℕ → ℕ → VPage → Type 0
Gives (some v) sect n r = Agrees v r sect n
Gives none sect n r = r.tagged ≡ false

read_page-unmapped :
    (s : Ftl) (lpn sect n : ℕ)
    → exist_in_cache (s.caches.banks (get_bank lpn)) lpn ≡ minus_one
    → (get_ppn s.pgmap lpn == 0) ≡ true
    → read_page lpn sect n s
      ≡ some (record s {
        ram =
            update s.ram
              (rd_buf s.g_ftl_read_buf_id)
              (untag_page (s.ram (rd_buf s.g_ftl_read_buf_id)));
        g_ftl_read_buf_id = (s.g_ftl_read_buf_id + 1) % num_rd_buffers;
      })
unfolding read_page
read_page-unmapped s lpn sect n miss z = rw (miss, z) refl

read_page-mapped :
    (s : Ftl) (lpn sect n : ℕ) {r : VPage} {spare : Spare}
    → exist_in_cache (s.caches.banks (get_bank lpn)) lpn ≡ minus_one
    → (get_ppn s.pgmap lpn == 0) ≡ false
    → vst_read_page s.flash
        (get_bank lpn)
        (get_ppn s.pgmap lpn / pages_per_vblk)
        (get_ppn s.pgmap lpn % pages_per_vblk)
        sect
        n
        (s.ram (rd_buf s.g_ftl_read_buf_id))
      ≡ some (r, spare)
    → read_page lpn sect n s
      ≡ some (record s {
        caches = release_cache (get_bank lpn) (stall_cache (get_bank lpn) s.caches);
        ram = update s.ram (rd_buf s.g_ftl_read_buf_id) r;
        g_ftl_read_buf_id = (s.g_ftl_read_buf_id + 1) % num_rd_buffers;
      })
unfolding read_page nand_page_ptread_to_host
read_page-mapped s lpn sect n miss nz got = rw (miss, nz, got) refl

-- A read of sectors of a page that the cache does not hold succeeds, and leaves in the host's read
-- buffer those sectors of the contents that map and flash stand for, or a page that is marked as
-- holding no host data if there are none. The buffer in turn is the next one, and the map and flash
-- stay.
pub read_page-Gives :
    (c : Contents) (s : Ftl) (lpn sect n : ℕ)
    → Refines c s
    → exist_in_cache (s.caches.banks (get_bank lpn)) lpn ≡ minus_one
    → leb (sect + n) sectors_per_page ≡ true
    → (s' : Ftl) × (read_page lpn sect n s ≡ some s')
      × Gives (c lpn) sect n (s'.ram (rd_buf s.g_ftl_read_buf_id))
      × (s'.g_ftl_read_buf_id ≡ (s.g_ftl_read_buf_id + 1) % num_rd_buffers)
      × (s'.pgmap ≡ s.pgmap)
      × (s'.flash ≡ s.flash)
unfolding untag_page
read_page-Gives c s lpn sect n h miss fits =
    let old = h.mapped lpn in
    let buf = rd_buf s.g_ftl_read_buf_id in
    let ppn = get_ppn s.pgmap lpn in
    elim (Option-cases (c lpn)) [
      | inl e ↦
          let z : (ppn == 0) ≡ true = ground (arith, e) in
          (_, read_page-unmapped s lpn sect n miss z, rw (e, ==_refl buf) refl, refl, refl, refl)
      | inr (v, e) ↦
          let nz : (ppn == 0) ≡ false = ground (arith, e) in
          let held = h.held lpn v e in
          let (r, got, agrees) =
            read-Stands s.flash (get_bank lpn) (ppn / pages_per_vblk) (ppn % pages_per_vblk) sect n
              v (s.ram buf) held.spare fits held.stands in
          (
            _,
            read_page-mapped s lpn sect n miss nz got,
            rw (e, ==_refl buf) agrees,
            refl,
            refl,
            refl,
          )
    ]
