-- ===== src/Vst/Ram.antt =====
-- vst/src/vram.c and checker.c: the searches in memory, the host side of the read and write buffers
-- with the version that each sector was written with, and the check of what is read back.
pub mod Search
pub mod Versions
pub mod Send
mod Tests
use optr_jasmine.Prelude.{
  ℕ, zero, suc, ◌+◌, ◌-◌, ◌/◌, ◌%◌, Bool, true, false, not, ◌&&◌, ◌||◌, Option, none, some,
  if◌then◌else◌, ltb, ◌==◌, assert, ◌>>◌, ◌>>=◌, update, for_range, inc32, add32,
}
use optr_jasmine.Config.{sectors_per_page}
use optr_jasmine.Vst.Page.{VPage, Sector, tag_page}

-- The loop of `vst_mem_search_min` from `i` on, `n` values left. A zero ends it.
unfoldable pub search_min : ℕ → (ℕ → ℕ) → ℕ → ℕ → ℕ → ℕ
search_min zero vals i idx min = idx
search_min (suc n) vals i idx min =
    let keep = search_min n vals (i + 1) idx min in
    let take = search_min n vals (i + 1) i (vals i) in
    if ltb (vals i) min then (if vals i == 0 then i else take) else keep

abbrev is_unit : ℕ → Bool
is_unit unit = unit == 1 || (unit == 2 || unit == 4)

-- `vals` are the values of `unit` bytes from `addr` on.
unfoldable pub vst_mem_search_min : ℕ → ℕ → ℕ → (ℕ → ℕ) → Option ℕ
unfolding search_min
vst_mem_search_min addr unit size vals = do
  assert (is_unit unit)
  assert (addr % unit == 0)
  assert (not (size == 0))
  some (if vals 0 == 0 then 0 else search_min (size - 1) vals 1 0 (vals 0))

unfoldable pub search_max : ℕ → (ℕ → ℕ) → ℕ → ℕ → ℕ → ℕ
search_max zero vals i idx max = idx
search_max (suc n) vals i idx max =
    let keep = search_max n vals (i + 1) idx max in
    let take = search_max n vals (i + 1) i (vals i) in if ltb max (vals i) then take else keep

-- The first assertion is about `size` where that of the minimum is about `unit`; a size of zero
-- fails too, by a division in place of an assertion.
unfoldable pub vst_mem_search_max : ℕ → ℕ → ℕ → (ℕ → ℕ) → Option ℕ
unfolding search_max
vst_mem_search_max addr unit size vals = do
  assert (not (size == 0) && addr % size == 0)
  assert (is_unit unit)
  some (search_max (size - 1) vals 1 0 (vals 0))

-- `rw_buf_t`
pub record RwBuf : Type 0 where
  pub pages : ℕ → VPage
  pub size : ℕ
  pub ptr : ℕ

-- The statics of vram.c that the host side uses.
pub record HostRam : Type 0 where
  pub rbuf : RwBuf
  pub wbuf : RwBuf
  pub vers : ℕ → ℕ
  pub vers_rec : ℕ → ℕ

-- The inner loop of `send_to_wbuf`: `n` sectors from `lba` on, at sector `s` of the page.
unfoldable pub fill : ℕ → ℕ → ℕ → (ℕ → ℕ) × VPage → (ℕ → ℕ) × VPage
fill zero lba s r = r
fill (suc n) lba s (vers, pp) =
    let ver = inc32 (vers lba) in
    fill n (lba + 1) (s + 1) (
      update vers lba ver,
      record pp { sects = update pp.sects s (record { lba = lba; ver = ver }) },
    )

-- `m`: what is left, up to the end of the page.
unfoldable pub sects_here : ℕ → ℕ → ℕ
sects_here s r = if ltb (add32 s r) sectors_per_page then r else sectors_per_page - s

abbrev pub next_ptr : RwBuf → RwBuf
next_ptr b = record b { ptr = (b.ptr + 1) % b.size }

-- One round of `send_to_wbuf`.
unfoldable pub send_page : ℕ → ℕ → ℕ → HostRam → HostRam
unfolding fill tag_page
send_page lba s m h =
    let b = h.wbuf in
    let (vers, pp) = fill m lba s (h.vers, tag_page (b.pages b.ptr)) in
    record h { vers = vers; wbuf = next_ptr (record b { pages = update b.pages b.ptr pp }) }

-- A round takes at least one sector off.
send_rounds : ℕ → ℕ → ℕ → ℕ → HostRam → Option HostRam
unfolding send_page
send_rounds zero lba s r h = if r == 0 then some h else none
send_rounds (suc fuel) lba s r h =
    let m = sects_here s r in
    let rest = send_rounds fuel (lba + m) 0 (r - m) (send_page lba s m h) in
    if r == 0 then some h else rest

unfoldable pub send_to_wbuf : ℕ → ℕ → HostRam → Option HostRam
unfolding send_rounds
send_to_wbuf lba n_sect h = send_rounds n_sect lba (lba % sectors_per_page) n_sect h

-- `chk_lpn_consistent`, which aborts on `false`. Sectors that were never written are not checked.
unfoldable pub chk_lpn_consistent : ℕ → VPage → ℕ → ℕ → (ℕ → ℕ) → Bool
chk_lpn_consistent zero pp lba s vers = true
chk_lpn_consistent (suc n) pp lba s vers =
    let rest = chk_lpn_consistent n pp (lba + 1) (s + 1) vers in
    if vers lba == 0 || ((pp.sects s).lba == lba && (pp.sects s).ver == vers lba)
    then rest
    else false

unfoldable pub recv_rounds : ℕ → ℕ → ℕ → ℕ → HostRam → Option HostRam
unfolding chk_lpn_consistent
recv_rounds zero lba s r h = if r == 0 then some h else none
recv_rounds (suc fuel) lba s r h =
    let m = sects_here s r in
    let rest = recv_rounds fuel (lba + m) 0 (r - m) (record h { rbuf = next_ptr h.rbuf }) in
    if r == 0
    then some h
    else if chk_lpn_consistent m (h.rbuf.pages h.rbuf.ptr) lba s h.vers
    then rest
    else none

unfoldable pub recv_from_rbuf : ℕ → ℕ → HostRam → Option HostRam
unfolding recv_rounds
recv_from_rbuf lba n_sect h = recv_rounds n_sect lba (lba % sectors_per_page) n_sect h

unfoldable pub keep_version : ℕ → HostRam → HostRam
keep_version lba h =
    let pp = h.rbuf.pages h.rbuf.ptr in
    let sect = pp.sects (lba % sectors_per_page) in
    let ver = if not pp.tagged || not (sect.lba == lba) then 0 else sect.ver in
    record h { vers_rec = update h.vers_rec lba ver; rbuf = next_ptr h.rbuf }
