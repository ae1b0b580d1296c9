-- ===== src/Vst/Ram/Send.antt =====
-- The host's requests page by page: what a whole write does to the versions, and that a whole read
-- leaves them alone.
use optr_jasmine.Prelude.{
  ℕ, zero, suc, ◌+◌, ◌-◌, ◌%◌, ◌≤◌, ◌<◌, ◌≡◌, refl, ◌∙◌, arith, ◌&&◌, some, if◌then◌else◌, leb, ltb,
  ◌==◌, Bool-cases, inl, inr, inc32,
}
use optr_jasmine.Config.{sectors_per_page}
use optr_jasmine.Vst.Ram.{
  HostRam, sects_here, send_page, send_rounds, send_to_wbuf, recv_rounds, recv_from_rbuf, next_ptr,
}
use optr_jasmine.Vst.Ram.Versions.{send_page-chk}

send_rounds-vers :
    (fuel lba s r : ℕ) (h : HostRam)
    → s < sectors_per_page
    → r ≤ fuel
    → (h' : HostRam) × (send_rounds fuel lba s r h ≡ some h')
      × ((j : ℕ)
          → h'.vers j ≡ (if leb lba j && ltb j (lba + r) then inc32 (h.vers j) else h.vers j))
unfolding send_rounds sects_here
send_rounds-vers zero lba s r h s_lt le =
    let z : r ≡ 0 = omega arith in (h, rw z refl, λ j. ground arith)
send_rounds-vers (suc fuel) lba s r h s_lt le =
    let m = sects_here s r in
    elim (Bool-cases (r == 0)) [
      | inl z ↦ (h, rw z refl, λ j. ground arith)
      | inr more ↦
          let (h', e, vers) =
            send_rounds-vers fuel (lba + m) 0 (r - m) (send_page lba s m h) (omega arith)
              (ground arith) in
          (
            h',
            rw more e,
            λ j. let here = (send_page-chk lba s m h).1 j in vers j ∙ ground (arith, here),
          )
    ]

pub send_to_wbuf_lem :
    (lba n : ℕ) (h : HostRam)
    → (h' : HostRam) × (send_to_wbuf lba n h ≡ some h')
      × ((j : ℕ)
          → h'.vers j ≡ (if leb lba j && ltb j (lba + n) then inc32 (h.vers j) else h.vers j))
unfolding send_to_wbuf
send_to_wbuf_lem lba n h =
    send_rounds-vers n lba (lba % sectors_per_page) n h (omega arith) (omega arith)

-- A write of the host that ends below sector 2^32 succeeds, and counts each of its sectors once
-- and no other.
pub send_to_wbuf-vers :
    (lba n : ℕ) (h : HostRam)
    → lba + n < 4294967296
    → (h' : HostRam) × (send_to_wbuf lba n h ≡ some h')
      × ((j : ℕ)
          → h'.vers j ≡ (if leb lba j && ltb j (lba + n) then inc32 (h.vers j) else h.vers j))
send_to_wbuf-vers lba n h small = send_to_wbuf_lem lba n h

recv_rounds-vers :
    (fuel lba s r : ℕ) (h : HostRam) {h' : HostRam}
    → recv_rounds fuel lba s r h ≡ some h'
    → (j : ℕ) → h'.vers j ≡ h.vers j
unfolding recv_rounds sects_here
recv_rounds-vers zero lba s r h e j = ground (arith, e)
recv_rounds-vers (suc fuel) lba s r h {h'} e j =
    let m = sects_here s r in
    let next = record h { rbuf = next_ptr h.rbuf } in
    let more : recv_rounds fuel (lba + m) 0 (r - m) next ≡ some h' → h'.vers j ≡ h.vers j =
      λ e'. recv_rounds-vers fuel (lba + m) 0 (r - m) next e' j in
    ground (arith, e, more)

pub recv_from_rbuf-vers :
    (lba n : ℕ) (h : HostRam) {h' : HostRam}
    → recv_from_rbuf lba n h ≡ some h'
    → (j : ℕ) → h'.vers j ≡ h.vers j
unfolding recv_from_rbuf
recv_from_rbuf-vers lba n h e j = recv_rounds-vers n lba (lba % sectors_per_page) n h e j
