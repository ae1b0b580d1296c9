-- ===== src/Vst/Ram/Tests.antt =====
-- Searches and versions at concrete values.
use optr_jasmine.Prelude.{
  ℕ, ◌+◌, ◌≡◌, refl, arith, true, some, if◌then◌else◌, leb, ltb, ◌&&◌, inc32,
}
use optr_jasmine.Vst.Ram.{
  HostRam, RwBuf, vst_mem_search_min, send_page, send_to_wbuf, chk_lpn_consistent,
}
use optr_jasmine.Vst.Ram.Search.{IsFirstMin, mem_search_min-IsFirstMin}
use optr_jasmine.Vst.Ram.Versions.{send_page-chk}
use optr_jasmine.Vst.Ram.Send.{send_to_wbuf-vers}
use optr_jasmine.TestData.{test_page}

abbrev test_vals : ℕ → ℕ
test_vals i = if leb i 2 then 9 else i

mem_search_min-IsFirstMin_example :
    (r : ℕ) × (vst_mem_search_min 8 2 6 test_vals ≡ some r) × IsFirstMin test_vals 6 r
mem_search_min-IsFirstMin_example =
    mem_search_min-IsFirstMin 8 2 6 test_vals refl refl (omega arith)

abbrev test_buf : RwBuf
test_buf = record { pages = λ i. test_page; size = 4; ptr = 1 }

abbrev test_ram : HostRam
test_ram = record { rbuf = test_buf; wbuf = test_buf; vers = λ i. 2; vers_rec = λ i. 0 }

send_page-chk_example :
    (chk_lpn_consistent 3
        ((send_page 64 0 3 test_ram).wbuf.pages 1)
        64
        0
        (send_page 64 0 3 test_ram).vers
      ≡ true)
    × ((j : ℕ)
        → (send_page 64 0 3 test_ram).vers j ≡ (if leb 64 j && ltb j (64 + 3) then inc32 2 else 2))
send_page-chk_example = send_page-chk 64 0 3 test_ram

send_to_wbuf-vers_example :
    (h' : HostRam) × (send_to_wbuf 30 40 test_ram ≡ some h')
    × ((j : ℕ) → h'.vers j ≡ (if leb 30 j && ltb j (30 + 40) then inc32 2 else 2))
send_to_wbuf-vers_example = send_to_wbuf-vers 30 40 test_ram (omega arith)
