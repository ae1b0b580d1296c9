-- ===== src/Pgmap/Tests.antt =====
-- A trim at concrete values.
use optr_jasmine.Prelude.{◌≡◌, if◌then◌else◌, leb, ltb, ◌&&◌, add32}
use optr_jasmine.Pgmap.{get_ppn, pgmap_trim}
use optr_jasmine.Pgmap.Trim.{trim-get_ppn}
use optr_jasmine.TestData.{test_pgmap}

trim-get_ppn_example :
    get_ppn (pgmap_trim 10 5 test_pgmap) 12
    ≡ (if leb 10 12 && ltb 12 (add32 10 5) then 0 else get_ppn test_pgmap 12)
trim-get_ppn_example = trim-get_ppn 5 10 test_pgmap 12
