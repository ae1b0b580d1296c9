-- ===== src/Vst/Trace/Tests.antt =====
-- The trace on small inputs.
use mathlib.Core.Option.{get_or}
use optr_jasmine.Prelude.{
  ℕ, ◌+◌, ◌≤◌, ◌<◌, ◌≡◌, ◌↔◌, refl, arith, true, false, none, some, List, [], ◌∷◌, ◌++◌,
}
use optr_jasmine.Vst.Page.{VPage}
use optr_jasmine.Vst.Ram.{HostRam, sects_here}
use optr_jasmine.Vst.Trace.{
  TraceEnt, Device, Options, Host, max_lba, clip, wrap_ent, load_line, check_prefix, host_pass,
}
use optr_jasmine.Vst.Trace.Clip.{clip-wrap_ent}
use optr_jasmine.Vst.Trace.Load.{Pieces, load_line-Pieces}
use optr_jasmine.Vst.Trace.Replay.{Untouched}
use optr_jasmine.Vst.Trace.Commit.{check_prefix-host_pass}

-- A firmware that keeps the last page it was sent.
abbrev one_page : Device VPage
one_page = record {
  read_sector = λ lba n (f, h). some (f, record h { rbuf = record h.rbuf { pages = λ _. f } });
  write_sector = λ lba n (f, h). some (h.wbuf.pages 0, h);
  flush_cache = λ (f, h). some (f, h);
}

one_page-Untouched : Untouched one_page
one_page-Untouched = record {
  at_read = λ lba n f h e j. ground (arith, e);
  at_write = λ lba n f h e j. ground (arith, e);
  at_flush = λ f h e j. ground (arith, e);
}

abbrev no_page : VPage
no_page = record { tagged = false; cells = none; sects = λ i. record { lba = 0; ver = 0 } }

abbrev ram_start : HostRam
ram_start = record {
  rbuf = record { pages = λ i. no_page; size = 1; ptr = 0 };
  wbuf = record { pages = λ i. no_page; size = 1; ptr = 0 };
  vers = λ lba. 0;
  vers_rec = λ lba. 0;
}

abbrev options : Options
options = record { one_pass = true; bound = 0; freq_flush = 2 }

abbrev host_start : Host VPage
host_start = record {
  device = no_page;
  ram = ram_start;
  wid_vst = 0;
  wid_latest_flush = 0;
  n_wr_between_two_flushes = 0;
  byte_write = 0;
  byte_read = 0;
  done = false;
}

-- A write, a write that lies behind the device's end and is wrapped, and a read of it.
abbrev entries : List TraceEnt
entries =
    record { lba = 40; sec_num = 3; rw = 0 }
    ∷ record { lba = 249644922 + 7; sec_num = 2; rw = 0 }
    ∷ record { lba = 7; sec_num = 2; rw = 1 }
    ∷ []

abbrev played : List TraceEnt × Host VPage
unfolding host_pass
played = get_or (host_pass one_page options 0 entries host_start) ([], host_start)

played_run : host_pass one_page options 0 entries host_start ≡ some played
unfolding host_pass sects_here
played_run = refl

check_prefix-host_pass_example :
    (ret : ℕ) × (h' : HostRam) × (check_prefix 1 (played.0 ++ []) 2 ram_start ≡ some (ret, h'))
    × ((ret ≡ 0) ↔ ((j : ℕ) → j < max_lba → 0 ≡ played.1.ram.vers j))
unfolding played sects_here
check_prefix-host_pass_example =
    check_prefix-host_pass one_page options one_page-Untouched entries [] host_start refl
      (λ j lt. refl) (omega arith) played_run refl (omega arith) ram_start

clip-wrap_ent_example :
    let t : TraceEnt = record { lba = 249644920; sec_num = 8; rw = 0 } in
    let (lba, n) = clip 3 t in
    (lba ≤ max_lba) × (lba + n ≤ max_lba + 1) × (n ≤ 8) × (clip 0 (wrap_ent 0 t) ≡ clip 0 t)
clip-wrap_ent_example =
    clip-wrap_ent 3 (record { lba = 249644920; sec_num = 8; rw = 0 }) (omega arith)

load_line-Pieces_example : Pieces 64 0 12 150 (load_line 32 64 true 6144 77000)
load_line-Pieces_example = load_line-Pieces 32 64 true 6144 77000 (omega arith) (omega arith)
