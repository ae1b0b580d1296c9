-- ===== src/Ftl/Record/Mapents.antt =====
-- The mapping entries that wait in DRAM for the next checkpoint.
use optr_jasmine.Prelude.{
  ℕ, zero, suc, ◌+◌, ◌*◌, ◌/◌, ◌%◌, ◌<◌, ◌≡◌, refl, ◌∙◌, arith, false, some, if◌then◌else◌, ◌==◌,
  lt→ltb, inc32, ap, sym, inl, inr, Bool-cases,
}
use optr_jasmine.Config.{num_banks, num_mapents_per_page}
use optr_jasmine.Pgmap.{Pgmap, get_ppn, set_ppn}
use optr_jasmine.Ftl.{Ftl, Chkpt, chkpt_buf, on_chkpt}
use optr_jasmine.Ftl.Nand.{read_cell, write_cell, write_cells, read_cell-write_cell}
use optr_jasmine.Ftl.Record.{set_mapent, log_insert_mapent}

abbrev pub max_mapents : ℕ
max_mapents = 2 * num_banks * num_mapents_per_page

abbrev lpn_cell : Ftl → ℕ → ℕ
lpn_cell s i = read_cell s (chkpt_buf (i / num_mapents_per_page)) (2 + i % num_mapents_per_page * 2)

abbrev ppn_cell : Ftl → ℕ → ℕ
ppn_cell s i =
    read_cell s (chkpt_buf (i / num_mapents_per_page)) (2 + i % num_mapents_per_page * 2 + 1)

-- The entry number `i` in the checkpoint buffers.
abbrev pub mapent : Ftl → ℕ → ℕ × ℕ
mapent s i = (lpn_cell s i, ppn_cell s i)

pub mapent-ram : (s s' : Ftl) (i : ℕ) → s'.ram ≡ s.ram → mapent s' i ≡ mapent s i
unfolding read_cell
mapent-ram s s' i e = rw e refl

-- The state with the entry written.
written : ℕ → ℕ → ℕ → Ftl → Ftl
written idx lpn ppn s =
    let page = chkpt_buf (idx / num_mapents_per_page) in
    let base = 2 + idx % num_mapents_per_page * 2 in
    write_cell page (base + 1) ppn (write_cell page base lpn s)

written-lpn :
    (idx lpn ppn : ℕ) (s : Ftl) (i : ℕ)
    → lpn_cell (written idx lpn ppn s) i ≡ (if i == idx then lpn else lpn_cell s i)
unfolding written
written-lpn idx lpn ppn s i =
    let page = chkpt_buf (idx / num_mapents_per_page) in
    let base = 2 + idx % num_mapents_per_page * 2 in
    let page' = chkpt_buf (i / num_mapents_per_page) in
    let cell = 2 + i % num_mapents_per_page * 2 in
    read_cell-write_cell page (base + 1) ppn (write_cell page base lpn s) page' cell
    ∙ ground (arith, read_cell-write_cell page base lpn s page' cell)

written-ppn :
    (idx lpn ppn : ℕ) (s : Ftl) (i : ℕ)
    → ppn_cell (written idx lpn ppn s) i ≡ (if i == idx then ppn else ppn_cell s i)
unfolding written
written-ppn idx lpn ppn s i =
    let page = chkpt_buf (idx / num_mapents_per_page) in
    let base = 2 + idx % num_mapents_per_page * 2 in
    let page' = chkpt_buf (i / num_mapents_per_page) in
    let cell = 2 + i % num_mapents_per_page * 2 + 1 in
    read_cell-write_cell page (base + 1) ppn (write_cell page base lpn s) page' cell
    ∙ ground (arith, read_cell-write_cell page base lpn s page' cell)

set_mapent-written :
    (idx lpn ppn : ℕ) (s : Ftl)
    → idx < max_mapents
    → set_mapent idx lpn ppn s ≡ some (written idx lpn ppn s)
unfolding set_mapent written
set_mapent-written idx lpn ppn s h = rw (lt→ltb idx max_mapents h) refl

written-chkpt : (idx lpn ppn : ℕ) (s : Ftl) → (written idx lpn ppn s).chkpt ≡ s.chkpt
unfolding written write_cells
written-chkpt idx lpn ppn s = refl

written-pgmap : (idx lpn ppn : ℕ) (s : Ftl) → (written idx lpn ppn s).pgmap ≡ s.pgmap
unfolding written write_cells
written-pgmap idx lpn ppn s = refl

written_same :
    (idx lpn ppn : ℕ) (s : Ftl)
    → written idx lpn ppn s ≡ record s { ram = (written idx lpn ppn s).ram }
unfolding written write_cells
written_same idx lpn ppn s = refl

written_ram :
    (idx lpn ppn : ℕ) (s : Ftl) (page : ℕ)
    → page < chkpt_buf 0
    → (written idx lpn ppn s).ram page ≡ s.ram page
unfolding written write_cells
written_ram idx lpn ppn s page h =
    let ne : (page == chkpt_buf (idx / num_mapents_per_page)) ≡ false = ground arith in rw ne refl

mapent-on_chkpt : (f : Chkpt → Chkpt) (s : Ftl) (i : ℕ) → mapent (on_chkpt f s) i ≡ mapent s i
unfolding read_cell
mapent-on_chkpt f s i = refl

mapent-written :
    (idx lpn ppn : ℕ) (s : Ftl) (i : ℕ)
    → mapent (written idx lpn ppn s) i ≡ (if i == idx then (lpn, ppn) else mapent s i)
mapent-written idx lpn ppn s i =
    rw (written-lpn idx lpn ppn s i, written-ppn idx lpn ppn s i)
      (elim (Bool-cases (i == idx)) [ inl e ↦ rw e refl | inr ne ↦ rw ne refl ])

-- What the log holds after an entry was added.
pub record Appended (lpn ppn : ℕ) (s s' : Ftl) : Type 0 where
  pub count : s'.chkpt.cnt_mapents ≡ s.chkpt.cnt_mapents + 1
  pub ents : (i : ℕ) → mapent s' i ≡ (if i == s.chkpt.cnt_mapents then (lpn, ppn) else mapent s i)
  pub elsewhere : s'.pgmap ≡ s.pgmap
  pub same : s' ≡ record s { chkpt = s'.chkpt; ram = s'.ram }
  pub ram : (page : ℕ) → page < chkpt_buf 0 → s'.ram page ≡ s.ram page

-- While the 32 checkpoint buffers have room, the log takes one more mapping entry: it stands behind
-- the others, none of which changes, and their count grows by one.
pub log_insert_mapent-Appended :
    (lpn ppn : ℕ) (s : Ftl)
    → s.chkpt.cnt_mapents < max_mapents
    → (s' : Ftl) × (log_insert_mapent lpn ppn s ≡ some s') × Appended lpn ppn s s'
unfolding log_insert_mapent written
log_insert_mapent-Appended lpn ppn s h =
    let idx = s.chkpt.cnt_mapents in
    let t = written idx lpn ppn s in
    (
      on_chkpt (λ c. record c { cnt_mapents = inc32 c.cnt_mapents }) t,
      rw (set_mapent-written idx lpn ppn s h) refl,
      record {
        count = omega (arith, ap (λ (c : Chkpt). c.cnt_mapents) (written-chkpt idx lpn ppn s));
        ents = λ i.
            mapent-on_chkpt (λ c. record c { cnt_mapents = inc32 c.cnt_mapents }) t i
            ∙ mapent-written idx lpn ppn s i;
        elsewhere = written-pgmap idx lpn ppn s;
        same =
            ap (λ (u : Ftl). on_chkpt (λ c. record c { cnt_mapents = inc32 c.cnt_mapents }) u)
              (written_same idx lpn ppn s);
        ram = written_ram idx lpn ppn s;
      },
    )

-- The page map after the first `n` entries were applied to `base`, in order.
unfoldable pub replay : ℕ → (ℕ → ℕ × ℕ) → (ℕ → ℕ) → ℕ → ℕ
replay zero ents base lpn = base lpn
replay (suc n) ents base lpn =
    let rest = replay n ents base lpn in if lpn == (ents n).0 then (ents n).1 else rest

replay_same :
    (n : ℕ) (a b : ℕ → ℕ × ℕ) (base : ℕ → ℕ) (lpn : ℕ)
    → ((i : ℕ) → i < n → a i ≡ b i)
    → replay n a base lpn ≡ replay n b base lpn
unfolding replay
replay_same zero a b base lpn h = refl
replay_same (suc n) a b base lpn h =
    rw (h n (omega arith), replay_same n a b base lpn (λ i q. h i (omega arith))) refl

-- The entries that wait, applied to the page map `base` of the last checkpoint, give the page map.
unfoldable pub Logged : (ℕ → ℕ) → Ftl → Type 0
Logged base s = (lpn : ℕ) → get_ppn s.pgmap lpn ≡ replay s.chkpt.cnt_mapents (mapent s) base lpn

pub replay_zero : (ents : ℕ → ℕ × ℕ) (base : ℕ → ℕ) (q : ℕ) → base q ≡ replay 0 ents base q
unfolding replay
replay_zero ents base q = refl

replay-suc :
    (n : ℕ) (ents : ℕ → ℕ × ℕ) (base : ℕ → ℕ) (q : ℕ)
    → replay (suc n) ents base q ≡ (if q == (ents n).0 then (ents n).1 else replay n ents base q)
unfolding replay
replay-suc n ents base q = refl

-- One more entry.
pub replay_end :
    (n : ℕ) (ents : ℕ → ℕ × ℕ) (base : ℕ → ℕ) (q lpn ppn old : ℕ)
    → ents n ≡ (lpn, ppn)
    → replay n ents base q ≡ old
    → (if q == lpn then ppn else old) ≡ replay (suc n) ents base q
replay_end n ents base q lpn ppn old e h = rw (replay-suc n ents base q, e, h) refl

pub get_ppn-set_ppn :
    (m : Pgmap) (lpn ppn q : ℕ)
    → get_ppn (set_ppn lpn ppn m) q ≡ (if q == lpn then ppn else get_ppn m q)
unfolding get_ppn set_ppn
get_ppn-set_ppn m lpn ppn q = refl

-- A logical page that moves to `ppn`, with one entry for it behind the others.
pub noted-Logged :
    (base : ℕ → ℕ) (s s' : Ftl) (lpn ppn : ℕ)
    → Logged base s
    → ((q : ℕ) → get_ppn s'.pgmap q ≡ (if q == lpn then ppn else get_ppn s.pgmap q))
    → s'.chkpt.cnt_mapents ≡ s.chkpt.cnt_mapents + 1
    → mapent s' s.chkpt.cnt_mapents ≡ (lpn, ppn)
    → ((i : ℕ) → i < s.chkpt.cnt_mapents → mapent s' i ≡ mapent s i)
    → Logged base s'
unfolding Logged
noted-Logged base s s' lpn ppn v place count last earlier q =
    let n = s.chkpt.cnt_mapents in
    let count' : s'.chkpt.cnt_mapents ≡ suc n = omega (arith, count) in
    let before = replay_same n (mapent s') (mapent s) base q earlier in
    place q
    ∙ replay_end n (mapent s') base q lpn ppn (get_ppn s.pgmap q) last (before ∙ sym (v q))
    ∙ ap (λ k. replay k (mapent s') base q) (sym count')

-- The log and the map are all that counts.
pub Logged-same :
    (base : ℕ → ℕ) (s s' : Ftl)
    → s'.pgmap ≡ s.pgmap
    → s'.chkpt ≡ s.chkpt
    → s'.ram ≡ s.ram
    → Logged base s
    → Logged base s'
unfolding Logged read_cell
Logged-same base s s' map chkpt ram v q = rw (map, chkpt, ram) (v q)
