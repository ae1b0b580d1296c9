-- ===== src/Ftl/Dequeue/Write.antt =====
-- What `dequeue` does once it has chosen its buffer.
use optr_jasmine.Prelude.{
  ℕ, ◌+◌, ◌-◌, ◌*◌, ◌/◌, ◌%◌, ◌<◌, ◌≡◌, inl, inr, refl, ap, subst, ◌∙◌, arith, true, false, not,
  ◌&&◌, some, if◌then◌else◌, ltb, ◌==◌, Option-cases, update_self, ==_refl, if_false,
}
use optr_jasmine.Config.{
  num_banks, num_cache_buffers_per_bank, pages_per_vblk, vblks_per_bank, sectors_per_page,
}
use optr_jasmine.Stat.{Stats, stat_data_page, stat_region_balance_factor}
use optr_jasmine.Blkmgr.{Blkmgr, get_vcount}
use optr_jasmine.Blkmgr.Vcount.{with_vcount, get_vcount_up, inc_vcount_ok}
use optr_jasmine.Pgmap.{get_ppn, set_ppn, set_lpn, get_active_ppn, set_active_ppn}
use optr_jasmine.Cache.{CacheEnt, on_cache, clean_ent, get_cache_ent_epoch}
use optr_jasmine.Ftl.{Ftl, Chkpt, on_stats, on_caches, on_pgmap, cache_buf}
use optr_jasmine.Ftl.Nand.{read_cell, nand_page_program, nand_page_ptprogram}
use optr_jasmine.Ftl.Pages.{get_and_inc_active_ppn}
use optr_jasmine.Ftl.Pages.Alloc.{is_data_page, active_ppn_within}
use optr_jasmine.Vst.Page.{VPage}
use optr_jasmine.Vst.Flash.{Flash, Spare, vst_write_page, vst_read_page}
use optr_jasmine.Vst.Flash.Access.{accepts, write-accepts, read-write, Agrees, write-Wrote}
use optr_jasmine.Ftl.Record.Mapents.{max_mapents, mapent, mapent-ram, log_insert_mapent-Appended}
use optr_jasmine.Ftl.Record.{log_insert_mapent}
use optr_jasmine.Ftl.Dequeue.{unmap_old, map_new, write_out}
use optr_jasmine.Ftl.Dequeue.Unmap.{CanUnmap, unmapped_count, unmapped_le, unmap_old-Unmapped}
use optr_jasmine.Vst.Flash.Stands.{Stands, write-Stands}

-- The state that `map_new` logs the page in.
mapped : ℕ → ℕ → ℕ → Ftl → Ftl
mapped bank lpn ppn s = record s {
  pgmap = set_ppn lpn ppn (set_lpn bank 1 (ppn % pages_per_vblk) lpn s.pgmap);
  blkmgr =
      with_vcount s.blkmgr bank (ppn / pages_per_vblk)
        (get_vcount s.blkmgr bank (ppn / pages_per_vblk) + 1);
}

map_new-mapped :
    (bank lpn ppn : ℕ) (s : Ftl)
    → get_vcount s.blkmgr bank (ppn / pages_per_vblk) + 1 < pages_per_vblk
    → map_new bank lpn ppn s ≡ log_insert_mapent lpn ppn (mapped bank lpn ppn s)
unfolding map_new mapped
map_new-mapped bank lpn ppn s h = rw (inc_vcount_ok s.blkmgr bank (ppn / pages_per_vblk) h) refl

-- The state that the page is programmed in.
staged : ℕ → ℕ → CacheEnt → Ftl → Ftl
staged bank idx ent s =
    on_stats stat_data_page (record (on_caches (on_cache bank (clean_ent idx)) s) {
      spare = record {
        lpn = ent.lpn;
        pg_span = ent.pg_span;
        epoch = get_cache_ent_epoch (on_cache bank (clean_ent idx) s.caches) bank idx;
      };
    })

write_out_steps :
    (bank idx ppn : ℕ) (s s1 s2 s3 : Ftl) {s' : Ftl}
    → let ent = (s.caches.banks bank).ents idx in
      unmap_old bank (get_ppn s.pgmap ent.lpn) s ≡ some s1
      → get_and_inc_active_ppn bank 1 (on_stats (stat_region_balance_factor bank 1) s1)
        ≡ some (ppn, s2)
      → map_new bank ent.lpn ppn s2 ≡ some s3
      → s3.enable_gc_opt ≡ false
      → nand_page_program bank
          (ppn / pages_per_vblk)
          (ppn % pages_per_vblk)
          (cache_buf bank idx)
          (staged bank idx ent s3)
        ≡ some s'
      → write_out bank idx s ≡ some s'
unfolding write_out staged
write_out_steps bank idx ppn s s1 s2 s3 e1 e2 e3 g e =
    rw (e1, e2, e3) (if_false s3.enable_gc_opt _ _ g ∙ e)

-- A data page that is erased takes a program of all its sectors.
page_possible :
    (bank blk page : ℕ) (s : Ftl) (src : VPage) (spare : Spare)
    → bank < num_banks
    → (ltb blk vblks_per_bank && not (page == pages_per_vblk - 1)) ≡ true
    → page < pages_per_vblk
    → (s.flash.pages bank blk page).is_erased ≡ true
    → (f : Flash) × (vst_write_page s.flash bank blk page 0 sectors_per_page src spare ≡ some f)
unfolding accepts
page_possible bank blk page s src spare b data_page h erased =
    let w = write-accepts s.flash bank blk page 0 sectors_per_page src spare in
    elim (Option-cases (vst_write_page s.flash bank blk page 0 sectors_per_page src spare)) [
      | inl e ↦ absurd (ground (arith, w, e, erased, b, h, data_page))
      | inr found ↦ found
    ]

-- When the bank can write out the buffer `idx`: it is one of the bank's 32, its page's old place is
-- counted, the next page of the open block is a data page, erased, and not more than the block's 127,
-- the log has room, and the firmware does not run without data.
pub record CanWrite (bank idx : ℕ) (s : Ftl) : Type 0 where
  pub bank_ok : bank < num_banks
  pub idx_ok : idx < num_cache_buffers_per_bank
  pub old : CanUnmap s.blkmgr bank (get_ppn s.pgmap ((s.caches.banks bank).ents idx).lpn)
  pub page : is_data_page (get_active_ppn s.pgmap bank 1) ≡ true
  pub erased :
      (s.flash.pages bank
        (get_active_ppn s.pgmap bank 1 / pages_per_vblk)
        (get_active_ppn s.pgmap bank 1 % pages_per_vblk)).is_erased
      ≡ true
  pub room :
      get_vcount s.blkmgr bank (get_active_ppn s.pgmap bank 1 / pages_per_vblk) + 1 < pages_per_vblk
  pub log : s.chkpt.cnt_mapents < max_mapents
  pub real : s.enable_gc_opt ≡ false

-- The spare area of the page that the buffer is written to.
abbrev pub out_spare : ℕ → ℕ → Ftl → Spare
out_spare bank idx s = record {
  lpn = ((s.caches.banks bank).ents idx).lpn;
  pg_span = ((s.caches.banks bank).ents idx).pg_span;
  epoch = get_cache_ent_epoch s.caches bank idx;
}

-- What writing the buffer out does.
pub record WroteOut (bank idx : ℕ) (s s' : Ftl) : Type 0 where
  pub place :
      (q : ℕ)
      → get_ppn s'.pgmap q ≡ (
          if q == ((s.caches.banks bank).ents idx).lpn
          then get_active_ppn s.pgmap bank 1
          else get_ppn s.pgmap q)
  pub stored :
      (dst : VPage)
      → (r : VPage) × (vst_read_page s'.flash bank
            (get_active_ppn s.pgmap bank 1 / pages_per_vblk)
            (get_active_ppn s.pgmap bank 1 % pages_per_vblk)
            0
            sectors_per_page
            dst
          ≡ some (r, out_spare bank idx s))
        × Agrees (s.ram (cache_buf bank idx)) r 0 sectors_per_page
  pub cache : s'.caches.banks bank ≡ clean_ent idx (s.caches.banks bank)
  pub counts :
      (b k : ℕ)
      → get_vcount s'.blkmgr b k ≡ (
          if b * vblks_per_bank + k
            == bank * vblks_per_bank + get_active_ppn s.pgmap bank 1 / pages_per_vblk
          then unmapped_count s.blkmgr bank
              (get_ppn s.pgmap ((s.caches.banks bank).ents idx).lpn)
              b
              k
            + 1
          else unmapped_count s.blkmgr bank
              (get_ppn s.pgmap ((s.caches.banks bank).ents idx).lpn)
              b
              k)
  pub active : get_active_ppn s'.pgmap bank 1 ≡ get_active_ppn s.pgmap bank 1 + 1
  pub logged :
      mapent s' s.chkpt.cnt_mapents
      ≡ (((s.caches.banks bank).ents idx).lpn, get_active_ppn s.pgmap bank 1)
  pub cnt : s'.chkpt.cnt_mapents ≡ s.chkpt.cnt_mapents + 1
  pub earlier : (i : ℕ) → i < s.chkpt.cnt_mapents → mapent s' i ≡ mapent s i
  pub stands :
      Stands s'.flash bank
        (get_active_ppn s.pgmap bank 1 / pages_per_vblk)
        (get_active_ppn s.pgmap bank 1 % pages_per_vblk)
        (s.ram (cache_buf bank idx))
        (out_spare bank idx s)
  pub others :
      (b k p : ℕ)
      → (b == bank
          && (k == get_active_ppn s.pgmap bank 1 / pages_per_vblk
              && p == get_active_ppn s.pgmap bank 1 % pages_per_vblk))
        ≡ false
      → s'.flash.pages b k p ≡ s.flash.pages b k p
  pub caches : (b : ℕ) → (b == bank) ≡ false → s'.caches.banks b ≡ s.caches.banks b
  pub actives :
      (b : ℕ) → (b == bank) ≡ false → get_active_ppn s'.pgmap b 1 ≡ get_active_ppn s.pgmap b 1
  pub buffers :
      (b k : ℕ)
      → b < num_banks
      → k < num_cache_buffers_per_bank
      → s'.ram (cache_buf b k) ≡ s.ram (cache_buf b k)
  pub real : s'.enable_gc_opt ≡ false
  pub pool : s'.caches.pool_bank ≡ s.caches.pool_bank

-- The state that writing the buffer out ends in, given what its steps have chosen.
finished : ℕ → ℕ → Ftl → Blkmgr → Stats → Chkpt → (ℕ → VPage) → Flash → Ftl
unfolding mapped staged
finished bank idx s m st c ram f =
    let ent = (s.caches.banks bank).ents idx in
    let ppn = get_active_ppn s.pgmap bank 1 in
    let u : Ftl =
      on_stats (stat_region_balance_factor bank 1) (record s { blkmgr = m; stats = st }) in
    let t : Ftl = mapped bank ent.lpn ppn (on_pgmap (set_active_ppn bank 1 (ppn + 1)) u) in
    record (staged bank idx ent (record t { chkpt = c; ram = ram })) { flash = f }

finished-place :
    (bank idx : ℕ) (s : Ftl) (m : Blkmgr) (st : Stats) (c : Chkpt) (ram : ℕ → VPage) (f : Flash)
    (q : ℕ)
    → get_ppn (finished bank idx s m st c ram f).pgmap q ≡ (
        if q == ((s.caches.banks bank).ents idx).lpn
        then get_active_ppn s.pgmap bank 1
        else get_ppn s.pgmap q)
unfolding finished mapped staged get_ppn set_ppn set_lpn set_active_ppn
finished-place bank idx s m st c ram f q = refl

finished-cache :
    (bank idx : ℕ) (s : Ftl) (m : Blkmgr) (st : Stats) (c : Chkpt) (ram : ℕ → VPage) (f : Flash)
    → (finished bank idx s m st c ram f).caches.banks bank ≡ clean_ent idx (s.caches.banks bank)
unfolding finished mapped staged
finished-cache bank idx s m st c ram f =
    update_self s.caches.banks bank (clean_ent idx (s.caches.banks bank))

finished-active :
    (bank idx : ℕ) (s : Ftl) (m : Blkmgr) (st : Stats) (c : Chkpt) (ram : ℕ → VPage) (f : Flash)
    → get_active_ppn (finished bank idx s m st c ram f).pgmap bank 1
      ≡ get_active_ppn s.pgmap bank 1 + 1
unfolding finished mapped staged get_active_ppn set_active_ppn set_ppn set_lpn
finished-active bank idx s m st c ram f = rw (==_refl bank) refl

finished-cnt :
    (bank idx : ℕ) (s : Ftl) (m : Blkmgr) (st : Stats) (c : Chkpt) (ram : ℕ → VPage) (f : Flash)
    → (finished bank idx s m st c ram f).chkpt.cnt_mapents ≡ c.cnt_mapents
unfolding finished mapped staged
finished-cnt bank idx s m st c ram f = refl

finished-caches :
    (bank idx : ℕ) (s : Ftl) (m : Blkmgr) (st : Stats) (c : Chkpt) (ram : ℕ → VPage) (f : Flash)
    (b : ℕ)
    → (b == bank) ≡ false
    → (finished bank idx s m st c ram f).caches.banks b ≡ s.caches.banks b
unfolding finished mapped staged
finished-caches bank idx s m st c ram f b ne = rw ne refl

finished-pool :
    (bank idx : ℕ) (s : Ftl) (m : Blkmgr) (st : Stats) (c : Chkpt) (ram : ℕ → VPage) (f : Flash)
    → (finished bank idx s m st c ram f).caches.pool_bank ≡ s.caches.pool_bank
unfolding finished mapped staged
finished-pool bank idx s m st c ram f = refl

finished-actives :
    (bank idx : ℕ) (s : Ftl) (m : Blkmgr) (st : Stats) (c : Chkpt) (ram : ℕ → VPage) (f : Flash)
    (b : ℕ)
    → (b == bank) ≡ false
    → get_active_ppn (finished bank idx s m st c ram f).pgmap b 1 ≡ get_active_ppn s.pgmap b 1
unfolding finished mapped staged get_active_ppn set_active_ppn set_ppn set_lpn
finished-actives bank idx s m st c ram f b ne = rw ne refl

finished-counts :
    (bank idx : ℕ) (s : Ftl) (m : Blkmgr) (st : Stats) (c : Chkpt) (ram : ℕ → VPage) (f : Flash)
    (b k : ℕ)
    → get_vcount (finished bank idx s m st c ram f).blkmgr b k ≡ (
        if b * vblks_per_bank + k
          == bank * vblks_per_bank + get_active_ppn s.pgmap bank 1 / pages_per_vblk
        then get_vcount m b k + 1
        else get_vcount m b k)
unfolding finished mapped staged
finished-counts bank idx s m st c ram f b k =
    get_vcount_up m bank (get_active_ppn s.pgmap bank 1 / pages_per_vblk) b k

finished-mapent :
    (bank idx : ℕ) (s w : Ftl) (m : Blkmgr) (st : Stats) (f : Flash) (i : ℕ)
    → mapent (finished bank idx s m st w.chkpt w.ram f) i ≡ mapent w i
unfolding finished mapped staged read_cell
finished-mapent bank idx s w m st f i = refl

-- The steps of `write_out` up to the program of the page, with the state they reach.
record Reached (bank idx : ℕ) (s : Ftl) : Type 0 where
  m : Blkmgr
  st : Stats
  w : Ftl
  ends :
      {f : Flash}
      → vst_write_page s.flash bank
          (get_active_ppn s.pgmap bank 1 / pages_per_vblk)
          (get_active_ppn s.pgmap bank 1 % pages_per_vblk)
          0
          sectors_per_page
          (w.ram (cache_buf bank idx))
          (out_spare bank idx s)
        ≡ some f
      → write_out bank idx s ≡ some (finished bank idx s m st w.chkpt w.ram f)
  counts :
      (b k : ℕ)
      → get_vcount m b k
        ≡ unmapped_count s.blkmgr bank (get_ppn s.pgmap ((s.caches.banks bank).ents idx).lpn) b k
  buffers :
      (b k : ℕ)
      → b < num_banks
      → k < num_cache_buffers_per_bank
      → w.ram (cache_buf b k) ≡ s.ram (cache_buf b k)
  cnt : w.chkpt.cnt_mapents ≡ s.chkpt.cnt_mapents + 1
  last :
      mapent w s.chkpt.cnt_mapents
      ≡ (((s.caches.banks bank).ents idx).lpn, get_active_ppn s.pgmap bank 1)
  earlier : (i : ℕ) → i < s.chkpt.cnt_mapents → mapent w i ≡ mapent s i

write_out-Reached : (bank idx : ℕ) (s : Ftl) → CanWrite bank idx s → Reached bank idx s
unfolding finished mapped staged nand_page_program nand_page_ptprogram get_cache_ent_epoch
write_out-Reached bank idx s v =
    let lpn = ((s.caches.banks bank).ents idx).lpn in
    let ppn = get_active_ppn s.pgmap bank 1 in
    let blk = ppn / pages_per_vblk in
    let un = unmap_old-Unmapped bank (get_ppn s.pgmap lpn) s v.old in
    let u : Ftl =
      on_stats (stat_region_balance_factor bank 1) (record s { blkmgr = un.m; stats = un.st }) in
    let t : Ftl = on_pgmap (set_active_ppn bank 1 (ppn + 1)) u in
    let small = unmapped_le s.blkmgr bank (get_ppn s.pgmap lpn) bank blk in
    let count = un.counts bank blk in
    let room = v.room in
    let (w, e, a) = log_insert_mapent-Appended lpn ppn (mapped bank lpn ppn t) v.log in
    let w' : Ftl = record (mapped bank lpn ppn t) { chkpt = w.chkpt; ram = w.ram } in
    let e3 : map_new bank lpn ppn t ≡ some w' =
      map_new-mapped bank lpn ppn t (omega arith) ∙ e ∙ ap (λ x. some x) a.same in
    record {
      m = un.m;
      st = un.st;
      w = w;
      ends = λ {f} ok.
          write_out_steps bank idx ppn s (record s { blkmgr = un.m; stats = un.st }) t w' un.result
            (active_ppn_within bank 1 u v.page) e3 v.real (rw ok refl);
      counts = un.counts;
      buffers = λ b k hb hk. a.ram (cache_buf b k) (omega arith);
      cnt = a.count;
      last = a.ents s.chkpt.cnt_mapents ∙ rw (==_refl s.chkpt.cnt_mapents) refl;
      earlier = λ i h.
          let ne : (i == s.chkpt.cnt_mapents) ≡ false = ground arith in
          a.ents i ∙ rw ne (mapent-ram s (mapped bank lpn ppn t) i refl);
    }

-- A bank that can write out the buffer `idx` does: the buffer's logical page then stands at the next
-- page of the open block and no other logical page moves, a read of that flash page gives the
-- buffer's contents with its page, span and epoch in the spare area, the entry is clean, the count
-- of valid pages is one less for the old block and one more for the new, and the move is the last
-- entry of the log, which has one more behind those it had. No other page of the flash changes, no cache, no open block
-- of another bank and no cache buffer.
pub write_out-WroteOut :
    (bank idx : ℕ) (s : Ftl)
    → CanWrite bank idx s
    → (s' : Ftl) × (write_out bank idx s ≡ some s') × WroteOut bank idx s s'
unfolding finished
write_out-WroteOut bank idx s v =
    let ent = (s.caches.banks bank).ents idx in
    let ppn = get_active_ppn s.pgmap bank 1 in
    let spare = out_spare bank idx s in
    let r = write_out-Reached bank idx s v in
    let buf = r.w.ram (cache_buf bank idx) in
    let (f, ok) =
      page_possible bank (ppn / pages_per_vblk) (ppn % pages_per_vblk) s buf spare v.bank_ok v.page
        (omega arith) v.erased in
    let buffer = r.buffers bank idx v.bank_ok v.idx_ok in
    let wrote =
      write-Wrote s.flash bank (ppn / pages_per_vblk) (ppn % pages_per_vblk) 0 sectors_per_page buf
        spare ok in
    (
      finished bank idx s r.m r.st r.w.chkpt r.w.ram f,
      r.ends ok,
      record {
        place = finished-place bank idx s r.m r.st r.w.chkpt r.w.ram f;
        stored = λ dst.
            let (p, got, agrees) =
              read-write s.flash bank (ppn / pages_per_vblk) (ppn % pages_per_vblk) 0
                sectors_per_page buf dst spare ok in
            (p, got, subst (λ x. Agrees x p 0 sectors_per_page) buffer agrees);
        cache = finished-cache bank idx s r.m r.st r.w.chkpt r.w.ram f;
        counts = λ b k.
            finished-counts bank idx s r.m r.st r.w.chkpt r.w.ram f b k ∙ rw (r.counts b k) refl;
        active = finished-active bank idx s r.m r.st r.w.chkpt r.w.ram f;
        logged = finished-mapent bank idx s r.w r.m r.st f s.chkpt.cnt_mapents ∙ r.last;
        cnt = finished-cnt bank idx s r.m r.st r.w.chkpt r.w.ram f ∙ r.cnt;
        earlier = λ i h. finished-mapent bank idx s r.w r.m r.st f i ∙ r.earlier i h;
        stands =
            subst (λ x. Stands f bank (ppn / pages_per_vblk) (ppn % pages_per_vblk) x spare) buffer
              (write-Stands s.flash bank (ppn / pages_per_vblk) (ppn % pages_per_vblk) buf spare
                ok);
        others = wrote.elsewhere;
        caches = finished-caches bank idx s r.m r.st r.w.chkpt r.w.ram f;
        actives = finished-actives bank idx s r.m r.st r.w.chkpt r.w.ram f;
        buffers = r.buffers;
        real = v.real;
        pool = finished-pool bank idx s r.m r.st r.w.chkpt r.w.ram f;
      },
    )
