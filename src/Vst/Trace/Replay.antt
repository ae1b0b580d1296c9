-- ===== src/Vst/Trace/Replay.antt =====
-- The replay of a trace and the host's own run of it.
use optr_jasmine.Prelude.{
  ℕ, ◌+◌, ◌<◌, ◌≡◌, refl, ◌>>=◌, ◌∙◌, arith, Bool, true, false, ◌&&◌, Option, none, some, List, ◌∷◌,
  if◌then◌else◌, leb, ltb, ◌==◌, Bool-cases, Option-cases, inl, inr, inc32, for_range_inv, update,
  >>=-eq-some,
}
use optr_jasmine.Vst.Ram.{HostRam, recv_from_rbuf}
use optr_jasmine.Vst.Ram.Send.{send_to_wbuf_lem, recv_from_rbuf-vers}
use optr_jasmine.Vst.Trace.{
  TraceEnt, Replayed, Device, Options, Host, max_lba, clip, wrap_ent, count_sects, replay_ent,
  replay_pass, after_write, host_write, host_read, host_ent, host_pass,
}
use optr_jasmine.Vst.Trace.Clip.{clip_again}

-- The versions once the `n` sectors from `lba` on are counted.
abbrev pub counted : ℕ → ℕ → (ℕ → ℕ) → ℕ → ℕ
counted lba n vers j = if leb lba j && ltb j (lba + n) then inc32 (vers j) else vers j

count_sects-vers :
    (n lba : ℕ) (vers : ℕ → ℕ) (j : ℕ) → count_sects n lba vers j ≡ counted lba n vers j
unfolding count_sects
count_sects-vers n lba vers =
    for_range_inv (λ k v. (j : ℕ) → v j ≡ counted lba k vers j)
      (λ offset v. update v (lba + offset) (inc32 (v (lba + offset)))) n
      (λ k x lt same j. ground (arith, same j, same (lba + k))) n 0 vers (omega arith)
      (λ j. ground arith)

-- A firmware does not touch the simulator's versions.
pub record Untouched {F : Type 0} (d : Device F) : Type 0 where
  pub at_read :
      (lba n : ℕ) (f : F) (h : HostRam) {f' : F} {h' : HostRam}
      → d.read_sector lba n (f, h) ≡ some (f', h')
      → (j : ℕ) → h'.vers j ≡ h.vers j
  pub at_write :
      (lba n : ℕ) (f : F) (h : HostRam) {f' : F} {h' : HostRam}
      → d.write_sector lba n (f, h) ≡ some (f', h')
      → (j : ℕ) → h'.vers j ≡ h.vers j
  pub at_flush :
      (f : F) (h : HostRam) {f' : F} {h' : HostRam}
      → d.flush_cache (f, h) ≡ some (f', h')
      → (j : ℕ) → h'.vers j ≡ h.vers j

module _ {F : Type 0} (d : Device F) (o : Options) (keeps : Untouched d) where
  after_write-vers :
      (s : Host F) {s' : Host F}
      → after_write d o s ≡ some s'
      → (s'.wid_vst ≡ s.wid_vst) × ((j : ℕ) → s'.ram.vers j ≡ s.ram.vers j)
  unfolding after_write
  after_write-vers s {s'} e =
      let flushed : (g : F) (h : HostRam)
          → d.flush_cache (s.device, s.ram) ≡ some (g, h)
          → (j : ℕ) → h.vers j ≡ s.ram.vers j =
        λ g h x. keeps.at_flush s.device s.ram x in
      elim (Option-cases (d.flush_cache (s.device, s.ram))) [
        | inl off ↦ (ground (arith, e, off), λ j. ground (arith, e, off))
        | inr (r, on) ↦ (ground (arith, e, on), λ j. ground (arith, e, on, flushed r.0 r.1 on j))
      ]

  host_write-vers :
      (lba n : ℕ) (s : Host F) {s' : Host F}
      → host_write d o lba n s ≡ some s'
      → (s'.wid_vst ≡ inc32 s.wid_vst) × ((j : ℕ) → s'.ram.vers j ≡ counted lba n s.ram.vers j)
  unfolding host_write
  host_write-vers lba n s {s'} e =
      let (h1, sent, vers) = send_to_wbuf_lem lba n s.ram in
      let ((f, h2), e1, e2) = >>=-eq-some (d.write_sector lba n (s.device, h1)) _ (rw sent at e) in
      let wrote = keeps.at_write lba n s.device h1 e1 in
      let (wid, same) = after_write-vers _ e2 in (wid, λ j. same j ∙ wrote j ∙ vers j)

  host_read-vers :
      (lba n : ℕ) (s : Host F) {s' : Host F}
      → host_read d o lba n s ≡ some s'
      → (s'.wid_vst ≡ s.wid_vst) × ((j : ℕ) → s'.ram.vers j ≡ s.ram.vers j)
  unfolding host_read
  host_read-vers lba n s {s'} e =
      let ((f, h1), e1, e2) = >>=-eq-some (d.read_sector lba n (s.device, s.ram)) _ e in
      let (h2, e3, e4) = >>=-eq-some (recv_from_rbuf lba n h1) _ e2 in
      (
        ground (arith, e4),
        λ j.
            ground (
              arith,
              e4,
              recv_from_rbuf-vers lba n h1 e3 j,
              keeps.at_read lba n s.device s.ram e1 j,
            ),
      )

  pub host_ent-vers :
      (t : TraceEnt) (s : Host F) {s' : Host F}
      → host_ent d o 0 t s ≡ some s'
      → let (lba, n) = clip 0 t in
        (s'.wid_vst ≡ (if t.rw == 0 then inc32 s.wid_vst else s.wid_vst))
        × ((j : ℕ)
            → s'.ram.vers j ≡ (if t.rw == 0 then counted lba n s.ram.vers j else s.ram.vers j))
  unfolding host_ent
  host_ent-vers t s e = elim (Bool-cases (t.rw == 0)) [
    | inl w ↦ rw w (host_write-vers (clip 0 t).0 (clip 0 t).1 s (rw w at e))
    | inr w ↦ rw w (host_read-vers (clip 0 t).0 (clip 0 t).1 s (rw w at e))
  ]

-- The replay is where the host was: the same versions, for the same number of writes.
abbrev pub InStep : {F : Type 0} → Host F → Replayed → Type 0
InStep s r = (r.epoch ≡ s.wid_vst) × ((j : ℕ) → j < max_lba → r.vers j ≡ s.ram.vers j)

-- What the replay of one entry leaves, by the range and the kind of its request.
abbrev pub Replays : ℕ × ℕ → ℕ → ℕ → Replayed → Replayed → Type 0
Replays (lba, n) kind epoch_incomplete r r' =
    (r'.epoch ≡ (if kind == 0 then inc32 r.epoch else r.epoch))
    × ((j : ℕ) → r'.vers j ≡ (if kind == 0 then counted lba n r.vers j else r.vers j))
    × (r'.stop ≡ (if kind == 0 then inc32 r.epoch == epoch_incomplete else r.stop))

replay_ent-Replays :
    (epoch_incomplete : ℕ) (t : TraceEnt) (r : Replayed)
    → Replays (clip 0 t) t.rw epoch_incomplete r (replay_ent 0 epoch_incomplete t r)
unfolding replay_ent
replay_ent-Replays epoch_incomplete t r =
    let (lba, n) = clip 0 t in
    elim (Bool-cases (t.rw == 0)) [
      | inl w ↦ rw w (refl, λ j. count_sects-vers n lba r.vers j, refl)
      | inr w ↦ rw w (refl, λ j. refl, refl)
    ]

wrap_ent-rw : (trace_cnt : ℕ) (t : TraceEnt) → (wrap_ent trace_cnt t).rw ≡ t.rw
unfolding wrap_ent
wrap_ent-rw trace_cnt t = ground arith

-- An entry that was wrapped replays as it was played.
pub wrap_ent-Replays :
    (epoch_incomplete : ℕ) (t : TraceEnt) (r : Replayed)
    → Replays (clip 0 t) t.rw epoch_incomplete r (replay_ent 0 epoch_incomplete (wrap_ent 0 t) r)
unfolding wrap_ent
wrap_ent-Replays epoch_incomplete t r =
    let replays = replay_ent-Replays epoch_incomplete (wrap_ent 0 t) r in
    rw (clip_again t, wrap_ent-rw 0 t) at replays

pub replay_pass-next :
    (trace_cnt epoch_incomplete : ℕ) (t : TraceEnt) (ts : List TraceEnt) (r : Replayed)
    → let r' = replay_ent trace_cnt epoch_incomplete t r in
      (replay_pass trace_cnt epoch_incomplete (t ∷ ts) r).1
      ≡ (if r'.stop then r' else (replay_pass trace_cnt epoch_incomplete ts r').1)
unfolding replay_pass
replay_pass-next trace_cnt epoch_incomplete t ts r =
    let r' = replay_ent trace_cnt epoch_incomplete t r in
    elim (Bool-cases r'.stop) [ inl h ↦ rw h refl | inr h ↦ rw h refl ]

-- The end of a round of the inner loop that does not end the run.
not_done :
    {F : Type 0} {played : TraceEnt} {es' : List TraceEnt} (done : Bool) (ts : List TraceEnt)
    (s1 : Host F) {s' : Host F} (rest : Option (List TraceEnt × Host F))
    → s1.done ≡ done
    → s'.done ≡ false
    → let stop : Option (List TraceEnt × Host F) = some (played ∷ ts, s1) in
      (if done then stop else (rest >>= λ (r : List TraceEnt × Host F). some (played ∷ r.0, r.1)))
        ≡ some (es', s')
      → (ts' : List TraceEnt) × (es' ≡ played ∷ ts') × (rest ≡ some (ts', s'))
not_done true ts s1 rest is_done going e = cc
not_done false ts s1 none is_done going e = cc
not_done false ts s1 (some (ts', s2)) is_done going e = (ts', cc, cc)

module _ {F : Type 0} (d : Device F) (o : Options) (keeps : Untouched d) where
  -- A pass that was not ended has played its first entry, and then the others.
  pub host_pass-next :
      (t : TraceEnt) (ts : List TraceEnt) (s : Host F) {es' : List TraceEnt} {s' : Host F}
      → host_pass d o 0 (t ∷ ts) s ≡ some (es', s')
      → s'.done ≡ false
      → (s1 : Host F) × (host_ent d o 0 t s ≡ some s1)
        × (ts' : List TraceEnt) × (es' ≡ wrap_ent 0 t ∷ ts')
        × (host_pass d o 0 ts s1 ≡ some (ts', s'))
  unfolding host_pass
  host_pass-next t ts s {es'} {s'} e going =
      let (s1, e1, e2) = >>=-eq-some (host_ent d o 0 t s) _ e in
      let (ts', split, rest) = not_done s1.done ts s1 (host_pass d o 0 ts s1) refl going e2 in
      (s1, e1, ts', split, rest)

  pub host_ent-InStep :
      (epoch_incomplete : ℕ) (t : TraceEnt) (s : Host F) (r : Replayed) {s' : Host F}
      → host_ent d o 0 t s ≡ some s'
      → InStep s r
      → InStep s' (replay_ent 0 epoch_incomplete (wrap_ent 0 t) r)
  host_ent-InStep epoch_incomplete t s r {s'} e (epoch, same) =
      let (wid, vers) = host_ent-vers d o keeps t s e in
      let (epoch', vers', stop) = wrap_ent-Replays epoch_incomplete t r in
      (rw (epoch', wid, epoch) refl, λ j lt. rw (vers' j, vers j, same j lt) refl)
