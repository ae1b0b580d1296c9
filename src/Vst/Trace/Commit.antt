-- ===== src/Vst/Trace/Commit.antt =====
-- The check of the order that a crash must preserve: the replay of what the host has played.
use optr_jasmine.Prelude.{
  ℕ, zero, suc, ◌+◌, ◌<◌, ◌≤◌, ◌≡◌, ◌↔◌, refl, sym, ap, ◌∙◌, arith, Bool, true, false, some, List,
  [], ◌∷◌, ◌++◌, length, if◌then◌else◌, ltb, ◌==◌, ==_iff, Bool-cases, inl, inr, inc32, ◌⊎◌, Option,
  ◌>>=◌, subst,
}
use optr_jasmine.Vst.Ram.{HostRam}
use optr_jasmine.Vst.Trace.{
  TraceEnt, Replayed, Device, Options, Host, max_lba, wrap_ent, replay_ent, replay_pass,
  replay_passes, replay_to_commit, compare_versions, check_prefix, host_pass,
}
use optr_jasmine.Vst.Trace.Replay.{
  Untouched, InStep, wrap_ent-Replays, replay_pass-next, host_ent-vers, host_ent-InStep,
  host_pass-next,
}

compare_versions_iff :
    (n : ℕ) (h : HostRam) → (compare_versions n h ≡ 0) ↔ ((j : ℕ) → j < n → h.vers_rec j ≡ h.vers j)
unfolding compare_versions
compare_versions_iff zero h = (λ e j lt. absurd (omega arith), λ same. refl)
compare_versions_iff (suc n) h =
    let (to, from) = compare_versions_iff n h in
    elim (Bool-cases (h.vers_rec n == h.vers n)) [
      | inl e ↦
          let lower : compare_versions n h ≡ 0 → (j : ℕ) → j < n → h.vers_rec j ≡ h.vers j = to in
          let here : h.vers_rec n ≡ h.vers n = (==_iff (h.vers_rec n) (h.vers n)).0 e in
          (
            λ z j lt. elim (Bool-cases (j == n)) [
              | inl last ↦
                  let at : j ≡ n = (==_iff j n).0 last in
                  subst (λ k. h.vers_rec k ≡ h.vers k) (sym at) here
              | inr before ↦ lower (rw e at z) j (ground (arith, lt, before))
            ],
            λ same. rw e (from (λ j lt. same j (omega arith))),
          )
      | inr ne ↦ (
        λ z. absurd (ground (arith, ne, z)),
        λ same. absurd (ground (arith, ne, same n (omega arith))),
      )
    ]

-- A replay whose first round stops.
replay_passes-stop :
    (last : ℕ) (ts : List TraceEnt) (r : Replayed)
    → (replay_pass 0 last ts r).1.stop ≡ true
    → replay_passes 1 0 last ts r ≡ some (replay_pass 0 last ts r).1.vers
unfolding replay_passes
replay_passes-stop last ts r stop =
    let (ts', end) = replay_pass 0 last ts r in
    ap
      (λ (b : Bool). elim b as (λ _. Option (ℕ → ℕ)) [
        | true ↦ some end.vers
        | false ↦ replay_passes 0 1 last ts' end
      ])
      stop

check_prefix-stop :
    (last : ℕ) (ts : List TraceEnt) (h : HostRam)
    → let r : Replayed = record {
      vers = λ lba. if ltb lba max_lba then 0 else h.vers lba;
      epoch = 0;
      stop = false;
    } in
      let end = (replay_pass 0 last ts r).1 in
      end.stop ≡ true
      → check_prefix 1 ts last h
        ≡ some
            (compare_versions max_lba (record h { vers = end.vers }), record h { vers = end.vers })
unfolding check_prefix replay_to_commit
check_prefix-stop last ts h stop =
    let r : Replayed = record {
      vers = λ lba. if ltb lba max_lba then 0 else h.vers lba;
      epoch = 0;
      stop = false;
    } in
    ap
      (λ (m : Option (ℕ → ℕ)). (m >>= λ vers. some (record h { vers = vers })) >>= λ h'.
        some (compare_versions max_lba h', h'))
      (replay_passes-stop last ts r stop)

module _ {F : Type 0} (d : Device F) (o : Options) (keeps : Untouched d) where
  -- The replay of a pass that the host has played ends at the host's last write, if there was one.
  abbrev Caught : ℕ → List TraceEnt → Host F → Host F → Replayed → Type 0
  Caught last ts s s' r =
      ((s.wid_vst ≡ last) × ((j : ℕ) → j < max_lba → s'.ram.vers j ≡ s.ram.vers j))
      ⊎ ((s.wid_vst < last)
          × let end = (replay_pass 0 last ts r).1 in
            (end.stop ≡ true) × ((j : ℕ) → j < max_lba → end.vers j ≡ s'.ram.vers j))

  -- From one entry back to the one before, where the replay has gone on.
  Caught-back :
      (last : ℕ) (t : TraceEnt) (ts : List TraceEnt) (s s1 s' : Host F) (r : Replayed)
      → let r1 = replay_ent 0 last t r in
        r1.stop ≡ false
        → (s1.wid_vst ≡ last → (s.wid_vst ≡ last) × ((j : ℕ) → s1.ram.vers j ≡ s.ram.vers j))
        → s.wid_vst ≤ s1.wid_vst
        → Caught last ts s1 s' r1
        → Caught last (t ∷ ts) s s' r
  Caught-back last t ts s s1 s' r on unwritten up c =
      let r1 = replay_ent 0 last t r in
      let here : (replay_pass 0 last (t ∷ ts) r).1 ≡ (replay_pass 0 last ts r1).1 =
        replay_pass-next 0 last t ts r
        ∙ ap (λ (b : Bool). if b then r1 else (replay_pass 0 last ts r1).1) on in
      elim c [
        | inl (at, same) ↦ let (at', same') = unwritten at in inl (at', λ j lt. same j lt ∙ same' j)
        | inr (before, (stop, same)) ↦ inr (
          omega arith,
          (
            ap (λ (x : Replayed). x.stop) here ∙ stop,
            λ j lt. ap (λ (x : Replayed). x.vers j) here ∙ same j lt,
          ),
        )
      ]

  -- At the host's last write the replay stops.
  Caught-last :
      (last : ℕ) (t : TraceEnt) (ts : List TraceEnt) (s s1 s' : Host F) (r : Replayed)
      → let r1 = replay_ent 0 last t r in
        r1.stop ≡ true
        → InStep s1 r1
        → s1.wid_vst ≡ last
        → s.wid_vst < last
        → Caught last ts s1 s' (record r1 { stop = false })
        → Caught last (t ∷ ts) s s' r
  Caught-last last t ts s s1 s' r off (epoch, same) at before c =
      let r1 = replay_ent 0 last t r in
      let here : (replay_pass 0 last (t ∷ ts) r).1 ≡ r1 =
        replay_pass-next 0 last t ts r
        ∙ ap (λ (b : Bool). if b then r1 else (replay_pass 0 last ts r1).1) off in
      elim c [
        | inl (at', same') ↦ inr (
          before,
          (
            ap (λ (x : Replayed). x.stop) here ∙ off,
            λ j lt. ap (λ (x : Replayed). x.vers j) here ∙ same j lt ∙ sym (same' j lt),
          ),
        )
        | inr (after, end) ↦ absurd (omega arith)
      ]

  host_pass-Caught :
      (es rest : List TraceEnt) (s : Host F) (r : Replayed) {es' : List TraceEnt} {s' : Host F}
      → InStep s r
      → r.stop ≡ false
      → s.wid_vst + length es < 4294967296
      → host_pass d o 0 es s ≡ some (es', s')
      → s'.done ≡ false
      → Caught s'.wid_vst (es' ++ rest) s s' r
  unfolding host_pass
  host_pass-Caught [] rest s r in_step stop short e going = inl (cc, λ j lt. ground (arith, e))
  host_pass-Caught (t ∷ ts) rest s r {es'} {s'} (epoch, same) stop short e going =
      let (s1, e1, ts', split, e2) = host_pass-next d o keeps t ts s e going in
      let last = s'.wid_vst in
      let r1 = replay_ent 0 last (wrap_ent 0 t) r in
      let step = host_ent-InStep d o keeps last t s r e1 (epoch, same) in
      let (wid, vers) = host_ent-vers d o keeps t s e1 in
      let stops = (wrap_ent-Replays last t r).2 in
      let rec : s1.wid_vst ≤ s.wid_vst + 1
          → (r' : Replayed) → InStep s1 r'
          → r'.stop ≡ false
          → Caught last (ts' ++ rest) s1 s' r' =
        λ up r' in_step' stop'.
          host_pass-Caught ts rest s1 r' in_step' stop' (omega arith) e2 going in
      rw split (elim (Bool-cases (t.rw == 0)) [
        | inl w ↦
            let counts : s1.wid_vst ≡ inc32 s.wid_vst = rw w at wid in
            let wid' : s1.wid_vst ≡ s.wid_vst + 1 = counts ∙ omega arith in
            let stops' : r1.stop ≡ (s1.wid_vst == last) =
              (rw w at stops)
              ∙ ap (λ e. inc32 e == last) epoch
              ∙ ap (λ e. e == last) (sym counts) in
            elim (Bool-cases (s1.wid_vst == last)) [
              | inl at ↦
                  let at' : s1.wid_vst ≡ last = ground (arith, at) in
                  Caught-last last (wrap_ent 0 t) (ts' ++ rest) s s1 s' r (stops' ∙ at) step at'
                    (omega arith) (rec (omega arith) (record r1 { stop = false }) step refl)
              | inr before ↦
                  Caught-back last (wrap_ent 0 t) (ts' ++ rest) s s1 s' r (stops' ∙ before)
                    (λ e. absurd (ground (arith, e, before))) (omega arith)
                    (rec (omega arith) r1 step (stops' ∙ before))
            ]
        | inr w ↦
            let wid' : s1.wid_vst ≡ s.wid_vst = rw w at wid in
            let on : r1.stop ≡ false = (rw w at stops) ∙ stop in
            Caught-back last (wrap_ent 0 t) (ts' ++ rest) s s1 s' r on
              (λ e. (sym wid' ∙ e, rw w at vers)) (omega arith) (rec (omega arith) r1 step on)
      ])

  -- The host plays fewer than 2^32 entries in the first round over the trace, from versions and a write
  -- count of 0, on a firmware that leaves the versions alone, and is not ended; some entry is a write.
  -- Then the check for as many writes as were made, on the trace that the host leaves with any further
  -- entries behind it, ends in its first round, and it finds no difference if and only if every
  -- sector below the last was read back with the version that the host had given it.
  pub check_prefix-host_pass :
      (es rest : List TraceEnt) (s : Host F) {es' : List TraceEnt} {s' : Host F}
      → s.wid_vst ≡ 0
      → ((j : ℕ) → j < max_lba → s.ram.vers j ≡ 0)
      → length es < 4294967296
      → host_pass d o 0 es s ≡ some (es', s')
      → s'.done ≡ false
      → 0 < s'.wid_vst
      → (h : HostRam)
      → (ret : ℕ) × (h' : HostRam) × (check_prefix 1 (es' ++ rest) s'.wid_vst h ≡ some (ret, h'))
        × ((ret ≡ 0) ↔ ((j : ℕ) → j < max_lba → h.vers_rec j ≡ s'.ram.vers j))
  check_prefix-host_pass es rest s {es'} {s'} first zeros short e going wrote h =
      let r : Replayed = record {
        vers = λ lba. if ltb lba max_lba then 0 else h.vers lba;
        epoch = 0;
        stop = false;
      } in
      let in_step : InStep s r = (sym first, λ j lt. ground (arith, zeros j lt, lt)) in
      elim (host_pass-Caught es rest s r in_step refl (omega arith) e going) [
        | inl (none_written, same) ↦ absurd (omega arith)
        | inr (before, (stop, same)) ↦
            let end = (replay_pass 0 s'.wid_vst (es' ++ rest) r).1 in
            let h' = record h { vers = end.vers } in
            let (to, from) = compare_versions_iff max_lba h' in
            (
              compare_versions max_lba h',
              h',
              check_prefix-stop s'.wid_vst (es' ++ rest) h stop,
              (λ z j lt. to z j lt ∙ same j lt, λ back. from (λ j lt. back j lt ∙ sym (same j lt))),
            )
      ]
