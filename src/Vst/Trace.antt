-- ===== src/Vst/Trace.antt =====
-- vst/src/vst.c and vram.c: the trace that the simulator plays against the firmware, and its replay
-- after a crash. The firmware is loaded at run time; `Device` stands for the functions that the
-- simulator finds in it. The simulated crash, which forks, and the log lines are left out.
pub mod Clip
pub mod Load
pub mod Replay
pub mod Commit
mod Tests
use optr_jasmine.Prelude.{
  ℕ, zero, suc, ◌+◌, ◌-◌, ◌*◌, ◌/◌, ◌%◌, ◌≡◌, Bool, true, false, not, ◌&&◌, Option, none, some,
  List, [], ◌∷◌, if◌then◌else◌, ltb, ◌==◌, ◌>>=◌, add32, inc32, update, for_range,
}
use optr_jasmine.Vst.Ram.{HostRam, send_to_wbuf, recv_from_rbuf, keep_version}

-- VST_MAX_LBA
abbrev pub max_lba : ℕ
max_lba = 249644921

-- `struct trace_ent`
pub record TraceEnt : Type 0 where
  pub lba : ℕ
  pub sec_num : ℕ
  pub rw : ℕ

-- The sector that the entry starts at in round `trace_cnt` over the trace, before it is brought into
-- the device.
unfoldable pub shift_lba : ℕ → TraceEnt → ℕ
shift_lba trace_cnt t = add32 (t.lba % 4294967296) (trace_cnt * 1024)

-- The entry as the trace keeps it: a sector behind the device's end is wrapped in the trace itself.
unfoldable pub wrap_ent : ℕ → TraceEnt → TraceEnt
unfolding shift_lba
wrap_ent trace_cnt t =
    let lba = shift_lba trace_cnt t in
    if ltb max_lba lba then record t { lba = lba % (max_lba + 1) } else t

-- The range that is read or written.
unfoldable pub clip : ℕ → TraceEnt → ℕ × ℕ
unfolding shift_lba
clip trace_cnt t =
    let shifted = shift_lba trace_cnt t in
    let lba = if ltb max_lba shifted then shifted % (max_lba + 1) else shifted in
    (lba, if ltb (max_lba + 1) (add32 lba t.sec_num) then max_lba + 1 - lba else t.sec_num)

-- The entries that one line of the trace file makes: pieces of at most `size` sectors. The fuel is
-- the number of sectors, and one more round for a line without any.
unfoldable pub split_line : ℕ → ℕ → ℕ → ℕ → ℕ → List TraceEnt
split_line zero size rw lba sec_num = []
split_line (suc fuel) size rw lba sec_num =
    let this = if ltb size sec_num then size else sec_num in
    let rest = split_line fuel size rw (lba + this) (sec_num - this) in
    record { lba = lba; sec_num = this; rw = rw } ∷ (if sec_num - this == 0 then [] else rest)

-- A line whose fields were scanned: the kind of the request, its first byte and its bytes.
unfoldable pub load_line : ℕ → ℕ → Bool → ℕ → ℕ → List TraceEnt
unfolding split_line
load_line rsize wsize is_write bytes_at bytes =
    let sec_num = bytes / 512 in
    split_line (sec_num + 1) (if is_write then wsize else rsize) (if is_write then 0 else 1)
      (bytes_at / 512) sec_num

-- The sequential trace: every page of the device written once, from `lpn` on.
synth_pages : ℕ → ℕ → List TraceEnt
synth_pages zero lpn = []
synth_pages (suc n) lpn = record { lba = lpn * 32; sec_num = 32; rw = 0 } ∷ synth_pages n (lpn + 1)

unfoldable pub synthesize_trace : List TraceEnt
unfolding synth_pages
synthesize_trace = synth_pages (max_lba / 32) 0

-- for (offset < sec_num) vers[lba + offset]++
unfoldable pub count_sects : ℕ → ℕ → (ℕ → ℕ) → ℕ → ℕ
count_sects n lba vers =
    for_range n 0 (λ offset v. update v (lba + offset) (inc32 (v (lba + offset)))) vers

-- The state of `replay_to_commit`; `stop` when it has returned.
pub record Replayed : Type 0 where
  pub vers : ℕ → ℕ
  pub epoch : ℕ
  pub stop : Bool

-- One entry: a write counts its sectors and is an epoch.
unfoldable pub replay_ent : ℕ → ℕ → TraceEnt → Replayed → Replayed
unfolding clip count_sects
replay_ent trace_cnt epoch_incomplete t r =
    let (lba, n) = clip trace_cnt t in
    let epoch = inc32 r.epoch in
    if t.rw == 0
    then record { vers = count_sects n lba r.vers; epoch = epoch; stop = epoch == epoch_incomplete }
    else r

-- The inner loop, with the trace that it leaves.
unfoldable pub replay_pass : ℕ → ℕ → List TraceEnt → Replayed → List TraceEnt × Replayed
unfolding replay_ent wrap_ent
replay_pass trace_cnt epoch_incomplete [] r = ([], r)
replay_pass trace_cnt epoch_incomplete (t ∷ ts) r =
    let r' = replay_ent trace_cnt epoch_incomplete t r in
    let (ts', r'') = replay_pass trace_cnt epoch_incomplete ts r' in
    if r'.stop then (wrap_ent trace_cnt t ∷ ts, r') else (wrap_ent trace_cnt t ∷ ts', r'')

-- while (1), with fuel for the rounds over the trace
unfoldable pub replay_passes : ℕ → ℕ → ℕ → List TraceEnt → Replayed → Option (ℕ → ℕ)
unfolding replay_pass
replay_passes zero trace_cnt epoch_incomplete ts r = none
replay_passes (suc fuel) trace_cnt epoch_incomplete ts r =
    let (ts', r') = replay_pass trace_cnt epoch_incomplete ts r in
    elim r'.stop [
      | true ↦ some r'.vers
      | false ↦ replay_passes fuel (trace_cnt + 1) epoch_incomplete ts' r'
    ]

-- memset(vers, 0, VST_MAX_LBA * sizeof(uint32_t)) leaves what stands behind the array.
unfoldable pub replay_to_commit : ℕ → List TraceEnt → ℕ → HostRam → Option HostRam
unfolding replay_passes
replay_to_commit fuel ts epoch_incomplete h =
    replay_passes fuel 0 epoch_incomplete ts
      (record { vers = λ lba. if ltb lba max_lba then 0 else h.vers lba; epoch = 0; stop = false })
    >>= λ vers. some (record h { vers = vers })

-- The comparison of what was read after the crash with what the replay gives: 1 for a difference.
unfoldable pub compare_versions : ℕ → HostRam → ℕ
compare_versions zero h = 0
compare_versions (suc n) h =
    let ret = compare_versions n h in if h.vers_rec n == h.vers n then ret else 1

unfoldable pub check_prefix : ℕ → List TraceEnt → ℕ → HostRam → Option (ℕ × HostRam)
unfolding replay_to_commit compare_versions
check_prefix fuel ts epoch_incomplete h =
    replay_to_commit fuel ts epoch_incomplete h >>= λ h'. some (compare_versions max_lba h', h')

-- The functions of a firmware, on its own state `F` and the buffers that it shares with the simulator.
pub record Device (F : Type 0) : Type 0 where
  pub read_sector : ℕ → ℕ → F × HostRam → Option (F × HostRam)
  pub write_sector : ℕ → ℕ → F × HostRam → Option (F × HostRam)
  pub flush_cache : F × HostRam → Option (F × HostRam)

-- The options that the loop looks at.
pub record Options : Type 0 where
  pub one_pass : Bool
  pub bound : ℕ
  pub freq_flush : ℕ

-- The state of the loop of `main`, without what only the simulated crash uses.
pub record Host (F : Type 0) : Type 0 where
  pub device : F
  pub ram : HostRam
  pub wid_vst : ℕ
  pub wid_latest_flush : ℕ
  pub n_wr_between_two_flushes : ℕ
  pub byte_write : ℕ
  pub byte_read : ℕ
  pub done : Bool

module _ {F : Type 0} (d : Device F) (o : Options) where
  -- What follows a write: the run ends, or the flush that is due.
  unfoldable pub after_write : Host F → Option (Host F)
  after_write s =
      let n_wr = s.n_wr_between_two_flushes + 1 in
      if not o.one_pass && ltb o.bound s.byte_write
      then some (record s { done = true })
      else if n_wr == o.freq_flush
      then (d.flush_cache (s.device, s.ram) >>= λ (r : F × HostRam). some (record s {
        device = r.0;
        ram = r.1;
        n_wr_between_two_flushes = 0;
        wid_latest_flush = s.wid_vst;
      }))
      else some (record s { n_wr_between_two_flushes = n_wr })

  unfoldable pub host_write : ℕ → ℕ → Host F → Option (Host F)
  unfolding send_to_wbuf after_write
  host_write lba n s = do
    ram ← send_to_wbuf lba n s.ram
    (f, ram') ← d.write_sector lba n (s.device, ram)
    after_write (record s {
      device = f;
      ram = ram';
      wid_vst = inc32 s.wid_vst;
      byte_write = (s.byte_write + n * 512 % 4294967296) % 18446744073709551616;
    })

  unfoldable pub host_read : ℕ → ℕ → Host F → Option (Host F)
  unfolding recv_from_rbuf
  host_read lba n s = do
    (f, ram) ← d.read_sector lba n (s.device, s.ram)
    ram' ← recv_from_rbuf lba n ram
    some (record s {
      device = f;
      ram = ram';
      byte_read = (s.byte_read + n * 512 % 4294967296) % 18446744073709551616;
    })

  unfoldable pub host_ent : ℕ → TraceEnt → Host F → Option (Host F)
  unfolding host_write host_read clip
  host_ent trace_cnt t s =
      let (lba, n) = clip trace_cnt t in if t.rw == 0 then host_write lba n s else host_read lba n s

  -- The inner loop over the trace, with the trace that it leaves.
  unfoldable pub host_pass : ℕ → List TraceEnt → Host F → Option (List TraceEnt × Host F)
  unfolding host_ent wrap_ent
  host_pass trace_cnt [] s = some ([], s)
  host_pass trace_cnt (t ∷ ts) s = host_ent trace_cnt t s >>= λ s'.
      let rest = host_pass trace_cnt ts s' in
      if s'.done
      then some (wrap_ent trace_cnt t ∷ ts, s')
      else (rest >>= λ (r : List TraceEnt × Host F). some (wrap_ent trace_cnt t ∷ r.0, r.1))

  -- while (!done)
  unfoldable pub host_passes : ℕ → ℕ → List TraceEnt → Host F → Option (List TraceEnt × Host F)
  unfolding host_pass
  host_passes zero trace_cnt ts s = none
  host_passes (suc fuel) trace_cnt ts s =
      host_pass trace_cnt ts s >>= λ (r : List TraceEnt × Host F).
      elim (if o.one_pass then true else r.1.done) [
        | true ↦ some r
        | false ↦ host_passes fuel (trace_cnt + 1) r.0 r.1
      ]
