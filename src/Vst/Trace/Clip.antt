-- ===== src/Vst/Trace/Clip.antt =====
-- Where the entries of a trace lie.
use optr_jasmine.Prelude.{ℕ, ◌+◌, ◌≤◌, ◌<◌, ◌≡◌, arith}
use optr_jasmine.Vst.Trace.{TraceEnt, max_lba, clip, wrap_ent}

-- Every request that is played lies in the device, and is no longer than the trace says, in whatever
-- round; and the trace, which keeps a start that was wrapped, gives the same request again in the
-- first round, from which a replay starts.
pub clip-wrap_ent :
    (trace_cnt : ℕ) (t : TraceEnt)
    → t.sec_num < 4045322374
    → let (lba, n) = clip trace_cnt t in
      (lba ≤ max_lba)
      × (lba + n ≤ max_lba + 1)
      × (n ≤ t.sec_num)
      × (clip 0 (wrap_ent 0 t) ≡ clip 0 t)
unfolding clip wrap_ent
clip-wrap_ent trace_cnt t h = (ground arith, ground arith, ground arith, ground arith)

pub clip_again : (t : TraceEnt) → clip 0 (wrap_ent 0 t) ≡ clip 0 t
unfolding clip wrap_ent
clip_again t = ground arith
