-- ===== src/Stat.antt =====
-- ftl_optr/stat.c: the counters that the firmware keeps of its own work, the two histograms, and
-- the refreshed percentile of the update distance. Printing is left out. The UINT32 counters wrap.
pub mod Buckets
mod Tests
use optr_jasmine.Prelude.{
  ℕ, zero, suc, ◌+◌, ◌*◌, ◌/◌, ◌%◌, ◌^◌, if◌then◌else◌, ltb, ◌==◌, add32, inc32, update, for_range,
}
use optr_jasmine.Config.{num_banks}

-- `statistic_t`
pub record Stat : Type 0 where
  pub usec_flush : ℕ
  pub n_flush : ℕ
  pub val_para : ℕ
  pub n_para : ℕ
  pub n_gc : ℕ → ℕ
  pub usec_gc : ℕ → ℕ
  pub gc_vcount : ℕ
  pub n_insert : ℕ → ℕ
  pub n_full_write : ℕ → ℕ
  pub n_update_side : ℕ → ℕ
  pub n_update_center : ℕ → ℕ
  pub n_merge_write : ℕ → ℕ
  pub total_merge : ℕ
  pub total_write : ℕ
  pub total_insert : ℕ
  pub n_chkpt : ℕ
  pub gc_erase_sync : ℕ
  pub gc_erase_async : ℕ
  pub n_dep : ℕ
  pub cnt_dep : ℕ
  pub n_reclaim : ℕ
  pub sects_write : ℕ
  pub sects_read : ℕ
  pub size_write : ℕ → ℕ
  pub size_read : ℕ → ℕ
  pub n_dirty_rate : ℕ
  pub n_dirty_bufs : ℕ → ℕ
  pub program_region : ℕ → ℕ → ℕ
  pub chkpt_page : ℕ
  pub tag_page : ℕ
  pub dep_page : ℕ
  pub chkpt_flush_page : ℕ
  pub gc_flush_page : ℕ
  pub manual_flush_page : ℕ
  pub data_page : ℕ
  pub total_gc_blks : ℕ
  pub constrained_gc_blks : ℕ

-- `write_rate_t`
pub record WriteRate : Type 0 where
  pub total_insert : ℕ
  pub total_full_write : ℕ
  pub total_update : ℕ
  pub total_merge : ℕ
  pub total_write : ℕ

-- `distance_t`, with the two statics beside it
pub record Distance : Type 0 where
  pub dist_bucket : ℕ → ℕ
  pub dist_count : ℕ
  pub dist_median_record : ℕ
  pub called_dist_median : ℕ

-- All statics of stat.c that the firmware reads again.
pub record Stats : Type 0 where
  pub stat : Stat
  pub write_rate : WriteRate
  pub dist : Distance

abbrev pub zero_stat : Stat
zero_stat = record {
  usec_flush = 0;
  n_flush = 0;
  val_para = 0;
  n_para = 0;
  n_gc = λ i. 0;
  usec_gc = λ i. 0;
  gc_vcount = 0;
  n_insert = λ i. 0;
  n_full_write = λ i. 0;
  n_update_side = λ i. 0;
  n_update_center = λ i. 0;
  n_merge_write = λ i. 0;
  total_merge = 0;
  total_write = 0;
  total_insert = 0;
  n_chkpt = 0;
  gc_erase_sync = 0;
  gc_erase_async = 0;
  n_dep = 0;
  cnt_dep = 0;
  n_reclaim = 0;
  sects_write = 0;
  sects_read = 0;
  size_write = λ i. 0;
  size_read = λ i. 0;
  n_dirty_rate = 0;
  n_dirty_bufs = λ i. 0;
  program_region = λ i j. 0;
  chkpt_page = 0;
  tag_page = 0;
  dep_page = 0;
  chkpt_flush_page = 0;
  gc_flush_page = 0;
  manual_flush_page = 0;
  data_page = 0;
  total_gc_blks = 0;
  constrained_gc_blks = 0;
}

-- `show_stat` prints the counters and resets them.
unfoldable pub show_stat : Stats → Stats
show_stat s = record s { stat = zero_stat }

-- `a[i]++` on an array of UINT32
abbrev pub bump : (ℕ → ℕ) → ℕ → ℕ → ℕ
bump a i = update a i (inc32 (a i))

abbrev on_stat : (Stat → Stat) → Stats → Stats
on_stat f s = record s { stat = f s.stat }

-- the loop of `bucket` from `idx` on, with the rounds that are left
bucket_loop : ℕ → ℕ → ℕ → ℕ
bucket_loop zero idx sects = 14
bucket_loop (suc n) idx sects =
    let rest = bucket_loop n (idx + 1) (sects / 2) in if sects == 0 then idx else rest

pub bucket : ℕ → ℕ
unfolding bucket_loop
bucket sects = bucket_loop 15 0 (sects / 4)

get_dist_bucket_loop : ℕ → ℕ → ℕ → ℕ
get_dist_bucket_loop zero idx dist = 19
get_dist_bucket_loop (suc n) idx dist =
    let rest = get_dist_bucket_loop n (idx + 1) (dist / 2) in if dist == 0 then idx else rest

pub get_dist_bucket : ℕ → ℕ
unfolding get_dist_bucket_loop
get_dist_bucket dist = get_dist_bucket_loop 19 0 (dist / 4)

unfoldable pub stat_record_flush : ℕ → Stats → Stats
stat_record_flush t =
    on_stat λ s. record s { usec_flush = add32 s.usec_flush t; n_flush = inc32 s.n_flush }

unfoldable pub stat_record_para : ℕ → Stats → Stats
stat_record_para para =
    on_stat λ s. record s { val_para = add32 s.val_para para; n_para = inc32 s.n_para }

unfoldable pub stat_record_gc : ℕ → ℕ → Stats → Stats
stat_record_gc bank t = on_stat λ s. record s {
  usec_gc = update s.usec_gc bank (add32 (s.usec_gc bank) t);
  n_gc = bump s.n_gc bank;
}

unfoldable pub stat_record_insert : ℕ → Stats → Stats
stat_record_insert bank s = record s {
  stat = record (s.stat) {
    n_insert = bump s.stat.n_insert bank;
    total_write = inc32 s.stat.total_write;
    total_insert = inc32 s.stat.total_insert;
  };
  write_rate = record (s.write_rate) {
    total_insert = inc32 s.write_rate.total_insert;
    total_write = inc32 s.write_rate.total_write;
  };
}

unfoldable pub stat_record_full_write : ℕ → Stats → Stats
stat_record_full_write bank s = record s {
  stat = record (s.stat) {
    n_full_write = bump s.stat.n_full_write bank;
    total_write = inc32 s.stat.total_write;
  };
  write_rate = record (s.write_rate) {
    total_full_write = inc32 s.write_rate.total_full_write;
    total_write = inc32 s.write_rate.total_write;
  };
}

-- the counters of `write_rate` that both kinds of update share
abbrev update_rate : WriteRate → WriteRate
update_rate w = record w { total_update = inc32 w.total_update; total_write = inc32 w.total_write }

unfoldable pub stat_record_update_side : ℕ → Stats → Stats
stat_record_update_side bank s = record s {
  stat = record (s.stat) {
    n_update_side = bump s.stat.n_update_side bank;
    total_write = inc32 s.stat.total_write;
  };
  write_rate = update_rate s.write_rate;
}

unfoldable pub stat_record_update_center : ℕ → Stats → Stats
stat_record_update_center bank s = record s {
  stat = record (s.stat) {
    n_update_center = bump s.stat.n_update_center bank;
    total_write = inc32 s.stat.total_write;
  };
  write_rate = update_rate s.write_rate;
}

unfoldable pub stat_record_merge_write : ℕ → Stats → Stats
stat_record_merge_write bank s = record s {
  stat = record (s.stat) {
    n_merge_write = bump s.stat.n_merge_write bank;
    total_merge = inc32 s.stat.total_merge;
    total_write = inc32 s.stat.total_write;
  };
  write_rate = record (s.write_rate) {
    total_merge = inc32 s.write_rate.total_merge;
    total_write = inc32 s.write_rate.total_write;
  };
}

unfoldable pub stat_record_chkpt : Stats → Stats
stat_record_chkpt = on_stat λ s. record s { n_chkpt = inc32 s.n_chkpt }

unfoldable pub stat_gc_vcount : ℕ → Stats → Stats
stat_gc_vcount vcount = on_stat λ s. record s { gc_vcount = add32 s.gc_vcount vcount }

unfoldable pub stat_gc_erase_sync : Stats → Stats
stat_gc_erase_sync = on_stat λ s. record s { gc_erase_sync = inc32 s.gc_erase_sync }

unfoldable pub stat_gc_erase_async : Stats → Stats
stat_gc_erase_async = on_stat λ s. record s { gc_erase_async = inc32 s.gc_erase_async }

unfoldable pub stat_record_dep : ℕ → Stats → Stats
stat_record_dep cnt = on_stat λ s. record s { n_dep = inc32 s.n_dep; cnt_dep = add32 s.cnt_dep cnt }

unfoldable pub stat_reclaim_log : Stats → Stats
stat_reclaim_log = on_stat λ s. record s { n_reclaim = inc32 s.n_reclaim }

unfoldable pub stat_host_write : ℕ → Stats → Stats
stat_host_write sects = on_stat λ s. record s {
  sects_write = add32 s.sects_write sects;
  size_write = bump s.size_write (bucket sects);
}

unfoldable pub stat_host_read : ℕ → Stats → Stats
stat_host_read sects = on_stat λ s. record s {
  sects_read = add32 s.sects_read sects;
  size_read = bump s.size_read (bucket sects);
}

unfoldable pub stat_dirty_rate : (ℕ → ℕ) → Stats → Stats
stat_dirty_rate bufs = on_stat λ s. record s {
  n_dirty_rate = inc32 s.n_dirty_rate;
  n_dirty_bufs =
      for_range num_banks 0 (λ bank a. update a bank (add32 (a bank) (bufs bank))) s.n_dirty_bufs;
}

unfoldable pub stat_update_distance : ℕ → Stats → Stats
stat_update_distance distance s = record s {
  dist = record (s.dist) {
    dist_count = inc32 s.dist.dist_count;
    dist_bucket = bump s.dist.dist_bucket (get_dist_bucket distance);
  };
}

unfoldable pub stat_chkpt_page : Stats → Stats
stat_chkpt_page = on_stat λ s. record s { chkpt_page = inc32 s.chkpt_page }

unfoldable pub stat_tag_page : Stats → Stats
stat_tag_page = on_stat λ s. record s { tag_page = inc32 s.tag_page }

unfoldable pub stat_dep_page : Stats → Stats
stat_dep_page = on_stat λ s. record s { dep_page = inc32 s.dep_page }

unfoldable pub stat_data_page : Stats → Stats
stat_data_page = on_stat λ s. record s { data_page = inc32 s.data_page }

unfoldable pub stat_chkpt_flush_page : ℕ → Stats → Stats
stat_chkpt_flush_page n = on_stat λ s. record s { chkpt_flush_page = add32 s.chkpt_flush_page n }

unfoldable pub stat_gc_flush_page : ℕ → Stats → Stats
stat_gc_flush_page n = on_stat λ s. record s { gc_flush_page = add32 s.gc_flush_page n }

unfoldable pub stat_manual_flush_page : ℕ → Stats → Stats
stat_manual_flush_page n = on_stat λ s. record s { manual_flush_page = add32 s.manual_flush_page n }

unfoldable pub stat_total_gc_blks : ℕ → Stats → Stats
stat_total_gc_blks n = on_stat λ s. record s { total_gc_blks = add32 s.total_gc_blks n }

unfoldable pub stat_constrained_gc_blks : ℕ → Stats → Stats
stat_constrained_gc_blks n =
    on_stat λ s. record s { constrained_gc_blks = add32 s.constrained_gc_blks n }

unfoldable pub stat_region_balance_factor : ℕ → ℕ → Stats → Stats
stat_region_balance_factor bank region = on_stat λ s. record s {
  program_region = update s.program_region bank (bump (s.program_region bank) region);
}

abbrev refresh_dist_median : ℕ
refresh_dist_median = 10000

-- The loop over the 20 buckets from `b` on: `1 << (b + 2)` at the first one where the running sum
-- passes `idx_median`, and the old record if there is none.
find_median : ℕ → ℕ → ℕ → (ℕ → ℕ) → ℕ → ℕ → ℕ
find_median zero b acc buckets idx_median old = old
find_median (suc n) b acc buckets idx_median old =
    let acc' = add32 acc (buckets b) in
    let rest = find_median n (b + 1) acc' buckets idx_median old in
    if ltb idx_median acc' then 2 ^ (b + 2) else rest

unfoldable pub stat_get_dist_median : Stats → ℕ × Stats
unfolding find_median
stat_get_dist_median s =
    let d = s.dist in
    let called = inc32 d.called_dist_median in
    let idx = d.dist_count / 20 * 19 in
    let median = find_median 20 0 0 d.dist_bucket idx d.dist_median_record in
    if ltb refresh_dist_median called
    then (
      median,
      record s { dist = record d { called_dist_median = 0; dist_median_record = median } },
    )
    else (d.dist_median_record, record s { dist = record d { called_dist_median = called } })
