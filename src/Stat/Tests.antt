-- ===== src/Stat/Tests.antt =====
-- The histograms of stat.c at concrete values.
use optr_jasmine.Prelude.{◌≡◌, refl}
use optr_jasmine.Stat.{bucket, get_dist_bucket}
use optr_jasmine.Stat.Buckets.{InBucket, bucket-InBucket, get_dist_bucket-InBucket}

bucket-InBucket_example : InBucket 14 100 (bucket 100)
bucket-InBucket_example = bucket-InBucket 100

get_dist_bucket-InBucket_example : InBucket 19 3000 (get_dist_bucket 3000)
get_dist_bucket-InBucket_example = get_dist_bucket-InBucket 3000

bucket_100 : bucket 100 ≡ 5
unfolding bucket
bucket_100 = refl
