-- ===== src/Stat/Buckets.antt =====
-- The histograms of ftl_optr/stat.c: the range of each bucket. The tables in the comments there give
-- bucket 10 an empty range, where the code has [2048, 4096).
use native.Mathlib.Nat.{pow-suc}
use native.Mathlib.Decide.{dec_lt}
use optr_jasmine.Prelude.{
  ℕ, zero, suc, ◌+◌, ◌*◌, ◌/◌, ◌^◌, ◌≤◌, ◌<◌, ◌≡◌, arith, ◌==◌, Bool-cases, ◌⊎◌, inl, inr, Bool,
  true, false, refl, if◌then◌else◌,
}
use optr_jasmine.Stat.{bucket_loop, bucket, get_dist_bucket_loop, get_dist_bucket}

-- The smallest value of a bucket: 0, 4, 8, 16, ...
abbrev pub bucket_start : ℕ → ℕ
bucket_start zero = 0
bucket_start (suc i) = 4 * 2 ^ i

-- Where a halving loop that starts at `s` may stop after `k` rounds.
abbrev LowEnd : ℕ → ℕ → Type 0
LowEnd zero s = Unit {0}
LowEnd (suc k) s = 2 ^ k ≤ s

LowEnd-step : (k s : ℕ) → 0 < s → LowEnd k (s / 2) → LowEnd (suc k) s
LowEnd-step zero s p h = omega arith
LowEnd-step (suc k) s p h = omega (arith, pow-suc 2 k)

-- The index `r` that a loop over the buckets up to `last` returns from `idx` on with value `s`.
record Stops (last idx s r : ℕ) : Type 0 where
  rounds : ℕ
  index : r ≡ idx + rounds
  inside : r ≤ last
  low : LowEnd rounds s
  high : r < last → s < 2 ^ rounds

Stops-step : (last idx s r : ℕ) → 0 < s → Stops last (idx + 1) (s / 2) r → Stops last idx s r
Stops-step last idx s r p t = record {
  rounds = suc t.rounds;
  index = omega arith;
  inside = t.inside;
  low = LowEnd-step t.rounds s p t.low;
  high = λ h. omega (arith, t.high h, pow-suc 2 t.rounds);
}

Stops-zero : (last idx s : ℕ) → s ≡ 0 → idx ≤ last → Stops last idx s idx
Stops-zero last idx s e h = record {
  rounds = 0;
  index = omega arith;
  inside = h;
  low = tt;
  high = λ _. omega arith;
}

Stops-last : (last s : ℕ) → Stops last last s last
Stops-last last s = record {
  rounds = 0;
  index = omega arith;
  inside = omega arith;
  low = tt;
  high = λ h. absurd (omega arith);
}

-- One round of a loop, and the end of it, whichever histogram it serves.
Stops-round :
    (last idx s rest : ℕ)
    → idx ≤ last
    → (0 < s → Stops last (idx + 1) (s / 2) rest)
    → Stops last idx s (if s == 0 then idx else rest)
Stops-round last idx s rest h next = elim (Bool-cases (s == 0)) [
  | inl z ↦ rw z (Stops-zero last idx s (ground arith) h)
  | inr p ↦ let q : 0 < s = ground arith in rw p (Stops-step last idx s rest q (next q))
]

-- In its last round `bucket` returns 14 either way.
if_same : (b : Bool) (n : ℕ) → (if b then n else n) ≡ n
if_same true n = refl
if_same false n = refl

bucket_loop-Stops : (n idx s : ℕ) → idx + n ≡ 14 → Stops 14 idx s (bucket_loop (suc n) idx s)
unfolding bucket_loop
bucket_loop-Stops zero idx s e =
    let e' : idx ≡ 14 = omega arith in rw (e', if_same) (Stops-last 14 s)
bucket_loop-Stops (suc n) idx s e =
    Stops-round 14 idx s (bucket_loop (suc n) (idx + 1) (s / 2)) (omega arith)
      (λ _. bucket_loop-Stops n (idx + 1) (s / 2) (omega arith))

get_dist_bucket_loop-Stops :
    (n idx s : ℕ) → idx + n ≡ 19 → Stops 19 idx s (get_dist_bucket_loop n idx s)
unfolding get_dist_bucket_loop
get_dist_bucket_loop-Stops zero idx s e = let e' : idx ≡ 19 = omega arith in rw e' (Stops-last 19 s)
get_dist_bucket_loop-Stops (suc n) idx s e =
    Stops-round 19 idx s (get_dist_bucket_loop n (idx + 1) (s / 2)) (omega arith)
      (λ _. get_dist_bucket_loop-Stops n (idx + 1) (s / 2) (omega arith))

-- `v` lies in bucket `r` of a table with buckets 0 to `last`.
pub record InBucket (last v r : ℕ) : Type 0 where
  pub known : r ≤ last
  pub from : bucket_start r ≤ v
  pub below : (r ≡ last) ⊎ (v < bucket_start (suc r))

LowEnd-start : (k v : ℕ) → LowEnd k (v / 4) → bucket_start k ≤ v
LowEnd-start zero v h = omega arith
LowEnd-start (suc k) v h = omega arith

Stops-below : (last v r : ℕ) → Stops last 0 (v / 4) r → (r ≡ last) ⊎ (v < bucket_start (suc r))
Stops-below last v r t = elim (dec_lt r last) [
  | yes h ↦
      let e : t.rounds ≡ r = omega (arith, t.index) in
      let q : v / 4 < 2 ^ r = rw e at (t.high h) in inr (omega arith)
  | no h ↦ inl (omega (arith, t.inside))
]

Stops-InBucket : (last v r : ℕ) → Stops last 0 (v / 4) r → InBucket last v r
Stops-InBucket last v r t =
    let e : t.rounds ≡ r = omega (arith, t.index) in
    record {
      known = t.inside;
      from = LowEnd-start r v (rw e at t.low);
      below = Stops-below last v r t;
    }

-- `bucket` puts a request of `sects` sectors into the bucket whose range holds it: bucket 0 is
-- [0, 4), bucket `i` from 1 to 13 is [4 * 2 ^ (i - 1), 4 * 2 ^ i), and bucket 14 is [32768, inf).
pub bucket-InBucket : (sects : ℕ) → InBucket 14 sects (bucket sects)
unfolding bucket
bucket-InBucket sects = Stops-InBucket 14 sects _ (bucket_loop-Stops 14 0 (sects / 4) (omega arith))

-- `get_dist_bucket` puts an update distance into the bucket whose range holds it: bucket 0 is [0, 4),
-- bucket `i` from 1 to 18 is [4 * 2 ^ (i - 1), 4 * 2 ^ i), and bucket 19 is [1048576, inf).
pub get_dist_bucket-InBucket : (dist : ℕ) → InBucket 19 dist (get_dist_bucket dist)
unfolding get_dist_bucket
get_dist_bucket-InBucket dist =
    Stops-InBucket 19 dist _ (get_dist_bucket_loop-Stops 19 0 (dist / 4) (omega arith))
