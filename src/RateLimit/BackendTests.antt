-- ===== src/RateLimit/BackendTests.antt =====
-- The backends of the rate limit on a few calls, with natural numbers for floating-point ones.
use tanugate.Common.{
  ℕ, ◌+◌, ◌-◌, ◌*◌, ◌/◌, ◌≡◌, ◌≤◌, refl, String, true, none, List, [], ◌∷◌, lookup, insert, length,
  ℤ, pos, negsuc, arith, ltb, leb, if◌then◌else◌,
}
use tanugate.RateLimit.Floats.{Floats, IsExact}
use tanugate.RateLimit.Memory.{Bucket, allow, evict_stale, use_bucket, new_bucket}
use tanugate.RateLimit.Burst.{burst, burst_exact, evict_stale-allow}
use tanugate.RateLimit.Redis.{sliding_window, leaky_bucket, trim, oldest}
use tanugate.RateLimit.Window.{Arrival, admit_all, nothing, sliding_window_bounded}

abbrev natural : ℤ → ℕ
natural (pos n) = n
natural (negsuc n) = 0

abbrev floats : Floats
floats = record {
  Float = ℕ;
  of_int = natural;
  add = ◌+◌;
  sub = ◌-◌;
  mul = ◌*◌;
  div = ◌/◌;
  less = ltb;
  at_least = λ m n. leb n m;
  truncate = λ n. pos n;
  floor = λ n. pos n;
  ceil = λ n. pos n;
  seconds = natural;
}

exact : IsExact floats 1000
exact = record { sub_one = λ n h. omega arith; at_least_one = λ n h. ground arith; no_time = refl }

burst_exact_example :
    burst floats 1000 exact "k" 3 (omega arith) (pos 60) 7 5 [] ≡ (if ltb 5 3 then 5 else 3)
unfolding lookup
burst_exact_example = burst_exact floats 1000 exact "k" 3 (omega arith) (pos 60) 7 5 [] refl

abbrev empty_bucket : Bucket floats
empty_bucket = record {
  tokens = 0;
  max_tokens = 10;
  refill_rate = 0;
  last_refill = 0;
  last_access = 0;
}

-- Ten requests in an hour: an empty bucket is full again after five minutes.
evict_stale-allow_example :
    (allow floats "k"
      (pos 10)
      (pos 3600000000000)
      300000000001
      (evict_stale floats 300000000001 (("k", empty_bucket) ∷ []))).0
    ≡ (use_bucket floats
        (pos 10)
        (pos 3600000000000)
        300000000001
        (new_bucket floats (pos 10) (pos 3600000000000) 300000000001)).0
unfolding lookup
evict_stale-allow_example =
    evict_stale-allow floats 300000000001 300000000001 "k" (pos 10) (pos 3600000000000)
      (("k", empty_bucket) ∷ []) empty_bucket (refl, tt) refl refl

abbrev call : ℕ → String → Arrival
call t m = record { time = t; member = m }

abbrev calls : List Arrival
calls = call 1 "a" ∷ (call 2 "b" ∷ (call 3 "c" ∷ (call 12 "d" ∷ [])))

sliding_window_bounded_example : length (trim 10 12 (admit_all 10 2 calls nothing).admitted) ≤ 2
unfolding lookup
sliding_window_bounded_example =
    sliding_window_bounded 10 2 (omega arith) calls 12
      (omega arith, refl, (omega arith, refl, (omega arith, refl, (omega arith, refl, tt))))
      (omega arith)

-- The third call is refused, the fourth comes when the first two are out of the window.
scripts :
    ((admit_all 10 2 calls nothing).admitted ≡ ("a", 1) ∷ (("b", 2) ∷ (("d", 12) ∷ [])))
    × ((leaky_bucket floats 2 2 5 none).0.allowed ≡ true)
unfolding admit_all sliding_window trim oldest insert lookup leaky_bucket
scripts = (refl, refl)
