-- ===== src/RateLimit/Redis.antt =====
-- The backend in Redis: internal/middleware/ratelimit/redis.go, with its two scripts.
-- A script is one step on the data of its key. The expiry of keys is left out: a key expires a window
-- after its last change, when the next call finds nothing to keep. Times are in milliseconds.
use tanugate.Common.{
  ℕ, suc, ◌+◌, ◌-◌, ◌/◌, ◌<>◌, String, Bool, true, false, not, Option, none, some, List, [], ◌∷◌,
  length, insert, Result, ok, err, ltb, leb, ◌===◌, if◌then◌else◌, ℤ, pos, negsuc,
}
use tanugate.RateLimit.{Limiter, Allowance}
use tanugate.RateLimit.Floats.{Floats}

-- A sorted set: members with their scores.
abbrev pub SortedSet : Type 0
SortedSet = List (String × ℕ)

-- Whether a score is within the window that ends at a time.
abbrev pub is_recent : ℕ → ℕ → ℕ → Bool
is_recent window now score = not (leb (score + window) now)

-- `ZREMRANGEBYSCORE key 0 (now - window)`.
unfoldable pub trim : ℕ → ℕ → SortedSet → SortedSet
trim window now [] = []
trim window now ((member, score) ∷ set) =
    let rest = trim window now set in
    if is_recent window now score then (member, score) ∷ rest else rest

-- The lowest score: `ZRANGE key 0 0 WITHSCORES`.
unfoldable pub oldest : SortedSet → Option ℕ
oldest [] = none
oldest ((_, score) ∷ set) = elim (oldest set) [
  | none ↦ some score
  | some other ↦ some (if ltb other score then other else score)
]

abbrev or_now : ℕ → Option ℕ → ℕ
or_now now none = now
or_now now (some score) = score

-- What a script returns: 1 or 0 for allowed, what remains, and the reset.
pub record Verdict : Type 0 where
  pub allowed : Bool
  pub remaining : ℤ
  pub reset : ℤ

-- `slidingWindowScript`.
unfoldable pub sliding_window : ℕ → ℕ → ℕ → String → SortedSet → Verdict × SortedSet
unfolding trim oldest insert
sliding_window window limit now member set =
    let kept = trim window now set in
    let count = length kept in
    if ltb count limit
    then (
      record { allowed = true; remaining = pos (limit - count - 1); reset = pos (now + window) },
      insert member now kept,
    )
    else (
      record {
        allowed = false;
        remaining = pos 0;
        reset = pos (or_now now (oldest kept) + window);
      },
      kept,
    )

module _ (floats : Floats) where
  open floats use {Float, of_int, add, sub, mul, div, less, floor, ceil}

  -- The hash of a leaky bucket.
  pub record Leaky : Type 0 where
    pub level : Float
    pub last_update : ℕ

  -- `HMGET`: an empty bucket, where there is none.
  abbrev pub stored : ℕ → Option Leaky → Leaky
  stored now none = record { level = of_int (pos 0); last_update = now }
  stored now (some b) = b

  -- What is left in the bucket at this time.
  abbrev pub leaked : Float → ℕ → Leaky → Float
  leaked leak_rate now b =
      if ltb b.last_update now
      then (let rest = sub b.level (mul (of_int (pos (now - b.last_update))) leak_rate) in
          if less rest (of_int (pos 0)) then of_int (pos 0) else rest)
      else b.level

  -- `now_ms + math.ceil(amount / leak_rate)`.
  abbrev pub reset_after : ℕ → Float → Float → Float
  reset_after now leak_rate amount = add (of_int (pos now)) (of_int (ceil (div amount leak_rate)))

  -- `leakyBucketScript`.
  unfoldable pub leaky_bucket : ℕ → ℕ → ℕ → Option Leaky → Verdict × Leaky
  leaky_bucket capacity window now data_ =
      let one = of_int (pos 1) in
      let size = of_int (pos capacity) in
      let leak_rate = div size (of_int (pos window)) in
      let level = leaked leak_rate now (stored now data_) in
      let filled = add level one in
      if less size filled
      then (
        record {
          allowed = false;
          remaining = pos 0;
          reset = floor (reset_after now leak_rate (sub filled size));
        },
        record { level = level; last_update = now },
      )
      else (
        record {
          allowed = true;
          remaining = floor (sub size filled);
          reset = floor (reset_after now leak_rate filled);
        },
        record { level = filled; last_update = now },
      )

-- The server as the limiter calls it: a script run may fail, also for the time limit of a query.
pub record Server (W : Type 0) : Type 0 where
  pub run_sliding_window : ℤ → String → ℤ → ℤ → ℕ → String → W → Result String Verdict × W
  pub run_leaky_bucket : ℤ → String → ℤ → ℤ → ℕ → W → Result String Verdict × W
  pub now : W → ℕ
  pub next_member : W → ℕ × W
  pub ping : W → Result String Unit × W

-- `window.Milliseconds()`, of nanoseconds, towards 0.
abbrev pub milliseconds : ℤ → ℤ
milliseconds (pos n) = pos (n / 1000000)
milliseconds (negsuc n) = elim (suc n / 1000000) [ ℕ.zero ↦ pos 0 | suc m ↦ negsuc m ]

-- The seconds of `time.UnixMilli`; a time before 1970 counts as 1970.
abbrev pub unix_of : ℤ → ℕ
unix_of (pos ms) = ms / 1000
unix_of (negsuc n) = 0

abbrev pub allowance : Result String Verdict → Result String Allowance
allowance (err e) = err e
allowance (ok v) =
    ok (record { allowed = v.allowed; remaining = v.remaining; reset_at = unix_of v.reset })

module _ {W : Type 0} (server : Server W) (instance_id : String) (format_int : ℕ → String)
    (query_timeout : ℤ) where
  open server use {run_sliding_window, run_leaky_bucket, now, next_member}

  abbrev pub member_of : ℕ → ℕ → String
  member_of now_ms counter = instance_id <> ":" <> format_int now_ms <> ":" <> format_int counter

  -- `allowSlidingWindow`.
  abbrev pub allow_sliding_window : String → ℤ → ℤ → ℕ → W → Result String Allowance × W
  allow_sliding_window key limit window_ms now_ms w =
      let (counter, w') = next_member w in
      let (result, w'') =
        run_sliding_window query_timeout key window_ms limit now_ms (member_of now_ms counter) w' in
      (allowance result, w'')

  -- `allowLeakyBucket`.
  abbrev pub allow_leaky_bucket : String → ℤ → ℤ → ℕ → W → Result String Allowance × W
  allow_leaky_bucket key capacity window_ms now_ms w =
      let (result, w') = run_leaky_bucket query_timeout key capacity window_ms now_ms w in
      (allowance result, w')

  -- `RedisLimiter.Allow`.
  unfoldable pub redis_limiter : Limiter W
  redis_limiter key limit window algorithm w =
      let now_ms = now w / 1000000 in
      if algorithm === "leaky_bucket"
      then allow_leaky_bucket key limit (milliseconds window) now_ms w
      else allow_sliding_window key limit (milliseconds window) now_ms w
