-- ===== src/RateLimit/Memory.antt =====
-- The backend in memory: internal/middleware/ratelimit/memory.go.
-- A call of Allow is one step on the map of buckets; times are in nanoseconds.
use tanugate.Common.{
  ℕ, suc, ◌+◌, ◌-◌, ◌/◌, String, Bool, true, false, Option, none, some, List, [], ◌∷◌, lookup,
  insert, ok, ltb, if◌then◌else◌, ℤ, pos, negsuc,
}
use tanugate.RateLimit.{Limiter, Allowance}
use tanugate.RateLimit.Floats.{Floats}

-- `cleanupInterval` is the period of the calls of `evict_stale`.
abbrev pub eviction_ttl : ℕ
eviction_ttl = 300000000000

-- `now.Sub(earlier)`.
abbrev pub elapsed_since : ℕ → ℕ → ℤ
elapsed_since now earlier =
    if ltb now earlier then negsuc (earlier - now - 1) else pos (now - earlier)

-- `resetAt.Unix()`.
abbrev pub reset_of : ℕ → ℤ → ℕ
reset_of now (pos window) = (now + window) / 1000000000
reset_of now (negsuc n) = (now - suc n) / 1000000000

module _ (floats : Floats) where
  open floats use {Float, of_int, add, sub, mul, div, less, at_least, truncate, seconds}

  pub record Bucket : Type 0 where
    pub tokens : Float
    pub max_tokens : Float
    pub refill_rate : Float
    pub last_refill : ℕ
    pub last_access : ℕ

  abbrev pub Buckets : Type 0
  Buckets = List (String × Bucket)

  abbrev pub rate : ℤ → ℤ → Float
  rate limit window = div (of_int limit) (seconds window)

  abbrev pub new_bucket : ℤ → ℤ → ℕ → Bucket
  new_bucket limit window now = record {
    tokens = of_int limit;
    max_tokens = of_int limit;
    refill_rate = rate limit window;
    last_refill = now;
    last_access = now;
  }

  -- `LoadOrStore`.
  abbrev pub load_or_store : Bucket → Option Bucket → Bucket
  load_or_store fresh none = fresh
  load_or_store fresh (some b) = b

  -- The tokens that the time since the last refill adds, up to the maximum.
  abbrev pub refill : ℕ → Bucket → Bucket
  refill now b =
      let elapsed = seconds (elapsed_since now b.last_refill) in
      let filled = add b.tokens (mul elapsed b.refill_rate) in
      if less (of_int (pos 0)) elapsed
      then record b {
        tokens = if less b.max_tokens filled then b.max_tokens else filled;
        last_refill = now;
      }
      else b

  -- The bucket, updated in case the limit has changed.
  abbrev pub configured : ℤ → ℤ → Bucket → Bucket
  configured limit window b = record b {
    max_tokens = of_int limit;
    refill_rate = rate limit window;
  }

  -- A token is taken, if there is one.
  abbrev pub take_token : ℤ → ℕ → Bucket → Allowance × Bucket
  take_token window now b =
      if at_least b.tokens (of_int (pos 1))
      then (let rest = sub b.tokens (of_int (pos 1)) in
          (
            record { allowed = true; remaining = truncate rest; reset_at = reset_of now window },
            record b { tokens = rest },
          ))
      else (record { allowed = false; remaining = pos 0; reset_at = reset_of now window }, b)

  abbrev pub use_bucket : ℤ → ℤ → ℕ → Bucket → Allowance × Bucket
  use_bucket limit window now b =
      let refilled = refill now (configured limit window b) in
      take_token window now (record refilled { last_access = now })

  -- `MemoryLimiter.Allow`.
  unfoldable pub allow : String → ℤ → ℤ → ℕ → Buckets → Allowance × Buckets
  unfolding lookup insert
  allow key limit window now buckets =
      let b = load_or_store (new_bucket limit window now) (lookup key buckets) in
      let (answer, b') = use_bucket limit window now b in (answer, insert key b' buckets)

  -- `evictStale`.
  abbrev pub is_idle : ℕ → Bucket → Bool
  is_idle now b = ltb (b.last_access + eviction_ttl) now

  unfoldable pub evict_stale : ℕ → Buckets → Buckets
  evict_stale now [] = []
  evict_stale now ((key, b) ∷ buckets) =
      let rest = evict_stale now buckets in if is_idle now b then rest else (key, b) ∷ rest

  -- The backend, where the world holds the buckets and the clock.
  pub record Store (W : Type 0) : Type 0 where
    pub buckets_of : W → Buckets
    pub set_buckets : Buckets → W → W
    pub now : W → ℕ

  unfoldable pub memory_limiter : {W : Type 0} → Store W → Limiter W
  unfolding allow
  memory_limiter store key limit window algorithm w =
      let (answer, buckets) = allow key limit window (store.now w) (store.buckets_of w) in
      (ok answer, store.set_buckets buckets w)
