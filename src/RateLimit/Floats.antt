-- ===== src/RateLimit/Floats.antt =====
-- What the backends of the rate limit use of `float64` and of the numbers of Lua.
use tanugate.Common.{ℕ, suc, ◌<◌, ◌≡◌, Bool, false, ℤ, pos, ltb}

pub record Floats : Type 1 where
  pub Float : Type 0
  pub of_int : ℤ → Float
  pub add : Float → Float → Float
  pub sub : Float → Float → Float
  pub mul : Float → Float → Float
  pub div : Float → Float → Float
  pub less : Float → Float → Bool
  pub at_least : Float → Float → Bool
  pub truncate : Float → ℤ
  pub floor : Float → ℤ
  pub ceil : Float → ℤ
  pub seconds : ℤ → Float

-- Natural numbers below a bound are exact (2^53 for `float64`), and no time is 0 seconds.
module _ (floats : Floats) (bound : ℕ) where
  open floats use {Float, of_int, sub, less, at_least, truncate, seconds}

  pub record IsExact : Type 0 where
    pub sub_one :
        (n : ℕ) → suc n < bound → sub (of_int (pos (suc n))) (of_int (pos 1)) ≡ of_int (pos n)
    pub at_least_one : (n : ℕ) → n < bound → at_least (of_int (pos n)) (of_int (pos 1)) ≡ ltb 0 n
    pub no_time : less (of_int (pos 0)) (seconds (pos 0)) ≡ false
