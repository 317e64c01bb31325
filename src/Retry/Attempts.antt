-- ===== src/Retry/Attempts.antt =====
-- The loop of internal/middleware/retry/retry.go: which attempt answers, and how many there are.
use tanugate.Common.{
  ℕ, suc, ◌+◌, ◌≤◌, ◌≡◌, ◌∙◌, String, Bool, true, false, Option, none, some, length, rounds,
  add_one, ℤ, arith, ◌⊎◌, inl, inr, if◌then◌else◌,
}
use tanugate.Http.{Bytes, Request, Handler, Reply, reply, content, no_body}
use tanugate.Config.{RetryConfig}
use tanugate.Retry.Recording.{Recorder, copy_recorder}
use tanugate.Retry.{
  Surroundings, responded, call_once, is_final, status_error, exhausted, wait, attempts,
  retry_handler,
}

module _ (detect : Bytes → String) {W : Type 0} (s : Surroundings W) (proxy : Handler W)
    (print_int : ℤ → String) (cfg : RetryConfig) (with_breaker : Bool) (r : Request) where
  abbrev Final : Recorder → Bool → Bool → Type 0
  Final rec failed b = is_final detect s proxy print_int cfg with_breaker rec failed ≡ b

  -- One attempt that gets a response, with the worlds before and after.
  pub record Tried (attempt : ℕ) (w : W) (rec : Recorder) (failed : Bool) (v : W) : Type 0 where
    pub resumed : W
    pub waits : wait detect s proxy print_int cfg with_breaker attempt w ≡ (resumed, true)
    pub calls : call_once detect s proxy with_breaker r resumed ≡ responded rec failed v

  -- Attempts in a row whose responses are to be retried: how many, the number of the first, and the
  -- worlds before and after.
  pub data Failing : ℕ → ℕ → W → W → Type 0 where
    no_failure : {a : ℕ} {w : W} → Failing 0 a w w
    one_failure :
        {n a : ℕ} {w v u : W} {rec : Recorder} {failed : Bool}
        → Tried a w rec failed v
        → Final rec failed false
        → Failing n (suc a) v u
        → Failing (suc n) a w u

  abbrev loop : ℕ → ℕ → Option String → W → Reply W
  loop left attempt last w =
      attempts detect s proxy print_int cfg with_breaker left attempt last r w

  loop-Tried :
      (left attempt : ℕ) (last : Option String) (w v : W) (rec : Recorder) (failed : Bool)
      → Tried attempt w rec failed v
      → loop (suc left) attempt last w ≡ (
          if is_final detect s proxy print_int cfg with_breaker rec failed
          then reply (copy_recorder rec) v
          else loop left
              (suc attempt)
              (some (status_error detect s proxy print_int cfg with_breaker rec.code))
              v)
  unfolding attempts
  loop-Tried left attempt last w v rec failed t = ground arith

  loop-Tried_again :
      (left attempt : ℕ) (last : Option String) (w v : W) (rec : Recorder) (failed : Bool)
      → Tried attempt w rec failed v
      → Final rec failed false
      → loop (suc left) attempt last w
        ≡ loop left
            (suc attempt)
            (some (status_error detect s proxy print_int cfg with_breaker rec.code))
            v
  loop-Tried_again left attempt last w v rec failed t f =
      let step = loop-Tried left attempt last w v rec failed t in cc

  loop-Failing :
      (n left total a b : ℕ) (last : Option String) (w v : W)
      → total ≡ n + left
      → b ≡ n + a
      → Failing n a w v
      → (l : Option String) × (loop total a last w ≡ loop left b l v)
  loop-Failing ℕ.zero left total a b last w v p q no_failure =
      let p' : total ≡ left = omega arith in let q' : b ≡ a = omega arith in (last, cc)
  loop-Failing (suc n) left ℕ.zero a b last w u p q more = absurd (omega arith)
  loop-Failing (suc n) left (suc total) a b last w u p q (one_failure {v} {rec} {failed} t f more) =
      let again = loop-Tried_again total a last w v rec failed t f in
      let (l, e) =
        loop-Failing n left total (suc a) b
          (some (status_error detect s proxy print_int cfg with_breaker rec.code)) v u (omega arith)
          (omega arith) more in
      (l, again ∙ e)

  abbrev handled : W → Reply W
  handled w = retry_handler detect s proxy print_int cfg with_breaker r w

  -- The attempts that the configuration allows, the first one included: `MaxRetries + 1` in an `int`,
  -- which is none for a negative number and where that wraps.
  abbrev pub allowed : ℕ
  allowed = rounds (add_one cfg.max_retries)

  -- A body that can be kept for the attempts.
  abbrev pub Replayable : Type 0
  Replayable = (r.body ≡ no_body) ⊎ ((b : Bytes) × (r.body ≡ content b) × (length b ≤ 10485760))

  handled-Replayable : (w : W) → Replayable → handled w ≡ loop allowed 0 none w
  unfolding retry_handler
  handled-Replayable w (inl e) = ground arith
  handled-Replayable w (inr (b, e, h)) = ground arith

  -- For a body of at most 10 MB: if every attempt allowed gets a response that is to be retried,
  -- with the client still there, the answer is 502 with the number of attempts and the last reason.
  pub retry_handler-exhausts :
      (w v : W)
      → Replayable
      → Failing allowed 0 w v
      → (l : Option String) × (handled w
          ≡ reply (exhausted detect s proxy print_int cfg with_breaker l) v)
  unfolding attempts
  retry_handler-exhausts w v body fs =
      let (l, e) =
        loop-Failing allowed 0 allowed 0 allowed none w v (omega arith) (omega arith) fs in
      (l, handled-Replayable w body ∙ e)
