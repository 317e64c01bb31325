-- ===== src/Retry/Bound.antt =====
-- How often the retry handler of internal/middleware/retry/retry.go calls the proxy.
use tanugate.Common.{
  ℕ, suc, leb, ◌+◌, ◌≤◌, ◌≡◌, refl, ap, String, Bool, true, false, Option, none, some, rounds,
  add_one, ℤ, arith, Bool-cases, ◌⊎◌, inl, inr,
}
use tanugate.Http.{Bytes, Request, Handler, Reply}
use tanugate.Config.{RetryConfig}
use tanugate.CircuitBreaker.{CircuitBreaker, begin, rejected, admitted, Admission}
use tanugate.Retry.{
  Surroundings, Attempt, refused, crashed, responded, settle, Step, answered, again, judge,
  try_attempt, on_admission, call_proxy, call_through, call_once, wait, attempts, retry_handler,
}

abbrev after : {W : Type 0} → Attempt W → W
after (refused w) = w
after (crashed w) = w
after (responded rec failed w) = w

-- The world that a round of the loop leaves.
abbrev left_by : {W : Type 0} → Step W → W
left_by (answered out) = out.world
left_by (again e w) = w

module _ {W : Type 0} (s : Surroundings W) (proxy : Handler W) where
  -- A count of the proxy's calls: a call adds at most one to it, and the pauses and the breaker's
  -- updates add nothing.
  pub record IsCount (count : W → ℕ) : Type 0 where
    pub proxy_one : (r : Request) (w : W) → count (proxy r w).world ≤ suc (count w)
    pub pause_same : (n : ℕ) (w : W) → count (s.pause n w) ≡ count w
    pub breaker_same : (cb : CircuitBreaker) (w : W) → count (s.set_breaker cb w) ≡ count w

module _ (detect : Bytes → String) {W : Type 0} (s : Surroundings W) (proxy : Handler W)
    (count : W → ℕ) (c : IsCount s proxy count) where
  count-call_proxy :
      (failed : ℕ → Bool) (r : Request) (w : W)
      → count (after (call_proxy detect s proxy failed r w)) ≤ suc (count w)
  unfolding call_proxy
  count-call_proxy failed r w = elim (Bool-cases (proxy r w).panicked) [
    | inl e ↦ rw e (c.proxy_one r w)
    | inr e ↦ rw e (c.proxy_one r w)
  ]

  count-settle :
      (p : Bool) (a : Attempt W) → count (after (settle detect s proxy p a)) ≡ count (after a)
  count-settle p (refused w) = refl
  count-settle p (crashed w) = refl
  count-settle p (responded rec failed w) = c.breaker_same _ w

  count-on_admission :
      (r : Request) (w : W) (a : Admission)
      → count (after (on_admission detect s proxy r w a)) ≤ suc (count w)
  count-on_admission r w rejected = omega arith
  count-on_admission r w (admitted p fired) =
      let settled = count-settle p (call_proxy detect s proxy (λ code. leb 500 code) r w) in
      let called = count-call_proxy (λ code. leb 500 code) r w in omega arith

  count-call_through :
      (r : Request) (w : W) → count (after (call_through detect s proxy r w)) ≤ suc (count w)
  unfolding call_through
  count-call_through r w =
      let (cb, admission) = begin (s.breaker_of w) (s.now w) in
      let same = c.breaker_same cb w in
      let admits = count-on_admission r (s.set_breaker cb w) admission in omega arith

  count-call_once :
      (b : Bool) (r : Request) (w : W)
      → count (after (call_once detect s proxy b r w)) ≤ suc (count w)
  unfolding call_once
  count-call_once true r w = count-call_through r w
  count-call_once false r w = count-call_proxy (λ code. false) r w

  module _ (print_int : ℤ → String) (cfg : RetryConfig) (with_breaker : Bool) (r : Request) where
    count-wait :
        (a : ℕ) (w : W) → count (wait detect s proxy print_int cfg with_breaker a w).0 ≡ count w
    unfolding wait
    count-wait ℕ.zero w = refl
    count-wait (suc n) w = let e = c.pause_same (suc n) w in ground arith

    abbrev judged : Attempt W → Step W
    judged o = judge detect s proxy print_int cfg with_breaker o

    count-judge : (o : Attempt W) → count (left_by (judged o)) ≡ count (after o)
    unfolding judge
    count-judge (refused w) = refl
    count-judge (crashed w) = refl
    count-judge (responded rec failed w) = ground arith

    abbrev round : ℕ → W → Step W
    round a w = try_attempt detect s proxy print_int cfg with_breaker a r w

    count-try_attempt : (a : ℕ) (w : W) → count (left_by (round a w)) ≤ suc (count w)
    unfolding try_attempt
    count-try_attempt a w =
        let waited = count-wait a w in
        let w' = (wait detect s proxy print_int cfg with_breaker a w).0 in
        let called = count-call_once with_breaker r w' in
        let judging = count-judge (call_once detect s proxy with_breaker r w') in
        elim (Bool-cases (wait detect s proxy print_int cfg with_breaker a w).1) [
          | inl e ↦ rw e (omega arith)
          | inr e ↦ rw e (omega arith)
        ]

    Step-cases :
        (o : Step W)
        → ((out : Reply W) × (o ≡ answered out)) ⊎ ((e : String) × (v : W) × (o ≡ again e v))
    Step-cases (answered out) = inl (out, refl)
    Step-cases (again e v) = inr (e, v, refl)

    abbrev loop : ℕ → ℕ → Option String → W → Reply W
    loop left a last w = attempts detect s proxy print_int cfg with_breaker left a last r w

    loop_answered :
        (left a : ℕ) (last : Option String) (w : W) (out : Reply W)
        → round a w ≡ answered out
        → loop (suc left) a last w ≡ out
    unfolding attempts
    loop_answered left a last w out e = ground arith

    loop_again :
        (left a : ℕ) (last : Option String) (w v : W) (error : String)
        → round a w ≡ again error v
        → loop (suc left) a last w ≡ loop left (suc a) (some error) v
    unfolding attempts
    loop_again left a last w v error e = ground arith

    count-attempts :
        (left a : ℕ) (last : Option String) (w : W)
        → count (loop left a last w).world ≤ count w + left
    unfolding attempts
    count-attempts ℕ.zero a last w = omega arith
    count-attempts (suc left) a last w =
        let tried = count-try_attempt a w in
        elim (Step-cases (round a w)) [
          | inl (out, e) ↦
              let same = ap (λ o. count (left_by o)) e in
              let ends = ap (λ o. count o.world) (loop_answered left a last w out e) in omega arith
          | inr (error, v, e) ↦
              let same = ap (λ o. count (left_by o)) e in
              let rest = count-attempts left (suc a) (some error) v in
              let goes = ap (λ o. count o.world) (loop_again left a last w v error e) in omega arith
        ]

    -- By any count to which a call of the proxy adds at most one, and a pause or an update of the
    -- breaker nothing, the proxy is called at most once more than the configured number of retries.
    pub retry_handler_bounded :
        (w : W)
        → count (retry_handler detect s proxy print_int cfg with_breaker r w).world
          ≤ count w + rounds (add_one cfg.max_retries)
    unfolding retry_handler
    retry_handler_bounded w =
        let bounded = count-attempts (rounds (add_one cfg.max_retries)) 0 none w in ground arith
