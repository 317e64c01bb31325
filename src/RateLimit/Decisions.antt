-- ===== src/RateLimit/Decisions.antt =====
-- What the rate limit middleware does with the backend's decision.
use tanugate.Common.{
  ℕ, ◌+◌, ◌≤◌, ◌≡◌, refl, ◌∙◌, ap, String, true, false, some, List, Result, ok, err, ℤ, pos, arith,
}
use tanugate.Http.{Request, Handler, Reply}
use tanugate.Http.Headers
use tanugate.Http.Headers.{Header}
use tanugate.Http.Wire.{fresh, run, perform}
use tanugate.Config.{RateLimitConfig}
use tanugate.RateLimit.{
  Net, Printers, Allowance, Limiter, decide, composite_key, retry_after, extract_key,
  new_rate_limit_middleware,
}

retry_after_kept :
    (h : Header) (v : String)
    → Headers.get
        (Headers.set (Headers.set h "Retry-After" v) "Content-Type" "application/json")
        "Retry-After"
      ≡ v
unfolding Headers.canonical
retry_after_kept h v =
    Headers.get-set (Headers.set h "Retry-After" v) "Content-Type" "Retry-After" "application/json"
    ∙ Headers.get-set h "Retry-After" "Retry-After" v

module _ (net : Net) (printers : Printers) (print_int : ℤ → String) {W : Type 0} (now : W → ℕ)
    (limiter : Limiter W) (nets : List net.IpNet) (cfg : RateLimitConfig) (route name : String)
    (next : Handler W) (r : Request) (w w' : W) where
  -- The backend's answer for this request.
  abbrev pub Answers : Result String Allowance → Type 0
  Answers outcome =
      limiter (composite_key cfg route name (extract_key net printers nets cfg.key_source r))
        cfg.requests cfg.window cfg.algorithm w
      ≡ (outcome, w')

  abbrev limited : Reply W
  limited =
      new_rate_limit_middleware net printers print_int now limiter nets (some cfg) route name next r
        w

  -- If the backend fails, the request goes to the handler, and the response is the handler's.
  pub rate_limit_fails_open : (e : String) → Answers (err e) → limited ≡ next r w'
  unfolding new_rate_limit_middleware
  rate_limit_fails_open e h = ap (decide net printers print_int now cfg next r) h

  -- If the backend allows the request, the handler runs, and it writes on a response that has the
  -- limit, what remains and the time of the reset in its headers.
  pub rate_limit_allows :
      (a : Allowance) (h : Header)
      → Answers (ok a)
      → a.allowed ≡ true
      → (limited.world ≡ (next r w').world)
        × (run (fresh h) limited.calls
            ≡ run
                (fresh (
                  Headers.set
                    (Headers.set
                      (Headers.set h "X-RateLimit-Limit" (print_int cfg.requests))
                      "X-RateLimit-Remaining"
                      (print_int a.remaining))
                    "X-RateLimit-Reset"
                    (print_int (pos a.reset_at))))
                (next r w').calls)
  unfolding new_rate_limit_middleware run perform
  rate_limit_allows a h e t =
      let decided = ap (decide net printers print_int now cfg next r) e in
      rw (decided, t) (refl, refl)

  -- If the backend refuses the request, the handler does not run, and the answer is 429 with a number
  -- of seconds that is at least one and reaches the time of the reset.
  pub rate_limit_rejects :
      (a : Allowance) (h : Header)
      → Answers (ok a)
      → a.allowed ≡ false
      → (limited.world ≡ w')
        × ((run (fresh h) limited.calls).status ≡ some 429)
        × (Headers.get (run (fresh h) limited.calls).sent "Retry-After"
            ≡ print_int (pos (retry_after a (now w'))))
        × (1 ≤ retry_after a (now w'))
        × (a.reset_at ≤ now w' + retry_after a (now w'))
  unfolding new_rate_limit_middleware run perform
  rate_limit_rejects a h e t =
      let decided = ap (decide net printers print_int now cfg next r) e in
      rw (decided, t) (refl, refl, retry_after_kept _ _, ground arith, ground arith)
