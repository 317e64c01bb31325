-- ===== src/Gateway/Health.antt =====
-- The health endpoint: internal/observability/health.go.
-- The clock, the printing of JSON and the check of the backend are parameters.
use tanugate.Common.{
  ◌≡◌, ◌↔◌, refl, subst, sym, ◌∙◌, inl, inr, String, true, Option, none, some, List, [], ◌∷◌,
  Result, ok, err, ◌===◌, if◌then◌else◌, arith, eq_iff, Bool-cases,
}
use tanugate.Http.{Bytes, Request, reply, Handler, set_header, write_header, write}
use tanugate.Http.Headers.{Header}
use tanugate.Http.Wire.{deliver, run, perform, send_header, send_body}
use tanugate.Config.{GatewayConfig}

-- `HealthChecker`; the check has a time limit of two seconds.
abbrev pub HealthChecker : Type 0 → Type 0
HealthChecker W = W → Result String Unit × W

pub record HealthResponse : Type 0 where
  pub status : String
  pub timestamp : String
  pub checks : List (String × String)

module _ {W : Type 0} (timestamp : W → String) (encode : HealthResponse → Bytes)
    (checker : Option (HealthChecker W)) where
  -- What the check of the backend adds to the response.
  abbrev with_outcome : HealthResponse → Result String Unit → HealthResponse
  with_outcome up (err e) = record up { status = "degraded"; checks = ("redis", "down") ∷ [] }
  with_outcome up (ok _) = record up { checks = ("redis", "up") ∷ [] }

  abbrev check_redis : Option (HealthChecker W) → HealthResponse → W → HealthResponse × W
  check_redis none up w = (record up { checks = ("redis", "not_configured") ∷ [] }, w)
  check_redis (some check) up w = let (outcome, w') = check w in (with_outcome up outcome, w')

  -- The response, and the world after the check.
  unfoldable pub check_health : GatewayConfig → W → HealthResponse × W
  check_health cfg w =
      let up : HealthResponse = record { status = "up"; timestamp = timestamp w; checks = [] } in
      if cfg.rate_limit.backend === "redis" then check_redis checker up w else (up, w)

  -- `HealthHandler`.
  unfoldable pub health_handler : GatewayConfig → Handler W
  unfolding check_health
  health_handler cfg r w =
      let (resp, w') = check_health cfg w in
      reply
        (set_header "Content-Type" "application/json"
          ∷ (write_header (if resp.status === "degraded" then 503 else 200)
              ∷ (write (encode resp) ∷ [])))
        w'

  abbrev Fails : Option (HealthChecker W) → W → Type 0
  Fails none w = ⊥
  Fails (some check) w = (failure : String) × ((check w).0 ≡ err failure)

  -- The backend is Redis, there is a client for it, and its check fails.
  pub record IsDown (cfg : GatewayConfig) (w : W) : Type 0 where
    pub backend : cfg.rate_limit.backend ≡ "redis"
    pub failed : Fails checker w

  up_not_degraded : (s : String) → s ≡ "up" → ¬ ((s === "degraded") ≡ true)
  up_not_degraded s u h = elim (Bool-cases ("up" === "degraded")) [
    | inl e ↦ cc
    | inr e ↦ ground (arith, e, subst (λ x. (x === "degraded") ≡ true) u h)
  ]

  with_outcome-failed :
      (up : HealthResponse) (outcome : Result String Unit)
      → up.status ≡ "up"
      → (((with_outcome up outcome).status === "degraded") ≡ true)
        ↔ ((failure : String) × (outcome ≡ err failure))
  with_outcome-failed up (err e) u = (λ _. (e, refl), λ _. refl)
  with_outcome-failed up (ok x) u = (λ h. absurd (up_not_degraded up.status u h), λ (_, h). cc)

  check_redis-failed :
      (o : Option (HealthChecker W)) (up : HealthResponse) (w : W)
      → up.status ≡ "up"
      → (((check_redis o up w).0.status === "degraded") ≡ true) ↔ Fails o w
  check_redis-failed none up w u = (λ h. absurd (up_not_degraded up.status u h), λ b. absurd b)
  check_redis-failed (some check) up w u = with_outcome-failed up (check w).0 u

  status_sent :
      (resp : HealthResponse) (h : Header)
      → (deliver h (
          set_header "Content-Type" "application/json"
          ∷ (write_header (if resp.status === "degraded" then 503 else 200)
              ∷ (write (encode resp) ∷ [])))).status
        ≡ some (if resp.status === "degraded" then 503 else 200)
  unfolding deliver run perform send_header send_body
  status_sent resp h = elim (Bool-cases (resp.status === "degraded")) [
    | inl e ↦ rw e refl
    | inr e ↦ rw e refl
  ]

  check_health-IsDown :
      (cfg : GatewayConfig) (w : W)
      → (((check_health cfg w).0.status === "degraded") ≡ true) ↔ IsDown cfg w
  unfolding check_health
  check_health-IsDown cfg w =
      let both =
        check_redis-failed checker (record { status = "up"; timestamp = timestamp w; checks = [] })
          w refl in
      elim (Bool-cases (cfg.rate_limit.backend === "redis")) [
        | inl e ↦ rw e (
          λ h. record { backend = (eq_iff cfg.rate_limit.backend "redis").0 e; failed = both.0 h },
          λ d. both.1 d.failed,
        )
        | inr e ↦ rw e (
          λ h. absurd (up_not_degraded "up" refl h),
          λ d. absurd (ground (arith, e, (eq_iff cfg.rate_limit.backend "redis").1 d.backend)),
        )
      ]

  -- The client gets status 503 exactly if the backend of the current configuration is Redis, the
  -- process has a client for Redis, and its check fails.
  pub health_handler-IsDown :
      (cfg : GatewayConfig) (r : Request) (w : W) (h : Header)
      → ((deliver h (health_handler cfg r w).calls).status ≡ some 503) ↔ IsDown cfg w
  unfolding health_handler deliver
  health_handler-IsDown cfg r w h =
      let sent = status_sent (check_health cfg w).0 h in
      let both = check_health-IsDown cfg w in
      elim (Bool-cases ((check_health cfg w).0.status === "degraded")) [
        | inl e ↦ (λ _. both.0 e, λ _. sent ∙ rw e refl)
        | inr e ↦ (
          λ k. absurd (ground (arith, e, sym sent ∙ k)),
          λ d. absurd (ground (arith, e, both.1 d)),
        )
      ]
