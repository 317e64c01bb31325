-- ===== src/Config/Checks.antt =====
-- Checks of resolved middlewares: `validateResolvedMiddlewares` in internal/config/config.go.
-- Each message is a constructor of `MiddlewareError`; what it prints besides its arguments is left
-- out.
use tanugate.Common.{
  String, Bool, true, false, not, ◌&&◌, ◌||◌, List, [], ◌∷◌, ◌++◌, contains, lookup, is_some,
  is_positive, has_prefix, trim_prefix, ◌===◌, length, ltb, if◌then◌else◌,
}
use tanugate.Config.{
  ResolvedMiddleware, cors_config, rate_limit_config, auth_config, RateLimitConfig,
  AuthMiddlewareConfig, CorsConfig, AuthProvider, GatewayConfig,
}

pub data Problem : Type 0 where
  wrong_config_type requests_not_positive window_not_positive unsupported_algorithm needs_redis :
      Problem
  invalid_key_source empty_header_name empty_claim_name : Problem
  no_providers empty_provider none_combined no_allowed_origins : Problem
  duplicate_provider undefined_provider : String → Problem

-- A problem of the middleware with the given name.
pub record MiddlewareError : Type 0 where
  pub middleware : String
  pub problem : Problem

abbrev pub when : Bool → Problem → List Problem
when true p = p ∷ []
when false p = []

unfoldable pub check_key_source : String → List Problem
check_key_source key_source =
    if key_source === "" || key_source === "ip"
    then []
    else if not (has_prefix key_source "header:") && not (has_prefix key_source "claim:")
    then invalid_key_source ∷ []
    else if has_prefix key_source "header:" && trim_prefix key_source "header:" === ""
    then empty_header_name ∷ []
    else if has_prefix key_source "claim:" && trim_prefix key_source "claim:" === ""
    then empty_claim_name ∷ []
    else []

unfoldable pub check_rate_limit : String → RateLimitConfig → List Problem
unfolding check_key_source
check_rate_limit backend cfg =
    when (not (is_positive cfg.requests)) requests_not_positive
    ++ (when (not (is_positive cfg.window)) window_not_positive
        ++ (when (not (cfg.algorithm === "sliding_window" || cfg.algorithm === "leaky_bucket"))
              unsupported_algorithm
            ++ (when (cfg.algorithm === "leaky_bucket" && not (backend === "redis")) needs_redis
                ++ check_key_source cfg.key_source)))

-- The loop over the providers; `seen` holds those before, without the empty ones and the repeated.
unfoldable pub check_providers :
    List (String × AuthProvider) → List String → List String → List Problem
check_providers defined seen [] = []
check_providers defined seen (p ∷ ps) =
    let rest = check_providers defined (p ∷ seen) ps in
    let skipped = check_providers defined seen ps in
    if p === ""
    then empty_provider ∷ skipped
    else if contains p seen
    then duplicate_provider p ∷ skipped
    else when (not (p === "none") && not (is_some (lookup p defined))) (undefined_provider p)
      ++ rest

-- `seen["none"]` after the loop: some provider is `none`.
unfoldable pub check_auth : List (String × AuthProvider) → AuthMiddlewareConfig → List Problem
unfolding check_providers contains
check_auth defined cfg = elim cfg.providers [
  | [] ↦ no_providers ∷ []
  | p ∷ ps ↦
      check_providers defined [] (p ∷ ps)
      ++ when (contains "none" (p ∷ ps) && ltb 1 (length (p ∷ ps))) none_combined
]

unfoldable pub check_cors : CorsConfig → List Problem
check_cors cfg = elim cfg.allowed_origins [ [] ↦ no_allowed_origins ∷ [] | o ∷ os ↦ [] ]

-- The problems of one middleware, by its type.
unfoldable pub check_middleware : GatewayConfig → ResolvedMiddleware → List Problem
unfolding check_rate_limit check_auth check_cors
check_middleware cfg mw =
    if mw.type === "rate_limit"
    then (elim mw.config [
      | rate_limit_config rl ↦ check_rate_limit cfg.rate_limit.backend rl
      | _ ↦ wrong_config_type ∷ []
    ])
    else if mw.type === "auth"
    then (elim mw.config [
      | auth_config auth ↦ check_auth cfg.auth_providers auth
      | _ ↦ wrong_config_type ∷ []
    ])
    else if mw.type === "cors"
    then (elim mw.config [ cors_config cors ↦ check_cors cors | _ ↦ wrong_config_type ∷ [] ])
    else []

abbrev pub named : String → List Problem → List MiddlewareError
named name [] = []
named name (p ∷ ps) = record { middleware = name; problem = p } ∷ named name ps

-- `validateResolvedMiddlewares`.
unfoldable pub validate_resolved_middlewares :
    GatewayConfig → List ResolvedMiddleware → List MiddlewareError
unfolding check_middleware
validate_resolved_middlewares cfg [] = []
validate_resolved_middlewares cfg (mw ∷ mws) =
    named mw.name (check_middleware cfg mw) ++ validate_resolved_middlewares cfg mws
