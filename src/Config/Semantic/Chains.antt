-- ===== src/Config/Semantic/Chains.antt =====
-- What the checks in internal/config/config.go give for the middlewares of each route.
use tanugate.Common.{
  ℕ, suc, ◌<◌, ◌≡◌, ◌≢◌, sym, ap, ◌∙◌, inl, inr, String, Bool, true, false, ◌||◌, if◌then◌else◌,
  List, [], ◌∷◌, ◌++◌, any, ok, ◌===◌, eq_iff, arith, All, Bool-cases, Result-cases, append-eq-nil,
  map-eq-nil,
}
use tanugate.Config.{GatewayConfig, RouteConfig, ResolvedMiddleware}
use tanugate.Config.Resolve.{Decoder, resolve_middlewares}
use tanugate.Config.Semantic.{
  in_route, effective_chain, cors_errors, claim_errors, needs_claim, check_path, check_host,
  header_errors, skip_errors, globals, ok_or_none, chain_errors, route_errors, routes_errors,
  semantic_errors, duplicate_routes, provider_errors, redis_errors, global_errors,
}

abbrev NotCors : ResolvedMiddleware → Type 0
NotCors mw = mw.type ≢ "cors"

-- No middleware but the first is CORS.
abbrev pub IsCorsFirst : List ResolvedMiddleware → Type 0
IsCorsFirst [] = Unit
IsCorsFirst (mw ∷ mws) = All NotCors mws

-- A second CORS middleware is reported at the end.
cors_errors-many :
    (i count : ℕ) (mws : List ResolvedMiddleware) → 1 < count → cors_errors i count mws ≢ []
unfolding cors_errors
cors_errors-many i count [] h k = ground arith
cors_errors-many i count (mw ∷ mws) h k =
    let counted = cors_errors-many (suc i) (suc count) mws (omega arith) in
    let rest = cors_errors-many (suc i) count mws h in ground arith

cors_errors-at :
    (i count : ℕ) (mw : ResolvedMiddleware) (mws : List ResolvedMiddleware)
    → 0 < i
    → (mw.type === "cors") ≡ true
    → cors_errors i count (mw ∷ mws) ≢ []
unfolding cors_errors
cors_errors-at i ℕ.zero mw mws h e k = ground arith
cors_errors-at i (suc count) mw mws h e k =
    let many = cors_errors-many (suc i) (suc (suc count)) mws (omega arith) in ground arith

cors_errors-NotCors :
    (i count : ℕ) (mws : List ResolvedMiddleware)
    → 0 < i
    → cors_errors i count mws ≡ []
    → All NotCors mws
unfolding cors_errors
cors_errors-NotCors i count [] h k = tt
cors_errors-NotCors i count (mw ∷ mws) h k = elim (Bool-cases (mw.type === "cors")) [
  | inl e ↦ absurd (cors_errors-at i count mw mws h e k)
  | inr e ↦ (
    (λ x. ground (arith, eq_iff mw.type "cors")),
    cors_errors-NotCors (suc i) count mws (omega arith) (ground arith),
  )
]

cors_errors-IsCorsFirst :
    (chain : List ResolvedMiddleware) → cors_errors 0 0 chain ≡ [] → IsCorsFirst chain
unfolding cors_errors
cors_errors-IsCorsFirst [] h = tt
cors_errors-IsCorsFirst (mw ∷ mws) h = elim (Bool-cases (mw.type === "cors")) [
  | inl e ↦ cors_errors-NotCors 1 1 mws (omega arith) (ground arith)
  | inr e ↦ cors_errors-NotCors 1 0 mws (omega arith) (ground arith)
]

abbrev pub is_auth : ResolvedMiddleware → Bool
is_auth mw = mw.type === "auth"

-- Before each rate limit that counts by a claim stands an authentication.
abbrev pub IsClaimGuarded : List ResolvedMiddleware → Type 0
IsClaimGuarded chain =
    (before after : List ResolvedMiddleware) (mw : ResolvedMiddleware)
    → chain ≡ before ++ mw ∷ after
    → needs_claim mw ≡ true
    → any is_auth before ≡ true

claim_errors-guarded :
    (seen : Bool) (before after : List ResolvedMiddleware) (mw : ResolvedMiddleware)
    → claim_errors seen (before ++ mw ∷ after) ≡ []
    → needs_claim mw ≡ true
    → (seen || any is_auth before) ≡ true
unfolding claim_errors
claim_errors-guarded seen [] after mw h k =
    ground (arith, eq_iff mw.type "auth", eq_iff mw.type "rate_limit", eq_iff "auth" "rate_limit")
claim_errors-guarded seen (b ∷ before) after mw h k =
    let ih =
      claim_errors-guarded (if is_auth b then true else seen) before after mw (ground arith) k in
    ground arith

module _ (compiles has_unresolved_env_var : String → Bool) (d : Decoder) (cfg : GatewayConfig) where
  -- The route's references resolve, and the chain that it runs is in order.
  abbrev pub IsOrdered : RouteConfig → Type 0
  IsOrdered route =
      (own : List ResolvedMiddleware) × (resolve_middlewares d route.middlewares
          cfg.middleware_definitions
        ≡ ok own)
      × let chain =
          effective_chain
            (ok_or_none compiles has_unresolved_env_var d cfg
              (globals compiles has_unresolved_env_var d cfg))
            route.skip_middlewares own in
        IsCorsFirst chain × IsClaimGuarded chain

  chain_errors-IsOrdered :
      (route : RouteConfig)
      → chain_errors compiles has_unresolved_env_var d cfg route
          (resolve_middlewares d route.middlewares cfg.middleware_definitions)
        ≡ []
      → IsOrdered route
  unfolding chain_errors
  chain_errors-IsOrdered route h =
      elim (Result-cases (resolve_middlewares d route.middlewares cfg.middleware_definitions)) [
        | inl (e, k) ↦ absurd (ground arith)
        | inr (own, k) ↦
            let h' = ap (chain_errors compiles has_unresolved_env_var d cfg route) (sym k) ∙ h in
            let (_, more) = append-eq-nil _ _ h' in
            let (cors, claims) = append-eq-nil _ _ more in
            (
              own,
              k,
              (
                cors_errors-IsCorsFirst _ cors,
                (λ before after mw e n.
                    claim_errors-guarded false before after mw
                      (ap (claim_errors false) (sym e) ∙ claims) n),
              ),
            )
      ]

  route_errors-IsOrdered :
      (route : RouteConfig)
      → route_errors compiles has_unresolved_env_var d cfg route ≡ []
      → IsOrdered route
  unfolding route_errors
  route_errors-IsOrdered route h =
      let (_, a) =
        append-eq-nil (check_path compiles has_unresolved_env_var route.match.path_regex) _ h in
      let (_, b) = append-eq-nil (check_host route.match.host) _ a in
      let (_, c) =
        append-eq-nil (header_errors compiles has_unresolved_env_var route.match.headers) _ b in
      let (_, e) = append-eq-nil (skip_errors cfg.middlewares route.skip_middlewares) _ c in
      chain_errors-IsOrdered route e

  routes_errors-IsOrdered :
      (routes : List RouteConfig)
      → routes_errors compiles has_unresolved_env_var d cfg routes ≡ []
      → All IsOrdered routes
  unfolding routes_errors
  routes_errors-IsOrdered [] h = tt
  routes_errors-IsOrdered (route ∷ routes) h =
      let (first, rest) = append-eq-nil _ _ h in
      (
        route_errors-IsOrdered route (map-eq-nil (in_route route.name) _ first),
        routes_errors-IsOrdered routes rest,
      )

  -- If the checks report nothing, the references of every route resolve, CORS stands nowhere but
  -- first in the chain that the route runs, and before a rate limit that counts by a claim stands an
  -- authentication.
  pub semantic_errors-IsOrdered :
      semantic_errors compiles has_unresolved_env_var d cfg ≡ [] → All IsOrdered cfg.routes
  unfolding semantic_errors
  semantic_errors-IsOrdered h =
      let (_, a) = append-eq-nil (duplicate_routes [] cfg.routes) _ h in
      let (_, b) =
        append-eq-nil (provider_errors compiles has_unresolved_env_var cfg.auth_providers) _ a in
      let (_, c) =
        append-eq-nil (redis_errors compiles has_unresolved_env_var cfg.rate_limit.redis) _ b in
      let (_, routes) =
        append-eq-nil
          (global_errors compiles has_unresolved_env_var d cfg
            (globals compiles has_unresolved_env_var d cfg))
          _ c in
      routes_errors-IsOrdered cfg.routes routes
