-- ===== src/Middleware/Cors/Injected.antt =====
-- The headers that the middleware adds: internal/middleware/cors.go, `injectCORSHeaders`.
use tanugate.Common.{
  Bool, ◌&&◌, not, if◌then◌else◌, Bool-cases, inl, inr, join, ◌≡◌, refl, ap, ◌∙◌, String, true,
  false, ◌||◌, List, [], ◌∷◌, ◌++◌, contains, ◌===◌, arith, All,
}
use tanugate.Http.{Call, set_header, add_header, del_header, write_header, write, flush}
use tanugate.Http.Headers
use tanugate.Http.Headers.{Header}
use tanugate.Http.Wire.{Wire, fresh, perform, run, run-append}
use tanugate.Config.{CorsConfig}
use tanugate.Middleware.Cors.{
  is_wildcard, is_origin_allowed, resolve_allow_origin, inject_cors_headers,
}

abbrev OnlySets : Call → Type 0
OnlySets (set_header k v) = Unit
OnlySets _ = ⊥

-- Calls of `Header().Set` change the header map only.
run-OnlySets :
    (w : Wire) (cs : List Call)
    → All OnlySets cs
    → run w cs ≡ record w { header = (run (fresh w.header) cs).header }
unfolding run perform
run-OnlySets w [] h = refl
run-OnlySets w (set_header k v ∷ cs) h = run-OnlySets (perform w (set_header k v)) cs h.1
run-OnlySets w (add_header k v ∷ cs) h = absurd h.0
run-OnlySets w (del_header k ∷ cs) h = absurd h.0
run-OnlySets w (write_header code ∷ cs) h = absurd h.0
run-OnlySets w (write b ∷ cs) h = absurd h.0
run-OnlySets w (flush ∷ cs) h = absurd h.0

inject-OnlySets :
    (origin : String) (cfg : CorsConfig) → All OnlySets (inject_cors_headers origin cfg)
unfolding inject_cors_headers
inject-OnlySets origin cfg = ground arith

pub is_wildcard-eq-contains : (os : List String) → is_wildcard os ≡ contains "*" os
unfolding is_wildcard contains
is_wildcard-eq-contains [] = refl
is_wildcard-eq-contains (o ∷ os) = ground (arith, is_wildcard-eq-contains os)

pub is_origin_allowed-eq-contains :
    (origin : String) (os : List String)
    → is_origin_allowed origin os ≡ (contains "*" os || contains origin os)
unfolding is_origin_allowed contains
is_origin_allowed-eq-contains origin [] = refl
is_origin_allowed-eq-contains origin (o ∷ os) =
    ground (arith, is_origin_allowed-eq-contains origin os)

-- The origin that a response may name: "*" if all are allowed and credentials are not, the request's
-- if it is allowed, and else none.
abbrev pub granted_origin : String → CorsConfig → String
granted_origin origin cfg =
    if contains "*" cfg.allowed_origins && not cfg.allow_credentials
    then "*"
    else if contains "*" cfg.allowed_origins || contains origin cfg.allowed_origins
    then origin
    else ""

resolve_allow_origin-granted :
    (origin : String) (cfg : CorsConfig)
    → resolve_allow_origin origin cfg ≡ granted_origin origin cfg
unfolding resolve_allow_origin
resolve_allow_origin-granted origin cfg =
    rw
      (
        is_origin_allowed-eq-contains origin cfg.allowed_origins,
        is_wildcard-eq-contains cfg.allowed_origins,
      )
      (ground arith)

abbrev with_credentials : Bool → Header → Header
with_credentials true h = Headers.set h "Access-Control-Allow-Credentials" "true"
with_credentials false h = h

abbrev with_exposed : List String → Header → Header
with_exposed [] h = h
with_exposed (name ∷ names) h =
    Headers.set h "Access-Control-Expose-Headers" (join ", " (name ∷ names))

-- A header map with the CORS headers set: `Vary` always, and the others for an origin that is
-- granted.
unfoldable pub with_cors : String → CorsConfig → Header → Header
with_cors origin cfg h =
    let varied = Headers.set h "Vary" "Origin" in
    if granted_origin origin cfg === ""
    then varied
    else with_exposed cfg.exposed_headers (
        with_credentials cfg.allow_credentials
          (Headers.set varied "Access-Control-Allow-Origin" (granted_origin origin cfg)))

inject_sets :
    (origin : String) (cfg : CorsConfig) (h : Header)
    → (run (fresh h) (inject_cors_headers origin cfg)).header ≡ with_cors origin cfg h
unfolding run perform inject_cors_headers with_cors
inject_sets origin cfg h =
    rw (resolve_allow_origin-granted origin cfg)
      (elim (Bool-cases (granted_origin origin cfg === "")) [
        | inl e ↦ rw e refl
        | inr e ↦ rw e (ground arith)
      ])

pub run-inject :
    (origin : String) (cfg : CorsConfig) (w : Wire) (cs : List Call)
    → run w (inject_cors_headers origin cfg ++ cs)
      ≡ run (record w { header = with_cors origin cfg w.header }) cs
run-inject origin cfg w cs =
    run-append w (inject_cors_headers origin cfg) cs
    ∙ ap (λ v. run v cs)
        (run-OnlySets w (inject_cors_headers origin cfg) (inject-OnlySets origin cfg)
          ∙ ap (λ h. record w { header = h }) (inject_sets origin cfg w.header))
