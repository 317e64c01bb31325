-- ===== src/Gateway/Startup.antt =====
-- The start of the process: the first half of `runServe` in cmd/gateway/main.go.
-- The backends of the rate limit, their check and the JWT and OIDC authenticators are parameters.
use tanugate.Common.{
  ℕ, ◌≡◌, refl, ap, sym, subst, Bool-cases, inl, inr, String, Bool, true, false, true, Option, none,
  some, List, [], ◌∷◌, Result, ok, err, ◌>>=◌, map_err, ◌===◌, is_some, if◌then◌else◌, Result-cases,
  arith,
}
use tanugate.Http.{Bytes, Handler}
use tanugate.Config.{
  GatewayConfig, RateLimitGlobalConfig, RedisConfig, AuthProvider, JwtConfig, OidcConfig,
}
use tanugate.Config.Yaml.{Node}
use tanugate.Config.Resolve.{Decoder}
use tanugate.Config.Load.{Source, LoadError}
use tanugate.Auth.{Authenticator, new_authenticator}
use tanugate.RateLimit.{Net, Limiter, parse_trusted_proxies}
use tanugate.Router.{Regexp}
use tanugate.Pipeline.{BuildError, FactoryDeps, Layers}
use tanugate.Gateway.{Gateway, load, build, Endpoints}
use tanugate.Gateway.Health.{HealthChecker}
use tanugate.Gateway.Reload.{ClosedOnce, Implements, count, loads-builds}

-- Why the process ends before it serves.
pub data StartError : Type 0 where
  no_configuration : LoadError → StartError
  bad_trusted_proxy : String → StartError
  no_redis_config : StartError
  redis_unreachable : String → StartError
  bad_auth_provider : String → String → StartError
  no_handler : BuildError → StartError

abbrev pub is_unbuilt : StartError → Bool
is_unbuilt (no_configuration e) = false
is_unbuilt (bad_trusted_proxy bad) = false
is_unbuilt no_redis_config = false
is_unbuilt (redis_unreachable e) = false
is_unbuilt (bad_auth_provider name e) = false
is_unbuilt (no_handler e) = true

-- No error for want of a handler.
abbrev IsBuilt : {A : Type 0} → Result StartError A → Type 0
IsBuilt (err e) = is_unbuilt e ≡ false
IsBuilt (ok _) = Unit

pub record Backends (W : Type 0) : Type 0 where
  pub new_memory_limiter : Limiter W
  pub new_redis_limiter : RedisConfig → Limiter W
  pub ping : RedisConfig → HealthChecker W
  pub new_jwt : JwtConfig → Result String (Authenticator W)
  pub new_oidc : OidcConfig → Result String (Authenticator W)

pub record Started (net : Net) (W : Type 0) : Type 0 where
  pub deps : FactoryDeps net W
  pub checker : Option (HealthChecker W)
  pub gateway : Gateway W

module _ {W : Type 0} (backends : Backends W) where
  open backends use {new_memory_limiter, new_redis_limiter, ping, new_jwt, new_oidc}

  abbrev pub after_ping :
      RedisConfig → Result String Unit → Result StartError (Limiter W × Option (HealthChecker W))
  after_ping redis (err e) = err (redis_unreachable e)
  after_ping redis (ok _) = ok (new_redis_limiter redis, some (ping redis))

  abbrev pub redis_backend :
      Option RedisConfig → W → Result StartError (Limiter W × Option (HealthChecker W)) × W
  redis_backend none w = (err no_redis_config, w)
  redis_backend (some redis) w = let (outcome, w') = ping redis w in (after_ping redis outcome, w')

  -- The switch over the backend.
  unfoldable pub choose_backend :
      RateLimitGlobalConfig → W → Result StartError (Limiter W × Option (HealthChecker W)) × W
  choose_backend cfg w =
      if cfg.backend === "redis"
      then redis_backend cfg.redis w
      else (ok (new_memory_limiter, none), w)

  unfoldable pub new_authenticators :
      List (String × AuthProvider) → Result StartError (List (String × Authenticator W))
  unfolding new_authenticator
  new_authenticators [] = ok []
  new_authenticators ((name, provider) ∷ providers) =
      map_err (bad_auth_provider name) (new_authenticator new_jwt new_oidc provider) >>= λ a.
      new_authenticators providers >>= λ rest. ok ((name, a) ∷ rest)

  module _ (net : Net) (re : Regexp) (d : Decoder) (has_unresolved_env_var : String → Bool)
      (marshal : Node → Option Bytes) (float_equal : ℕ → ℕ → Bool) (base : FactoryDeps net W)
      (layers : ℕ → Layers W) (path : String) where
    -- The dependencies of the pipeline, made once for the life of the process.
    abbrev pub with_backends :
        Limiter W → List (String × Authenticator W) → List net.IpNet → FactoryDeps net W
    with_backends l authns proxies = record base {
      limiter = l;
      authenticators = authns;
      trusted_proxies = proxies;
    }

    abbrev first_handler : GatewayConfig → Handler W → Gateway W
    first_handler cfg h = record {
      config = cfg;
      current = record { handler = h; transport = 0 };
      transports = 1;
      idle_closed = [];
    }

    abbrev pub build_first :
        GatewayConfig
        → FactoryDeps net W
        → Option (HealthChecker W)
        → Result StartError (Started net W)
    build_first cfg all health =
        map_err no_handler
          (build net re d has_unresolved_env_var marshal float_equal all layers path 0 cfg)
        >>= λ h. ok (record { deps = all; checker = health; gateway = first_handler cfg h })

    -- What follows the choice of the backend.
    unfoldable pub start_with :
        GatewayConfig
        → List net.IpNet
        → Result StartError (Limiter W × Option (HealthChecker W))
        → Result StartError (Started net W)
    unfolding new_authenticators
    start_with cfg proxies backend = backend >>= λ b.
        new_authenticators cfg.auth_providers >>= λ authns.
        build_first cfg (with_backends b.0 authns proxies) b.1

    abbrev pub start_trusting :
        GatewayConfig → Result String (List net.IpNet) → W → Result StartError (Started net W) × W
    start_trusting cfg (err bad) w = (err (bad_trusted_proxy bad), w)
    start_trusting cfg (ok proxies) w =
        let (backend, w') = choose_backend cfg.rate_limit w in (start_with cfg proxies backend, w')

    abbrev pub start_loaded :
        Result LoadError GatewayConfig → W → Result StartError (Started net W) × W
    start_loaded (err e) w = (err (no_configuration e), w)
    start_loaded (ok cfg) w =
        start_trusting cfg (parse_trusted_proxies net cfg.server.trusted_proxies) w

    -- `runServe` up to the handler.
    unfoldable pub start : Source → W → Result StartError (Started net W) × W
    unfolding start_with choose_backend
    start source w =
        start_loaded
          (load net re d has_unresolved_env_var marshal float_equal base layers path source) w

    after_ping-IsBuilt :
        (redis : RedisConfig) (outcome : Result String Unit) → IsBuilt (after_ping redis outcome)
    after_ping-IsBuilt redis (err e) = refl
    after_ping-IsBuilt redis (ok _) = tt

    redis_backend-IsBuilt : (o : Option RedisConfig) (w : W) → IsBuilt (redis_backend o w).0
    redis_backend-IsBuilt none w = refl
    redis_backend-IsBuilt (some redis) w = after_ping-IsBuilt redis (ping redis w).0

    choose_backend-IsBuilt :
        (cfg : RateLimitGlobalConfig) (w : W) → IsBuilt (choose_backend cfg w).0
    unfolding choose_backend
    choose_backend-IsBuilt cfg w = elim (Bool-cases (cfg.backend === "redis")) [
      | inr e ↦ rw e tt
      | inl e ↦ rw e (redis_backend-IsBuilt cfg.redis w)
    ]

    new_authenticators-IsBuilt :
        (providers : List (String × AuthProvider)) → IsBuilt (new_authenticators providers)
    unfolding new_authenticators
    new_authenticators-IsBuilt [] = tt
    new_authenticators-IsBuilt ((name, provider) ∷ providers) =
        let ih = new_authenticators-IsBuilt providers in
        elim (Result-cases (new_authenticator new_jwt new_oidc provider)) [
          | inl (e, k) ↦ rw k refl
          | inr (a, k) ↦ elim (Result-cases (new_authenticators providers)) [
            | inl (e, l) ↦ rw k (rw l (subst IsBuilt l ih))
            | inr (rest, l) ↦ rw k (rw l tt)
          ]
        ]

    module _ (source : Source) (endpoints : Endpoints W) where
      -- The gateway serves the configuration that was loaded, with nothing closed; it is not for
      -- want of a handler that the process does not start.
      abbrev pub IsReady : Result StartError (Started net W) → Type 0
      IsReady (err e) = is_unbuilt e ≡ false
      IsReady (ok s) =
          (load net re d has_unresolved_env_var marshal float_equal base layers path source
            ≡ ok s.gateway.config)
          × (ClosedOnce s.gateway)
          × Implements net re d has_unresolved_env_var marshal float_equal s.deps layers path
              endpoints s.gateway (record { config = s.gateway.config; generation = 0 })

      module _ (compiles : is_some (re.compile "") ≡ true) where
        build_first-IsReady :
            (cfg : GatewayConfig)
            → load net re d has_unresolved_env_var marshal float_equal base layers path source
              ≡ ok cfg
            → (all : FactoryDeps net W) (health : Option (HealthChecker W))
            → IsReady (build_first cfg all health)
        unfolding count
        build_first-IsReady cfg l all health =
            let (h, b) =
              loads-builds net re d has_unresolved_env_var marshal float_equal all layers path
                compiles source cfg 0 l in
            subst IsReady
              (sym (
                ap
                  (λ (o : Result BuildError (Handler W)). map_err no_handler o >>= λ h.
                    ok (record { deps = all; checker = health; gateway = first_handler cfg h }))
                  b))
              (
                l,
                (refl, λ t. ground arith),
                record { config = refl; transports = refl; transport = refl; handler = b },
              )

        start_with-IsReady :
            (cfg : GatewayConfig)
            → load net re d has_unresolved_env_var marshal float_equal base layers path source
              ≡ ok cfg
            → (proxies : List net.IpNet)
              (backend : Result StartError (Limiter W × Option (HealthChecker W)))
            → IsBuilt backend
            → IsReady (start_with cfg proxies backend)
        unfolding start_with
        start_with-IsReady cfg l proxies (err e) built = built
        start_with-IsReady cfg l proxies (ok b) built =
            elim (Result-cases (new_authenticators cfg.auth_providers)) [
              | inl (e, k) ↦ rw k (subst IsBuilt k (new_authenticators-IsBuilt cfg.auth_providers))
              | inr (authns, k) ↦
                  rw k (build_first-IsReady cfg l (with_backends b.0 authns proxies) b.1)
            ]

        start_trusting-IsReady :
            (cfg : GatewayConfig)
            → load net re d has_unresolved_env_var marshal float_equal base layers path source
              ≡ ok cfg
            → (proxies : Result String (List net.IpNet)) (w : W)
            → IsReady (start_trusting cfg proxies w).0
        start_trusting-IsReady cfg l (err bad) w = refl
        start_trusting-IsReady cfg l (ok proxies) w =
            start_with-IsReady cfg l proxies (choose_backend cfg.rate_limit w).0
              (choose_backend-IsBuilt cfg.rate_limit w)

        start_loaded-IsReady :
            (loaded : Result LoadError GatewayConfig)
            → load net re d has_unresolved_env_var marshal float_equal base layers path source
              ≡ loaded
            → (w : W) → IsReady (start_loaded loaded w).0
        start_loaded-IsReady (err e) l w = refl
        start_loaded-IsReady (ok cfg) l w =
            start_trusting-IsReady cfg l (parse_trusted_proxies net cfg.server.trusted_proxies) w

        -- If the empty regular expression compiles: a process that starts serves the configuration
        -- that it loaded, with no connections closed, and it is never for want of a handler that it
        -- does not start.
        pub start-IsReady : (w : W) → IsReady (start source w).0
        unfolding start
        start-IsReady w = start_loaded-IsReady _ refl w
