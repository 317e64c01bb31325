-- ===== src/Gateway/Reload.antt =====
-- What reloads promise: cmd/gateway/main.go, `handleReload` and the loop of `runServe`.
use tanugate.Common.{
  ℕ, suc, ◌≡◌, refl, ap, sym, ◌∙◌, subst, inl, inr, String, Bool, true, false, Option, List, [],
  ◌∷◌, map, Result, ok, err, ◌>>=◌, is_some, if◌then◌else◌, ◌==◌, ltb, arith, Result-cases,
}
use tanugate.Http.{Bytes, Request, Reply, Handler}
use tanugate.Config.{GatewayConfig}
use tanugate.Config.Yaml.{Node}
use tanugate.Config.Resolve.{Decoder}
use tanugate.Config.Load.{Source, LoadError, load_config_checked}
use tanugate.Config.Changes.{non_reloadable_changes}
use tanugate.RateLimit.{Net}
use tanugate.Router.{Regexp}
use tanugate.Pipeline.{BuildError, FactoryDeps, Layers}
use tanugate.Pipeline.Order.{semantic_errors-build_handler}
use tanugate.Gateway.{
  Gateway, Entry, Event, hangup, terminate, server_failed, request, Endpoints, health_endpoint,
  metrics_endpoint, any_path, Session, load, build, handle_reload, serve_request, serve_at,
  Endpoint, serve, swap, discard, reload_to, install, change_ignored, shutdown,
}
use tanugate.Gateway.Health.{health_handler}

-- How often a number stands in a list.
unfoldable pub count : ℕ → List ℕ → ℕ
count t [] = 0
count t (u ∷ us) = if t == u then suc (count t us) else count t us

-- Of the transports made so far, those that no longer serve had their connections closed once, and
-- the one that serves never.
abbrev pub ClosedOnce : {W : Type 0} → Gateway W → Type 0
ClosedOnce g =
    (ltb g.current.transport g.transports ≡ true)
    × ((t : ℕ)
        → count t g.idle_closed
          ≡ (if t == g.current.transport then 0 else if ltb t g.transports then 1 else 0))

module _ {W : Type 0} (g : Gateway W) (c : ClosedOnce g) where
  discard-ClosedOnce : ClosedOnce (discard g)
  unfolding count
  discard-ClosedOnce = (ground (arith, c.0), λ t. ground (arith, c.0, c.1 t))

  swap-ClosedOnce : (cfg : GatewayConfig) (h : Handler W) → ClosedOnce (swap cfg h g)
  unfolding count
  swap-ClosedOnce cfg h = (ground (arith, c.0), λ t. ground (arith, c.0, c.1 t))

-- The gateway as its operators see it: the last configuration that loaded, and how often one has.
pub record Served : Type 0 where
  pub config : GatewayConfig
  pub generation : ℕ

module _ (net : Net) (re : Regexp) (d : Decoder) (has_unresolved_env_var : String → Bool)
    (marshal : Node → Option Bytes) (float_equal : ℕ → ℕ → Bool) {W : Type 0}
    (deps : FactoryDeps net W) (layers : ℕ → Layers W) (path : String) where
  abbrev loads : Source → Result LoadError GatewayConfig
  loads source = load net re d has_unresolved_env_var marshal float_equal deps layers path source

  abbrev builds : ℕ → GatewayConfig → Result BuildError (Handler W)
  builds t cfg = build net re d has_unresolved_env_var marshal float_equal deps layers path t cfg

  abbrev reload : Source → Gateway W → Gateway W × List Entry
  reload source g =
      handle_reload net re d has_unresolved_env_var marshal float_equal deps layers path source g

  -- A configuration that loads builds a pipeline.
  pub loads-builds :
      is_some (re.compile "") ≡ true
      → (source : Source) (cfg : GatewayConfig) (t : ℕ) → loads source ≡ ok cfg
      → (h : Handler W) × (builds t cfg ≡ ok h)
  loads-builds e source cfg t l =
      let loaded =
        load_config_checked (λ p. is_some (re.compile p)) has_unresolved_env_var d source path cfg
          l in
      let (routes, k) =
        semantic_errors-build_handler net re d deps (layers t) has_unresolved_env_var cfg e
          loaded.0 in
      (_, k)

  module _ (source : Source) (g : Gateway W) where
    handle_reload_failed : (e : LoadError) → loads source ≡ err e → (reload source g).0 ≡ g
    unfolding handle_reload
    handle_reload_failed e l =
        ap
          (λ o.
            (reload_to net re d has_unresolved_env_var marshal float_equal deps layers path g o).0)
          l

    handle_reload_loaded :
        (cfg : GatewayConfig) (h : Handler W)
        → loads source ≡ ok cfg
        → builds g.transports cfg ≡ ok h
        → (reload source g).0 ≡ swap cfg h g
    unfolding handle_reload
    handle_reload_loaded cfg h l b =
        ap
          (λ o.
            (reload_to net re d has_unresolved_env_var marshal float_equal deps layers path g o).0)
          l
        ∙ ap
            (λ o.
              (install net re d has_unresolved_env_var marshal float_equal deps layers path g cfg
                (map change_ignored (non_reloadable_changes g.config cfg)) o).0)
            b

    handle_reload_unbuilt :
        (cfg : GatewayConfig) (e : BuildError)
        → loads source ≡ ok cfg
        → builds g.transports cfg ≡ err e
        → (reload source g).0 ≡ discard g
    unfolding handle_reload
    handle_reload_unbuilt cfg e l b =
        ap
          (λ o.
            (reload_to net re d has_unresolved_env_var marshal float_equal deps layers path g o).0)
          l
        ∙ ap
            (λ o.
              (install net re d has_unresolved_env_var marshal float_equal deps layers path g cfg
                (map change_ignored (non_reloadable_changes g.config cfg)) o).0)
            b

    reload-ClosedOnce : ClosedOnce g → ClosedOnce (reload source g).0
    reload-ClosedOnce c = elim (Result-cases (loads source)) [
      | inl (e, l) ↦ subst ClosedOnce (sym (handle_reload_failed e l)) c
      | inr (cfg, l) ↦ elim (Result-cases (builds g.transports cfg)) [
        | inl (e, b) ↦
            subst ClosedOnce (sym (handle_reload_unbuilt cfg e l b)) (discard-ClosedOnce g c)
        | inr (h, b) ↦
            subst ClosedOnce (sym (handle_reload_loaded cfg h l b)) (swap-ClosedOnce g c cfg h)
      ]
    ]

  module _ (endpoints : Endpoints W) where
    abbrev session : List Event → Gateway W → W → Session W
    session events g w =
        serve net re d has_unresolved_env_var marshal float_equal deps layers path endpoints events
          g w

    -- Whatever happens, each transport that no longer serves had its idle connections closed once,
    -- and the one that serves did not, if it was so before.
    pub serve-ClosedOnce :
        (events : List Event) (g : Gateway W) (w : W)
        → ClosedOnce g
        → ClosedOnce (session events g w).gateway
    unfolding serve
    serve-ClosedOnce [] g w c = c
    serve-ClosedOnce (hangup source ∷ events) g w c =
        serve-ClosedOnce events (reload source g).0 w (reload-ClosedOnce source g c)
    serve-ClosedOnce (terminate ∷ events) g w c = c
    serve-ClosedOnce (server_failed ∷ events) g w c = c
    serve-ClosedOnce (request r ∷ events) g w c = serve-ClosedOnce events g _ c

    -- After a shutdown that is not forced, each transport ever made had its idle connections closed
    -- once, if it was so for those that served before the session.
    pub shutdown_closes_all :
        {A : Type 0} (has_stop : A → Bool) (authenticators : List (String × A))
        (events : List Event) (g : Gateway W) (w : W)
        → ClosedOnce g
        → (t : ℕ)
        → count t (shutdown false has_stop authenticators (session events g w)).connections_closed
          ≡ (if ltb t (session events g w).gateway.transports then 1 else 0)
    unfolding shutdown count
    shutdown_closes_all has_stop authenticators events g w c t =
        let (below, closed) = serve-ClosedOnce events g w c in ground (arith, below, closed t)

    -- The abstract gateway.
    abbrev advance : Served → Result LoadError GatewayConfig → Served
    advance s (err _) = s
    advance s (ok cfg) = record { config = cfg; generation = suc s.generation }

    abbrev respond_at : Endpoint → Served → Request → W → Result BuildError (Reply W)
    respond_at health_endpoint s r w =
        ok (health_handler endpoints.timestamp endpoints.encode endpoints.checker s.config r w)
    respond_at metrics_endpoint s r w = ok (endpoints.metrics_handler r w)
    respond_at any_path s r w = builds s.generation s.config >>= λ h. ok (h r w)

    abbrev respond : Served → Request → W → Result BuildError (Reply W)
    respond s r w = respond_at (endpoints.pattern_of r) s r w

    abbrev world_after : W → Result BuildError (Reply W) → W
    world_after w (err _) = w
    world_after w (ok answer) = answer.world

    unfoldable pub answers : List Event → Served → W → Served × List (Result BuildError (Reply W))
    answers [] s w = (s, [])
    answers (hangup source ∷ events) s w = answers events (advance s (loads source)) w
    answers (terminate ∷ events) s w = (s, [])
    answers (server_failed ∷ events) s w = (s, [])
    answers (request r ∷ events) s w =
        let answer = respond s r w in
        let (s', rest) = answers events s (world_after w answer) in (s', answer ∷ rest)

    -- The process serves with the pipeline of the last configuration that loaded.
    pub record Implements (g : Gateway W) (s : Served) : Type 0 where
      pub config : g.config ≡ s.config
      pub transports : g.transports ≡ suc s.generation
      pub transport : g.current.transport ≡ s.generation
      pub handler : builds s.generation s.config ≡ ok g.current.handler

    respond-Implements :
        (e : Endpoint) (g : Gateway W) (s : Served) (r : Request) (w : W)
        → Implements g s
        → respond_at e s r w
          ≡ ok (
              serve_at net re d has_unresolved_env_var marshal float_equal deps layers path
                endpoints e g r w)
    unfolding serve_at
    respond-Implements health_endpoint g s r w i =
        ap
          (λ cfg.
            ok (health_handler endpoints.timestamp endpoints.encode endpoints.checker cfg r w))
          (sym i.config)
    respond-Implements metrics_endpoint g s r w i = refl
    respond-Implements any_path g s r w i =
        ap (λ (o : Result BuildError (Handler W)). o >>= λ h. ok (h r w)) i.handler

    advance-Implements :
        is_some (re.compile "") ≡ true
        → (g : Gateway W) (s : Served) (source : Source) → Implements g s
        → Implements (reload source g).0 (advance s (loads source))
    advance-Implements e g s source i = elim (Result-cases (loads source)) [
      | inl (f, l) ↦
          subst (λ o. Implements (reload source g).0 (advance s o)) (sym l)
            (subst (λ g'. Implements g' s) (sym (handle_reload_failed source g f l)) i)
      | inr (cfg, l) ↦
          let (h, b) = loads-builds e source cfg g.transports l in
          subst (λ o. Implements (reload source g).0 (advance s o)) (sym l)
            (subst (λ g'. Implements g' (advance s (ok cfg)))
              (sym (handle_reload_loaded source g cfg h l b))
              (record {
                config = refl;
                transports = ap (λ n. suc n) i.transports;
                transport = i.transports;
                handler = subst (λ t. builds t cfg ≡ ok h) i.transports b;
              }))
    ]

    -- If the empty regular expression compiles and a process serves the last configuration that
    -- loaded: after any events it still does, and each request got the answer of the pipeline of the
    -- last configuration that had loaded when it came.
    pub serve-Implements :
        is_some (re.compile "") ≡ true
        → (events : List Event) (g : Gateway W) (s : Served) (w : W) → Implements g s
        → Implements (session events g w).gateway (answers events s w).0
          × (map ok (session events g w).replies ≡ (answers events s w).1)
    unfolding serve serve_request answers
    serve-Implements e [] g s w i = (i, refl)
    serve-Implements e (hangup source ∷ events) g s w i =
        serve-Implements e events (reload source g).0 (advance s (loads source)) w
          (advance-Implements e g s source i)
    serve-Implements e (terminate ∷ events) g s w i = (i, refl)
    serve-Implements e (server_failed ∷ events) g s w i = (i, refl)
    serve-Implements e (request r ∷ events) g s w i =
        let answer =
          serve_request net re d has_unresolved_env_var marshal float_equal deps layers path
            endpoints g r w in
        let (j, rest) = serve-Implements e events g s answer.world i in
        rw (respond-Implements (endpoints.pattern_of r) g s r w i) (j, ap (λ l. ok answer ∷ l) rest)
