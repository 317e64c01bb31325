-- ===== src/Gateway.antt =====
-- The main program: cmd/gateway/main.go.
-- A reload loads the configuration, builds a new pipeline and swaps it in. The cleanup function of a
-- pipeline closes the idle connections of its transport; transports are numbered in the order in
-- which BuildHandler makes them. What the signal SIGHUP finds on the disk is in the event.
pub mod Health
pub mod Startup
pub mod Reload
mod Tests
use tanugate.Common.{
  ℕ, suc, String, Bool, true, false, Option, none, some, List, [], ◌∷◌, ◌++◌, map, Result, ok, err,
  ◌===◌, is_some, if◌then◌else◌,
}
use tanugate.Http.{Bytes, Request, Reply, Handler}
use tanugate.Config.{GatewayConfig}
use tanugate.Config.Yaml.{Node}
use tanugate.Config.Resolve.{Decoder}
use tanugate.Config.Load.{Source, LoadError, load_config}
use tanugate.Config.Changes.{Warning, Change, non_reloadable_changes, diff_summary}
use tanugate.RateLimit.{Net}
use tanugate.Router.{Regexp}
use tanugate.Pipeline.{BuildError, FactoryDeps, Layers, build_handler}
use tanugate.Gateway.Health.{HealthChecker, HealthResponse, health_handler}

pub data LogLevel : Type 0 where
  debug info warn error : LogLevel

unfoldable pub parse_log_level : String → LogLevel
parse_log_level level =
    if level === "debug"
    then debug
    else if level === "info"
    then info
    else if level === "warn"
    then warn
    else if level === "error"
    then error
    else info

-- `handlerRef`: the cleanup function is given by its transport.
pub record HandlerRef (W : Type 0) : Type 0 where
  pub handler : Handler W
  pub transport : ℕ

-- The two atomic pointers, the number of transports made so far, and the transports whose idle
-- connections were closed, the last one first.
pub record Gateway (W : Type 0) : Type 0 where
  pub config : GatewayConfig
  pub current : HandlerRef W
  pub transports : ℕ
  pub idle_closed : List ℕ

-- What a reload logs.
pub data Entry : Type 0 where
  invalid_configuration : LoadError → Entry
  change_ignored : Warning → Entry
  could_not_build_handler : BuildError → Entry
  reloaded : List Change → Entry

-- The patterns of the ServeMux.
pub data Endpoint : Type 0 where
  health_endpoint metrics_endpoint any_path : Endpoint

-- What the server hands requests to, beside the pipeline.
pub record Endpoints (W : Type 0) : Type 0 where
  pub pattern_of : Request → Endpoint
  pub metrics_handler : Handler W
  pub checker : Option (HealthChecker W)
  pub timestamp : W → String
  pub encode : HealthResponse → Bytes

-- What the main loop and the server get: SIGHUP, another signal, an error of the listener, a request.
pub data Event : Type 0 where
  hangup : Source → Event
  terminate : Event
  server_failed : Event
  request : Request → Event

-- What happened until the loop ended, or so far: `server_error` is for an error of the listener.
pub record Session (W : Type 0) : Type 0 where
  pub gateway : Gateway W
  pub world : W
  pub replies : List (Reply W)
  pub log : List Entry
  pub server_error : Bool

abbrev pub ended : {W : Type 0} → Gateway W → W → Bool → Session W
ended g w failed = record { gateway = g; world = w; replies = []; log = []; server_error = failed }

-- The new pipeline serves, and the idle connections of the old one are closed.
abbrev pub swap : {W : Type 0} → GatewayConfig → Handler W → Gateway W → Gateway W
swap cfg h g = record {
  config = cfg;
  current = record { handler = h; transport = g.transports };
  transports = suc g.transports;
  idle_closed = g.current.transport ∷ g.idle_closed;
}

-- The cleanup function of a pipeline that could not be built.
abbrev pub discard : {W : Type 0} → Gateway W → Gateway W
discard g = record g { transports = suc g.transports; idle_closed = g.transports ∷ g.idle_closed }

module _ (net : Net) (re : Regexp) (d : Decoder) (has_unresolved_env_var : String → Bool)
    (marshal : Node → Option Bytes) (float_equal : ℕ → ℕ → Bool) {W : Type 0}
    (deps : FactoryDeps net W) (layers : ℕ → Layers W) (path : String) where
  abbrev pub load : Source → Result LoadError GatewayConfig
  load source = load_config (λ p. is_some (re.compile p)) has_unresolved_env_var d source path

  -- `buildHandler`, on the transport with this number.
  abbrev pub build : ℕ → GatewayConfig → Result BuildError (Handler W)
  build transport cfg = build_handler net re d deps (layers transport) cfg

  -- The end of `handleReload`, with what `buildHandler` returned.
  abbrev pub install :
      Gateway W
      → GatewayConfig
      → List Entry
      → Result BuildError (Handler W)
      → Gateway W × List Entry
  install g cfg ignored (err e) = (discard g, ignored ++ could_not_build_handler e ∷ [])
  install g cfg ignored (ok h) =
      (swap cfg h g, ignored ++ reloaded (diff_summary marshal float_equal g.config cfg) ∷ [])

  -- `handleReload` after the configuration is read.
  abbrev pub reload_to : Gateway W → Result LoadError GatewayConfig → Gateway W × List Entry
  reload_to g (err e) = (g, invalid_configuration e ∷ [])
  reload_to g (ok cfg) =
      install g cfg (map change_ignored (non_reloadable_changes g.config cfg))
        (build g.transports cfg)

  -- `handleReload`.
  unfoldable pub handle_reload : Source → Gateway W → Gateway W × List Entry
  handle_reload source g = reload_to g (load source)

  module _ (endpoints : Endpoints W) where
    open endpoints use {pattern_of, metrics_handler, checker, timestamp, encode}

    -- The handlers that the mux has, the last one `current.Load().h.ServeHTTP`.
    unfoldable pub serve_at : Endpoint → Gateway W → Handler W
    unfolding health_handler
    serve_at health_endpoint g r w = health_handler timestamp encode checker g.config r w
    serve_at metrics_endpoint g r w = metrics_handler r w
    serve_at any_path g r w = g.current.handler r w

    unfoldable pub serve_request : Gateway W → Handler W
    unfolding serve_at
    serve_request g r w = serve_at (pattern_of r) g r w

    -- The loop of `runServe`, with the requests in between.
    unfoldable pub serve : List Event → Gateway W → W → Session W
    unfolding handle_reload serve_request
    serve [] g w = ended g w false
    serve (hangup source ∷ events) g w =
        let (g', logged) = handle_reload source g in
        let rest = serve events g' w in record rest { log = logged ++ rest.log }
    serve (terminate ∷ events) g w = ended g w false
    serve (server_failed ∷ events) g w = ended g w true
    serve (request r ∷ events) g w =
        let answer = serve_request g r w in
        let rest = serve events g answer.world in record rest { replies = answer ∷ rest.replies }

-- What is left when the process ends.
pub record Exit : Type 0 where
  pub connections_closed : List ℕ
  pub stopped : List String
  pub code : ℕ

-- The authenticators that have a method Stop.
unfoldable pub stop_all : {A : Type 0} → (A → Bool) → List (String × A) → List String
stop_all has_stop [] = []
stop_all has_stop ((name, authn) ∷ authenticators) =
    let rest = stop_all has_stop authenticators in if has_stop authn then name ∷ rest else rest

-- The end of `runServe`; `forced` says that `srv.Shutdown` failed.
unfoldable pub shutdown : {W A : Type 0} → Bool → (A → Bool) → List (String × A) → Session W → Exit
unfolding stop_all
shutdown forced has_stop authenticators s =
    if forced
    then record { connections_closed = s.gateway.idle_closed; stopped = []; code = 1 }
    else record {
      connections_closed = s.gateway.current.transport ∷ s.gateway.idle_closed;
      stopped = stop_all has_stop authenticators;
      code = if s.server_error then 1 else 0;
    }
