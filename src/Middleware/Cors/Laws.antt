-- ===== src/Middleware/Cors/Laws.antt =====
-- What the client gets through the CORS middleware.
use tanugate.Common.{
  ℕ, ◌≡◌, ◌≢◌, refl, sym, ap, ◌∙◌, ◌↔◌, String, true, false, none, some, List, [], ◌∷◌, contains,
  ◌===◌, ℤ, arith, eq_iff,
}
use tanugate.Http.{
  Request, Handler, Call, set_header, add_header, del_header, write_header, write, flush, Bytes,
}
use tanugate.Http.Headers
use tanugate.Http.Headers.{Header}
use tanugate.Http.Wire.{Wire, fresh, perform, run, run_committed, run_same, is_informational}
use tanugate.Middleware.Writer.Tracking.{is_orderly}
use tanugate.Config.{CorsConfig}
use tanugate.Middleware.Cors.{resolve_allow_origin, cors_calls, cors_middleware, is_preflight}
use tanugate.Middleware.Cors.Injected.{
  with_cors, run-inject, is_wildcard-eq-contains, is_origin_allowed-eq-contains,
}
use tanugate.Middleware.Cors.Preflight.{preflight_status, preflight_body, preflight_origin}

cors_calls_sent :
    (origin : String) (cfg : CorsConfig) (cs : List Call) → cors_calls origin cfg true cs ≡ cs
unfolding cors_calls
cors_calls_sent origin cfg [] = refl
cors_calls_sent origin cfg (c ∷ cs) = ground (arith, cors_calls_sent origin cfg cs)

-- Two responses with the same status and body, where the headers sent with the second are those of
-- the first with the CORS headers set.
pub record IsDecorated (origin : String) (cfg : CorsConfig) (v u : Wire) : Type 0 where
  pub status : u.status ≡ v.status
  pub body : u.body ≡ v.body
  pub sent : v.status ≢ none → u.sent ≡ with_cors origin cfg v.sent

-- The same calls after the status is sent.
IsDecorated-run :
    (origin : String) (cfg : CorsConfig) (v u : Wire) (cs : List Call) (code : ℕ)
    → v.status ≡ some code
    → u.status ≡ some code
    → u.body ≡ v.body
    → u.sent ≡ with_cors origin cfg v.sent
    → IsDecorated origin cfg (run v cs) (run u (cors_calls origin cfg true cs))
IsDecorated-run origin cfg v u cs code a b c d =
    let (va, vs) = run_committed v cs code a in
    let (ub, us) = run_committed u cs code b in
    rw (cors_calls_sent origin cfg cs) (record {
      status = ub ∙ sym va;
      body = run_same u v cs code b a c;
      sent = λ _. us ∙ d ∙ ap (with_cors origin cfg) (sym vs);
    })

-- The wires behind a first status or first bytes, without the middleware and with it.
abbrev Opened : String → CorsConfig → Wire → Wire → Type 0
Opened origin cfg v u =
    (code : ℕ) × (v.status ≡ some code)
    × (u.status ≡ some code)
    × (u.body ≡ v.body)
    × (u.sent ≡ with_cors origin cfg v.sent)

open_status :
    (origin : String) (cfg : CorsConfig) (w : Wire) (code : ℕ)
    → w.status ≡ none
    → is_informational code ≡ false
    → Opened origin cfg
        (perform w (write_header code))
        (perform (record w { header = with_cors origin cfg w.header }) (write_header code))
unfolding perform
open_status origin cfg w code n f = (code, ground arith, ground arith, ground arith, ground arith)

open_write :
    (origin : String) (cfg : CorsConfig) (w : Wire) (b : Bytes)
    → w.status ≡ none
    → Opened origin cfg (perform w (write b)) (
        perform
          (perform (record w { header = with_cors origin cfg w.header }) (write_header 200))
          (write b))
unfolding perform
open_write origin cfg w b n = (200, ground arith, ground arith, ground arith, ground arith)

decorates :
    (origin : String) (cfg : CorsConfig) (w : Wire) (cs : List Call)
    → w.status ≡ none
    → is_orderly cs ≡ true
    → IsDecorated origin cfg (run w cs) (run w (cors_calls origin cfg false cs))
unfolding cors_calls run perform
decorates origin cfg w [] n o = record { status = refl; body = refl; sent = λ h. absurd (h n) }
decorates origin cfg w (set_header k x ∷ cs) n o =
    decorates origin cfg (perform w (set_header k x)) cs n o
decorates origin cfg w (add_header k x ∷ cs) n o =
    decorates origin cfg (perform w (add_header k x)) cs n o
decorates origin cfg w (del_header k ∷ cs) n o =
    decorates origin cfg (perform w (del_header k)) cs n o
decorates origin cfg w (write_header code ∷ cs) n o =
    let (c, a, b, same, sent) = open_status origin cfg w code n (ground arith) in
    rw (run-inject origin cfg w (write_header code ∷ cors_calls origin cfg true cs)) (
      IsDecorated-run origin cfg (perform w (write_header code))
        (perform (record w { header = with_cors origin cfg w.header }) (write_header code)) cs c a b
        same sent)
decorates origin cfg w (write b ∷ cs) n o =
    let (c, a, d, same, sent) = open_write origin cfg w b n in
    rw (run-inject origin cfg w (write_header 200 ∷ (write b ∷ cors_calls origin cfg true cs))) (
      IsDecorated-run origin cfg (perform w (write b))
        (perform (perform (record w { header = with_cors origin cfg w.header }) (write_header 200))
          (write b))
        cs c a d same sent)
decorates origin cfg w (flush ∷ cs) n o = cc

origin_of_preflight : (r : Request) → is_preflight r ≡ true → Headers.get r.header "Origin" ≢ ""
unfolding is_preflight
origin_of_preflight r h = ground (arith, eq_iff (Headers.get r.header "Origin") "")

has_origin : (s : String) → s ≢ "" → (s === "") ≡ false
has_origin s h = ground (arith, eq_iff s "")

module _ (print_int : ℤ → String) {W : Type 0} (cfg : CorsConfig) (next : Handler W) (r : Request)
    (w : W) where
  -- A request with an origin that is no preflight goes to the handler, and where the handler starts
  -- with a final status or with bytes, the response has the handler's status and body, and its
  -- headers with `Vary` and, for an origin that is granted, the other CORS headers set.
  pub cors_decorates :
      (h : Header)
      → Headers.get r.header "Origin" ≢ ""
      → is_preflight r ≡ false
      → is_orderly (next r w).calls ≡ true
      → ((cors_middleware print_int cfg next r w).world ≡ (next r w).world)
        × ((cors_middleware print_int cfg next r w).panicked ≡ (next r w).panicked)
        × IsDecorated
            (Headers.get r.header "Origin")
            cfg
            (run (fresh h) (next r w).calls)
            (run (fresh h) (cors_middleware print_int cfg next r w).calls)
  unfolding cors_middleware
  cors_decorates h o p q =
      rw (has_origin _ o, p)
        (
          refl,
          refl,
          decorates (Headers.get r.header "Origin") cfg (fresh h) (next r w).calls refl q,
        )

  -- A preflight is answered with status 204 and no body, it names the resolved origin if the origin
  -- is allowed, and it does not reach the handler: the world is unchanged.
  pub cors_preflight :
      (h : Header)
      → is_preflight r ≡ true
      → let origin = Headers.get r.header "Origin" in
        let out = run (fresh h) (cors_middleware print_int cfg next r w).calls in
        ((cors_middleware print_int cfg next r w).world ≡ w)
        × (out.status ≡ some 204)
        × (out.body ≡ [])
        × (resolve_allow_origin origin cfg ≢ ""
            → Headers.get out.sent "Access-Control-Allow-Origin" ≡ resolve_allow_origin origin cfg)
  unfolding cors_middleware
  cors_preflight h p =
      let o = has_origin _ (origin_of_preflight r p) in
      rw (o, p)
        (
          refl,
          preflight_status print_int cfg _ (fresh h) refl,
          preflight_body print_int cfg _ (fresh h) refl,
          preflight_origin print_int cfg _ (fresh h) refl,
        )

-- An origin is refused exactly if the list holds neither it nor "*", and the answer is "*" exactly
-- if the list holds "*" and credentials are not allowed.
pub resolve_allow_origin_iff :
    (origin : String) (cfg : CorsConfig)
    → origin ≢ ""
    → origin ≢ "*"
    → ((resolve_allow_origin origin cfg ≡ "") ↔ (
        (contains "*" cfg.allowed_origins ≡ false) × (contains origin cfg.allowed_origins ≡ false)))
      × ((resolve_allow_origin origin cfg ≡ "*")
          ↔ ((contains "*" cfg.allowed_origins ≡ true) × (cfg.allow_credentials ≡ false)))
unfolding resolve_allow_origin
resolve_allow_origin_iff origin cfg e s =
    rw
      (
        is_origin_allowed-eq-contains origin cfg.allowed_origins,
        is_wildcard-eq-contains cfg.allowed_origins,
      )
      (
        (
          (λ h. (ground (arith, eq_iff "*" ""), ground (arith, eq_iff "*" ""))),
          λ (a, b). ground arith,
        ),
        (
          (λ h. (ground (arith, eq_iff "*" ""), ground (arith, eq_iff "*" ""))),
          λ (a, b). ground arith,
        ),
      )
