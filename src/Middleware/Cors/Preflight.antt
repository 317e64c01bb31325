-- ===== src/Middleware/Cors/Preflight.antt =====
-- The answer to a preflight: `handlePreflight` in internal/middleware/cors.go.
use tanugate.Common.{◌≡◌, ◌≢◌, String, none, some, ℤ, arith, eq_iff}
use tanugate.Http.Headers
use tanugate.Http.Headers.{Header}
use tanugate.Http.Wire.{Wire, perform, run}
use tanugate.Config.{CorsConfig}
use tanugate.Middleware.Cors.{resolve_allow_origin, handle_preflight}

-- Setting one of the other headers keeps the allowed origin.
module _ (h : Header) (v : String) where
  pub get-set_origin :
      Headers.get (Headers.set h "Access-Control-Allow-Origin" v) "Access-Control-Allow-Origin" ≡ v
  unfolding Headers.canonical
  get-set_origin = Headers.get-set h "Access-Control-Allow-Origin" "Access-Control-Allow-Origin" v

  pub get-set_methods :
      Headers.get (Headers.set h "Access-Control-Allow-Methods" v) "Access-Control-Allow-Origin"
      ≡ Headers.get h "Access-Control-Allow-Origin"
  unfolding Headers.canonical
  get-set_methods = Headers.get-set h "Access-Control-Allow-Methods" "Access-Control-Allow-Origin" v

  pub get-set_headers :
      Headers.get (Headers.set h "Access-Control-Allow-Headers" v) "Access-Control-Allow-Origin"
      ≡ Headers.get h "Access-Control-Allow-Origin"
  unfolding Headers.canonical
  get-set_headers = Headers.get-set h "Access-Control-Allow-Headers" "Access-Control-Allow-Origin" v

  pub get-set_max_age :
      Headers.get (Headers.set h "Access-Control-Max-Age" v) "Access-Control-Allow-Origin"
      ≡ Headers.get h "Access-Control-Allow-Origin"
  unfolding Headers.canonical
  get-set_max_age = Headers.get-set h "Access-Control-Max-Age" "Access-Control-Allow-Origin" v

  pub get-set_credentials :
      Headers.get (Headers.set h "Access-Control-Allow-Credentials" v) "Access-Control-Allow-Origin"
      ≡ Headers.get h "Access-Control-Allow-Origin"
  unfolding Headers.canonical
  get-set_credentials =
      Headers.get-set h "Access-Control-Allow-Credentials" "Access-Control-Allow-Origin" v

  pub get-set_exposed :
      Headers.get (Headers.set h "Access-Control-Expose-Headers" v) "Access-Control-Allow-Origin"
      ≡ Headers.get h "Access-Control-Allow-Origin"
  unfolding Headers.canonical
  get-set_exposed =
      Headers.get-set h "Access-Control-Expose-Headers" "Access-Control-Allow-Origin" v

pub ruleset origin_kept = (
  get-set_origin, get-set_methods, get-set_headers, get-set_max_age, get-set_credentials,
  get-set_exposed,
)

module _ (print_int : ℤ → String) (cfg : CorsConfig) (origin : String) (w : Wire) where
  pub preflight_status :
      w.status ≡ none → (run w (handle_preflight print_int origin cfg)).status ≡ some 204
  unfolding run perform handle_preflight
  preflight_status n = ground arith

  pub preflight_body :
      w.status ≡ none → (run w (handle_preflight print_int origin cfg)).body ≡ w.body
  unfolding run perform handle_preflight
  preflight_body n = ground arith

  pub preflight_origin :
      w.status ≡ none
      → resolve_allow_origin origin cfg ≢ ""
      → Headers.get
          (run w (handle_preflight print_int origin cfg)).sent
          "Access-Control-Allow-Origin"
        ≡ resolve_allow_origin origin cfg
  unfolding run perform handle_preflight
  preflight_origin n a = grind (arith, origin_kept, eq_iff (resolve_allow_origin origin cfg) "")
