-- ===== src/Config/Resolve.antt =====
-- Resolution of middleware references: internal/config/resolve.go.
-- `yaml.Node.Decode` is a parameter, one decoder for each typed configuration.
pub mod Laws
use tanugate.Common.{
  ℕ, pos, ◌≡◌, ◌≢◌, refl, ◌∙◌, ap, ◌⊎◌, inl, inr, String, Bool, true, false, Option, none, some,
  List, [], ◌∷◌, lookup, Result, ok, err, ◌>>=◌, map_err, >>=-eq-ok, ◌===◌, if◌then◌else◌, arith,
  eq_iff, Option-cases, length, suc, All, map,
}
use tanugate.Config.Yaml.{Node, is_present, merge_yaml_nodes, MergeError}
use tanugate.Config.{
  MiddlewareDefinition, MiddlewareRef, RateLimitConfig, AuthMiddlewareConfig, CorsConfig,
  TransformConfig, TypedConfig, cors_config, rate_limit_config, auth_config, transform_config,
  ResolvedMiddleware,
}

-- `node.Decode(&cfg)`: an error's text, or the decoded value. Each `zero_` is the zero value of its
-- type, which is kept when there is no node.
pub record Decoder : Type 0 where
  pub decode_cors : Node → Result String CorsConfig
  pub decode_rate_limit : Node → Result String RateLimitConfig
  pub decode_auth : Node → Result String AuthMiddlewareConfig
  pub decode_transform : Node → Result String TransformConfig

pub data DecodeError : Type 0 where
  decoding : String → DecodeError
  unknown_type : String → DecodeError

pub data ResolveError : Type 0 where
  ref_not_found : String → ResolveError
  merging : String → MergeError → ResolveError
  decoding_type : String → String → DecodeError → ResolveError

abbrev pub zero_cors : CorsConfig
zero_cors = record {
  allowed_origins = [];
  allowed_methods = [];
  allowed_headers = [];
  exposed_headers = [];
  allow_credentials = false;
  max_age = pos 0;
}

abbrev pub zero_rate_limit : RateLimitConfig
zero_rate_limit = record { requests = pos 0; window = pos 0; key_source = ""; algorithm = "" }

abbrev pub zero_transform : TransformConfig
zero_transform = record { request = none; response = none; max_body_size = pos 0 }

unfoldable pub apply_rate_limit_defaults : RateLimitConfig → RateLimitConfig
apply_rate_limit_defaults cfg =
    if cfg.algorithm === "" then record cfg { algorithm = "sliding_window" } else cfg

abbrev pub decode_or_zero :
    {A : Type 0} → (Node → Result String A) → A → Node → Result DecodeError A
decode_or_zero decode zero node =
    if is_present node then map_err decoding (decode node) else ok zero

module _ (d : Decoder) where
  unfoldable pub decode_typed_config : String → Node → Result DecodeError TypedConfig
  unfolding apply_rate_limit_defaults
  decode_typed_config type_name node =
      if type_name === "cors"
      then (decode_or_zero d.decode_cors zero_cors node >>= λ cfg. ok (cors_config cfg))
      else (if type_name === "rate_limit"
          then (decode_or_zero d.decode_rate_limit zero_rate_limit node >>= λ cfg.
              ok (rate_limit_config (apply_rate_limit_defaults cfg)))
          else (if type_name === "auth"
              then (decode_or_zero d.decode_auth (record { providers = [] }) node >>= λ cfg.
                  ok (auth_config cfg))
              else (if type_name === "transform"
                  then (decode_or_zero d.decode_transform zero_transform node >>= λ cfg.
                      ok (transform_config cfg))
                  else err (unknown_type type_name))))

  -- The node that a reference decodes.
  unfoldable pub effective_node : MiddlewareRef → MiddlewareDefinition → Result ResolveError Node
  effective_node ref def =
      if is_present ref.config
      then map_err (merging ref.ref) (merge_yaml_nodes def.config ref.config)
      else ok def.config

  unfoldable pub resolve_one :
      List (String × MiddlewareDefinition) → MiddlewareRef → Result ResolveError ResolvedMiddleware
  unfolding effective_node
  resolve_one defs ref = elim (lookup ref.ref defs) [
    | none ↦ err (ref_not_found ref.ref)
    | some def ↦ do
      node ← effective_node ref def
      typed ← map_err (decoding_type ref.ref def.type) (decode_typed_config def.type node)
      ok (record { name = ref.ref; type = def.type; config = typed })
  ]

  unfoldable pub resolve_middlewares :
      List MiddlewareRef
      → List (String × MiddlewareDefinition)
      → Result ResolveError (List ResolvedMiddleware)
  resolve_middlewares [] defs = ok []
  resolve_middlewares (ref ∷ refs) defs = do
    mw ← resolve_one defs ref
    resolved ← resolve_middlewares refs defs
    ok (mw ∷ resolved)

  -- The typed configuration fits the type's name.
  abbrev pub Fits : String → TypedConfig → Type 0
  Fits name (cors_config cfg) = name ≡ "cors"
  Fits name (rate_limit_config cfg) = (name ≡ "rate_limit") × (cfg.algorithm ≢ "")
  Fits name (auth_config cfg) = name ≡ "auth"
  Fits name (transform_config cfg) = name ≡ "transform"
