-- ===== src/Config/Resolve/Laws.antt =====
-- What a successful resolution gives.
use tanugate.Common.{
  ◌≡◌, ◌≢◌, ap, sym, subst, inl, inr, String, some, List, [], ◌∷◌, lookup, Result, ok, err, ◌>>=◌,
  map_err, >>=-eq-ok, ◌===◌, arith, eq_iff, Option-cases, Bool-cases,
}
use tanugate.Config.Yaml.{Node}
use tanugate.Config.{
  MiddlewareDefinition, MiddlewareRef, RateLimitConfig, TypedConfig, cors_config, rate_limit_config,
  auth_config, transform_config, ResolvedMiddleware,
}
use tanugate.Config.Resolve.{
  Decoder, DecodeError, decoding_type, decode_typed_config, apply_rate_limit_defaults, resolve_one,
  resolve_middlewares, effective_node, Fits, decode_or_zero, zero_cors, zero_rate_limit,
  zero_transform,
}

apply_rate_limit_defaults_algorithm :
    (cfg : RateLimitConfig) → (apply_rate_limit_defaults cfg).algorithm ≢ ""
unfolding apply_rate_limit_defaults
apply_rate_limit_defaults_algorithm cfg =
    ground (arith, eq_iff cfg.algorithm "", eq_iff "sliding_window" "")

map_err-eq-ok {ℓ} :
    {E F A : Type ℓ} (f : E → F) (m : Result E A) {a : A} → map_err f m ≡ ok a → m ≡ ok a
map_err-eq-ok f (ok a) h = cc
map_err-eq-ok f (err e) h = cc

ok-ne-err {ℓ} : {E A : Type ℓ} {a : A} {e : E} → ok a ≡ err e → ⊥
ok-ne-err h = cc

ok-injective {ℓ} : {E A : Type ℓ} {a b : A} → ◌≡◌ {A = Result E A} (ok a) (ok b) → a ≡ b
ok-injective h = cc

module _ (d : Decoder) where
  Fits-of_bind :
      {A : Type 0} (name : String) (m : Result DecodeError A) (g : A → TypedConfig)
      {cfg : TypedConfig}
      → ((a : A) → Fits d name (g a))
      → (m >>= λ a. ok (g a)) ≡ ok cfg
      → Fits d name cfg
  Fits-of_bind name (ok a) g fits h = subst (Fits d name) (cc) (fits a)
  Fits-of_bind name (err e) g fits h = cc

  decode_typed_config-Fits :
      (name : String) (n : Node) {cfg : TypedConfig}
      → decode_typed_config d name n ≡ ok cfg
      → Fits d name cfg
  unfolding decode_typed_config
  decode_typed_config-Fits name n h = elim (Bool-cases (name === "cors")) [
    | inl is_cors ↦
        Fits-of_bind name (decode_or_zero d.decode_cors zero_cors n) (λ c. cors_config c)
          (λ _. (eq_iff name "cors").0 is_cors) (rw is_cors at h)
    | inr a ↦ elim (Bool-cases (name === "rate_limit")) [
      | inl is_rate ↦
          Fits-of_bind name (decode_or_zero d.decode_rate_limit zero_rate_limit n)
            (λ c. rate_limit_config (apply_rate_limit_defaults c))
            (λ c. ((eq_iff name "rate_limit").0 is_rate, apply_rate_limit_defaults_algorithm c))
            (rw (a, is_rate) at h)
      | inr b ↦ elim (Bool-cases (name === "auth")) [
        | inl is_auth ↦
            Fits-of_bind name (decode_or_zero d.decode_auth (record { providers = [] }) n)
              (λ c. auth_config c) (λ _. (eq_iff name "auth").0 is_auth) (rw (a, b, is_auth) at h)
        | inr c ↦ elim (Bool-cases (name === "transform")) [
          | inl is_transform ↦
              Fits-of_bind name (decode_or_zero d.decode_transform zero_transform n)
                (λ c. transform_config c) (λ _. (eq_iff name "transform").0 is_transform)
                (rw (a, b, c, is_transform) at h)
          | inr e ↦ absurd (ok-ne-err (sym (rw (a, b, c, e) at h)))
        ]
      ]
    ]
  ]

  resolve_one_lem :
      (defs : List (String × MiddlewareDefinition)) (ref : MiddlewareRef) (mw : ResolvedMiddleware)
      → resolve_one d defs ref ≡ ok mw
      → (def : MiddlewareDefinition) × (lookup ref.ref defs ≡ some def)
        × (mw.type ≡ def.type)
        × (mw.name ≡ ref.ref)
        × Fits d mw.type mw.config
  unfolding resolve_one
  resolve_one_lem defs ref mw h = elim (Option-cases (lookup ref.ref defs)) [
    | inl missing ↦ absurd (ok-ne-err (sym (rw (missing, resolve_one) at h)))
    | inr (def, found) ↦
        let (n, node, h1) = >>=-eq-ok (effective_node d ref def) _ (rw (found, resolve_one) at h) in
        let (typed, decoded, h2) =
          >>=-eq-ok (map_err (decoding_type ref.ref def.type) (decode_typed_config d def.type n)) _
            h1 in
        let e = ok-injective h2 in
        (
          def,
          found,
          sym (ap (λ m. m.type) e),
          sym (ap (λ m. m.name) e),
          subst (λ m. Fits d m.type m.config) e
              (decode_typed_config-Fits def.type n (map_err-eq-ok _ _ decoded)),
        )
  ]

  -- Each reference in turn: its definition, and what it resolves to.
  abbrev pub Resolves :
      List (String × MiddlewareDefinition) → List MiddlewareRef → List ResolvedMiddleware → Type 0
  Resolves defs [] [] = Unit
  Resolves defs (ref ∷ refs) (mw ∷ mws) =
      ((def : MiddlewareDefinition) × (lookup ref.ref defs ≡ some def)
        × (mw.type ≡ def.type)
        × (mw.name ≡ ref.ref)
        × Fits d mw.type mw.config)
      × Resolves defs refs mws
  Resolves defs [] (_ ∷ _) = ⊥
  Resolves defs (_ ∷ _) [] = ⊥

  -- If the references resolve, each of them has a definition, and gives in its place a middleware
  -- with the reference's name, the definition's type and a configuration of that type; a rate
  -- limit has an algorithm.
  pub resolve-Resolves :
      (defs : List (String × MiddlewareDefinition)) (refs : List MiddlewareRef)
      (mws : List ResolvedMiddleware)
      → resolve_middlewares d refs defs ≡ ok mws
      → Resolves defs refs mws
  unfolding resolve_middlewares
  resolve-Resolves defs [] [] h = tt
  resolve-Resolves defs [] (mw ∷ mws) h = cc
  resolve-Resolves defs (ref ∷ refs) mws h =
      let (mw, one, h1) = >>=-eq-ok (resolve_one d defs ref) _ h in
      let (rest, more, h2) = >>=-eq-ok (resolve_middlewares d refs defs) _ h1 in
      subst (Resolves defs (ref ∷ refs)) (ok-injective h2)
        (resolve_one_lem defs ref mw one, resolve-Resolves defs refs rest more)
