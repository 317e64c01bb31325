-- ===== src/Auth/Guard.antt =====
-- What stands between a request and the handler behind the auth middleware.
use tanugate.Common.{
  ◌<>◌, ◌≡◌, ◌≢◌, refl, sym, ap, append-nil, ◌∙◌, ◌⊎◌, String, none, some, List, [], ◌∷◌, ◌++◌,
  lookup, ok, err, eq_iff, arith,
}
use tanugate.Http.{AuthResult, Request, Handler, reply, with_context}
use tanugate.Auth.{
  Authenticator, with_auth_result, write_error, Verdict, unknown_provider, accepted, all_failed,
  try_providers, answer, new_auth_middleware,
}

module _ {W : Type 0} (authenticators : List (String × Authenticator W)) (r : Request) where
  -- A provider that is defined and refuses the request, with the worlds before and after.
  pub data Refuses : String → W → W → Type 0 where
    refuses :
        {name : String} {w w' : W} (authn : Authenticator W) (e : String)
        → lookup name authenticators ≡ some authn
        → authn r w ≡ (err e, w')
        → Refuses name w w'

  -- Providers that refuse the request, one after the other.
  pub data RefuseAll : List String → W → W → Type 0 where
    refuse_none : {w : W} → RefuseAll [] w w
    refuse_more :
        {name : String} {names : List String} {w v u : W}
        → Refuses name w v
        → RefuseAll names v u
        → RefuseAll (name ∷ names) w u

  -- A provider that is defined and accepts the request.
  pub data Accepts : String → AuthResult → W → W → Type 0 where
    accepts :
        {name : String} {result : AuthResult} {w w' : W} (authn : Authenticator W)
        → lookup name authenticators ≡ some authn
        → authn r w ≡ (ok result, w')
        → Accepts name result w w'

  try_accepted :
      (name : String) (names errors : List String) (result : AuthResult) (w w' : W)
      → Accepts name result w w'
      → try_providers authenticators (name ∷ names) errors r w
        ≡ accepted (record result { provider = name }) w'
  unfolding try_providers
  try_accepted name names errors result w w' (accepts authn h k) = ground arith

  try_refused_one :
      (name : String) (names errors : List String) (w w' : W)
      → Refuses name w w'
      → (es : List String) × (try_providers authenticators (name ∷ names) errors r w
          ≡ try_providers authenticators names es r w')
  unfolding try_providers
  try_refused_one name names errors w w' (refuses authn e h k) =
      ((name <> ": " <> e) ∷ errors, ground arith)

  try_refused :
      (names more errors : List String) (w w' : W)
      → RefuseAll names w w'
      → (es : List String) × (try_providers authenticators (names ++ more) errors r w
          ≡ try_providers authenticators more es r w')
  try_refused [] more errors w w' refuse_none = (errors, refl)
  try_refused (name ∷ names) more errors w u (refuse_more {v} h k) =
      let (es, e) = try_refused_one name (names ++ more) errors w v h in
      let (fs, f) = try_refused names more es v u k in (fs, e ∙ f)

  -- Providers of the list refused, and the next one accepts the request.
  pub data Decides (names : List String) (w : W) : String → AuthResult → W → Type 0 where
    decides :
        {name : String} {result : AuthResult} {u : W} (before more : List String) (v : W)
        → names ≡ before ++ name ∷ more
        → RefuseAll before w v
        → Accepts name result v u
        → Decides names w name result u

  -- Providers of the list refused, and the next one is not defined.
  pub data Misses (names : List String) (w : W) : W → Type 0 where
    misses :
        {v : W} (before more : List String) (name : String)
        → names ≡ before ++ name ∷ more
        → RefuseAll before w v
        → lookup name authenticators ≡ none
        → Misses names w v

  -- What the loop reports.
  abbrev Decided : List String → W → Verdict W → Type 0
  Decided names w verdict =
      ((name : String) × (result : AuthResult) × (u : W) × Decides names w name result u
        × (verdict ≡ accepted (record result { provider = name }) u))
      ⊎ ((es : List String) × (v : W) × RefuseAll names w v × (verdict ≡ all_failed es v))
      ⊎ ((v : W) × Misses names w v × (verdict ≡ unknown_provider v))

  append-not-nil : (xs : List String) (y : String) (ys : List String) → (xs ++ y ∷ ys) ≢ []
  append-not-nil [] y ys h = cc
  append-not-nil (x ∷ xs) y ys h = cc

  module _ (next : Handler W) where
    middleware_answers :
        (names : List String) (w : W)
        → names ≢ []
        → names ≢ ("none" ∷ [])
        → new_auth_middleware authenticators names next r w
          ≡ answer next r (try_providers authenticators names [] r w)
    unfolding new_auth_middleware
    middleware_answers [] w n h = absurd (n refl)
    middleware_answers (name ∷ []) w n h = ground (arith, eq_iff name "none")
    middleware_answers (name ∷ (other ∷ names)) w n h = refl

    -- Unless the list is just "none", providers are tried in order: if those before the first that
    -- accepts refuse, the handler runs once, in the world that they left, with that provider's
    -- result in the context.
    pub new_auth_middleware-Accepts :
        (names more : List String) (name : String) (result : AuthResult) (w v u : W)
        → (names ++ name ∷ more) ≢ ("none" ∷ [])
        → RefuseAll names w v
        → Accepts name result v u
        → new_auth_middleware authenticators (names ++ name ∷ more) next r w
          ≡ next (with_context r (with_auth_result r.context (record result { provider = name }))) u
    new_auth_middleware-Accepts names more name result w v u n h k =
        let (es, e) = try_refused names (name ∷ more) [] w v h in
        middleware_answers (names ++ name ∷ more) w (append-not-nil names name more) n
        ∙ ap (answer next r) (e ∙ try_accepted name more es result v u k)

    -- If every provider refuses, the answer is 401 and the handler does not run.
    pub new_auth_middleware-refuses :
        (name : String) (names : List String) (w v : W)
        → (name ∷ names) ≢ ("none" ∷ [])
        → RefuseAll (name ∷ names) w v
        → new_auth_middleware authenticators (name ∷ names) next r w
          ≡ reply (write_error 401 "authentication failed") v
    unfolding try_providers
    new_auth_middleware-refuses name names w v n h =
        let (es, e) = try_refused (name ∷ names) [] [] w v h in
        middleware_answers (name ∷ names) w (λ x. cc) n
        ∙ ap (answer next r)
            (ap (λ l. try_providers authenticators l [] r w) (sym (append-nil (name ∷ names))) ∙ e)
