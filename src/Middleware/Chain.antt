-- ===== src/Middleware/Chain.antt =====
-- Chains of middlewares, recovery from panics and request ids: internal/middleware/chain.go,
-- recovery.go and requestid.go.
use tanugate.Common.{
  ℕ, ◌≡◌, ◌≢◌, refl, ap, ◌∙◌, String, true, false, none, some, List, [], ◌∷◌, ◌++◌, ◌===◌, eq_iff,
  arith, Bool-cases, inl, inr, if◌then◌else◌,
}
use tanugate.Http.{Request, Handler, Middleware, Reply, Call, set_header, write_json}
use tanugate.Http.Headers
use tanugate.Http.Headers.{Header}
use tanugate.Http.Wire.{Wire, fresh, run, perform, run-append, run_committed}

-- `Chain`: the first middleware is the outermost.
unfoldable pub chain : {W : Type 0} → List (Middleware W) → Middleware W
chain [] final = final
chain (m ∷ ms) final = m (chain ms final)

abbrev internal_error : List Call
internal_error = write_json 500 "internal_error" "Internal server error"

-- `Recovery`: the deferred function answers after what the handler has written.
unfoldable pub recovery : {W : Type 0} → Middleware W
recovery next r w =
    let out = next r w in
    if out.panicked
    then record { calls = out.calls ++ internal_error; panicked = false; world = out.world }
    else out

abbrev pub with_id : Request → String → Request
with_id r id = record r {
  header = Headers.set r.header "X-Request-ID" id;
  context = record (r.context) { request_id = some id };
}

abbrev pub tagged : {W : Type 0} → Handler W → Request → String × W → Reply W
tagged next r (id, w) =
    let out = next (with_id r id) w in
    record out { calls = set_header "X-Request-ID" id ∷ out.calls }

-- `RequestID`; `generate` is `generateUUID`.
unfoldable pub request_id : {W : Type 0} → (W → String × W) → Middleware W
request_id generate next r w =
    let id = Headers.get r.header "X-Request-ID" in
    if id === "" then tagged next r (generate w) else tagged next r (id, w)

-- A chain of chains is the chain of all their middlewares.
pub chain-append :
    {W : Type 0} (ms ns : List (Middleware W)) (final : Handler W)
    → chain (ms ++ ns) final ≡ chain ms (chain ns final)
unfolding chain
chain-append [] ns final = refl
chain-append (m ∷ ms) ns final = ap m (chain-append ms ns final)

internal_error_status : (w : Wire) → w.status ≡ none → (run w internal_error).status ≡ some 500
unfolding run perform
internal_error_status w n = ground arith

module _ {W : Type 0} (next : Handler W) (r : Request) (w : W) (h : Header) where
  -- Behind the recovery no panic escapes. If the handler panics before it has sent a status, the
  -- client gets 500; if it has sent one, the client gets that status and the headers sent with it.
  pub recovery_answers :
      (next r w).panicked ≡ true
      → ((recovery next r w).panicked ≡ false)
        × ((recovery next r w).world ≡ (next r w).world)
        × ((run (fresh h) (next r w).calls).status ≡ none
            → (run (fresh h) (recovery next r w).calls).status ≡ some 500)
        × ((code : ℕ)
            → (run (fresh h) (next r w).calls).status ≡ some code
            → ((run (fresh h) (recovery next r w).calls).status ≡ some code)
              × ((run (fresh h) (recovery next r w).calls).sent
                  ≡ (run (fresh h) (next r w).calls).sent))
  unfolding recovery
  recovery_answers p =
      let appended = run-append (fresh h) (next r w).calls internal_error in
      rw p (
        refl,
        refl,
        λ n. ap (λ v. v.status) appended ∙ internal_error_status (run (fresh h) (next r w).calls) n,
        λ code c.
            let (a, b) = run_committed (run (fresh h) (next r w).calls) internal_error code c in
            (ap (λ v. v.status) appended ∙ a, ap (λ v. v.sent) appended ∙ b),
      )

module _ {W : Type 0} (generate : W → String × W) (next : Handler W) (r : Request) (w : W) where
  get-with_id : (id : String) → Headers.get (with_id r id).header "X-Request-ID" ≡ id
  unfolding Headers.canonical
  get-with_id id = Headers.get-set r.header "X-Request-ID" "X-Request-ID" id

  -- If generated ids are not empty, every request has an id behind the middleware, the client's if
  -- it sent one: the handler finds it in the header and in the context, and it is set on the
  -- response before the handler writes.
  pub request_id_tags :
      (generate w).0 ≢ ""
      → (id : String) × (v : W) × (id ≢ "")
        × (Headers.get r.header "X-Request-ID" ≢ ""
            → (id ≡ Headers.get r.header "X-Request-ID") × (v ≡ w))
        × (Headers.get (with_id r id).header "X-Request-ID" ≡ id)
        × (request_id generate next r w ≡ tagged next r (id, v))
  unfolding request_id
  request_id_tags g = elim (Bool-cases (Headers.get r.header "X-Request-ID" === "")) [
    | inl e ↦ (
      (generate w).0,
      (generate w).1,
      g,
      λ n. absurd (n ((eq_iff (Headers.get r.header "X-Request-ID") "").0 e)),
      get-with_id (generate w).0,
      rw e refl,
    )
    | inr e ↦ (
      Headers.get r.header "X-Request-ID",
      w,
      (λ x. ground (arith, eq_iff (Headers.get r.header "X-Request-ID") "")),
      (λ n. (refl, refl)),
      get-with_id (Headers.get r.header "X-Request-ID"),
      rw e refl,
    )
  ]
