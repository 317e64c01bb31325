-- ===== src/Auth/ApiKey.antt =====
-- What the API key authenticator decides: internal/middleware/auth/apikey.go.
use tanugate.Common.{
  ◌≡◌, ◌≢◌, ap, ◌∙◌, inl, inr, ◌↔◌, String, some, List, [], ◌∷◌, ◌++◌, ok, ◌===◌, eq_iff, arith,
  Option-cases, Bool-cases, subst, All,
}
use tanugate.Http.{AuthResult, Request}
use tanugate.Http.Headers
use tanugate.Config.{ApiKeyEntry}
use tanugate.Auth.{ApiKeyAuthenticator, find_key, key_result, authenticate}

-- The first entry with a key.
abbrev IsFirst : String → List ApiKeyEntry → ApiKeyEntry → Type 0
IsFirst key entries entry =
    (before : List ApiKeyEntry) × (after : List ApiKeyEntry) × (entries ≡ before ++ entry ∷ after)
    × All (λ e. e.key ≢ key) before
    × (entry.key ≡ key)

find_key-IsFirst :
    (key : String) (entries : List ApiKeyEntry) (entry : ApiKeyEntry)
    → find_key key entries ≡ some entry
    → IsFirst key entries entry
unfolding find_key
find_key-IsFirst key [] entry h = cc
find_key-IsFirst key (e ∷ entries) entry h = elim (Bool-cases (key === e.key)) [
  | inl t ↦
      let same : e ≡ entry = ground arith in
      let found : e.key ≡ key = ground (arith, eq_iff key e.key) in
      ([], entries, ap (λ x. x ∷ entries) same, tt, subst (λ x. x.key ≡ key) same found)
  | inr f ↦
      let (before, after, p, q, k) = find_key-IsFirst key entries entry (ground arith) in
      let other : e.key ≢ key = λ x. ground (arith, eq_iff key e.key) in
      (e ∷ before, after, ap (λ l. e ∷ l) p, (other, q), k)
]

IsFirst-find_key :
    (key : String) (before after : List ApiKeyEntry) (entry : ApiKeyEntry)
    → All (λ e. e.key ≢ key) before
    → entry.key ≡ key
    → find_key key (before ++ entry ∷ after) ≡ some entry
unfolding find_key
IsFirst-find_key key [] after entry h k = ground (arith, eq_iff key entry.key)
IsFirst-find_key key (e ∷ before) after entry (n, h) k =
    let rest = IsFirst-find_key key before after entry h k in ground (arith, eq_iff key e.key)

module _ {W : Type 0} (a : ApiKeyAuthenticator) (r : Request) (w : W) where
  authenticate_found :
      (entry : ApiKeyEntry)
      → Headers.get r.header a.header ≢ ""
      → find_key (Headers.get r.header a.header) a.keys ≡ some entry
      → (authenticate a r w).0 ≡ ok (key_result entry)
  unfolding authenticate
  authenticate_found entry n h = ground (arith, eq_iff (Headers.get r.header a.header) "")

  authenticate_inv :
      (result : AuthResult)
      → (authenticate a r w).0 ≡ ok result
      → (Headers.get r.header a.header ≢ "")
        × ((entry : ApiKeyEntry) × (find_key (Headers.get r.header a.header) a.keys ≡ some entry)
            × (key_result entry ≡ result))
  unfolding authenticate
  authenticate_inv result h =
      elim (Option-cases (find_key (Headers.get r.header a.header) a.keys)) [
        | inl n ↦ absurd (ground arith)
        | inr (entry, k) ↦ (
          λ e. ground (arith, eq_iff (Headers.get r.header a.header) ""),
          (entry, k, ground (arith, eq_iff (Headers.get r.header a.header) "")),
        )
      ]

  authenticate_first :
      Headers.get r.header a.header ≢ ""
      → (entry : ApiKeyEntry) → IsFirst (Headers.get r.header a.header) a.keys entry
      → (authenticate a r w).0 ≡ ok (key_result entry)
  authenticate_first n entry (before, after, e, q, k) = authenticate_found entry n (
      ap (find_key (Headers.get r.header a.header)) e
      ∙ IsFirst-find_key (Headers.get r.header a.header) before after entry q k)

  -- An API key is accepted exactly if it is not empty and some entry has it, and the result names the
  -- first such entry.
  authenticate_iff :
      (result : AuthResult)
      → ((authenticate a r w).0 ≡ ok result) ↔ (
          (Headers.get r.header a.header ≢ "")
          × (entry : ApiKeyEntry) × IsFirst (Headers.get r.header a.header) a.keys entry
          × (key_result entry ≡ result))
  authenticate_iff result = (
    λ h.
        let (n, (entry, k, e)) = authenticate_inv result h in
        (n, entry, find_key-IsFirst (Headers.get r.header a.header) a.keys entry k, e),
    λ h. authenticate_first h.0 h.1 h.2 ∙ ap ok h.3,
  )
