-- ===== src/Auth/Keys.antt =====
-- The keys that internal/middleware/auth/jwt.go loads, and what it relies on in the token library.
use tanugate.Common.{
  ◌≡◌, refl, subst, inl, inr, String, Bool, true, false, Option, none, some, Result, ok, err,
  >>=-eq-ok, map_err, ◌===◌, has_prefix, if◌then◌else◌, Bool-cases, arith, contains,
}
use tanugate.Http.{Bytes}
use tanugate.Config.{JwtConfig}
use tanugate.Auth.Jwt.{
  Family, hmac, rsa, ecdsa, other_family, JwtToken, ParserOptions, JwtLibrary, JwtAuthenticator,
  same_family, new_jwt_authenticator, signing_key_of, load_rsa_public_key, load_ecdsa_public_key,
  read_block, or_pkcs1, of_family,
}

-- What the source relies on in the library. A token that parses had its key from the key function,
-- which saw it before its signature was checked, with the same method and algorithm. The options
-- `WithValidMethods`, `WithIssuer` and `WithAudience` are checked. Secrets are keys for HMAC, and
-- keys in the form PKCS #1 are keys for RSA.
pub record IsSound {W : Type 0} (lib : JwtLibrary W) : Type 0 where
  pub keyed :
      (token : String) (kf : JwtToken → Result String lib.Key) (options : ParserOptions) (w : W)
      (t : JwtToken)
      → (lib.parse token kf options w).0 ≡ ok t
      → (seen : JwtToken) × (key : lib.Key) × (kf seen ≡ ok key)
        × (seen.method ≡ t.method)
        × (seen.alg ≡ t.alg)
  pub method_checked :
      (token : String) (kf : JwtToken → Result String lib.Key) (options : ParserOptions) (w : W)
      (t : JwtToken)
      → (lib.parse token kf options w).0 ≡ ok t
      → contains t.alg options.valid_methods ≡ true
  pub issuer_checked :
      (token : String) (kf : JwtToken → Result String lib.Key) (options : ParserOptions) (w : W)
      (t : JwtToken) (issuer : String)
      → (lib.parse token kf options w).0 ≡ ok t
      → options.issuer ≡ some issuer
      → lib.issuer_of t ≡ some issuer
  pub audience_checked :
      (token : String) (kf : JwtToken → Result String lib.Key) (options : ParserOptions) (w : W)
      (t : JwtToken) (audience : String)
      → (lib.parse token kf options w).0 ≡ ok t
      → options.audience ≡ some audience
      → contains audience (lib.audience_of t) ≡ true
  pub secret : (s : String) → lib.family_of (lib.secret_key s) ≡ hmac
  pub pkcs1 : (b : Bytes) (key : lib.Key) → lib.parse_pkcs1 b ≡ some key → lib.family_of key ≡ rsa

-- The family of an algorithm, by its first two letters.
abbrev pub family_of_algorithm : String → Family
family_of_algorithm alg =
    if has_prefix alg "HS"
    then hmac
    else if has_prefix alg "RS"
    then rsa
    else if has_prefix alg "ES"
    then ecdsa
    else other_family

pub same_family_eq : (a b : Family) → same_family a b ≡ true → a ≡ b
same_family_eq a b h = ground arith

pub if_ok :
    {A : Type 0} (b : Bool) (x : A) (message : String) (result : A)
    → (if b then ok x else err message) ≡ ok result
    → (b ≡ true) × (x ≡ result)
if_ok true x message result h = (refl, cc)
if_ok false x message result h = cc

pub unless_ok :
    {A : Type 0} (b : Bool) (x : A) (message : String) (result : A)
    → (if b then err message else ok x) ≡ ok result
    → x ≡ result
unless_ok true x message result h = cc
unless_ok false x message result h = cc

pub map_err_ok :
    {A : Type 0} (f : String → String) (o : Result String A) (result : A)
    → map_err f o ≡ ok result
    → o ≡ ok result
map_err_ok f (ok x) result h = cc
map_err_ok f (err e) result h = cc

module _ {W : Type 0} (lib : JwtLibrary W) (sound : IsSound lib) where
  of_family-ok :
      (family : Family) (message : String) (key result : lib.Key)
      → of_family lib family message key ≡ ok result
      → lib.family_of result ≡ family
  of_family-ok family message key result h =
      let (e, k) = if_ok (same_family (lib.family_of key) family) key message result h in
      subst (λ x. lib.family_of x ≡ family) k (same_family_eq (lib.family_of key) family e)

  or_pkcs1-ok :
      (first : Result String lib.Key) (second : Option lib.Key) (result : lib.Key)
      → ((key : lib.Key) → second ≡ some key → lib.family_of key ≡ rsa)
      → or_pkcs1 lib first second ≡ ok result
      → lib.family_of result ≡ rsa
  or_pkcs1-ok (ok key) second result p h = of_family-ok rsa "public key is not RSA" key result h
  or_pkcs1-ok (err e) none result p h = cc
  or_pkcs1-ok (err e) (some key) result p h = p result (cc)

  load_rsa_public_key-ok :
      (path : String) (key : lib.Key)
      → load_rsa_public_key lib path ≡ ok key
      → lib.family_of key ≡ rsa
  load_rsa_public_key-ok path key h =
      let (block, _, k) = >>=-eq-ok (read_block lib path) _ h in
      or_pkcs1-ok (lib.parse_pkix block) (lib.parse_pkcs1 block) key (sound.pkcs1 block) k

  load_ecdsa_public_key-ok :
      (path : String) (key : lib.Key)
      → load_ecdsa_public_key lib path ≡ ok key
      → lib.family_of key ≡ ecdsa
  load_ecdsa_public_key-ok path key h =
      let (block, _, k) = >>=-eq-ok (read_block lib path) _ h in
      let (found, _, l) = >>=-eq-ok (map_err _ (lib.parse_pkix block)) _ k in
      of_family-ok ecdsa "public key is not ECDSA" found key l

  signing_key_of-ok :
      (cfg : JwtConfig) (key : lib.Key)
      → signing_key_of lib cfg ≡ ok key
      → lib.family_of key ≡ family_of_algorithm cfg.algorithm
  signing_key_of-ok cfg key h = elim (Bool-cases (has_prefix cfg.algorithm "HS")) [
    | inl e ↦ rw e (
        let k = unless_ok (cfg.secret === "") (lib.secret_key cfg.secret) _ key (rw e at h) in
        subst (λ x. lib.family_of x ≡ hmac) k (sound.secret cfg.secret))
    | inr e ↦ elim (Bool-cases (has_prefix cfg.algorithm "RS")) [
      | inl f ↦
          rw (e, f)
            (load_rsa_public_key-ok cfg.public_key_file key (map_err_ok _ _ key (rw (e, f) at h)))
      | inr f ↦ elim (Bool-cases (has_prefix cfg.algorithm "ES")) [
        | inl g ↦
            rw (e, f, g)
              (load_ecdsa_public_key-ok cfg.public_key_file key
                (map_err_ok _ _ key (rw (e, f, g) at h)))
        | inr g ↦ absurd (ground (arith, rw (e, f, g) at h))
      ]
    ]
  ]

  pub new_jwt_authenticator-ok :
      (cfg : JwtConfig) (a : JwtAuthenticator lib)
      → new_jwt_authenticator lib cfg ≡ ok a
      → lib.family_of a.signing_key ≡ family_of_algorithm cfg.algorithm
  unfolding new_jwt_authenticator
  new_jwt_authenticator-ok cfg a h =
      let (key, k, l) = >>=-eq-ok (signing_key_of lib cfg) _ h in
      let same : key ≡ a.signing_key = cc in
      subst (λ x. lib.family_of x ≡ family_of_algorithm cfg.algorithm) same
        (signing_key_of-ok cfg key k)

  pub new_jwt_authenticator-fields :
      (cfg : JwtConfig) (a : JwtAuthenticator lib)
      → new_jwt_authenticator lib cfg ≡ ok a
      → (a.algorithm ≡ cfg.algorithm) × (a.issuer ≡ cfg.issuer) × (a.audience ≡ cfg.audience)
  unfolding new_jwt_authenticator
  new_jwt_authenticator-fields cfg a h =
      let (key, k, l) = >>=-eq-ok (signing_key_of lib cfg) _ h in (cc, cc, cc)
