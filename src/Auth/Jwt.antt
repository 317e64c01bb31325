-- ===== src/Auth/Jwt.antt =====
-- The JWT authenticator: internal/middleware/auth/jwt.go.
-- Files, keys and the parsing of tokens are parameters (`JwtLibrary`).
use tanugate.Common.{
  ◌<>◌, String, Bool, true, false, Option, none, some, List, [], ◌∷◌, Result, ok, err, ◌>>=◌,
  map_err, ◌===◌, has_prefix, if◌then◌else◌,
}
use tanugate.Http.{Bytes, AuthResult, Json}
use tanugate.Config.{JwtConfig}
use tanugate.Auth.{Authenticator}
use tanugate.Auth.Bearer.{bearer_token}

-- The families of keys, and of the methods that sign tokens.
pub data Family : Type 0 where
  hmac rsa ecdsa other_family : Family

pub record JwtToken : Type 0 where
  pub method : Family
  pub alg : String
  pub claims : Option (List (String × Json))
  pub valid : Bool
  pub subject : String

-- `errors.Is` of an error of the library.
pub data JwtError : Type 0 where
  token_expired : JwtError
  signature_invalid : JwtError
  other_error : String → JwtError

pub record ParserOptions : Type 0 where
  pub valid_methods : List String
  pub issuer : Option String
  pub audience : Option String

-- `jwt.Parse`, whose key function sees the token before its signature is checked, and what loads
-- keys: `os.ReadFile`, `pem.Decode` and the two parsers of crypto/x509.
pub record JwtLibrary (W : Type 0) : Type 1 where
  pub Key : Type 0
  pub family_of : Key → Family
  pub secret_key : String → Key
  pub parse :
      String → (JwtToken → Result String Key) → ParserOptions → W → Result JwtError JwtToken × W
  pub read_file : String → Result String Bytes
  pub pem_decode : Bytes → Option Bytes
  -- `GetIssuer` and `GetAudience` of a token's claims.
  pub issuer_of : JwtToken → Option String
  pub audience_of : JwtToken → List String
  pub parse_pkix : Bytes → Result String Key
  pub parse_pkcs1 : Bytes → Option Key

abbrev pub same_family : Family → Family → Bool
same_family hmac hmac = true
same_family rsa rsa = true
same_family ecdsa ecdsa = true
same_family other_family other_family = true
same_family _ _ = false

abbrev pub when_set : String → Option String
when_set s = if s === "" then none else some s

-- `classifyJWTError`.
abbrev pub classify_jwt_error : JwtError → String
classify_jwt_error token_expired = "token expired"
classify_jwt_error signature_invalid = "invalid token signature"
classify_jwt_error (other_error e) = "invalid token: " <> e

module _ {W : Type 0} (lib : JwtLibrary W) where
  open lib use {Key, family_of, secret_key, parse, read_file, pem_decode, parse_pkix, parse_pkcs1}

  -- `JWTAuthenticator`.
  pub record JwtAuthenticator : Type 0 where
    pub signing_key : Key
    pub algorithm : String
    pub issuer : String
    pub audience : String

  abbrev pub of_family : Family → String → Key → Result String Key
  of_family family message key = if same_family (family_of key) family then ok key else err message

  abbrev decoded : Option Bytes → Result String Bytes
  decoded none = err "failed to decode PEM block"
  decoded (some block) = ok block

  abbrev pub read_block : String → Result String Bytes
  read_block path = map_err (λ e. "reading public key file: " <> e) (read_file path) >>= λ data_.
      decoded (pem_decode data_)

  abbrev pub or_pkcs1 : Result String Key → Option Key → Result String Key
  or_pkcs1 (ok key) _ = of_family rsa "public key is not RSA" key
  or_pkcs1 (err e) none = err ("parsing public key: " <> e)
  or_pkcs1 (err e) (some key) = ok key

  -- `loadRSAPublicKey` and `loadECDSAPublicKey`.
  abbrev pub load_rsa_public_key : String → Result String Key
  load_rsa_public_key path =
      read_block path >>= λ block. or_pkcs1 (parse_pkix block) (parse_pkcs1 block)

  abbrev pub load_ecdsa_public_key : String → Result String Key
  load_ecdsa_public_key path = read_block path >>= λ block.
      map_err (λ e. "parsing public key: " <> e) (parse_pkix block) >>= λ key.
      of_family ecdsa "public key is not ECDSA" key

  abbrev pub signing_key_of : JwtConfig → Result String Key
  signing_key_of cfg =
      if has_prefix cfg.algorithm "HS"
      then (if cfg.secret === ""
          then err "jwt: HMAC algorithm requires secret"
          else ok (secret_key cfg.secret))
      else if has_prefix cfg.algorithm "RS"
      then map_err (λ e. "jwt: " <> e) (load_rsa_public_key cfg.public_key_file)
      else if has_prefix cfg.algorithm "ES"
      then map_err (λ e. "jwt: " <> e) (load_ecdsa_public_key cfg.public_key_file)
      else err ("jwt: unsupported algorithm \"" <> cfg.algorithm <> "\"")

  -- `NewJWTAuthenticator`.
  unfoldable pub new_jwt_authenticator : JwtConfig → Result String JwtAuthenticator
  unfolding has_prefix
  new_jwt_authenticator cfg = signing_key_of cfg >>= λ key. ok (record {
    signing_key = key;
    algorithm = cfg.algorithm;
    issuer = cfg.issuer;
    audience = cfg.audience;
  })

  module _ (a : JwtAuthenticator) where
    -- `keyFunc`; a key of another family does not occur.
    unfoldable pub key_func : JwtToken → Result String Key
    key_func t =
        if same_family (family_of a.signing_key) t.method
        then ok a.signing_key
        else err ("unexpected signing method: " <> t.alg)

    abbrev pub parser_options : ParserOptions
    parser_options = record {
      valid_methods = a.algorithm ∷ [];
      issuer = when_set a.issuer;
      audience = when_set a.audience;
    }

    abbrev pub valid_claims :
        JwtToken → Bool → Option (List (String × Json)) → Result String AuthResult
    valid_claims t true (some claims) =
        ok (record { subject = t.subject; claims = some claims; name = ""; provider = "" })
    valid_claims t _ _ = err "invalid token"

    abbrev pub parsed : Result JwtError JwtToken → Result String AuthResult
    parsed (err e) = err (classify_jwt_error e)
    parsed (ok t) = valid_claims t t.valid t.claims

    abbrev pub authenticate_token : Result String String → W → Result String AuthResult × W
    authenticate_token (err e) w = (err e, w)
    authenticate_token (ok token) w =
        let (outcome, w') = parse token key_func parser_options w in (parsed outcome, w')

    -- `JWTAuthenticator.Authenticate`.
    unfoldable pub authenticate_jwt : Authenticator W
    unfolding bearer_token key_func
    authenticate_jwt r w = authenticate_token (bearer_token r) w
