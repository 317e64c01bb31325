-- ===== src/Config/Changes/Laws.antt =====
-- What the tests of equality and the warnings at a reload say: internal/config/config.go.
use tanugate.Common.{
  ◌≡◌, refl, subst, ◌↔◌, String, Bool, true, false, List, [], lookup, ◌===◌, int_eq, int_eq_iff,
  eq_iff, eq_refl, ℤ, arith, Decides, IsMap, bool_equal, bool_equal-Decides, pointer_equal-Decides,
  slice_equal-Decides, map_equal_iff, append-eq-nil, all_true-All,
}
use tanugate.Config.{GatewayConfig, ServerConfig, RedisConfig, OidcConfig}
use tanugate.Config.Changes.{Warning, unless, server_changes, non_reloadable_changes}
use tanugate.Config.Changes.Settings.{
  redis_tests, oidc_tests, string_slice_equal, redis_settings_equal, jwt_settings_equal,
  key_entry_equal, api_key_settings_equal, oidc_settings_equal, auth_provider_equal,
  auth_providers_equal, redis_config_equal,
}

string_slice_equal-Decides : Decides string_slice_equal
unfolding string_slice_equal
string_slice_equal-Decides a b = slice_equal-Decides (λ x y. x === y) eq_iff a b

int_eq_refl : (n : ℤ) → int_eq n n ≡ true
int_eq_refl n = (int_eq_iff n n).1 refl

bool_equal_refl : (b : Bool) → bool_equal b b ≡ true
bool_equal_refl b = (bool_equal-Decides b b).1 refl

redis_settings_equal-eq : (a b : RedisConfig) → redis_settings_equal a b ≡ true → a ≡ b
redis_settings_equal-eq a b h =
    let (t1, (t2, (t3, (t4, (t5, (t6, (t7, (t8, (t9, (t10, (t11, _))))))))))) =
      all_true-All (redis_tests a b) h in
    λ i. record {
      addr = (eq_iff a.addr b.addr).0 t1 i;
      password = (eq_iff a.password b.password).0 t2 i;
      db = (int_eq_iff a.db b.db).0 t3 i;
      pool_size = (int_eq_iff a.pool_size b.pool_size).0 t4 i;
      min_idle_conns = (int_eq_iff a.min_idle_conns b.min_idle_conns).0 t5 i;
      dial_timeout = (int_eq_iff a.dial_timeout b.dial_timeout).0 t6 i;
      read_timeout = (int_eq_iff a.read_timeout b.read_timeout).0 t7 i;
      write_timeout = (int_eq_iff a.write_timeout b.write_timeout).0 t8 i;
      max_retries = (int_eq_iff a.max_retries b.max_retries).0 t9 i;
      query_timeout = (int_eq_iff a.query_timeout b.query_timeout).0 t10 i;
      tls_enabled = (bool_equal-Decides a.tls_enabled b.tls_enabled).0 t11 i;
    }

redis_settings_equal_refl : (a : RedisConfig) → redis_settings_equal a a ≡ true
redis_settings_equal_refl a = simp (eq_refl, int_eq_refl, bool_equal_refl)

redis_settings_equal-Decides : Decides redis_settings_equal
redis_settings_equal-Decides a b = (
  redis_settings_equal-eq a b,
  λ e. subst (λ x. redis_settings_equal a x ≡ true) e (redis_settings_equal_refl a),
)

jwt_settings_equal-Decides : Decides jwt_settings_equal
jwt_settings_equal-Decides a b = ground (
  arith,
  eq_iff a.secret b.secret,
  eq_iff a.public_key_file b.public_key_file,
  eq_iff a.algorithm b.algorithm,
  eq_iff a.issuer b.issuer,
  eq_iff a.audience b.audience,
)

key_entry_equal-Decides : Decides key_entry_equal
key_entry_equal-Decides a b = ground (arith, eq_iff a.key b.key, eq_iff a.name b.name)

api_key_settings_equal-Decides : Decides api_key_settings_equal
unfolding api_key_settings_equal
api_key_settings_equal-Decides a b =
    let keys = slice_equal-Decides key_entry_equal key_entry_equal-Decides a.keys b.keys in
    ground (arith, eq_iff a.header b.header)

oidc_settings_equal-eq : (a b : OidcConfig) → oidc_settings_equal a b ≡ true → a ≡ b
unfolding oidc_tests
oidc_settings_equal-eq a b h =
    let (t1, (t2, (t3, (t4, (t5, (t6, (t7, (t8, _)))))))) = all_true-All (oidc_tests a b) h in
    λ i. record {
      issuer_url = (eq_iff a.issuer_url b.issuer_url).0 t1 i;
      jwks_url = (eq_iff a.jwks_url b.jwks_url).0 t2 i;
      introspection_url = (eq_iff a.introspection_url b.introspection_url).0 t3 i;
      client_id = (eq_iff a.client_id b.client_id).0 t4 i;
      client_secret = (eq_iff a.client_secret b.client_secret).0 t5 i;
      audience = (eq_iff a.audience b.audience).0 t6 i;
      skip_issuer_check = (bool_equal-Decides a.skip_issuer_check b.skip_issuer_check).0 t7 i;
      allowed_algorithms =
          (string_slice_equal-Decides a.allowed_algorithms b.allowed_algorithms).0 t8 i;
    }

string_slice_equal_refl : (a : List String) → string_slice_equal a a ≡ true
string_slice_equal_refl a = (string_slice_equal-Decides a a).1 refl

oidc_settings_equal_refl : (a : OidcConfig) → oidc_settings_equal a a ≡ true
unfolding oidc_tests
oidc_settings_equal_refl a = simp (eq_refl, bool_equal_refl, string_slice_equal_refl)

oidc_settings_equal-Decides : Decides oidc_settings_equal
oidc_settings_equal-Decides a b = (
  oidc_settings_equal-eq a b,
  λ e. subst (λ x. oidc_settings_equal a x ≡ true) e (oidc_settings_equal_refl a),
)

auth_provider_equal-Decides : Decides auth_provider_equal
unfolding auth_provider_equal
auth_provider_equal-Decides a b =
    let jwt = pointer_equal-Decides jwt_settings_equal jwt_settings_equal-Decides a.jwt b.jwt in
    let keys =
      pointer_equal-Decides api_key_settings_equal api_key_settings_equal-Decides a.api_key
        b.api_key in
    let oidc =
      pointer_equal-Decides oidc_settings_equal oidc_settings_equal-Decides a.oidc b.oidc in
    ground (arith, eq_iff a.type b.type)

unless-nil : (b : Bool) (w : Warning) → unless b w ≡ [] → b ≡ true
unless-nil true w h = refl
unless-nil false w h = cc

server_changes-eq : (a b : ServerConfig) → server_changes a b ≡ [] → a ≡ b
unfolding server_changes
server_changes-eq a b h =
    let (h1, t1) = append-eq-nil (unless (a.host === b.host) _) _ h in
    let (h2, t2) = append-eq-nil (unless (int_eq a.port b.port) _) _ t1 in
    let (h3, t3) = append-eq-nil (unless (int_eq a.read_timeout b.read_timeout) _) _ t2 in
    let (h4, t4) = append-eq-nil (unless (int_eq a.write_timeout b.write_timeout) _) _ t3 in
    let (h5, t5) = append-eq-nil (unless (int_eq a.idle_timeout b.idle_timeout) _) _ t4 in
    let (h6, t6) = append-eq-nil (unless (int_eq a.shutdown_timeout b.shutdown_timeout) _) _ t5 in
    let (h7, h8) =
      append-eq-nil (unless (string_slice_equal a.trusted_proxies b.trusted_proxies) _) _ t6 in
    λ i. record {
      host = (eq_iff a.host b.host).0 (unless-nil _ _ h1) i;
      port = (int_eq_iff a.port b.port).0 (unless-nil _ _ h2) i;
      read_timeout = (int_eq_iff a.read_timeout b.read_timeout).0 (unless-nil _ _ h3) i;
      write_timeout = (int_eq_iff a.write_timeout b.write_timeout).0 (unless-nil _ _ h4) i;
      idle_timeout = (int_eq_iff a.idle_timeout b.idle_timeout).0 (unless-nil _ _ h5) i;
      shutdown_timeout = (int_eq_iff a.shutdown_timeout b.shutdown_timeout).0 (unless-nil _ _ h6) i;
      trusted_proxies =
          (string_slice_equal-Decides a.trusted_proxies b.trusted_proxies).0 (unless-nil _ _ h7) i;
      max_header_bytes = (int_eq_iff a.max_header_bytes b.max_header_bytes).0 (unless-nil _ _ h8) i;
    }

server_changes_refl : (a : ServerConfig) → server_changes a a ≡ []
unfolding server_changes
server_changes_refl a = simp (eq_refl, int_eq_refl, string_slice_equal_refl)

-- The parts of a configuration that a reload cannot change.
pub record IsUnchanged (old new : GatewayConfig) : Type 0 where
  pub server : old.server ≡ new.server
  pub backend : old.rate_limit.backend ≡ new.rate_limit.backend
  pub redis : old.rate_limit.redis ≡ new.rate_limit.redis
  pub auth_providers :
      (name : String) → lookup name old.auth_providers ≡ lookup name new.auth_providers
  pub level : old.logging.level ≡ new.logging.level

module _ (old new : GatewayConfig) (mo : IsMap old.auth_providers)
    (mn : IsMap new.auth_providers) where
  providers_iff :
      (auth_providers_equal old.auth_providers new.auth_providers ≡ true)
      ↔ ((name : String) → lookup name old.auth_providers ≡ lookup name new.auth_providers)
  unfolding auth_providers_equal
  providers_iff =
      map_equal_iff auth_provider_equal auth_provider_equal-Decides old.auth_providers
        new.auth_providers mo mn

  unchanged : non_reloadable_changes old new ≡ [] → IsUnchanged old new
  unfolding non_reloadable_changes
  unchanged h =
      let (h1, t1) = append-eq-nil (server_changes old.server new.server) _ h in
      let (h2, t2) =
        append-eq-nil (unless (old.rate_limit.backend === new.rate_limit.backend) _) _ t1 in
      let (h3, t3) =
        append-eq-nil (unless (redis_config_equal old.rate_limit.redis new.rate_limit.redis) _) _
          t2 in
      let (h4, h5) =
        append-eq-nil (unless (auth_providers_equal old.auth_providers new.auth_providers) _) _
          t3 in
      record {
        server = server_changes-eq old.server new.server h1;
        backend = (eq_iff old.rate_limit.backend new.rate_limit.backend).0 (unless-nil _ _ h2);
        redis =
            (pointer_equal-Decides redis_settings_equal redis_settings_equal-Decides
                old.rate_limit.redis new.rate_limit.redis).0
              (unless-nil _ _ h3);
        auth_providers = providers_iff.0 (unless-nil _ _ h4);
        level = (eq_iff old.logging.level new.logging.level).0 (unless-nil _ _ h5);
      }

  silent : IsUnchanged old new → non_reloadable_changes old new ≡ []
  unfolding non_reloadable_changes
  silent u =
      let server =
        subst (λ x. server_changes old.server x ≡ []) u.server (server_changes_refl old.server) in
      let backend = (eq_iff old.rate_limit.backend new.rate_limit.backend).1 u.backend in
      let redis =
        (pointer_equal-Decides redis_settings_equal redis_settings_equal-Decides
            old.rate_limit.redis new.rate_limit.redis).1
          u.redis in
      let providers = providers_iff.1 u.auth_providers in
      let level = (eq_iff old.logging.level new.logging.level).1 u.level in
      rw (server, backend, redis, providers, level) refl

  -- For configurations whose maps of providers have each name once: there is no warning if and only
  -- if the server's settings, the backend of the rate limit and its Redis settings, the level of the
  -- log, and the definition of every authentication provider are unchanged.
  pub non_reloadable_changes_iff : (non_reloadable_changes old new ≡ []) ↔ IsUnchanged old new
  non_reloadable_changes_iff = (unchanged, silent)
