-- ===== src/Config/Changes/Settings.antt =====
-- Equality of the settings of two configurations: the comparisons of Redis and authentication
-- settings in internal/config/config.go.
use tanugate.Common.{
  String, Bool, ◌&&◌, Option, List, [], ◌∷◌, ◌===◌, int_eq, bool_equal, all_true, pointer_equal,
  slice_equal, map_equal,
}
use tanugate.Config.{RedisConfig, AuthProvider, JwtConfig, ApiKeyConfig, ApiKeyEntry, OidcConfig}

abbrev pub string_equal : String → String → Bool
string_equal a b = a === b

unfoldable pub string_slice_equal : List String → List String → Bool
unfolding slice_equal
string_slice_equal a b = slice_equal string_equal a b

abbrev pub redis_tests : RedisConfig → RedisConfig → List Bool
redis_tests a b =
    (a.addr === b.addr)
    ∷ ((a.password === b.password)
        ∷ ((int_eq a.db b.db)
            ∷ ((int_eq a.pool_size b.pool_size)
                ∷ ((int_eq a.min_idle_conns b.min_idle_conns)
                    ∷ ((int_eq a.dial_timeout b.dial_timeout)
                        ∷ ((int_eq a.read_timeout b.read_timeout)
                            ∷ ((int_eq a.write_timeout b.write_timeout)
                                ∷ ((int_eq a.max_retries b.max_retries)
                                    ∷ ((int_eq a.query_timeout b.query_timeout)
                                        ∷ ((bool_equal a.tls_enabled b.tls_enabled) ∷ []))))))))))

abbrev pub redis_settings_equal : RedisConfig → RedisConfig → Bool
redis_settings_equal a b = all_true (redis_tests a b)

abbrev pub redis_config_equal : Option RedisConfig → Option RedisConfig → Bool
redis_config_equal a b = pointer_equal redis_settings_equal a b

abbrev pub jwt_settings_equal : JwtConfig → JwtConfig → Bool
jwt_settings_equal a b =
    a.secret === b.secret
    && a.public_key_file === b.public_key_file
    && a.algorithm === b.algorithm
    && a.issuer === b.issuer
    && a.audience === b.audience

abbrev pub jwt_config_equal : Option JwtConfig → Option JwtConfig → Bool
jwt_config_equal a b = pointer_equal jwt_settings_equal a b

abbrev pub key_entry_equal : ApiKeyEntry → ApiKeyEntry → Bool
key_entry_equal a b = a.key === b.key && a.name === b.name

unfoldable pub api_key_settings_equal : ApiKeyConfig → ApiKeyConfig → Bool
unfolding slice_equal
api_key_settings_equal a b = a.header === b.header && slice_equal key_entry_equal a.keys b.keys

abbrev pub api_key_config_equal : Option ApiKeyConfig → Option ApiKeyConfig → Bool
unfolding api_key_settings_equal
api_key_config_equal a b = pointer_equal api_key_settings_equal a b

unfoldable pub oidc_tests : OidcConfig → OidcConfig → List Bool
unfolding string_slice_equal
oidc_tests a b =
    (a.issuer_url === b.issuer_url)
    ∷ ((a.jwks_url === b.jwks_url)
        ∷ ((a.introspection_url === b.introspection_url)
            ∷ ((a.client_id === b.client_id)
                ∷ ((a.client_secret === b.client_secret)
                    ∷ ((a.audience === b.audience)
                        ∷ ((bool_equal a.skip_issuer_check b.skip_issuer_check)
                            ∷ ((string_slice_equal a.allowed_algorithms b.allowed_algorithms)
                                ∷ [])))))))

abbrev pub oidc_settings_equal : OidcConfig → OidcConfig → Bool
oidc_settings_equal a b = all_true (oidc_tests a b)

abbrev pub oidc_config_equal : Option OidcConfig → Option OidcConfig → Bool
oidc_config_equal a b = pointer_equal oidc_settings_equal a b

unfoldable pub auth_provider_equal : AuthProvider → AuthProvider → Bool
unfolding api_key_config_equal oidc_tests
auth_provider_equal a b =
    a.type === b.type
    && jwt_config_equal a.jwt b.jwt
    && api_key_config_equal a.api_key b.api_key
    && oidc_config_equal a.oidc b.oidc

unfoldable pub auth_providers_equal :
    List (String × AuthProvider) → List (String × AuthProvider) → Bool
unfolding map_equal auth_provider_equal
auth_providers_equal a b = map_equal auth_provider_equal a b
