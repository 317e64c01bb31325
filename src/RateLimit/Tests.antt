-- ===== src/RateLimit/Tests.antt =====
-- Rate limits at concrete requests.
use tanugate.Common.{
  ℕ, suc, ◌+◌, ◌≤◌, ◌≡◌, refl, ◌⊎◌, String, true, false, none, some, [], ◌∷◌, lookup, insert,
  cut_prefix, ok, err, ℤ, pos, negsuc, arith, ◌==◌, ◌===◌, split, trim_space, if◌then◌else◌,
  has_prefix, trim_prefix,
}
use tanugate.Http.{Request, Handler, Reply, reply, no_body, write_header}
use tanugate.Http.Headers
use tanugate.Http.Wire.{fresh, run, perform}
use tanugate.Config.{RateLimitConfig}
use tanugate.RateLimit.{
  Net, Printers, Allowance, Limiter, size, truncate_key, is_trusted, remote_addr_ip,
  untrusted_entry, last_untrusted, extract_ip, extract_key, retry_after, reject,
  new_rate_limit_middleware,
}
use tanugate.RateLimit.Keys.{size-truncate_key, extract_ip_unspoofable, extract_ip_sound}
use tanugate.RateLimit.Decisions.{rate_limit_rejects}

limits : Unit {0}
unfolding size truncate_key is_trusted remote_addr_ip untrusted_entry last_untrusted extract_ip
    extract_key reject new_rate_limit_middleware run perform lookup insert cut_prefix split
    trim_space has_prefix trim_prefix Headers.get Headers.values Headers.set Headers.canonical
limits = tt

-- Addresses are their texts, a network is one address.
abbrev net : Net
net = record {
  Ip = String;
  IpNet = String;
  parse_ip = λ s. if s === "" then none else some s;
  ip_string = λ s. s;
  is_ipv4 = λ s. true;
  parse_cidr = λ s. some s;
  network_contains = λ n ip. n === ip;
  split_host_port = λ s. some s;
}

abbrev printers : Printers
printers = record { digest = λ s. "d"; format_float = λ x. "1"; marshal = λ v. none }

abbrev ask : Request
ask = record {
  method = "GET";
  host = "h";
  path = "/";
  remote_addr = "10.0.0.1";
  header = ("X-Forwarded-For", "6.6.6.6, 7.7.7.7,8.8.8.8, 10.0.0.1" ∷ []) ∷ [];
  body = no_body;
  context = record {
    request_id = none;
    auth_result = none;
    matched_route = none;
    start_time = none;
  };
}

size-truncate_key_example : size (truncate_key (λ s. "d") "abc") ≤ 256
unfolding limits
size-truncate_key_example = size-truncate_key (λ s. "d") "abc" (ground arith)

extract_ip_unspoofable_example : extract_ip net ("10.0.0.1" ∷ []) ask ≡ "8.8.8.8"
unfolding limits
extract_ip_unspoofable_example =
    extract_ip_unspoofable net ("10.0.0.1" ∷ []) ask "10.0.0.1" "6.6.6.6, 7.7.7.7"
      "8.8.8.8, 10.0.0.1" "8.8.8.8" [] refl refl refl refl

extract_ip_sound_example :
    (extract_ip net ("10.0.0.1" ∷ []) ask ≡ remote_addr_ip net ask)
    ⊎ (((ip : String) × (net.parse_ip (remote_addr_ip net ask) ≡ some ip)
          × (is_trusted net ip ("10.0.0.1" ∷ []) ≡ true))
        × ((ip : String) × (net.parse_ip (extract_ip net ("10.0.0.1" ∷ []) ask) ≡ some ip)
            × (is_trusted net ip ("10.0.0.1" ∷ []) ≡ false)))
extract_ip_sound_example = extract_ip_sound net ("10.0.0.1" ∷ []) ask

abbrev cfg : RateLimitConfig
cfg = record { requests = pos 2; window = pos 60; key_source = "ip"; algorithm = "sliding_window" }

abbrev print_int : ℤ → String
print_int (pos n) = if n == 3 then "3" else "n"
print_int (negsuc n) = "n"

-- The world counts the requests served; a backend that answers by it.
abbrev serve : Handler ℕ
serve r w = reply (write_header 200 ∷ []) (suc w)

abbrev limiter : Limiter ℕ
limiter key limit window algorithm w = if w == 0 then (err "down", w) else (
  ok (record { allowed = w == 1; remaining = if w == 1 then pos 1 else pos 0; reset_at = 10 }),
  w,
)

abbrev now : ℕ → ℕ
now w = 7

abbrev limited : ℕ → Reply ℕ
limited w =
    new_rate_limit_middleware net printers print_int now limiter [] (some cfg) "r" "m" serve ask w

abbrev refusal : Allowance
refusal = record { allowed = false; remaining = pos 0; reset_at = 10 }

rate_limit_rejects_example :
    ((limited 2).world ≡ 2)
    × ((run (fresh []) (limited 2).calls).status ≡ some 429)
    × (Headers.get (run (fresh []) (limited 2).calls).sent "Retry-After" ≡ "3")
    × (1 ≤ retry_after refusal 7)
    × (10 ≤ 7 + retry_after refusal 7)
rate_limit_rejects_example =
    rate_limit_rejects net printers print_int now limiter [] cfg "r" "m" serve ask 2 2 refusal []
      refl refl
