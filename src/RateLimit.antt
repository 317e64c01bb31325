-- ===== src/RateLimit.antt =====
-- Rate limiting: internal/middleware/ratelimit/ratelimit.go.
-- The functions of Go's `net` package and the backend (`Limiter`) are parameters. Metrics and logs
-- are left out.
pub mod Keys
pub mod Decisions
pub mod Floats
pub mod Memory
pub mod Burst
pub mod Redis
pub mod Window
mod BackendTests
mod Tests
use Prim.Native.Char.{Char, code}
use Prim.Native.String
use tanugate.Common.{
  ℕ, ◌+◌, ◌-◌, ◌<>◌, String, Bool, true, false, ◌&&◌, ◌||◌, not, Option, none, some, List, [], ◌∷◌,
  lookup, Result, ok, err, ltb, ◌===◌, split, trim_space, has_prefix, trim_prefix, any,
  contains_char, ◌++◌, ℤ, pos, if◌then◌else◌,
}
use tanugate.Http.{
  AuthResult, Request, Call, set_header, write_header, write, Reply, reply, Handler, Middleware,
  Json, null, bool, number, text, array, object, Bytes, codes,
}
use tanugate.Http.Headers
use tanugate.Config.{RateLimitConfig}

-- What the source uses of Go's `net` package; `network_contains` is `IPNet.Contains`.
pub record Net : Type 1 where
  pub Ip : Type 0
  pub IpNet : Type 0
  pub parse_ip : String → Option Ip
  pub ip_string : Ip → String
  pub is_ipv4 : Ip → Bool
  pub parse_cidr : String → Option IpNet
  pub network_contains : IpNet → Ip → Bool
  pub split_host_port : String → Option String

-- `len` of a string: the bytes of its code points in UTF-8.
abbrev char_size : ℕ → ℕ
char_size k = if ltb k 0x80 then 1 else if ltb k 0x800 then 2 else if ltb k 0x10000 then 3 else 4

unfoldable pub size : String → ℕ
size String.[] = 0
size (String.◌∷◌ c s) = char_size (code c) + size s

-- `truncateKey`; `digest` is the hexadecimal form of the first 16 bytes of the SHA-256 sum.
unfoldable pub truncate_key : (String → String) → String → String
unfolding size
truncate_key digest val = if ltb 256 (size val) then digest val else val

-- How a claim is printed; `marshal` may fail.
pub record Printers : Type 0 where
  pub digest : String → String
  pub format_float : ℕ → String
  pub marshal : Json → Option String

-- What `Limiter.Allow` returns without an error; `reset_at` in seconds since 1970.
pub record Allowance : Type 0 where
  pub allowed : Bool
  pub remaining : ℤ
  pub reset_at : ℕ

-- `Limiter.Allow`: key, limit, window and algorithm.
abbrev pub Limiter : Type 0 → Type 0
Limiter W = String → ℤ → ℤ → String → W → Result String Allowance × W

abbrev pub composite_key : RateLimitConfig → String → String → String → String
composite_key cfg route_name middleware_name extracted =
    "rl:" <> cfg.algorithm <> ":" <> route_name <> ":" <> middleware_name <> ":" <> extracted

-- `max(int(resetAt.Unix()-time.Now().Unix()), 1)`.
abbrev pub retry_after : Allowance → ℕ → ℕ
retry_after a t = if ltb (a.reset_at - t) 1 then 1 else a.reset_at - t

-- `fmt.Sprintf("%d", …)` is a parameter.
module _ (print_int : ℤ → String) where
  abbrev pub limit_headers : RateLimitConfig → Allowance → List Call
  limit_headers cfg a =
      set_header "X-RateLimit-Limit" (print_int cfg.requests)
      ∷ (set_header "X-RateLimit-Remaining" (print_int a.remaining)
          ∷ (set_header "X-RateLimit-Reset" (print_int (pos a.reset_at)) ∷ []))

  -- The body that `json.NewEncoder` writes: the keys of a map are sorted.
  abbrev rejection_body : String → Bytes
  rejection_body after = codes (
      "{\"error\":\"rate_limit_exceeded\",\"message\":\"Rate limit exceeded. Try again in " <> after
      <> " seconds.\",\"retry_after\":" <> after <> "}\n")

  unfoldable pub reject : Allowance → ℕ → List Call
  unfolding codes
  reject a t =
      let after = print_int (pos (retry_after a t)) in
      set_header "Retry-After" after
      ∷ (set_header "Content-Type" "application/json"
          ∷ (write_header 429 ∷ (write (rejection_body after) ∷ [])))

module _ (net : Net) where
  open net use {
    Ip, IpNet, parse_ip, ip_string, is_ipv4, parse_cidr, network_contains, split_host_port,
  }

  -- `ParseTrustedProxies`.
  unfoldable pub normalize_proxy : String → Result String String
  normalize_proxy cidr = if contains_char b'/' cidr then ok cidr else (elim (parse_ip cidr) [
    | none ↦ err cidr
    | some ip ↦ ok (ip_string ip <> (if is_ipv4 ip then "/32" else "/128"))
  ])

  unfoldable pub parse_trusted_proxies : List String → Result String (List IpNet)
  unfolding normalize_proxy
  parse_trusted_proxies [] = ok []
  parse_trusted_proxies (cidr ∷ cidrs) = elim (normalize_proxy cidr) [
    | err bad ↦ err bad
    | ok full ↦ elim (parse_cidr full) [
      | none ↦ err full
      | some network ↦ elim (parse_trusted_proxies cidrs) [
        | err bad ↦ err bad
        | ok networks ↦ ok (network ∷ networks)
      ]
    ]
  ]

  unfoldable pub is_trusted : Ip → List IpNet → Bool
  is_trusted ip nets = any (λ n. network_contains n ip) nets

  unfoldable pub remote_addr_ip : Request → String
  remote_addr_ip r = elim (split_host_port r.remote_addr) [
    | none ↦ r.remote_addr
    | some host ↦ host
  ]

  -- An entry of `X-Forwarded-For` that is an address outside the trusted networks.
  unfoldable pub untrusted_entry : List IpNet → String → Option String
  unfolding is_trusted
  untrusted_entry nets part =
      let candidate = trim_space part in
      elim (parse_ip candidate) [
        | none ↦ none
        | some ip ↦ if is_trusted ip nets then none else some candidate
      ]

  -- The loop from the last entry to the first.
  unfoldable pub last_untrusted : List IpNet → List String → Option String
  unfolding untrusted_entry
  last_untrusted nets [] = none
  last_untrusted nets (part ∷ parts) = elim (last_untrusted nets parts) [
    | some candidate ↦ some candidate
    | none ↦ untrusted_entry nets part
  ]

  abbrev or_else : String → Option String → String
  or_else s none = s
  or_else s (some t) = t

  abbrev trusted_text : List IpNet → Option Ip → Bool
  trusted_text nets none = false
  trusted_text nets (some ip) = is_trusted ip nets

  unfoldable pub extract_ip : List IpNet → Request → String
  unfolding is_trusted remote_addr_ip last_untrusted
  extract_ip [] r = remote_addr_ip r
  extract_ip (n ∷ ns) r =
      let addr = remote_addr_ip r in
      let xff = Headers.get r.header "X-Forwarded-For" in
      if trusted_text (n ∷ ns) (parse_ip addr) && not (xff === "")
      then or_else addr (last_untrusted (n ∷ ns) (split b',' xff))
      else addr

  module _ (printers : Printers) where
    open printers use {digest, format_float, marshal}

    abbrev pub claim_text : Json → Option String
    claim_text null = none
    claim_text (text s) = some s
    claim_text (number x) = some (format_float x)
    claim_text (bool true) = some "true"
    claim_text (bool false) = some "false"
    claim_text (array xs) = marshal (array xs)
    claim_text (object xs) = marshal (object xs)

    abbrev claim_of : String → Option AuthResult → Option Json
    claim_of name none = none
    claim_of name (some ar) = elim ar.claims [ none ↦ none | some claims ↦ lookup name claims ]

    abbrev printed : Option Json → Option String
    printed none = none
    printed (some v) = claim_text v

    abbrev key_or_ip : List IpNet → Request → Option String → String
    key_or_ip nets r none = extract_ip nets r
    key_or_ip nets r (some s) = truncate_key digest s

    unfoldable pub extract_key : List IpNet → String → Request → String
    unfolding extract_ip truncate_key
    extract_key nets key_source r =
        if key_source === "" || key_source === "ip"
        then extract_ip nets r
        else if has_prefix key_source "header:"
        then (let val = Headers.get r.header (trim_prefix key_source "header:") in
            if val === "" then extract_ip nets r else truncate_key digest val)
        else if has_prefix key_source "claim:"
        then key_or_ip nets r
            (printed (claim_of (trim_prefix key_source "claim:") r.context.auth_result))
        else extract_ip nets r

    abbrev pub decide :
        {W : Type 0}
        → (ℤ → String)
        → (W → ℕ)
        → RateLimitConfig
        → Handler W
        → Request
        → Result String Allowance × W
        → Reply W
    unfolding reject
    decide print_int now cfg next r (outcome, w) = elim outcome [
      | err e ↦ next r w
      | ok a ↦
          if a.allowed
          then record (next r w) { calls = limit_headers print_int cfg a ++ (next r w).calls }
          else reply (limit_headers print_int cfg a ++ reject print_int a (now w)) w
    ]

    -- `NewRateLimitMiddleware`; `now` is the clock in seconds since 1970.
    unfoldable pub new_rate_limit_middleware :
        {W : Type 0}
        → (ℤ → String)
        → (W → ℕ)
        → Limiter W
        → List IpNet
        → Option RateLimitConfig
        → String
        → String
        → Middleware W
    unfolding extract_key reject
    new_rate_limit_middleware print_int now limiter nets none route_name name next r w = next r w
    new_rate_limit_middleware print_int now limiter nets (some cfg) route_name name next r w =
        let key = composite_key cfg route_name name (extract_key nets cfg.key_source r) in
        decide print_int now cfg next r (limiter key cfg.requests cfg.window cfg.algorithm w)
