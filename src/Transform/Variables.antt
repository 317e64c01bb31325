-- ===== src/Transform/Variables.antt =====
-- The placeholders `${...}` of internal/middleware/transform/transform.go.
use Prim.Native.Char.{code}
use tanugate.Common.{
  ℕ, suc, ◌+◌, ◌/◌, ◌<>◌, String, Option, none, some, List, [], ◌∷◌, ◌==◌, ◌===◌, split, trim_space,
  if◌then◌else◌,
}
use tanugate.Http.{Request, MatchedRoute}
use tanugate.Http.Headers

-- The number of characters of a text.
abbrev pub chars : String → ℕ
chars String.[] = 0
chars (String.◌∷◌ c s) = suc (chars s)

-- What stands before the next closing brace, if there is one.
unfoldable pub before_brace : String → Option String
before_brace String.[] = none
before_brace (String.◌∷◌ c s) =
    let rest = before_brace s in
    if code c == b'}'
    then some ""
    else (elim rest [ none ↦ none | some name ↦ some (String.◌∷◌ c name) ])

abbrev non_empty : Option String → Option String
non_empty none = none
non_empty (some name) = if name === "" then none else some name

-- The name in a match of `\$\{([^}]+)\}` at the start of a text.
unfoldable pub variable_at : String → Option String
unfolding before_brace
variable_at (String.◌∷◌ c (String.◌∷◌ d s)) =
    if code c == b'$' then (if code d == b'{' then non_empty (before_brace s) else none) else none
variable_at (String.◌∷◌ c String.[]) = none
variable_at String.[] = none

-- `ReplaceAllStringFunc`: the matches from left to right. The characters of a match that is already
-- replaced are skipped.
unfoldable pub expand : (String → String) → ℕ → String → String
unfolding variable_at
expand value skip String.[] = ""
expand value (suc skip) (String.◌∷◌ c s) = expand value skip s
expand value ℕ.zero (String.◌∷◌ c s) = elim (variable_at (String.◌∷◌ c s)) [
  | none ↦ String.◌∷◌ c (expand value 0 s)
  | some name ↦ value name <> expand value (chars name + 2) s
]

abbrev pub first_part : List String → String
first_part [] = ""
first_part (part ∷ _) = part

abbrev or_empty : Option String → String
or_empty none = ""
or_empty (some s) = s

abbrev route_name : Option MatchedRoute → String
route_name none = ""
route_name (some matched) = matched.route_name

-- What the transforms use of Go's `net`, `time` and `strconv` packages; times are in nanoseconds.
pub record Clock (W : Type 0) : Type 0 where
  pub split_host_port : String → Option String
  pub now : W → ℕ
  pub rfc3339 : ℕ → String
  pub format_int : ℕ → String

module _ {W : Type 0} (clock : Clock W) where
  open clock use {split_host_port, now, rfc3339, format_int}

  -- `clientIP`.
  unfoldable pub client_ip : Request → String
  unfolding trim_space
  client_ip r =
      let xff = Headers.get r.header "X-Forwarded-For" in
      if xff === ""
      then (elim (split_host_port r.remote_addr) [ none ↦ r.remote_addr | some host ↦ host ])
      else trim_space (first_part (split b',' xff))

  abbrev latency : Option ℕ → String
  latency none = "0"
  latency (some ms) = format_int ms

  -- The switch in `resolveVariables`.
  unfoldable pub variable : Request → Option ℕ → W → String → String
  unfolding client_ip
  variable r latency_ms w name =
      if name === "request_id"
      then or_empty r.context.request_id
      else if name === "client_ip"
      then client_ip r
      else if name === "timestamp_iso"
      then rfc3339 (now w)
      else if name === "timestamp_unix"
      then format_int (now w / 1000000000)
      else if name === "latency_ms"
      then latency latency_ms
      else if name === "route_name"
      then route_name r.context.matched_route
      else if name === "method"
      then r.method
      else if name === "path"
      then r.path
      else "${" <> name <> "}"

  -- `resolveVariables`.
  unfoldable pub resolve_variables : String → Request → Option ℕ → W → String
  unfolding expand variable
  resolve_variables s r latency_ms w = expand (variable r latency_ms w) 0 s
