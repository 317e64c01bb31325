-- ===== src/Auth/Bearer.antt =====
-- The bearer token of a request, as both authenticators for tokens read it:
-- internal/middleware/auth/jwt.go and oidc.go.
use Prim.Native.Char.{code}
use tanugate.Common.{
  String, Bool, Option, none, some, ◌==◌, ◌===◌, Result, ok, err, map_chars, if◌then◌else◌,
}
use tanugate.Http.{Request}
use tanugate.Http.Headers
use tanugate.Http.Headers.{lower_char}

abbrev cons_first : Prim.Native.Char.Char → Option (String × String) → Option (String × String)
cons_first c none = none
cons_first c (some (before, after)) = some (String.◌∷◌ c before, after)

-- The two parts of `strings.SplitN(s, " ", 2)`, if there are two.
unfoldable pub split_space : String → Option (String × String)
split_space String.[] = none
split_space (String.◌∷◌ c s) =
    let rest = split_space s in if code c == b' ' then some ("", s) else cons_first c rest

-- `strings.EqualFold`, where one text has only letters whose cases are in ASCII.
unfoldable pub equal_fold : String → String → Bool
unfolding lower_char map_chars
equal_fold a b = map_chars lower_char a === map_chars lower_char b

abbrev pub token_of : Option (String × String) → Result String String
token_of none = err "malformed token"
token_of (some (scheme, token)) =
    if equal_fold scheme "Bearer" then ok token else err "malformed token"

unfoldable pub bearer_token : Request → Result String String
unfolding split_space equal_fold
bearer_token r =
    let header = Headers.get r.header "Authorization" in
    if header === "" then err "missing authorization header" else token_of (split_space header)
