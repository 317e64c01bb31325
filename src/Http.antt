-- ===== src/Http.antt =====
-- What the gateway uses of Go's `net/http`: headers, requests with the values of their context, the
-- calls that a handler makes on its `ResponseWriter`, and handlers and middlewares.
-- A handler's use of its `ResponseWriter` is the list of its calls, so that a `ResponseWriter` that
-- wraps another (CORS, logging, metrics) is a function from calls to calls.
pub mod Headers
pub mod Wire
pub mod Plain
use Prim.Native.Char.{code}
use Prim.Native.String
use tanugate.Common.{ℕ, ◌<>◌, String, Bool, true, false, Option, none, some, List, [], ◌∷◌, ◌++◌}
use tanugate.Http.Headers.{Header}

-- Bytes of a body.
abbrev pub Bytes : Type 0
Bytes = List ℕ

-- A decoded JSON value (`any` after `encoding/json`). A `float64` is given by its 64 bits.
mutual
  pub data Json : Type 0 where
    null : Json
    bool : Bool → Json
    number : ℕ → Json
    text : String → Json
    array : Elements → Json
    object : Members → Json

  pub data Elements : Type 0 where
    no_elements : Elements
    element : Json → Elements → Elements

  pub data Members : Type 0 where
    no_members : Members
    member : String → Json → Members → Members

-- `auth.AuthResult`; `claims` is `none` for a nil map.
pub record AuthResult : Type 0 where
  pub subject : String
  pub claims : Option (List (String × Json))
  pub name : String
  pub provider : String

-- `router.MatchedRoute`, with the name of its `Config`.
pub record MatchedRoute : Type 0 where
  pub route_name : String
  pub path_params : List (String × String)

-- The values that the gateway stores in a request's context.
pub record Context : Type 0 where
  pub request_id : Option String
  pub auth_result : Option AuthResult
  pub matched_route : Option MatchedRoute
  pub start_time : Option ℕ

-- What reading `r.Body` to its end gives: there may be no body, or reading it may fail.
pub data Body : Type 0 where
  no_body : Body
  content : Bytes → Body
  unreadable : Body

pub record Request : Type 0 where
  pub method : String
  pub host : String
  pub path : String
  pub remote_addr : String
  pub header : Header
  pub body : Body
  pub context : Context

-- A call on a `ResponseWriter`, or on the header map that it hands out.
pub data Call : Type 0 where
  set_header : String → String → Call
  add_header : String → String → Call
  del_header : String → Call
  write_header : ℕ → Call
  write : Bytes → Call
  flush : Call

-- What a handler did: its calls in order, whether it ended in a panic, and the world that it left.
pub record Reply (W : Type 0) : Type 0 where
  pub calls : List Call
  pub panicked : Bool
  pub world : W

abbrev pub Handler : Type 0 → Type 0
Handler W = Request → W → Reply W

-- `middleware.Middleware`.
abbrev pub Middleware : Type 0 → Type 0
Middleware W = Handler W → Handler W

abbrev pub with_context : Request → Context → Request
with_context r ctx = record r { context = ctx }

-- A handler that answers by itself.
abbrev pub reply : {W : Type 0} → List Call → W → Reply W
reply calls w = record { calls = calls; panicked = false; world = w }

-- The code points of a text: its bytes, if it is ASCII.
unfoldable pub codes : String → Bytes
codes (String.◌∷◌ character others) = code character ∷ codes others
codes String.[] = []

-- The line that `json.NewEncoder(w).Encode(map[string]string{"error": …, "message": …})` writes, for
-- texts that need no escape.
unfoldable pub json_error : String → String → Bytes
unfolding codes
json_error error message =
    codes ("{\"error\":\"" <> error <> "\",\"message\":\"" <> message <> "\"}\n")

-- `writeJSON(w, status, errCode, message)`.
abbrev pub write_json : ℕ → String → String → List Call
write_json status error message =
    set_header "Content-Type" "application/json"
    ∷ (write_header status ∷ (write (json_error error message) ∷ []))
