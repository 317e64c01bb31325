-- ===== src/Transform/Tests.antt =====
-- Transforms of a request and of a response with concrete rules.
use tanugate.Common.{
  ℕ, ◌≡◌, refl, arith, true, none, some, [], ◌∷◌, lookup, contains, split, trim_space, trim_left,
  trim_right, is_space, pos,
}
use tanugate.Http.{
  Request, content, text, number, Handler, reply, write_header, write, set_header, json_error,
  write_json,
}
use tanugate.Http.Headers
use tanugate.Http.Wire.{deliver}
use tanugate.Http.Plain.{written}
use tanugate.Config.{BodyTransform, DirectionTransform}
use tanugate.Transform.Variables.{
  Clock, resolve_variables, expand, variable_at, before_brace, variable, client_ip,
}
use tanugate.Transform.Rules.{JsonCodec, transform_headers, transform_fields, rename_key}
use tanugate.Transform.{request_transform, response_transform, is_json}
use tanugate.Transform.Answers.{response_transform_too_large}
use tanugate.Transform.Fields.{
  transform_fields-lookup, rename_key-lookup, request_transform_too_large,
}

abbrev clock : Clock ℕ
clock = record {
  split_host_port = λ s. some s;
  now = λ w. w;
  rfc3339 = λ t. "2024-01-01T00:00:00Z";
  format_int = λ n. "3";
}

-- A codec of one object.
abbrev codec : JsonCodec
codec = record {
  unmarshal = λ b. some (some (("a", number 1) ∷ (("b", number 2) ∷ [])));
  marshal = λ d. some (1 ∷ (2 ∷ []));
}

abbrev req : Request
req = record {
  method = "GET";
  host = "a";
  path = "/x";
  remote_addr = "9.9.9.9";
  header = ("Content-Type", "application/json; charset=utf-8" ∷ []) ∷ [];
  body = content (1 ∷ (2 ∷ (3 ∷ [])));
  context = record {
    request_id = some "id";
    auth_result = none;
    matched_route = none;
    start_time = none;
  };
}

placeholders :
    (resolve_variables clock "${method} ${path} ${x} ${} $" req none 0 ≡ "GET /x ${x} ${} $")
    × (resolve_variables clock "${request_id}-${client_ip}-${latency_ms}" req none 0
        ≡ "id-9.9.9.9-0")
unfolding resolve_variables expand variable variable_at before_brace client_ip Headers.get lookup
    Headers.canonical
placeholders = (refl, refl)

abbrev rules : BodyTransform
rules = record {
  inject_fields = ("c", text "${method}") ∷ [];
  strip_fields = "a" ∷ [];
  rename_keys = ("x", "y") ∷ [];
}

abbrev cfg : DirectionTransform
cfg = record { headers = none; body = some rules }

abbrev plain_cfg : DirectionTransform
plain_cfg = record {
  headers = some (record { add = ("X-Time", "${latency_ms}") ∷ []; remove = []; rename = [] });
  body = none;
}

abbrev handler : Handler ℕ
handler r w = reply (set_header "X-A" "1" ∷ (write_header 404 ∷ (write (7 ∷ (8 ∷ [])) ∷ []))) w

response_transform_too_large_example :
    ((deliver [] (response_transform clock codec (some cfg) (pos 1) handler req 0).calls).status
      ≡ some 502)
    × ((deliver [] (response_transform clock codec (some cfg) (pos 1) handler req 0).calls).body
        ≡ json_error "bad_gateway" "upstream response body exceeds transform size limit")
    × ((deliver [] (response_transform clock codec (some cfg) (pos 1) handler req 0).calls).sent
        ≡ Headers.set [] "Content-Type" "application/json")
unfolding written
response_transform_too_large_example =
    response_transform_too_large clock codec cfg (pos 1) handler req 0 [] refl (omega arith)

transform_fields-lookup_example :
    lookup "c" (transform_fields clock codec rules req none 0 (("a", number 1) ∷ []))
    ≡ some (text (resolve_variables clock "${method}" req none 0))
unfolding lookup contains
transform_fields-lookup_example =
    transform_fields-lookup clock codec req none 0 rules (("a", number 1) ∷ []) "c" (refl, tt)
      (refl, refl, tt)

-- A rename of a field to itself.
rename_key-lookup_example : lookup "a" (rename_key "a" "a" (("a", number 1) ∷ [])) ≡ none
unfolding lookup
rename_key-lookup_example = rename_key-lookup "a" "a" (("a", number 1) ∷ []) (number 1) "a" refl

req_is_json : is_json (Headers.get req.header "Content-Type") ≡ true
unfolding is_json split trim_space trim_left trim_right is_space Headers.get lookup
    Headers.canonical
req_is_json = refl

request_transform_too_large_example :
    request_transform clock codec (some cfg) (pos 2) handler req 0
    ≡ reply (write_json 413 "request_too_large" "request body exceeds transform size limit") 0
unfolding transform_headers
request_transform_too_large_example =
    request_transform_too_large clock codec cfg rules (pos 2) handler req 0 (1 ∷ (2 ∷ (3 ∷ [])))
      refl refl req_is_json (omega arith) (omega arith)
