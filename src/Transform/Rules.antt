-- ===== src/Transform/Rules.antt =====
-- What the rules of internal/middleware/transform/transform.go do to headers and to JSON bodies.
use tanugate.Common.{
  ℕ, String, Bool, true, false, Option, none, some, List, [], ◌∷◌, lookup, insert, delete,
  if◌then◌else◌,
}
use tanugate.Http.{Bytes, Request, Json, text}
use tanugate.Http.Headers
use tanugate.Http.Headers.{Header}
use tanugate.Config.{HeaderTransform, BodyTransform}
use tanugate.Transform.Variables.{Clock, resolve_variables}

-- `encoding/json`: an object, where `null` gives a nil map.
pub record JsonCodec : Type 0 where
  pub unmarshal : Bytes → Option (Option (List (String × Json)))
  pub marshal : Option (List (String × Json)) → Option Bytes

unfoldable pub strip : List String → List (String × Json) → List (String × Json)
strip [] data_ = data_
strip (field ∷ fields) data_ = strip fields (delete field data_)

-- `data[newKey] = val; delete(data, old)`, where `old` is there.
abbrev pub moved : String → String → Option Json → List (String × Json) → List (String × Json)
moved old new none data_ = data_
moved old new (some val) data_ = delete old (insert new val data_)

abbrev pub rename_key : String → String → List (String × Json) → List (String × Json)
rename_key old new data_ = moved old new (lookup old data_) data_

unfoldable pub rename : List (String × String) → List (String × Json) → List (String × Json)
rename [] data_ = data_
rename ((old, new) ∷ rules) data_ = rename rules (rename_key old new data_)

-- How `transformBody` ends: a write to a nil map is a panic.
pub data Transformed : Type 0 where
  body_of : Bytes → Transformed
  not_marshaled : Transformed
  nil_map_written : Transformed

abbrev marshaled : Option Bytes → Transformed
marshaled none = not_marshaled
marshaled (some b) = body_of b

module _ {W : Type 0} (clock : Clock W) (codec : JsonCodec) where
  open codec use {unmarshal, marshal}

  -- The headers that a placeholder sees are those of the request: in a request transform, the ones
  -- that are being changed.
  unfoldable pub remove_headers : List String → Header → Header
  remove_headers [] h = h
  remove_headers (name ∷ names) h = remove_headers names (Headers.del h name)

  abbrev add_each : String → List String → Header → Header
  add_each name [] h = h
  add_each name (v ∷ vals) h = add_each name vals (Headers.add h name v)

  abbrev pub rename_header : String → String → Header → Header
  rename_header old new h = add_each new (Headers.values h old) (Headers.del h old)

  abbrev pub rename_or_skip : String → String → Header → Header
  rename_or_skip old new h = elim (Headers.values h old) [
    | [] ↦ h
    | _ ∷ _ ↦ rename_header old new h
  ]

  unfoldable pub rename_headers : List (String × String) → Header → Header
  rename_headers [] h = h
  rename_headers ((old, new) ∷ rules) h = rename_headers rules (rename_or_skip old new h)

  unfoldable pub set_headers :
      (Header → Request) → Option ℕ → W → List (String × String) → Header → Header
  unfolding resolve_variables
  set_headers seen latency_ms w [] h = h
  set_headers seen latency_ms w ((name, value) ∷ rules) h =
      set_headers seen latency_ms w rules
        (Headers.set h name (resolve_variables clock value (seen h) latency_ms w))

  -- `transformHeaders`; `seen` is the request, given the headers that are being changed.
  unfoldable pub transform_headers :
      (Header → Request) → Option ℕ → W → Option HeaderTransform → Header → Header
  unfolding remove_headers rename_headers set_headers
  transform_headers seen latency_ms w none h = h
  transform_headers seen latency_ms w (some cfg) h =
      set_headers seen latency_ms w cfg.add
        (rename_headers cfg.rename (remove_headers cfg.remove h))

  abbrev pub injected : Request → Option ℕ → W → Json → Json
  injected r latency_ms w (text s) = text (resolve_variables clock s r latency_ms w)
  injected r latency_ms w value = value

  unfoldable pub inject :
      Request → Option ℕ → W → List (String × Json) → List (String × Json) → List (String × Json)
  unfolding resolve_variables
  inject r latency_ms w [] data_ = data_
  inject r latency_ms w ((key, value) ∷ fields) data_ =
      inject r latency_ms w fields (insert key (injected r latency_ms w value) data_)

  unfoldable pub transform_fields :
      BodyTransform → Request → Option ℕ → W → List (String × Json) → List (String × Json)
  unfolding strip rename inject
  transform_fields cfg r latency_ms w data_ =
      inject r latency_ms w cfg.inject_fields
        (rename cfg.rename_keys (strip cfg.strip_fields data_))

  abbrev pub nothing_injected : List (String × Json) → Bool
  nothing_injected [] = true
  nothing_injected (_ ∷ _) = false

  abbrev pub transform_value :
      BodyTransform
      → Bytes
      → Request
      → Option ℕ
      → W
      → Option (Option (List (String × Json)))
      → Transformed
  transform_value cfg body r latency_ms w none = body_of body
  transform_value cfg body r latency_ms w (some none) =
      if nothing_injected cfg.inject_fields then marshaled (marshal none) else nil_map_written
  transform_value cfg body r latency_ms w (some (some data_)) =
      marshaled (marshal (some (transform_fields cfg r latency_ms w data_)))

  -- `transformBody`, for a configuration that is there.
  unfoldable pub transform_body : BodyTransform → Bytes → Request → Option ℕ → W → Transformed
  unfolding transform_fields
  transform_body cfg [] r latency_ms w = body_of []
  transform_body cfg (b ∷ bs) r latency_ms w =
      transform_value cfg (b ∷ bs) r latency_ms w (unmarshal (b ∷ bs))
