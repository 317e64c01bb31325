-- ===== src/Transform.antt =====
-- Transforms of requests and responses: internal/middleware/transform/transform.go.
-- The reading and printing of JSON are parameters. A body that cannot be read to its end counts as
-- failing before the limit.
pub mod Variables
pub mod Rules
pub mod Buffering
pub mod Limits
pub mod Answers
pub mod Fields
mod Tests
use tanugate.Common.{
  ℕ, suc, zero, ◌+◌, ◌-◌, ◌/◌, ◌^◌, ◌<>◌, String, Bool, true, false, not, ◌&&◌, ◌||◌, Option, none,
  some, List, [], ◌∷◌, ◌++◌, ◌==◌, ◌===◌, ltb, length, split, trim_space, lookup, insert, delete,
  is_some, Result, ok, err, ℤ, pos, negsuc, if◌then◌else◌,
}
use tanugate.Http.{
  Bytes, Request, Body, no_body, content, unreadable, Reply, reply, Handler, Middleware, Call,
  set_header, add_header, del_header, write_header, write, flush, write_json, with_context, Json,
  text,
}
use tanugate.Http.Headers
use tanugate.Http.Headers.{Header}
use tanugate.Config.{HeaderTransform, BodyTransform, DirectionTransform, TransformConfig}
use tanugate.Retry.Recording.{add_all}
use tanugate.Transform.Variables.{Clock, first_part}
use tanugate.Transform.Rules.{
  JsonCodec, Transformed, body_of, not_marshaled, nil_map_written, transform_headers,
  transform_body,
}
use tanugate.Transform.Buffering.{Buffer, new_buffer, buffer_all}

-- `defaultMaxTransformBodySize`.
abbrev pub default_max_transform_body_size : ℕ
default_max_transform_body_size = 10485760

abbrev pub effective_max_body : ℤ → ℕ
effective_max_body (pos ℕ.zero) = default_max_transform_body_size
effective_max_body (pos (suc n)) = suc n
effective_max_body (negsuc n) = default_max_transform_body_size

-- `isJSON`.
unfoldable pub is_json : String → Bool
unfolding trim_space split
is_json ct = trim_space (first_part (split b';' ct)) === "application/json"

-- `io.ReadAll(io.LimitReader(r.Body, limit+1))`, with the sum in 64 bits with a sign.
abbrev pub read_limit : ℕ → ℕ
read_limit limit = if ltb (limit + 1) (2 ^ 63) then limit + 1 else 0

unfoldable pub take : ℕ → Bytes → Bytes
take ℕ.zero bs = []
take (suc n) [] = []
take (suc n) (b ∷ bs) = b ∷ take n bs

abbrev pub read_body : ℕ → Body → Option Bytes
read_body n no_body = some []
read_body n (content b) = some (take n b)
read_body n unreadable = none

-- A handler that panics before it has written anything.
abbrev pub panicked : {W : Type 0} → W → Reply W
panicked w = record { calls = []; panicked = true; world = w }

module _ {W : Type 0} (clock : Clock W) (codec : JsonCodec) where
  open clock use {now, format_int}

  -- The request with a new body.
  abbrev pub with_body : Request → Bytes → Request
  with_body r b = record r {
    body = content b;
    header = Headers.set r.header "Content-Length" (format_int (length b));
  }

  abbrev pub forward : Handler W → Request → W → Bytes → Transformed → Reply W
  forward next r w body (body_of b) = next (with_body r b) w
  forward next r w body not_marshaled = next (record r { body = content body }) w
  forward next r w body nil_map_written = panicked w

  -- The request's body, as far as it was read.
  abbrev pub request_body : Handler W → BodyTransform → ℕ → Request → W → Option Bytes → Reply W
  request_body next cfg limit r w none =
      reply (write_json 502 "bad_gateway" "failed to read request body") w
  request_body next cfg limit r w (some []) = next (record r { body = content [] }) w
  request_body next cfg limit r w (some (b ∷ bs)) =
      if ltb limit (length (b ∷ bs))
      then reply (write_json 413 "request_too_large" "request body exceeds transform size limit") w
      else forward next r w (b ∷ bs) (transform_body clock codec cfg (b ∷ bs) r none w)

  abbrev pub request_rules : Option BodyTransform → ℕ → Handler W → Handler W
  request_rules none limit next r w = next r w
  request_rules (some cfg) limit next r w =
      if is_json (Headers.get r.header "Content-Type")
      then request_body next cfg limit r w (read_body (read_limit limit) r.body)
      else next r w

  abbrev pub started : Request → W → Request
  started r w = record r { context = record (r.context) { start_time = some (now w) } }

  -- `RequestTransform`.
  unfoldable pub request_transform : Option DirectionTransform → ℤ → Middleware W
  unfolding transform_headers transform_body take is_json
  request_transform none max_body_size next r w = next (started r w) w
  request_transform (some cfg) max_body_size next r w =
      let begun = started r w in
      let seen = λ (h : Header). record begun { header = h } in
      request_rules cfg.body (effective_max_body max_body_size) next
        (seen (transform_headers clock codec seen none w cfg.headers begun.header)) w

  -- `time.Since(start).Milliseconds()`, or 0 without a start.
  abbrev pub latency_ms : Option ℕ → W → ℕ
  latency_ms none w = 0
  latency_ms (some start) w = (now w - start) / 1000000

  abbrev pub finish_body : Bytes → Transformed → Option Bytes
  finish_body body (body_of b) = some b
  finish_body body not_marshaled = some body
  finish_body body nil_map_written = none

  -- The body after its rules; `none` is a panic.
  abbrev pub response_body : Option BodyTransform → Header → Bytes → Request → ℕ → W → Option Bytes
  response_body none headers body r ms w = some body
  response_body (some cfg) headers [] r ms w = some []
  response_body (some cfg) headers (b ∷ bs) r ms w =
      if is_json (Headers.get headers "Content-Type")
      then finish_body (b ∷ bs) (transform_body clock codec cfg (b ∷ bs) r (some ms) w)
      else some (b ∷ bs)

  abbrev pub send_all : Header → ℕ → W → Option Bytes → Reply W
  send_all headers code w none = panicked w
  send_all headers code w (some body) =
      reply
        (add_all (
            Headers.set (Headers.del headers "Transfer-Encoding") "Content-Length"
              (format_int (length body)))
          ++ (write_header code ∷ (write body ∷ [])))
        w

  -- The response in the buffer, when the handler has returned.
  abbrev pub flush_buffer : DirectionTransform → Request → W → Buffer → Reply W
  flush_buffer cfg r w buf =
      if buf.exceeded
      then reply
          (write_json 502 "bad_gateway" "upstream response body exceeds transform size limit") w
      else (let ms = latency_ms r.context.start_time w in
          let headers =
            transform_headers clock codec (λ h. r) (some ms) w cfg.headers buf.headers in
          send_all headers buf.status_code w (response_body cfg.body headers buf.body r ms w))

  -- `ResponseTransform`.
  unfoldable pub response_transform : Option DirectionTransform → ℤ → Middleware W
  unfolding transform_headers transform_body is_json buffer_all add_all
  response_transform none max_body_size next r w = next r w
  response_transform (some cfg) max_body_size next r w =
      let out = next r w in
      if out.panicked
      then panicked out.world
      else flush_buffer cfg r out.world
          (buffer_all (effective_max_body max_body_size) new_buffer out.calls)

  -- The two around the handler of a route, as BuildHandler puts them.
  unfoldable pub transform : TransformConfig → Middleware W
  unfolding request_transform response_transform
  transform cfg next =
      request_transform cfg.request cfg.max_body_size
        (response_transform cfg.response cfg.max_body_size next)
