-- ===== src/Retry.antt =====
-- Retries: internal/middleware/retry/retry.go.
-- The breaker is shared by the requests of a route, so it is a part of the world, and so are the
-- clock and the client's connection: whatever other requests do meanwhile is in what `proxy` and
-- `pause` do to the world.
pub mod Recording
pub mod Roundtrip
pub mod Attempts
pub mod Bound
mod Tests
use tanugate.Common.{
  ℕ, suc, ◌+◌, ◌<>◌, String, Bool, true, false, Option, none, some, List, [], ◌∷◌, ltb, leb, length,
  any, int_eq, rounds, add_one, ℤ, pos, if◌then◌else◌,
}
use tanugate.Http.{
  Bytes, Body, no_body, content, unreadable, Request, Call, Handler, Reply, reply, write_json,
}
use tanugate.Config.{RetryConfig}
use tanugate.CircuitBreaker.{CircuitBreaker, Change, Admission, rejected, admitted, begin, finish}
use tanugate.Retry.Recording.{Recorder, record_all, copy_recorder}

-- What the handler finds in the world: the breaker of its route, the time, whether the client is
-- gone (`r.Context().Done()`), and the pause before an attempt (`h.sleep(h.backoff(attempt))`).
pub record Surroundings (W : Type 0) : Type 0 where
  pub breaker_of : W → CircuitBreaker
  pub set_breaker : CircuitBreaker → W → W
  pub now : W → ℕ
  pub client_gone : W → Bool
  pub pause : ℕ → W → W

-- `maxRetryBodySize`.
abbrev pub max_retry_body_size : ℕ
max_retry_body_size = 10485760

-- How one attempt ends: the breaker refuses it, the proxy panics, or there is a response, with
-- `true` if the call failed in the breaker's eyes.
pub data Attempt (W : Type 0) : Type 0 where
  refused : W → Attempt W
  crashed : W → Attempt W
  responded : Recorder → Bool → W → Attempt W

-- How one round of the loop ends: with the answer, or with an error and another round.
pub data Step (W : Type 0) : Type 0 where
  answered : Reply W → Step W
  again : String → W → Step W

abbrev pub circuit_open : List Call
circuit_open = write_json 503 "service_unavailable" "circuit breaker is open"

abbrev pub client_closed : List Call
client_closed = write_json 499 "client_closed" "client disconnected during retry"

-- A panic leaves the handler before it has written anything.
abbrev pub crash : {W : Type 0} → W → Reply W
crash w = record { calls = []; panicked = true; world = w }

-- `detect` is `http.DetectContentType`.
module _ (detect : Bytes → String) {W : Type 0} (s : Surroundings W) (proxy : Handler W) where
  open s use {breaker_of, set_breaker, now, client_gone, pause}

  -- `h.proxy.ServeHTTP(rec, r)` on a new recorder; `failed` says which responses are errors.
  unfoldable pub call_proxy : (ℕ → Bool) → Request → W → Attempt W
  unfolding record_all
  call_proxy failed r w =
      let out = proxy r w in
      if out.panicked
      then crashed out.world
      else (let rec = record_all detect out.calls in responded rec (failed rec.code) out.world)

  -- Section B of `Execute` after the call.
  abbrev pub settle : Bool → Attempt W → Attempt W
  settle is_probe (refused w) = refused w
  settle is_probe (crashed w) = crashed w
  settle is_probe (responded rec failed w) =
      responded rec failed (set_breaker (finish (breaker_of w) is_probe failed (now w)).0 w)

  abbrev pub on_admission : Request → W → Admission → Attempt W
  on_admission r w rejected = refused w
  on_admission r w (admitted is_probe fired) =
      settle is_probe (call_proxy (λ code. leb 500 code) r w)

  -- `h.cb.Execute(…)`: 5xx responses are failures.
  unfoldable pub call_through : Request → W → Attempt W
  unfolding call_proxy
  call_through r w =
      let (cb, admission) = begin (breaker_of w) (now w) in
      on_admission r (set_breaker cb w) admission

  unfoldable pub call_once : Bool → Request → W → Attempt W
  unfolding call_proxy call_through
  call_once with_breaker r w =
      if with_breaker then call_through r w else call_proxy (λ code. false) r w

  -- `cbOnlyHandler.ServeHTTP`.
  unfoldable pub cb_only_handler : Handler W
  unfolding call_through copy_recorder
  cb_only_handler r w = elim (call_through r w) [
    | refused w' ↦ reply circuit_open w'
    | crashed w' ↦ crash w'
    | responded rec failed w' ↦ reply (copy_recorder rec) w'
  ]

  -- `h.retryable[code]`.
  abbrev pub is_retryable : RetryConfig → ℕ → Bool
  is_retryable cfg code = any (λ c. int_eq c (pos code)) cfg.retryable_status_codes

  -- `fmt.Sprintf("%d", …)` is a parameter.
  module _ (print_int : ℤ → String) (cfg : RetryConfig) (with_breaker : Bool) where
    abbrev pub status_error : ℕ → String
    status_error code = "upstream returned " <> print_int (pos code)

    abbrev reason : Option String → String
    reason none = ""
    reason (some e) = ": " <> e

    unfoldable pub exhausted : Option String → List Call
    exhausted last = write_json 502 "bad_gateway" (
        "upstream failed after "
        <> print_int (add_one cfg.max_retries)
        <> " attempts"
        <> reason last)

    -- The pause before the attempts but the first: `none` if the client is gone before or after it.
    unfoldable pub wait : ℕ → W → W × Bool
    wait ℕ.zero w = (w, true)
    wait (suc n) w =
        if client_gone w
        then (w, false)
        else (let w' = pause (suc n) w in (w', if client_gone w' then false else true))

    -- What a response is: to be retried for its status or its failure, or the answer.
    abbrev pub is_final : Recorder → Bool → Bool
    is_final rec failed =
        if failed then false else if is_retryable cfg rec.code then false else true

    abbrev pub judge : Attempt W → Step W
    unfolding copy_recorder
    judge (refused w) = answered (reply circuit_open w)
    judge (crashed w) = answered (crash w)
    judge (responded rec failed w) =
        if is_final rec failed
        then answered (reply (copy_recorder rec) w)
        else again (status_error rec.code) w

    -- One round of the loop.
    unfoldable pub try_attempt : ℕ → Request → W → Step W
    unfolding call_once wait judge
    try_attempt attempt r w =
        let (w', present) = wait attempt w in
        if present then judge (call_once with_breaker r w') else answered (reply client_closed w')

    -- The loop, with the attempts that are left and the number of the next one.
    unfoldable pub attempts : ℕ → ℕ → Option String → Handler W
    unfolding try_attempt exhausted
    attempts ℕ.zero attempt last r w = reply (exhausted last) w
    attempts (suc left) attempt last r w = elim (try_attempt attempt r w) [
      | answered out ↦ out
      | again error v ↦ attempts left (suc attempt) (some error) r v
    ]

    -- `retryHandler.ServeHTTP`: every attempt reads the same body.
    unfoldable pub retry_handler : Handler W
    unfolding attempts
    retry_handler r w = elim r.body [
      | no_body ↦ attempts (rounds (add_one cfg.max_retries)) 0 none r w
      | unreadable ↦ reply (write_json 502 "bad_gateway" "failed to read request body") w
      | content b ↦
          if ltb max_retry_body_size (length b)
          then reply
              (write_json 413 "request_too_large" "request body exceeds 10MB retry buffer limit") w
          else attempts (rounds (add_one cfg.max_retries)) 0 none r w
    ]
