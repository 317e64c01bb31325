-- ===== src/Middleware/Logging.antt =====
-- The logging of requests: internal/middleware/logging.go.
-- The logger acts on the world; the lines with all headers are left out.
use tanugate.Common.{
  ℕ, ◌-◌, ◌/◌, ◌≡◌, refl, ap, ◌∙◌, String, true, false, Option, none, some, if◌then◌else◌, length,
}
use tanugate.Http.{Bytes, Request, MatchedRoute, Reply, Handler, Middleware}
use tanugate.Http.Headers.{Header}
use tanugate.Http.Wire.{deliver, run, fresh, send_header}
use tanugate.Middleware.Writer.{
  wrap_response_writer, forward_all, status_code_method, WrappedResponseWriter,
}
use tanugate.Middleware.Writer.Tracking.{is_orderly, final_status, wrapper_tracks}
use tanugate.Middleware.Writer.Size.{taken_whole, wrapper_counts}

-- The two lines of a request, with the values that they print.
pub data Line : Type 0 where
  request_started : (method path remote_addr request_id : String) → Line
  request_completed :
      (method path : String) (status latency_ms : ℕ) (request_id route remote_addr : String)
      (response_size : ℕ)
      → Line

pub record Logger (W : Type 0) : Type 0 where
  pub log : Line → W → W
  pub now : W → ℕ

abbrev text_or_empty : Option String → String
text_or_empty none = ""
text_or_empty (some s) = s

abbrev route_or_unknown : Option MatchedRoute → String
route_or_unknown none = "unknown"
route_or_unknown (some matched) = matched.route_name

-- `taken` is what `Write` of the wrapped writer returns.
module _ {W : Type 0} (logger : Logger W) (taken : ℕ → ℕ → Bytes → ℕ) where
  open logger use {log, now}

  abbrev pub started_line : Request → Line
  started_line r =
      request_started r.method r.path r.remote_addr (text_or_empty r.context.request_id)

  abbrev pub completed_line : Request → WrappedResponseWriter → ℕ → Line
  completed_line r ww latency =
      request_completed r.method r.path (status_code_method ww) latency
        (text_or_empty r.context.request_id) (route_or_unknown r.context.matched_route)
        r.remote_addr ww.bytes_written

  -- After the handler: a panic goes on to the outer middlewares before the second line is logged.
  abbrev pub completed : Request → ℕ → Reply W → Reply W
  completed r start out =
      let (ww, calls) = forward_all taken wrap_response_writer out.calls in
      if out.panicked
      then record { calls = calls; panicked = true; world = out.world }
      else record {
        calls = calls;
        panicked = false;
        world = log (completed_line r ww ((now out.world - start) / 1000000)) out.world;
      }

  -- `Logging`.
  unfoldable pub logging : Middleware W
  unfolding forward_all status_code_method
  logging next r w = completed r (now w) (next r (log (started_line r) w))

  completed_quiet :
      (r : Request) (start : ℕ) (out : Reply W)
      → out.panicked ≡ false
      → completed r start out ≡ record {
        calls = (forward_all taken wrap_response_writer out.calls).1;
        panicked = false;
        world =
            log
              (completed_line r
                (forward_all taken wrap_response_writer out.calls).0
                ((now out.world - start) / 1000000))
              out.world;
      }
  completed_quiet r start out e = rw e refl

  -- What the handler does behind the first line.
  abbrev pub inner : Handler W → Handler W
  inner next r w = next r (log (started_line r) w)

module _ {W : Type 0} (logger : Logger W) where
  open logger use {log, now}

  -- If the handler returns, and neither flushes nor sends an informational status before its
  -- response starts, and its writes fail only where the status allows no body: the client gets the
  -- same response as without the logging, and the line that is logged last has the status that the
  -- client got and the length of the response's body (for HEAD, of the body that is left out).
  pub logging_transparent :
      (next : Handler W) (r : Request) (w : W) (h : Header)
      → (inner logger taken_whole next r w).panicked ≡ false
      → is_orderly (inner logger taken_whole next r w).calls ≡ true
      → (deliver h (logging logger taken_whole next r w).calls
          ≡ deliver h (inner logger taken_whole next r w).calls)
        × ((logging logger taken_whole next r w).world
            ≡ log
                (request_completed r.method r.path
                  (final_status (run (fresh h) (inner logger taken_whole next r w).calls))
                  ((now (inner logger taken_whole next r w).world - now w) / 1000000)
                  (text_or_empty r.context.request_id)
                  (route_or_unknown r.context.matched_route)
                  r.remote_addr
                  (length (run (fresh h) (inner logger taken_whole next r w).calls).body))
                (inner logger taken_whole next r w).world)
  unfolding logging deliver
  logging_transparent next r w h quiet orderly =
      let out = inner logger taken_whole next r w in
      let ww = (forward_all taken_whole wrap_response_writer out.calls).0 in
      let e = completed_quiet logger taken_whole r (now w) out quiet in
      let (same, status) = wrapper_tracks taken_whole h out.calls orderly in
      let line = λ (code size : ℕ).
        log
          (request_completed r.method r.path code ((now out.world - now w) / 1000000)
            (text_or_empty r.context.request_id) (route_or_unknown r.context.matched_route)
            r.remote_addr size)
          out.world in
      (
        ap (λ (o : Reply W). send_header 200 (run (fresh h) o.calls)) e
            ∙ ap (λ v. send_header 200 v) same,
        ap (λ (o : Reply W). o.world) e
            ∙ ap (λ code. line code ww.bytes_written) status
            ∙ ap (line (final_status (run (fresh h) out.calls)))
                (wrapper_counts h out.calls orderly),
      )
