-- ===== src/Retry/Tests.antt =====
-- Retries at a concrete upstream: the world counts the calls of the proxy, and the breaker is closed.
use tanugate.Common.{
  ℕ, suc, ◌+◌, ◌≤◌, ◌≡◌, refl, String, true, false, none, List, [], ◌∷◌, ◌==◌, lookup, insert, ℤ,
  pos, arith, if◌then◌else◌,
}
use tanugate.Http.{Bytes, Request, Handler, reply, no_body, set_header, write_header, write}
use tanugate.Http.Headers
use tanugate.Config.{RetryConfig}
use tanugate.CircuitBreaker.{CircuitBreaker, closed, begin, finish}
use tanugate.Retry.Recording.{
  Recorder, record_call, record_from, record_all, recorder_status, sniff, copy_recorder, add_all,
}
use tanugate.Retry.{
  Surroundings, call_proxy, call_through, call_once, judge, wait, try_attempt, attempts, exhausted,
  retry_handler,
}
use tanugate.Retry.Roundtrip.{copy_recorder-record_all}
use tanugate.Http.Wire.{deliver}
use tanugate.Http.{Call}
use tanugate.Retry.Bound.{retry_handler_bounded}

retry : Unit {0}
unfolding begin finish record_call record_from record_all recorder_status sniff copy_recorder
    add_all call_proxy call_through call_once judge wait try_attempt attempts exhausted
    retry_handler lookup insert Headers.canonical Headers.get Headers.set
retry = tt

abbrev breaker : CircuitBreaker
breaker = record {
  state = closed;
  failure_count = 0;
  success_count = 0;
  half_open_probing = false;
  failure_threshold = 5;
  success_threshold = 1;
  timeout = 10;
  opened_at = 0;
  route_name = "r";
  observed = false;
}

abbrev surroundings : Surroundings ℕ
surroundings = record {
  breaker_of = λ w. breaker;
  set_breaker = λ cb w. w;
  now = λ w. w;
  client_gone = λ w. false;
  pause = λ n w. w;
}

-- The upstream answers 503 to the first call, then 200.
abbrev upstream : Handler ℕ
upstream r w =
    reply
      (set_header "Content-Type" "text/plain"
        ∷ (write_header (if w == 0 then 503 else 200) ∷ (write (7 ∷ []) ∷ [])))
      (suc w)

-- The upstream answers 503 always.
abbrev broken : Handler ℕ
broken r w = reply (set_header "Content-Type" "text/plain" ∷ (write_header 503 ∷ [])) (suc w)

abbrev detect : Bytes → String
detect b = "text/plain"

abbrev print_int : ℤ → String
print_int n = "2"

abbrev cfg : RetryConfig
cfg = record {
  max_retries = pos 1;
  initial_delay = pos 1;
  multiplier = 0;
  retryable_status_codes = pos 503 ∷ [];
}

abbrev ask : Request
ask = record {
  method = "GET";
  host = "h";
  path = "/";
  remote_addr = "10.0.0.1:9";
  header = [];
  body = no_body;
  context = record {
    request_id = none;
    auth_result = none;
    matched_route = none;
    start_time = none;
  };
}

abbrev good : Recorder
good = record {
  header = ("Content-Type", "text/plain" ∷ []) ∷ [];
  code = 200;
  wrote_header = true;
  body = 7 ∷ [];
}

retry_handler_bounded_example :
    (retry_handler detect surroundings broken print_int cfg true ask 0).world ≤ 0 + 2
retry_handler_bounded_example =
    retry_handler_bounded detect surroundings broken (λ w. w)
      (record {
        proxy_one = λ r w. omega arith;
        pause_same = λ n w. refl;
        breaker_same = λ cb w. refl;
      })
      print_int cfg true ask 0

abbrev recorded : List Call
recorded = set_header "X-A" "1" ∷ (write_header 404 ∷ (write (1 ∷ []) ∷ []))

copy_recorder-record_all_example :
    ((deliver [] (copy_recorder (record_all detect recorded))).status
      ≡ (deliver [] recorded).status)
    × ((deliver [] (copy_recorder (record_all detect recorded))).body ≡ (deliver [] recorded).body)
copy_recorder-record_all_example =
    copy_recorder-record_all detect [] recorded (tt, (refl, (tt, tt)))
