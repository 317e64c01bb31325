-- ===== src/Http/Wire.antt =====
-- The `ResponseWriter` of the server (`net/http`): what reaches the client from a list of calls.
use tanugate.Common.{
  ℕ, ◌≡◌, refl, ◌∙◌, Bool, ◌&&◌, ◌||◌, not, Option, none, some, List, [], ◌∷◌, ◌++◌, arith, leb,
  ◌==◌, if◌then◌else◌, is_some,
}
use tanugate.Http.{Bytes, Call, set_header, add_header, del_header, write_header, write, flush}
use tanugate.Http.Headers
use tanugate.Http.Headers.{Header}

-- `header` is the map that `Header()` hands out; `sent` is its copy at the moment when the status
-- is sent.
pub record Wire : Type 0 where
  pub header : Header
  pub status : Option ℕ
  pub sent : Header
  pub body : Bytes

abbrev pub fresh : Header → Wire
fresh h = record { header = h; status = none; sent = []; body = [] }

-- 1xx responses other than 101 are sent at once, and the final status is still to come.
abbrev pub is_informational : ℕ → Bool
is_informational code = leb 100 code && leb code 199 && not (code == 101)

abbrev pub body_allowed : ℕ → Bool
body_allowed code = not (leb code 199) && not (code == 204) && not (code == 304)

abbrev pub commit : ℕ → Wire → Wire
commit code w = record w { status = some code; sent = w.header }

unfoldable pub send_header : ℕ → Wire → Wire
send_header code w = if is_some w.status || is_informational code then w else commit code w

abbrev pub append_body : Option ℕ → Bytes → Bytes → Bytes
append_body none old b = old
append_body (some code) old b = if body_allowed code then old ++ b else old

-- The first write sends status 200.
unfoldable pub send_body : Bytes → Wire → Wire
unfolding send_header
send_body b w =
    let opened = send_header 200 w in
    record opened { body = append_body opened.status opened.body b }

unfoldable pub perform : Wire → Call → Wire
unfolding send_header send_body
perform w (set_header k v) = record w { header = Headers.set w.header k v }
perform w (add_header k v) = record w { header = Headers.add w.header k v }
perform w (del_header k) = record w { header = Headers.del w.header k }
perform w (write_header code) = send_header code w
perform w (write b) = send_body b w
perform w flush = send_header 200 w

unfoldable pub run : Wire → List Call → Wire
run w [] = w
run w (c ∷ cs) = run (perform w c) cs

-- The response when the handler has returned: status 200 if none was sent.
unfoldable pub deliver : Header → List Call → Wire
unfolding run send_header
deliver h calls = send_header 200 (run (fresh h) calls)

pub run-append : (w : Wire) (cs ds : List Call) → run w (cs ++ ds) ≡ run (run w cs) ds
unfolding run
run-append w [] ds = refl
run-append w (c ∷ cs) ds = run-append (perform w c) cs ds

-- After the status is sent, neither it nor the headers that were sent with it change.
perform_committed :
    (w : Wire) (c : Call) (code : ℕ)
    → w.status ≡ some code
    → ((perform w c).status ≡ some code) × ((perform w c).sent ≡ w.sent)
unfolding perform
perform_committed w c code h = ground arith

pub run_committed :
    (w : Wire) (cs : List Call) (code : ℕ)
    → w.status ≡ some code
    → ((run w cs).status ≡ some code) × ((run w cs).sent ≡ w.sent)
unfolding run
run_committed w [] code h = (h, refl)
run_committed w (c ∷ cs) code h =
    let (s, t) = perform_committed w c code h in
    let (s', t') = run_committed (perform w c) cs code s in (s', t' ∙ t)

-- Two writers with the same status and body stay so under the same calls.
perform_same :
    (v w : Wire) (c : Call) (code : ℕ)
    → v.status ≡ some code
    → w.status ≡ some code
    → v.body ≡ w.body
    → (perform v c).body ≡ (perform w c).body
unfolding perform
perform_same v w c code h k b = ground arith

pub run_same :
    (v w : Wire) (cs : List Call) (code : ℕ)
    → v.status ≡ some code
    → w.status ≡ some code
    → v.body ≡ w.body
    → (run v cs).body ≡ (run w cs).body
unfolding run
run_same v w [] code h k b = b
run_same v w (c ∷ cs) code h k b =
    run_same (perform v c) (perform w c) cs code (perform_committed v c code h).0
      (perform_committed w c code k).0 (perform_same v w c code h k b)
