-- ===== src/Middleware/Writer/Size.antt =====
-- The number of bytes that the wrapper of internal/middleware/responsewriter.go counts.
use tanugate.Common.{ℕ, ◌≡◌, refl, true, List, [], ◌∷◌, arith, if◌then◌else◌, length, length-append}
use tanugate.Http.{Bytes, Call, set_header, add_header, del_header, write_header, write, flush}
use tanugate.Http.Headers.{Header}
use tanugate.Http.Wire.{Wire, perform, run, body_allowed, fresh}
use tanugate.Middleware.Writer.{WrappedResponseWriter, wrap_response_writer, forward, forward_all}
use tanugate.Middleware.Writer.Tracking.{
  Agrees, Agrees-forward, IsFresh, is_orderly, first_status, first_write,
}

-- A writer of net/http whose writes fail only where the status allows no body: it takes the whole
-- slice if the status allows one, and nothing otherwise.
abbrev pub taken_whole : ℕ → ℕ → Bytes → ℕ
taken_whole code before b = if body_allowed code then length b else 0

-- The bytes that the wrapper counted are those of the body.
abbrev Counted : WrappedResponseWriter → Wire → Type 0
Counted w v = w.bytes_written ≡ length v.body

Counted-forward :
    (w : WrappedResponseWriter) (v : Wire) (c : Call)
    → Agrees w v
    → Counted w v
    → Counted (forward taken_whole w c).0 (perform v c)
unfolding forward perform
Counted-forward w v (set_header k x) h n = n
Counted-forward w v (add_header k x) h n = n
Counted-forward w v (del_header k) h n = n
Counted-forward w v (write_header code) h n = ground (arith, h.wrote, h.status)
Counted-forward w v (write b) h n = ground (arith, h.wrote, h.status, length-append v.body b)
Counted-forward w v flush h n = ground (arith, h.status)

Counted-forward_all :
    (w : WrappedResponseWriter) (v : Wire) (cs : List Call)
    → Agrees w v
    → Counted w v
    → Counted (forward_all taken_whole w cs).0 (run v cs)
unfolding forward_all run
Counted-forward_all w v [] h n = n
Counted-forward_all w v (c ∷ cs) h n =
    Counted-forward_all (forward taken_whole w c).0 (perform v c) cs
      (Agrees-forward taken_whole w v c h) (Counted-forward w v c h n)

first-Counted :
    (w : WrappedResponseWriter) (v : Wire) (c : Call)
    → IsFresh w v
    → Counted w v
    → is_orderly (c ∷ []) ≡ true
    → Counted (forward taken_whole w c).0 (perform v c)
unfolding forward perform
first-Counted w v (set_header k x) h n o = n
first-Counted w v (add_header k x) h n o = n
first-Counted w v (del_header k) h n o = n
first-Counted w v (write_header code) h n o = ground (arith, h.unwritten, h.unsent)
first-Counted w v (write b) h n o = ground (arith, h.unwritten, h.unsent, length-append v.body b)
first-Counted w v flush h n o = cc

Counted-of_IsFresh :
    (w : WrappedResponseWriter) (v : Wire) (cs : List Call)
    → IsFresh w v
    → Counted w v
    → is_orderly cs ≡ true
    → Counted (forward_all taken_whole w cs).0 (run v cs)
unfolding forward_all run forward perform
Counted-of_IsFresh w v [] h n o = n
Counted-of_IsFresh w v (set_header k x ∷ cs) h n o =
    Counted-of_IsFresh w (perform v (set_header k x)) cs
      (record { unwritten = h.unwritten; unsent = h.unsent }) n o
Counted-of_IsFresh w v (add_header k x ∷ cs) h n o =
    Counted-of_IsFresh w (perform v (add_header k x)) cs
      (record { unwritten = h.unwritten; unsent = h.unsent }) n o
Counted-of_IsFresh w v (del_header k ∷ cs) h n o =
    Counted-of_IsFresh w (perform v (del_header k)) cs
      (record { unwritten = h.unwritten; unsent = h.unsent }) n o
Counted-of_IsFresh w v (write_header code ∷ cs) h n o =
    Counted-forward_all _ _ cs (first_status taken_whole w v code h (ground arith)).1
      (first-Counted w v (write_header code) h n o)
Counted-of_IsFresh w v (write b ∷ cs) h n o =
    Counted-forward_all _ _ cs (first_write taken_whole w v b h).1
      (first-Counted w v (write b) h n refl)
Counted-of_IsFresh w v (flush ∷ cs) h n o = cc

-- For a handler that starts with a final status or with bytes, and such a writer, the
-- number of bytes that the wrapper counts is the length of the body.
pub wrapper_counts :
    (h : Header) (calls : List Call)
    → is_orderly calls ≡ true
    → (forward_all taken_whole wrap_response_writer calls).0.bytes_written
      ≡ length (run (fresh h) calls).body
wrapper_counts h calls o =
    Counted-of_IsFresh wrap_response_writer (fresh h) calls
      (record { unwritten = refl; unsent = refl }) refl o
