-- ===== src/Middleware/Writer.antt =====
-- The writer that captures status and size: internal/middleware/responsewriter.go.
-- `WrapResponseWriter` is idempotent; one wrapper stands for both of its users.
pub mod Tracking
pub mod Size
use tanugate.Common.{ℕ, ◌+◌, Bool, true, false, List, [], ◌∷◌, ◌++◌, if◌then◌else◌}
use tanugate.Http.{Bytes, Call, write_header, write}

pub record WrappedResponseWriter : Type 0 where
  pub status_code : ℕ
  pub bytes_written : ℕ
  pub wrote_header : Bool

abbrev pub wrap_response_writer : WrappedResponseWriter
wrap_response_writer = record { status_code = 0; bytes_written = 0; wrote_header = false }

-- A method's new state, and the calls that it makes on the wrapped writer.
unfoldable pub write_header_method : WrappedResponseWriter → ℕ → WrappedResponseWriter × List Call
write_header_method w code =
    if w.wrote_header
    then (w, [])
    else (record w { wrote_header = true; status_code = code }, write_header code ∷ [])

unfoldable pub status_code_method : WrappedResponseWriter → ℕ
status_code_method w = if w.wrote_header then w.status_code else 200

-- What the wrapped writer's `Write` returns: how many bytes of a slice it took, as a function of the
-- status that was sent and of how many bytes it took before.
module _ (taken : ℕ → ℕ → Bytes → ℕ) where
  unfoldable pub write_method : WrappedResponseWriter → Bytes → WrappedResponseWriter × List Call
  unfolding write_header_method
  write_method w b =
      let (w', calls) = (if w.wrote_header then (w, []) else write_header_method w 200) in
      let n = taken w'.status_code w'.bytes_written b in
      (record w' { bytes_written = w'.bytes_written + n }, calls ++ write b ∷ [])

  -- Calls on the header map and `Flush` go to the wrapped writer as they are.
  unfoldable pub forward : WrappedResponseWriter → Call → WrappedResponseWriter × List Call
  unfolding write_header_method write_method
  forward w (write_header code) = write_header_method w code
  forward w (write b) = write_method w b
  forward w c = (w, c ∷ [])

  unfoldable pub forward_all : WrappedResponseWriter → List Call → WrappedResponseWriter × List Call
  unfolding forward
  forward_all w [] = (w, [])
  forward_all w (c ∷ cs) =
      let (w', calls) = forward w c in let (w'', more) = forward_all w' cs in (w'', calls ++ more)
