-- ===== src/Transform/Buffering.antt =====
-- `bufferingResponseWriter` of internal/middleware/transform/transform.go.
use tanugate.Common.{
  ℕ, ◌+◌, Bool, true, false, ◌&&◌, List, [], ◌∷◌, ◌++◌, length, ltb, if◌then◌else◌,
}
use tanugate.Http.{Bytes, Call, set_header, add_header, del_header, write_header, write, flush}
use tanugate.Http.Headers
use tanugate.Http.Headers.{Header}

pub record Buffer : Type 0 where
  pub headers : Header
  pub body : Bytes
  pub status_code : ℕ
  pub wrote_header : Bool
  pub exceeded : Bool

abbrev pub new_buffer : Buffer
new_buffer = record {
  headers = [];
  body = [];
  status_code = 200;
  wrote_header = false;
  exceeded = false;
}

-- `WriteHeader`.
unfoldable pub buffer_status : ℕ → Buffer → Buffer
buffer_status code w =
    if w.wrote_header then w else record w { wrote_header = true; status_code = code }

module _ (max_body : ℕ) where
  -- `Write`.
  unfoldable pub buffer_write : Bytes → Buffer → Buffer
  buffer_write b w =
      let opened = record w { wrote_header = true } in
      if ltb 0 max_body && ltb max_body (length w.body + length b)
      then record opened { exceeded = true }
      else record opened { body = w.body ++ b }

  -- The calls that the handler makes; `Flush` does nothing.
  unfoldable pub buffer_call : Buffer → Call → Buffer
  unfolding buffer_status buffer_write
  buffer_call w (set_header k v) = record w { headers = Headers.set w.headers k v }
  buffer_call w (add_header k v) = record w { headers = Headers.add w.headers k v }
  buffer_call w (del_header k) = record w { headers = Headers.del w.headers k }
  buffer_call w (write_header code) = buffer_status code w
  buffer_call w (write b) = buffer_write b w
  buffer_call w flush = w

  unfoldable pub buffer_all : Buffer → List Call → Buffer
  unfolding buffer_call
  buffer_all w [] = w
  buffer_all w (c ∷ cs) = buffer_all (buffer_call w c) cs
