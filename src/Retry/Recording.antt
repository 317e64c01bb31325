-- ===== src/Retry/Recording.antt =====
-- `httptest.ResponseRecorder`, on which internal/middleware/retry/retry.go lets the proxy write, and
-- `copyRecorderToWriter`.
use tanugate.Common.{
  ℕ, String, Bool, true, false, ◌||◌, not, List, [], ◌∷◌, ◌++◌, is_some, lookup, ◌===◌,
  if◌then◌else◌, All, All-append,
}
use tanugate.Http.{Bytes, Call, set_header, add_header, del_header, write_header, write, flush}
use tanugate.Http.Headers
use tanugate.Http.Plain.{IsHeaderCall}
use tanugate.Http.Headers.{Header}

pub record Recorder : Type 0 where
  pub header : Header
  pub code : ℕ
  pub wrote_header : Bool
  pub body : Bytes

-- `httptest.NewRecorder()`.
abbrev pub new_recorder : Recorder
new_recorder = record { header = []; code = 200; wrote_header = false; body = [] }

-- `WriteHeader` of the recorder takes any first status for the final one.
unfoldable pub recorder_status : ℕ → Recorder → Recorder
recorder_status code rec =
    if rec.wrote_header then rec else record rec { code = code; wrote_header = true }

-- A first write sniffs the content type, where it is not set.
unfoldable pub sniff : (Bytes → String) → Bytes → Recorder → Recorder
sniff detect b rec =
    if rec.wrote_header
      || is_some (lookup "Content-Type" rec.header)
      || not (Headers.get rec.header "Transfer-Encoding" === "")
    then rec
    else record rec { header = Headers.set rec.header "Content-Type" (detect b) }

module _ (detect : Bytes → String) where
  unfoldable pub record_call : Recorder → Call → Recorder
  unfolding sniff recorder_status
  record_call rec (set_header k v) = record rec { header = Headers.set rec.header k v }
  record_call rec (add_header k v) = record rec { header = Headers.add rec.header k v }
  record_call rec (del_header k) = record rec { header = Headers.del rec.header k }
  record_call rec (write_header code) = recorder_status code rec
  record_call rec (write b) =
      let opened = recorder_status 200 (sniff detect b rec) in
      record opened { body = opened.body ++ b }
  record_call rec flush = recorder_status 200 rec

  unfoldable pub record_from : Recorder → List Call → Recorder
  unfolding record_call
  record_from rec [] = rec
  record_from rec (c ∷ cs) = record_from (record_call rec c) cs

  unfoldable pub record_all : List Call → Recorder
  unfolding record_from
  record_all cs = record_from new_recorder cs

abbrev pub add_values : String → List String → List Call
add_values name [] = []
add_values name (v ∷ vs) = add_header name v ∷ add_values name vs

unfoldable pub add_all : Header → List Call
add_all [] = []
add_all ((name, vs) ∷ h) = add_values name vs ++ add_all h

-- `copyRecorderToWriter`.
unfoldable pub copy_recorder : Recorder → List Call
unfolding add_all
copy_recorder rec = add_all rec.header ++ (write_header rec.code ∷ (write rec.body ∷ []))

add_values-IsHeaderCall : (name : String) (vs : List String) → All IsHeaderCall (add_values name vs)
add_values-IsHeaderCall name [] = tt
add_values-IsHeaderCall name (v ∷ vs) = (tt, add_values-IsHeaderCall name vs)

pub add_all-IsHeaderCall : (h : Header) → All IsHeaderCall (add_all h)
unfolding add_all
add_all-IsHeaderCall [] = tt
add_all-IsHeaderCall ((name, vs) ∷ h) =
    All-append IsHeaderCall (add_values name vs) (add_all h) (add_values-IsHeaderCall name vs)
      (add_all-IsHeaderCall h)
