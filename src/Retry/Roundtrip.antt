-- ===== src/Retry/Roundtrip.antt =====
-- What the client gets of a response that was recorded and copied: internal/middleware/retry/retry.go,
-- `copyRecorderToWriter`.
use tanugate.Common.{
  ℕ, ◌≡◌, refl, ap, sym, some, ◌∙◌, String, Bool, true, false, List, [], ◌∷◌, ◌++◌, append-nil,
  append_assoc, arith, if◌then◌else◌,
}
use tanugate.Http.{Bytes, Call, set_header, add_header, del_header, write_header, write, flush}
use tanugate.Http.Headers
use tanugate.Http.Headers.{Header}
use tanugate.Http.Wire.{deliver, is_informational}
use tanugate.Http.Plain.{
  final_status, written, written_by, IsPlain, allowed_part, deliver-plain, deliver_copied,
  final_status-IsPlain,
}
use tanugate.Retry.Recording.{
  Recorder, new_recorder, recorder_status, sniff, record_call, record_from, record_all, add_all,
  add_all-IsHeaderCall, copy_recorder,
}

header_only :
    (b : Bool) (rec : Recorder) (h : Header)
    → ((if b then rec else record rec { header = h }).body ≡ rec.body)
      × ((if b then rec else record rec { header = h }).code ≡ rec.code)
      × ((if b then rec else record rec { header = h }).wrote_header ≡ rec.wrote_header)
header_only true rec h = (refl, refl, refl)
header_only false rec h = (refl, refl, refl)

module _ (detect : Bytes → String) where
  sniff_kept :
      (b : Bytes) (rec : Recorder)
      → ((sniff detect b rec).body ≡ rec.body)
        × ((sniff detect b rec).code ≡ rec.code)
        × ((sniff detect b rec).wrote_header ≡ rec.wrote_header)
  unfolding sniff
  sniff_kept b rec = header_only _ rec (Headers.set rec.header "Content-Type" (detect b))

  status_kept : (code : ℕ) (rec : Recorder) → (recorder_status code rec).body ≡ rec.body
  unfolding recorder_status
  status_kept code rec = ground arith

  record_call-written :
      (rec : Recorder) (c : Call) → (record_call detect rec c).body ≡ (rec.body ++ written_by c)
  unfolding record_call
  record_call-written rec (set_header k v) = sym (append-nil rec.body)
  record_call-written rec (add_header k v) = sym (append-nil rec.body)
  record_call-written rec (del_header k) = sym (append-nil rec.body)
  record_call-written rec (write_header code) = status_kept code rec ∙ sym (append-nil rec.body)
  record_call-written rec (write b) =
      ap (λ x. x ++ b) (status_kept 200 (sniff detect b rec) ∙ (sniff_kept b rec).0)
  record_call-written rec flush = status_kept 200 rec ∙ sym (append-nil rec.body)

  record_from-written :
      (rec : Recorder) (cs : List Call)
      → (record_from detect rec cs).body ≡ (rec.body ++ written cs)
  unfolding record_from written
  record_from-written rec [] = sym (append-nil rec.body)
  record_from-written rec (c ∷ cs) =
      record_from-written (record_call detect rec c) cs
      ∙ ap (λ x. x ++ written cs) (record_call-written rec c)
      ∙ append_assoc rec.body (written_by c) (written cs)

  abbrev HasCode : ℕ → Recorder → Type 0
  HasCode code rec = (rec.wrote_header ≡ true) × (rec.code ≡ code)

  recorder_status-HasCode :
      (code other : ℕ) (rec : Recorder)
      → HasCode code rec
      → HasCode code (recorder_status other rec)
  unfolding recorder_status
  recorder_status-HasCode code other rec (w, c) = rw w (refl, c)

  recorder_status_first :
      (code : ℕ) (rec : Recorder)
      → rec.wrote_header ≡ false
      → HasCode code (recorder_status code rec)
  unfolding recorder_status
  recorder_status_first code rec n = rw n (refl, refl)

  record_call-HasCode :
      (code : ℕ) (rec : Recorder) (c : Call)
      → HasCode code rec
      → HasCode code (record_call detect rec c)
  unfolding record_call
  record_call-HasCode code rec (set_header k v) s = s
  record_call-HasCode code rec (add_header k v) s = s
  record_call-HasCode code rec (del_header k) s = s
  record_call-HasCode code rec (write_header other) s = recorder_status-HasCode code other rec s
  record_call-HasCode code rec (write b) s =
      let (_, c, w) = sniff_kept b rec in
      recorder_status-HasCode code 200 (sniff detect b rec) (w ∙ s.0, c ∙ s.1)
  record_call-HasCode code rec flush s = recorder_status-HasCode code 200 rec s

  record_from-HasCode :
      (code : ℕ) (rec : Recorder) (cs : List Call)
      → HasCode code rec
      → (record_from detect rec cs).code ≡ code
  unfolding record_from
  record_from-HasCode code rec [] s = s.1
  record_from-HasCode code rec (c ∷ cs) s =
      record_from-HasCode code (record_call detect rec c) cs (record_call-HasCode code rec c s)

  record_from-final_status :
      (cs : List Call) (rec : Recorder)
      → rec.wrote_header ≡ false
      → rec.code ≡ 200
      → (record_from detect rec cs).code ≡ final_status cs
  unfolding record_from record_call final_status
  record_from-final_status [] rec n s = s
  record_from-final_status (set_header k v ∷ cs) rec n s = record_from-final_status cs _ n s
  record_from-final_status (add_header k v ∷ cs) rec n s = record_from-final_status cs _ n s
  record_from-final_status (del_header k ∷ cs) rec n s = record_from-final_status cs _ n s
  record_from-final_status (write_header code ∷ cs) rec n s =
      record_from-HasCode code (recorder_status code rec) cs (recorder_status_first code rec n)
  record_from-final_status (write b ∷ cs) rec n s =
      let (_, _, w) = sniff_kept b rec in
      let (w', c') = recorder_status_first 200 (sniff detect b rec) (w ∙ n) in
      record_from-HasCode 200 _ cs (w', c')
  record_from-final_status (flush ∷ cs) rec n s =
      record_from-HasCode 200 (recorder_status 200 rec) cs (recorder_status_first 200 rec n)

  -- If a handler sends no informational status: recording its response and copying the record gives
  -- the client the same status and the same body as the handler itself.
  pub copy_recorder-record_all :
      (h : Header) (cs : List Call)
      → IsPlain cs
      → ((deliver h (copy_recorder (record_all detect cs))).status ≡ (deliver h cs).status)
        × ((deliver h (copy_recorder (record_all detect cs))).body ≡ (deliver h cs).body)
  unfolding copy_recorder record_all
  copy_recorder-record_all h cs p =
      let rec = record_from detect new_recorder cs in
      let code = record_from-final_status cs new_recorder refl refl in
      let body = record_from-written new_recorder cs in
      let (status', body') =
        deliver_copied h (add_all rec.header) rec.code rec.body (add_all-IsHeaderCall rec.header)
          (ap is_informational code ∙ final_status-IsPlain cs p) in
      let (status, sent) = deliver-plain h cs p in
      (
        status' ∙ ap (λ n. some n) code ∙ sym status,
        body'
            ∙ ap (λ n. allowed_part n rec.body) code
            ∙ ap (λ b. allowed_part (final_status cs) b) body
            ∙ sym sent,
      )
