-- ===== src/Transform/Answers.antt =====
-- What the client gets behind a response transform.
use tanugate.Common.{
  ℕ, suc, ◌<◌, ◌≡◌, refl, subst, sym, ◌∙◌, true, false, some, List, [], ◌∷◌, append-nil, length,
  String, arith, All, ℤ, pos, negsuc,
}
use tanugate.Http.{
  Bytes, Request, Reply, reply, Handler, Call, set_header, add_header, del_header, write_header,
  write, flush, json_error, write_json,
}
use tanugate.Http.Headers
use tanugate.Http.Headers.{Header}
use tanugate.Http.Wire.{deliver, perform}
use tanugate.Http.Plain.{final_status, written, deliver-plain}
use tanugate.Config.{DirectionTransform}
use tanugate.Transform.Variables.{Clock}
use tanugate.Transform.Rules.{JsonCodec}
use tanugate.Transform.Buffering.{
  Buffer, new_buffer, buffer_status, buffer_write, buffer_call, buffer_all,
}
use tanugate.Transform.Limits.{buffer_all_refused}
use tanugate.Transform.{response_transform, flush_buffer, effective_max_body}

-- No flush: the buffer takes none for the start of the response.
abbrev pub IsKept : Call → Type 0
IsKept flush = ⊥
IsKept _ = Unit

module _ (limit : ℕ) where
  -- The status that the buffer keeps.
  buffer_call_status :
      (w : Buffer) (c : Call)
      → w.wrote_header ≡ true
      → ((buffer_call limit w c).wrote_header ≡ true)
        × ((buffer_call limit w c).status_code ≡ w.status_code)
  unfolding buffer_call buffer_status buffer_write
  buffer_call_status w c h = ground arith

  buffer_all_status :
      (w : Buffer) (cs : List Call)
      → w.wrote_header ≡ true
      → (buffer_all limit w cs).status_code ≡ w.status_code
  unfolding buffer_all
  buffer_all_status w [] h = refl
  buffer_all_status w (c ∷ cs) h =
      let (wrote, same) = buffer_call_status w c h in
      buffer_all_status (buffer_call limit w c) cs wrote ∙ same

  buffer_status_first :
      (w : Buffer) (code : ℕ)
      → w.wrote_header ≡ false
      → ((buffer_status code w).wrote_header ≡ true) × ((buffer_status code w).status_code ≡ code)
  unfolding buffer_status
  buffer_status_first w code h = ground arith

  buffer_write_status :
      (w : Buffer) (b : Bytes)
      → ((buffer_write limit b w).wrote_header ≡ true)
        × ((buffer_write limit b w).status_code ≡ w.status_code)
  unfolding buffer_write
  buffer_write_status w b = ground arith

  pub buffer_all-final_status :
      (cs : List Call) (w : Buffer)
      → All IsKept cs
      → w.wrote_header ≡ false
      → w.status_code ≡ 200
      → (buffer_all limit w cs).status_code ≡ final_status cs
  unfolding buffer_all buffer_call final_status
  buffer_all-final_status [] w k n s = s
  buffer_all-final_status (set_header a v ∷ cs) w (_, k) n s = buffer_all-final_status cs _ k n s
  buffer_all-final_status (add_header a v ∷ cs) w (_, k) n s = buffer_all-final_status cs _ k n s
  buffer_all-final_status (del_header a ∷ cs) w (_, k) n s = buffer_all-final_status cs _ k n s
  buffer_all-final_status (write_header code ∷ cs) w (_, k) n s =
      let (wrote, sent) = buffer_status_first w code n in
      buffer_all_status (buffer_status code w) cs wrote ∙ sent
  buffer_all-final_status (write b ∷ cs) w (_, k) n s =
      let (wrote, same) = buffer_write_status w b in
      buffer_all_status (buffer_write limit b w) cs wrote ∙ same ∙ s
  buffer_all-final_status (flush ∷ cs) w (f, k) n s = absurd f

write_json_sent :
    (h : Header) (error message : String)
    → (deliver h (write_json 502 error message)).sent
      ≡ Headers.set h "Content-Type" "application/json"
unfolding deliver perform
write_json_sent h error message = refl

effective_max_body_positive : (n : ℤ) → 0 < effective_max_body n
effective_max_body_positive (pos ℕ.zero) = omega arith
effective_max_body_positive (pos (suc n)) = omega arith
effective_max_body_positive (negsuc n) = omega arith

module _ {W : Type 0} (clock : Clock W) (codec : JsonCodec) (cfg : DirectionTransform)
    (max_body_size : ℤ) (next : Handler W) (r : Request) (w : W) (h : Header)
    (quiet : (next r w).panicked ≡ false) where
  abbrev limit : ℕ
  limit = effective_max_body max_body_size

  abbrev out : Reply W
  out = response_transform clock codec (some cfg) max_body_size next r w

  abbrev buffered : Buffer
  buffered = buffer_all limit new_buffer (next r w).calls

  response_transform_flushes : out ≡ flush_buffer clock codec cfg r (next r w).world buffered
  unfolding response_transform
  response_transform_flushes = rw quiet refl

  flush_buffer_exceeded :
      (w' : W) (buf : Buffer)
      → buf.exceeded ≡ true
      → flush_buffer clock codec cfg r w' buf
        ≡ reply
            (write_json 502 "bad_gateway" "upstream response body exceeds transform size limit")
            w'
  flush_buffer_exceeded w' buf e = rw e refl

  -- If the handler returns and writes more than the limit, the client gets 502 with an error: the
  -- headers are those that were set before with the content type of the error, and nothing is left of
  -- the handler's response.
  pub response_transform_too_large :
      limit < length (written (next r w).calls)
      → ((deliver h out.calls).status ≡ some 502)
        × ((deliver h out.calls).body
            ≡ json_error "bad_gateway" "upstream response body exceeds transform size limit")
        × ((deliver h out.calls).sent ≡ Headers.set h "Content-Type" "application/json")
  unfolding final_status written
  response_transform_too_large over =
      let refused =
        buffer_all_refused limit new_buffer (next r w).calls
          (effective_max_body_positive max_body_size) (omega arith) (omega (arith, over)) in
      let e =
        response_transform_flushes ∙ flush_buffer_exceeded (next r w).world buffered refused in
      let (status, body) =
        deliver-plain h
          (write_json 502 "bad_gateway" "upstream response body exceeds transform size limit")
          (tt, (refl, (tt, tt))) in
      subst
        (λ (o : Reply W).
          ((deliver h o.calls).status ≡ some 502)
          × ((deliver h o.calls).body
              ≡ json_error "bad_gateway" "upstream response body exceeds transform size limit")
          × ((deliver h o.calls).sent ≡ Headers.set h "Content-Type" "application/json"))
        (sym e)
        (
          status,
          body ∙ append-nil _,
          write_json_sent h "bad_gateway" "upstream response body exceeds transform size limit",
        )
