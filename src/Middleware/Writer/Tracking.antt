-- ===== src/Middleware/Writer/Tracking.antt =====
-- The status that the wrapper of internal/middleware/responsewriter.go captures.
use tanugate.Common.{
  ℕ, ◌≡◌, refl, ◌⊎◌, ◌∙◌, ap, Bool, true, false, not, none, some, List, [], ◌∷◌, arith, inl,
}
use tanugate.Http.{Bytes, Call, set_header, add_header, del_header, write_header, write, flush}
use tanugate.Http.Headers.{Header}
use tanugate.Http.Wire.{Wire, perform, run, run-append, is_informational, fresh, deliver}
use tanugate.Middleware.Writer.{
  WrappedResponseWriter, wrap_response_writer, status_code_method, forward, forward_all,
}

-- The wrapper agrees with the wrapped writer.
pub record Agrees (w : WrappedResponseWriter) (v : Wire) : Type 0 where
  pub wrote : w.wrote_header ≡ true
  pub status : v.status ≡ some w.status_code

-- The status or the first bytes come before any flush, and the first status is final.
abbrev pub is_orderly : List Call → Bool
is_orderly [] = true
is_orderly (write_header code ∷ cs) = not (is_informational code)
is_orderly (write b ∷ cs) = true
is_orderly (flush ∷ cs) = false
is_orderly (_ ∷ cs) = is_orderly cs

pub record IsFresh (w : WrappedResponseWriter) (v : Wire) : Type 0 where
  pub unwritten : w.wrote_header ≡ false
  pub unsent : v.status ≡ none

-- The status that the client gets once the handler has returned.
abbrev pub final_status : Wire → ℕ
final_status v = elim v.status [ none ↦ 200 | some code ↦ code ]

status_of_Agrees :
    (w : WrappedResponseWriter) (v : Wire) → Agrees w v → status_code_method w ≡ final_status v
unfolding status_code_method
status_of_Agrees w v h = ground arith

module _ (taken : ℕ → ℕ → Bytes → ℕ) where
  forward_written :
      (w : WrappedResponseWriter) (c : Call)
      → w.wrote_header ≡ true
      → ((forward taken w c).0.wrote_header ≡ true)
        × ((forward taken w c).0.status_code ≡ w.status_code)
  unfolding forward
  forward_written w c h = ground arith

  perform-forward_written :
      (w : WrappedResponseWriter) (v : Wire) (c : Call) (code : ℕ)
      → w.wrote_header ≡ true
      → v.status ≡ some code
      → run v (forward taken w c).1 ≡ perform v c
  unfolding forward run perform
  perform-forward_written w v (set_header k x) code h s = refl
  perform-forward_written w v (add_header k x) code h s = refl
  perform-forward_written w v (del_header k) code h s = refl
  perform-forward_written w v (write_header k) code h s = ground arith
  perform-forward_written w v (write b) code h s = ground arith
  perform-forward_written w v flush code h s = refl

  -- `run-forward` for one call, in the form that both phases use.
  run-forward_step :
      (w : WrappedResponseWriter) (v : Wire) (c : Call) (cs : List Call)
      → run v (forward taken w c).1 ≡ perform v c
      → run (perform v c) (forward_all taken (forward taken w c).0 cs).1 ≡ run (perform v c) cs
      → run v (forward_all taken w (c ∷ cs)).1 ≡ run v (c ∷ cs)
  unfolding forward_all run
  run-forward_step w v c cs h k =
      run-append v (forward taken w c).1 (forward_all taken (forward taken w c).0 cs).1
      ∙ ap (λ u. run u (forward_all taken (forward taken w c).0 cs).1) h
      ∙ k

  pub Agrees-forward :
      (w : WrappedResponseWriter) (v : Wire) (c : Call)
      → Agrees w v
      → Agrees (forward taken w c).0 (perform v c)
  unfolding forward perform
  Agrees-forward w v c h = ground arith

  run-forward_written :
      (w : WrappedResponseWriter) (v : Wire) (cs : List Call)
      → Agrees w v
      → run v (forward_all taken w cs).1 ≡ run v cs
  unfolding forward_all
  run-forward_written w v [] h = refl
  run-forward_written w v (c ∷ cs) h =
      run-forward_step w v c cs (perform-forward_written w v c w.status_code h.wrote h.status)
        (run-forward_written (forward taken w c).0 (perform v c) cs (Agrees-forward w v c h))

  Agrees-forward_all :
      (w : WrappedResponseWriter) (v : Wire) (cs : List Call)
      → Agrees w v
      → Agrees (forward_all taken w cs).0 (run v cs)
  unfolding forward_all run
  Agrees-forward_all w v [] h = h
  Agrees-forward_all w v (c ∷ cs) h =
      Agrees-forward_all (forward taken w c).0 (perform v c) cs (Agrees-forward w v c h)

  abbrev pub Tracks : WrappedResponseWriter → Wire → List Call → Type 0
  Tracks w v cs =
      (run v (forward_all taken w cs).1 ≡ run v cs)
      × (status_code_method (forward_all taken w cs).0 ≡ final_status (run v cs))

  Tracks-cons :
      (w : WrappedResponseWriter) (v : Wire) (c : Call) (cs : List Call)
      → run v (forward taken w c).1 ≡ perform v c
      → Tracks (forward taken w c).0 (perform v c) cs
      → Tracks w v (c ∷ cs)
  unfolding forward_all run
  Tracks-cons w v c cs h (k, s) = (run-forward_step w v c cs h k, s)

  Tracks-of_Agrees :
      (w : WrappedResponseWriter) (v : Wire) (cs : List Call) → Agrees w v → Tracks w v cs
  Tracks-of_Agrees w v cs h =
      (run-forward_written w v cs h, status_of_Agrees _ _ (Agrees-forward_all w v cs h))

  pub first_status :
      (w : WrappedResponseWriter) (v : Wire) (code : ℕ)
      → IsFresh w v
      → is_informational code ≡ false
      → (run v (forward taken w (write_header code)).1 ≡ perform v (write_header code))
        × Agrees (forward taken w (write_header code)).0 (perform v (write_header code))
  unfolding forward perform run
  first_status w v code h k = (ground arith, ground arith)

  pub first_write :
      (w : WrappedResponseWriter) (v : Wire) (b : Bytes)
      → IsFresh w v
      → (run v (forward taken w (write b)).1 ≡ perform v (write b))
        × Agrees (forward taken w (write b)).0 (perform v (write b))
  unfolding forward perform run
  first_write w v b h = (ground arith, ground arith)

  Tracks-nil : (w : WrappedResponseWriter) (v : Wire) → IsFresh w v → Tracks w v []
  unfolding forward_all run status_code_method
  Tracks-nil w v h = (refl, ground arith)

  Tracks-of_IsFresh :
      (w : WrappedResponseWriter) (v : Wire) (cs : List Call)
      → IsFresh w v
      → is_orderly cs ≡ true
      → Tracks w v cs
  unfolding forward perform run
  Tracks-of_IsFresh w v [] h o = Tracks-nil w v h
  Tracks-of_IsFresh w v (set_header k x ∷ cs) h o = Tracks-cons w v (set_header k x) cs refl (
      Tracks-of_IsFresh w (perform v (set_header k x)) cs
        (record { unwritten = h.unwritten; unsent = h.unsent }) o)
  Tracks-of_IsFresh w v (add_header k x ∷ cs) h o = Tracks-cons w v (add_header k x) cs refl (
      Tracks-of_IsFresh w (perform v (add_header k x)) cs
        (record { unwritten = h.unwritten; unsent = h.unsent }) o)
  Tracks-of_IsFresh w v (del_header k ∷ cs) h o = Tracks-cons w v (del_header k) cs refl (
      Tracks-of_IsFresh w (perform v (del_header k)) cs
        (record { unwritten = h.unwritten; unsent = h.unsent }) o)
  Tracks-of_IsFresh w v (write_header code ∷ cs) h o =
      let (same, agrees) = first_status w v code h (ground arith) in
      Tracks-cons w v (write_header code) cs same (Tracks-of_Agrees _ _ cs agrees)
  Tracks-of_IsFresh w v (write b ∷ cs) h o =
      let (same, agrees) = first_write w v b h in
      Tracks-cons w v (write b) cs same (Tracks-of_Agrees _ _ cs agrees)
  Tracks-of_IsFresh w v (flush ∷ cs) h o = cc

  -- For a handler that starts with a final status or with bytes, the wrapper changes nothing of the
  -- response, and the status that it captures is the one that the client gets.
  pub wrapper_tracks :
      (h : Header) (calls : List Call)
      → is_orderly calls ≡ true
      → (run (fresh h) (forward_all taken wrap_response_writer calls).1 ≡ run (fresh h) calls)
        × (status_code_method (forward_all taken wrap_response_writer calls).0
            ≡ final_status (run (fresh h) calls))
  wrapper_tracks h calls o =
      Tracks-of_IsFresh wrap_response_writer (fresh h) calls
        (record { unwritten = refl; unsent = refl }) o

  abbrev IsAtMostOk : Wire → Type 0
  IsAtMostOk v = (v.status ≡ none) ⊎ (v.status ≡ some 200)

  masked_step :
      (w : WrappedResponseWriter) (v : Wire) (c : Call)
      → w.wrote_header ≡ true
      → IsAtMostOk v
      → IsAtMostOk (run v (forward taken w c).1)
  unfolding run forward perform
  masked_step w v c h s = ground arith

  masked :
      (w : WrappedResponseWriter) (v : Wire) (cs : List Call)
      → w.wrote_header ≡ true
      → IsAtMostOk v
      → IsAtMostOk (run v (forward_all taken w cs).1)
  unfolding run forward_all
  masked w v [] h s = s
  masked w v (c ∷ cs) h s =
      rw (run-append v (forward taken w c).1 (forward_all taken (forward taken w c).0 cs).1) (
        masked (forward taken w c).0 (run v (forward taken w c).1) cs (forward_written w c h).0
          (masked_step w v c h s))

  -- After an informational status (1xx other than 101) the wrapper drops every other status: the
  -- client gets 200, whatever final status the handler sends.
  pub informational_masks_status :
      (h : Header) (code : ℕ) (calls : List Call)
      → is_informational code ≡ true
      → (deliver h (forward_all taken wrap_response_writer (write_header code ∷ calls)).1).status
        ≡ some 200
  unfolding deliver forward_all forward perform
  informational_masks_status h code calls i =
      let w : WrappedResponseWriter = record {
        status_code = code;
        bytes_written = 0;
        wrote_header = true;
      } in
      let masks : IsAtMostOk
          (run (perform (fresh h) (write_header code)) (forward_all taken w calls).1) =
        masked w (perform (fresh h) (write_header code)) calls refl (inl (ground arith)) in
      ground arith
