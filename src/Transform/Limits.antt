-- ===== src/Transform/Limits.antt =====
-- The buffer of a response transform: what it keeps, and that it never grows past its limit.
use tanugate.Common.{
  ℕ, ◌+◌, ◌≤◌, ◌<◌, ◌≡◌, refl, ap, subst, sym, ◌∙◌, Bool, true, false, ◌&&◌, List, [], ◌∷◌, ◌++◌,
  append-nil, append_assoc, length, length-append, ltb, ltb→lt, arith, Bool-cases, inl, inr,
}
use tanugate.Http.{Bytes, Call, set_header, add_header, del_header, write_header, write, flush}
use tanugate.Http.Plain.{written, written_by}
use tanugate.Transform.Buffering.{Buffer, buffer_status, buffer_write, buffer_call, buffer_all}

module _ (limit : ℕ) where
  abbrev overflows : Buffer → Bytes → Bool
  overflows w b = ltb 0 limit && ltb limit (length w.body + length b)

  -- A write either fits or is refused.
  buffer_write_fits :
      (w : Buffer) (b : Bytes)
      → overflows w b ≡ false
      → buffer_write limit b w ≡ record w { wrote_header = true; body = w.body ++ b }
  unfolding buffer_write
  buffer_write_fits w b e = rw e refl

  buffer_write_refused :
      (w : Buffer) (b : Bytes)
      → overflows w b ≡ true
      → buffer_write limit b w ≡ record w { wrote_header = true; exceeded = true }
  unfolding buffer_write
  buffer_write_refused w b e = rw e refl

  fits : (w : Buffer) (b : Bytes) → length w.body + length b ≤ limit → overflows w b ≡ false
  fits w b h = ground arith

  buffer_status_kept :
      (code : ℕ) (w : Buffer)
      → ((buffer_status code w).body ≡ w.body) × ((buffer_status code w).exceeded ≡ w.exceeded)
  unfolding buffer_status
  buffer_status_kept code w = elim (Bool-cases w.wrote_header) [
    | inl e ↦ rw e (refl, refl)
    | inr e ↦ rw e (refl, refl)
  ]

  buffer_write-bounded :
      (w : Buffer) (b : Bytes)
      → 0 < limit
      → length w.body ≤ limit
      → length (buffer_write limit b w).body ≤ limit
  buffer_write-bounded w b p h = elim (Bool-cases (overflows w b)) [
    | inl e ↦ subst (λ (v : Buffer). length v.body ≤ limit) (sym (buffer_write_refused w b e)) h
    | inr e ↦
        subst (λ (v : Buffer). length v.body ≤ limit) (sym (buffer_write_fits w b e))
          (subst (λ n. n ≤ limit) (sym (length-append w.body b)) (ground (arith, e)))
  ]

  buffer_call-bounded :
      (w : Buffer) (c : Call)
      → 0 < limit
      → length w.body ≤ limit
      → length (buffer_call limit w c).body ≤ limit
  unfolding buffer_call
  buffer_call-bounded w (set_header k v) p h = h
  buffer_call-bounded w (add_header k v) p h = h
  buffer_call-bounded w (del_header k) p h = h
  buffer_call-bounded w (write_header code) p h =
      subst (λ (b : Bytes). length b ≤ limit) (sym (buffer_status_kept code w).0) h
  buffer_call-bounded w (write b) p h = buffer_write-bounded w b p h
  buffer_call-bounded w flush p h = h

  -- Whatever the handler writes, the buffer stays within a positive limit.
  pub buffer_all-bounded :
      (w : Buffer) (cs : List Call)
      → 0 < limit
      → length w.body ≤ limit
      → length (buffer_all limit w cs).body ≤ limit
  unfolding buffer_all
  buffer_all-bounded w [] p h = h
  buffer_all-bounded w (c ∷ cs) p h =
      buffer_all-bounded (buffer_call limit w c) cs p (buffer_call-bounded w c p h)

  abbrev Takes : Buffer → Bytes → Buffer → Type 0
  Takes w b v = (v.body ≡ w.body ++ b) × (v.exceeded ≡ w.exceeded)

  -- A call that fits.
  buffer_call_fits :
      (w : Buffer) (c : Call)
      → length w.body + length (written_by c) ≤ limit
      → Takes w (written_by c) (buffer_call limit w c)
  unfolding buffer_call
  buffer_call_fits w (set_header k v) h = (sym (append-nil w.body), refl)
  buffer_call_fits w (add_header k v) h = (sym (append-nil w.body), refl)
  buffer_call_fits w (del_header k) h = (sym (append-nil w.body), refl)
  buffer_call_fits w (write_header code) h =
      let (body, exceeded) = buffer_status_kept code w in (body ∙ sym (append-nil w.body), exceeded)
  buffer_call_fits w (write b) h =
      subst (Takes w b) (sym (buffer_write_fits w b (fits w b h))) (refl, refl)
  buffer_call_fits w flush h = (sym (append-nil w.body), refl)

  -- A response that fits is kept as it is.
  pub buffer_all_fits :
      (w : Buffer) (cs : List Call)
      → length w.body + length (written cs) ≤ limit
      → Takes w (written cs) (buffer_all limit w cs)
  unfolding buffer_all written
  buffer_all_fits w [] h = (sym (append-nil w.body), refl)
  buffer_all_fits w (c ∷ cs) h =
      let sizes = length-append (written_by c) (written cs) in
      let (body, exceeded) = buffer_call_fits w c (omega (arith, h, sizes)) in
      let grown = ap length body ∙ length-append w.body (written_by c) in
      let (rest, kept) =
        buffer_all_fits (buffer_call limit w c) cs (omega (arith, h, sizes, grown)) in
      (
        rest ∙ ap (λ x. x ++ written cs) body ∙ append_assoc w.body (written_by c) (written cs),
        kept ∙ exceeded,
      )

  -- Once a write was refused, the response counts as too large.
  buffer_call_exceeded :
      (w : Buffer) (c : Call) → w.exceeded ≡ true → (buffer_call limit w c).exceeded ≡ true
  unfolding buffer_call
  buffer_call_exceeded w (set_header k v) h = h
  buffer_call_exceeded w (add_header k v) h = h
  buffer_call_exceeded w (del_header k) h = h
  buffer_call_exceeded w (write_header code) h = (buffer_status_kept code w).1 ∙ h
  buffer_call_exceeded w (write b) h = elim (Bool-cases (overflows w b)) [
    | inl e ↦ ap (λ (v : Buffer). v.exceeded) (buffer_write_refused w b e)
    | inr e ↦ ap (λ (v : Buffer). v.exceeded) (buffer_write_fits w b e) ∙ h
  ]
  buffer_call_exceeded w flush h = h

  buffer_all_exceeded :
      (w : Buffer) (cs : List Call) → w.exceeded ≡ true → (buffer_all limit w cs).exceeded ≡ true
  unfolding buffer_all
  buffer_all_exceeded w [] h = h
  buffer_all_exceeded w (c ∷ cs) h =
      buffer_all_exceeded (buffer_call limit w c) cs (buffer_call_exceeded w c h)

  -- A call that does not fit is a write that is refused.
  buffer_call_refused :
      (w : Buffer) (c : Call)
      → 0 < limit
      → length w.body ≤ limit
      → limit < length w.body + length (written_by c)
      → (buffer_call limit w c).exceeded ≡ true
  unfolding buffer_call
  buffer_call_refused w (write b) p q h =
      ap (λ (v : Buffer). v.exceeded) (buffer_write_refused w b (ground (arith, p, h)))
  buffer_call_refused w (set_header k v) p q h = absurd (omega (arith, q, h))
  buffer_call_refused w (add_header k v) p q h = absurd (omega (arith, q, h))
  buffer_call_refused w (del_header k) p q h = absurd (omega (arith, q, h))
  buffer_call_refused w (write_header code) p q h = absurd (omega (arith, q, h))
  buffer_call_refused w flush p q h = absurd (omega (arith, q, h))

  -- A response that does not fit is recognised.
  pub buffer_all_refused :
      (w : Buffer) (cs : List Call)
      → 0 < limit
      → length w.body ≤ limit
      → limit < length w.body + length (written cs)
      → (buffer_all limit w cs).exceeded ≡ true
  unfolding buffer_all written
  buffer_all_refused w [] p q h = absurd (omega (arith, q, h))
  buffer_all_refused w (c ∷ cs) p q h =
      let sizes = length-append (written_by c) (written cs) in
      elim (Bool-cases (ltb limit (length w.body + length (written_by c)))) [
        | inl e ↦
            buffer_all_exceeded (buffer_call limit w c) cs
              (buffer_call_refused w c p q (ltb→lt _ _ e))
        | inr e ↦
            let (body, _) = buffer_call_fits w c (ground (arith, e)) in
            let grown = ap length body ∙ length-append w.body (written_by c) in
            buffer_all_refused (buffer_call limit w c) cs p (buffer_call-bounded w c p q)
              (omega (arith, h, sizes, grown))
      ]
