-- ===== src/Http/Plain.antt =====
-- What reaches the client from a handler that sends no informational status: the first status that
-- it sends, 200 where a write or a flush comes first, and all that it writes.
use tanugate.Common.{
  ℕ, ◌≡◌, refl, ap, subst, sym, ◌∙◌, false, none, some, List, [], ◌∷◌, ◌++◌, append-nil,
  append_assoc, All, arith, if◌then◌else◌, Bool-cases, inl, inr,
}
use tanugate.Http.{Bytes, Call, set_header, add_header, del_header, write_header, write, flush}
use tanugate.Http.Headers.{Header}
use tanugate.Http.Wire.{
  Wire, fresh, run, run-append, perform, send_header, send_body, append_body, deliver,
  is_informational, body_allowed,
}

unfoldable pub final_status : List Call → ℕ
final_status [] = 200
final_status (set_header k v ∷ cs) = final_status cs
final_status (add_header k v ∷ cs) = final_status cs
final_status (del_header k ∷ cs) = final_status cs
final_status (write_header code ∷ cs) = code
final_status (write b ∷ cs) = 200
final_status (flush ∷ cs) = 200

abbrev pub written_by : Call → Bytes
written_by (write b) = b
written_by _ = []

unfoldable pub written : List Call → Bytes
written [] = []
written (c ∷ cs) = written_by c ++ written cs

-- No informational status.
abbrev pub IsPlainCall : Call → Type 0
IsPlainCall (set_header k v) = Unit
IsPlainCall (add_header k v) = Unit
IsPlainCall (del_header k) = Unit
IsPlainCall (write_header code) = is_informational code ≡ false
IsPlainCall (write b) = Unit
IsPlainCall flush = Unit

abbrev pub IsPlain : List Call → Type 0
IsPlain cs = All IsPlainCall cs

-- The body that a response with a status may have.
abbrev pub allowed_part : ℕ → Bytes → Bytes
allowed_part code b = if body_allowed code then b else []

allowed-append :
    (code : ℕ) (a b : Bytes)
    → (if body_allowed code then allowed_part code a ++ b else allowed_part code a)
      ≡ allowed_part code (a ++ b)
allowed-append code a b = elim (Bool-cases (body_allowed code)) [
  | inl e ↦ rw e refl
  | inr e ↦ rw e refl
]

send_header_committed : (w : Wire) (code other : ℕ) → w.status ≡ some code → send_header other w ≡ w
unfolding send_header
send_header_committed w code other s = simp s

send_body_committed :
    (w : Wire) (code : ℕ) (b : Bytes)
    → w.status ≡ some code
    → ((send_body b w).status ≡ some code)
      × ((send_body b w).body ≡ (if body_allowed code then w.body ++ b else w.body))
unfolding send_body
send_body_committed w code b s =
    subst
      (λ (o : Wire).
        (o.status ≡ some code)
        × (append_body o.status o.body b ≡ (if body_allowed code then w.body ++ b else w.body)))
      (sym (send_header_committed w code 200 s)) (s, ap (λ st. append_body st w.body b) s)

module _ (w : Wire) (code : ℕ) (body : Bytes) (s : w.status ≡ some code)
    (b : w.body ≡ allowed_part code body) where
  -- The state of a writer with this status and this body.
  abbrev Holds : Bytes → Wire → Type 0
  Holds sent v = (v.status ≡ some code) × (v.body ≡ allowed_part code sent)

  unchanged : Holds (body ++ []) w
  unchanged = (s, b ∙ ap (λ x. allowed_part code x) (sym (append-nil body)))

  perform_committed : (c : Call) → Holds (body ++ written_by c) (perform w c)
  unfolding perform
  perform_committed (set_header k v) = unchanged
  perform_committed (add_header k v) = unchanged
  perform_committed (del_header k) = unchanged
  perform_committed (write_header other) =
      subst (Holds (body ++ [])) (sym (send_header_committed w code other s)) unchanged
  perform_committed flush =
      subst (Holds (body ++ [])) (sym (send_header_committed w code 200 s)) unchanged
  perform_committed (write c) =
      let (status, sent) = send_body_committed w code c s in
      (
        status,
        sent ∙ ap (λ x. if body_allowed code then x ++ c else x) b ∙ allowed-append code body c,
      )

run_committed :
    (w : Wire) (cs : List Call) (code : ℕ) (body : Bytes)
    → w.status ≡ some code
    → w.body ≡ allowed_part code body
    → ((run w cs).status ≡ some code) × ((run w cs).body ≡ allowed_part code (body ++ written cs))
unfolding run written
run_committed w [] code body s b = unchanged w code body s b
run_committed w (c ∷ cs) code body s b =
    let (s', b') = perform_committed w code body s b c in
    let (status, sent) = run_committed (perform w c) cs code (body ++ written_by c) s' b' in
    (status, sent ∙ ap (λ x. allowed_part code x) (append_assoc body (written_by c) (written cs)))

-- The first status is sent.
send_header_first :
    (w : Wire) (code : ℕ)
    → w.status ≡ none
    → is_informational code ≡ false
    → ((send_header code w).status ≡ some code) × ((send_header code w).body ≡ w.body)
unfolding send_header
send_header_first w code n i = ground arith

send_body_first :
    (w : Wire) (b : Bytes)
    → w.status ≡ none
    → w.body ≡ []
    → ((send_body b w).status ≡ some 200) × ((send_body b w).body ≡ b)
unfolding send_body
send_body_first w b n e =
    let (status, body) = send_header_first w 200 n refl in
    (
      status,
      ap (λ s. append_body s (send_header 200 w).body b) status ∙ ap (λ x. x ++ b) (body ∙ e),
    )

allowed-nil : (code : ℕ) → [] ≡ allowed_part code []
allowed-nil code = elim (Bool-cases (body_allowed code)) [ inl e ↦ rw e refl | inr e ↦ rw e refl ]

-- What the client has in the end, when the status is sent.
ended_committed :
    (w : Wire) (cs : List Call) (code : ℕ) (body : Bytes)
    → w.status ≡ some code
    → w.body ≡ allowed_part code body
    → ((send_header 200 (run w cs)).status ≡ some code)
      × ((send_header 200 (run w cs)).body ≡ allowed_part code (body ++ written cs))
ended_committed w cs code body s b =
    let (s', b') = run_committed w cs code body s b in
    subst (λ (v : Wire). (v.status ≡ some code) × (v.body ≡ allowed_part code (body ++ written cs)))
      (sym (send_header_committed (run w cs) code 200 s')) (s', b')

run-plain :
    (cs : List Call) (w : Wire)
    → w.status ≡ none
    → w.body ≡ []
    → IsPlain cs
    → ((send_header 200 (run w cs)).status ≡ some (final_status cs))
      × ((send_header 200 (run w cs)).body ≡ allowed_part (final_status cs) (written cs))
unfolding run perform final_status written
run-plain [] w n b p =
    let (s', b') = send_header_first w 200 n refl in (s', b' ∙ b ∙ allowed-nil 200)
run-plain (set_header k v ∷ cs) w n b (_, p) = run-plain cs _ n b p
run-plain (add_header k v ∷ cs) w n b (_, p) = run-plain cs _ n b p
run-plain (del_header k ∷ cs) w n b (_, p) = run-plain cs _ n b p
run-plain (write_header code ∷ cs) w n b (i, p) =
    let (s', b') = send_header_first w code n i in
    ended_committed (send_header code w) cs code [] s' (b' ∙ b ∙ allowed-nil code)
run-plain (write c ∷ cs) w n b (_, p) =
    let (s', b') = send_body_first w c n b in ended_committed (send_body c w) cs 200 c s' b'
run-plain (flush ∷ cs) w n b (_, p) =
    let (s', b') = send_header_first w 200 n refl in
    ended_committed (send_header 200 w) cs 200 [] s' (b' ∙ b ∙ allowed-nil 200)

pub deliver-plain :
    (h : Header) (cs : List Call)
    → IsPlain cs
    → ((deliver h cs).status ≡ some (final_status cs))
      × ((deliver h cs).body ≡ allowed_part (final_status cs) (written cs))
unfolding deliver
deliver-plain h cs p = run-plain cs (fresh h) refl refl p

-- The final status of a plain response is none of the informational ones.
pub final_status-IsPlain :
    (cs : List Call) → IsPlain cs → is_informational (final_status cs) ≡ false
unfolding final_status
final_status-IsPlain [] p = refl
final_status-IsPlain (set_header k v ∷ cs) (_, p) = final_status-IsPlain cs p
final_status-IsPlain (add_header k v ∷ cs) (_, p) = final_status-IsPlain cs p
final_status-IsPlain (del_header k ∷ cs) (_, p) = final_status-IsPlain cs p
final_status-IsPlain (write_header code ∷ cs) (i, p) = i
final_status-IsPlain (write b ∷ cs) (_, p) = refl
final_status-IsPlain (flush ∷ cs) (_, p) = refl

-- Calls that only change headers.
abbrev pub IsHeaderCall : Call → Type 0
IsHeaderCall (set_header k v) = Unit
IsHeaderCall (add_header k v) = Unit
IsHeaderCall (del_header k) = Unit
IsHeaderCall _ = ⊥

run_headers :
    (cs : List Call) (w : Wire)
    → All IsHeaderCall cs
    → ((run w cs).status ≡ w.status) × ((run w cs).body ≡ w.body)
unfolding run perform
run_headers [] w a = (refl, refl)
run_headers (set_header k v ∷ cs) w (_, a) = run_headers cs _ a
run_headers (add_header k v ∷ cs) w (_, a) = run_headers cs _ a
run_headers (del_header k ∷ cs) w (_, a) = run_headers cs _ a
run_headers (write_header code ∷ cs) w (f, a) = absurd f
run_headers (write b ∷ cs) w (f, a) = absurd f
run_headers (flush ∷ cs) w (f, a) = absurd f

-- A response that is sent at once behind calls that only change headers.
pub deliver_copied :
    (h : Header) (headers : List Call) (code : ℕ) (b : Bytes)
    → All IsHeaderCall headers
    → is_informational code ≡ false
    → ((deliver h (headers ++ (write_header code ∷ (write b ∷ [])))).status ≡ some code)
      × ((deliver h (headers ++ (write_header code ∷ (write b ∷ [])))).body ≡ allowed_part code b)
unfolding deliver final_status written
deliver_copied h headers code b a i =
    let (status, body) = run_headers headers (fresh h) a in
    let (status', body') =
      run-plain (write_header code ∷ (write b ∷ [])) (run (fresh h) headers) status body
        (i, (tt, tt)) in
    subst
      (λ (v : Wire).
        ((send_header 200 v).status ≡ some code) × ((send_header 200 v).body ≡ allowed_part code b))
      (sym (run-append (fresh h) headers (write_header code ∷ (write b ∷ []))))
      (status', body' ∙ ap (λ x. allowed_part code x) (append-nil b))
