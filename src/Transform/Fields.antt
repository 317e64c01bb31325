-- ===== src/Transform/Fields.antt =====
-- What the rules for a JSON body do to its fields, and the limit of a request's body.
use tanugate.Common.{
  ℕ, suc, ◌+◌, ◌≤◌, ◌<◌, ◌^◌, ◌≡◌, refl, ap, sym, subst, ◌∙◌, String, true, false, Option, none,
  some, List, [], ◌∷◌, length, lookup, insert, delete, contains, lookup-insert, lookup-delete,
  lt→ltb, ◌===◌, eq_iff, IsMap, if◌then◌else◌, arith, ℤ, Bool-cases, Option-cases, inl, inr,
}
use tanugate.Http.{Bytes, Request, content, Json, reply, Handler, write_json}
use tanugate.Http.Headers
use tanugate.Http.Headers.{Header}
use tanugate.Config.{BodyTransform, DirectionTransform}
use tanugate.Transform.Variables.{Clock}
use tanugate.Transform.Rules.{
  JsonCodec, strip, rename, moved, rename_key, injected, inject, transform_fields,
  transform_headers,
}
use tanugate.Transform.{
  request_transform, request_rules, request_body, read_limit, read_body, take, effective_max_body,
  is_json, started,
}

strip-lookup :
    (fields : List String) (k : String) (d : List (String × Json))
    → lookup k (strip fields d) ≡ (if contains k fields then none else lookup k d)
unfolding strip contains
strip-lookup [] k d = refl
strip-lookup (field ∷ fields) k d =
    ground (arith, strip-lookup fields k (delete field d), lookup-delete field k d, eq_iff field k)

-- A rename moves the value of a field; where both names are the same, the field is lost.
pub rename_key-lookup :
    (old new : String) (d : List (String × Json)) (v : Json) (k : String)
    → lookup old d ≡ some v
    → lookup k (rename_key old new d)
      ≡ (if old === k then none else if new === k then some v else lookup k d)
rename_key-lookup old new d v k h =
    ap (λ o. lookup k (moved old new o d)) h
    ∙ lookup-delete old k (insert new v d)
    ∙ ap (λ o. if old === k then none else o) (lookup-insert new k v d)

-- No rule names this field.
abbrev pub Unnamed : String → List (String × String) → Type 0
Unnamed k [] = Unit
Unnamed k ((old, new) ∷ rules) = ((old === k) ≡ false) × ((new === k) ≡ false) × Unnamed k rules

moved_unnamed :
    (old new : String) (o : Option Json) (d : List (String × Json)) (k : String)
    → (old === k) ≡ false
    → (new === k) ≡ false
    → lookup k (moved old new o d) ≡ lookup k d
moved_unnamed old new none d k h n = refl
moved_unnamed old new (some v) d k h n =
    lookup-delete old k (insert new v d) ∙ rw h (lookup-insert new k v d ∙ rw n refl)

rename-lookup :
    (rules : List (String × String)) (k : String) (d : List (String × Json))
    → Unnamed k rules
    → lookup k (rename rules d) ≡ lookup k d
unfolding rename
rename-lookup [] k d u = refl
rename-lookup ((old, new) ∷ rules) k d (o, n, u) =
    rename-lookup rules k (rename_key old new d) u ∙ moved_unnamed old new (lookup old d) d k o n

module _ {W : Type 0} (clock : Clock W) (codec : JsonCodec) (r : Request) (ms : Option ℕ)
    (w : W) where
  abbrev map_injected : Option Json → Option Json
  map_injected none = none
  map_injected (some v) = some (injected clock codec r ms w v)

  inject_absent :
      (fields : List (String × Json)) (k : String) (d : List (String × Json))
      → lookup k fields ≡ none
      → lookup k (inject clock codec r ms w fields d) ≡ lookup k d
  unfolding inject lookup
  inject_absent [] k d h = refl
  inject_absent ((key, value) ∷ fields) k d h = elim (Bool-cases (key === k)) [
    | inl e ↦ absurd (ground (arith, e, h))
    | inr e ↦
        inject_absent fields k (insert key (injected clock codec r ms w value) d)
          (ground (arith, e, h))
        ∙ (lookup-insert key k (injected clock codec r ms w value) d ∙ rw e refl)
  ]

  inject_present :
      (fields : List (String × Json)) (k : String) (v : Json) (d : List (String × Json))
      → IsMap fields
      → lookup k fields ≡ some v
      → lookup k (inject clock codec r ms w fields d) ≡ some (injected clock codec r ms w v)
  unfolding inject lookup
  inject_present [] k v d m h = absurd (ground (arith, h))
  inject_present ((key, value) ∷ fields) k v d (fresh, m) h = elim (Bool-cases (key === k)) [
    | inl e ↦
        let held : some value ≡ some v = ground (arith, e, h) in
        inject_absent fields k (insert key (injected clock codec r ms w value) d)
          (subst (λ x. lookup x fields ≡ none) ((eq_iff key k).0 e) fresh)
        ∙ lookup-insert key k (injected clock codec r ms w value) d
        ∙ rw e (ap map_injected held)
    | inr e ↦ inject_present fields k v _ m (ground (arith, e, h))
  ]

  abbrev pub or_injected : Option Json → Option Json → Option Json
  or_injected none old = old
  or_injected (some v) old = some (injected clock codec r ms w v)

  injected_or :
      (fields d : List (String × Json)) (k : String)
      → IsMap fields
      → lookup k (inject clock codec r ms w fields d) ≡ or_injected (lookup k fields) (lookup k d)
  injected_or fields d k m = elim (Option-cases (lookup k fields)) [
    | inl h ↦ inject_absent fields k d h ∙ sym (ap (λ o. or_injected o (lookup k d)) h)
    | inr (v, h) ↦ inject_present fields k v d m h ∙ sym (ap (λ o. or_injected o (lookup k d)) h)
  ]

  -- If the injected fields have different names and no rename names the field: an injected field has
  -- its value, with the placeholders of a text replaced; another is gone if it is to be stripped,
  -- and otherwise as it was.
  pub transform_fields-lookup :
      (cfg : BodyTransform) (d : List (String × Json)) (k : String)
      → IsMap cfg.inject_fields
      → Unnamed k cfg.rename_keys
      → lookup k (transform_fields clock codec cfg r ms w d)
        ≡ or_injected
            (lookup k cfg.inject_fields)
            (if contains k cfg.strip_fields then none else lookup k d)
  unfolding transform_fields
  transform_fields-lookup cfg d k m u =
      injected_or cfg.inject_fields (rename cfg.rename_keys (strip cfg.strip_fields d)) k m
      ∙ ap (λ o. or_injected (lookup k cfg.inject_fields) o)
          (rename-lookup cfg.rename_keys k (strip cfg.strip_fields d) u
            ∙ strip-lookup cfg.strip_fields k d)

take_long : (n : ℕ) (b : Bytes) → n ≤ length b → length (take n b) ≡ n
unfolding take
take_long ℕ.zero b h = refl
take_long (suc n) [] h = absurd (omega (arith, h))
take_long (suc n) (x ∷ b) h = ap (λ m. suc m) (take_long n b (omega (arith, h)))

module _ {W : Type 0} (clock : Clock W) (codec : JsonCodec) where
  request_body_too_large :
      (next : Handler W) (cfg : BodyTransform) (limit : ℕ) (r : Request) (w : W) (b : Bytes)
      → limit < length b
      → request_body clock codec next cfg limit r w (some b)
        ≡ reply (write_json 413 "request_too_large" "request body exceeds transform size limit") w
  request_body_too_large next cfg limit r w [] h = absurd (omega (arith, h))
  request_body_too_large next cfg limit r w (b ∷ bs) h = rw (lt→ltb limit (length (b ∷ bs)) h) refl

  request_rules_json :
      (next : Handler W) (cfg : BodyTransform) (limit : ℕ) (r : Request) (w : W)
      → is_json (Headers.get r.header "Content-Type") ≡ true
      → request_rules clock codec (some cfg) limit next r w
        ≡ request_body clock codec next cfg limit r w (read_body (read_limit limit) r.body)
  request_rules_json next cfg limit r w json = rw json refl

  -- If a request has a JSON body, by the headers after their rules, that is longer than the limit,
  -- which is below 2^63 - 1, and there are rules for bodies: the answer is 413, and the handler does
  -- not run.
  pub request_transform_too_large :
      (cfg : DirectionTransform) (rules : BodyTransform) (max_body_size : ℤ) (next : Handler W)
      (r : Request) (w : W) (b : Bytes)
      → cfg.body ≡ some rules
      → r.body ≡ content b
      → is_json (
          Headers.get
            (transform_headers clock codec
              (λ h. record (started clock codec r w) { header = h })
              none
              w
              cfg.headers
              r.header)
            "Content-Type")
        ≡ true
      → effective_max_body max_body_size + 1 < 2 ^ 63
      → effective_max_body max_body_size < length b
      → request_transform clock codec (some cfg) max_body_size next r w
        ≡ reply (write_json 413 "request_too_large" "request body exceeds transform size limit") w
  unfolding request_transform
  request_transform_too_large cfg rules max_body_size next r w b c body json small large =
      let limit = effective_max_body max_body_size in
      let r' = record (started clock codec r w) {
        header =
            transform_headers clock codec (λ h. record (started clock codec r w) { header = h })
              none w cfg.headers r.header;
      } in
      let limited : read_limit limit ≡ limit + 1 = rw (lt→ltb (limit + 1) (2 ^ 63) small) refl in
      let long = take_long (limit + 1) b (omega (arith, large)) in
      ap (λ o. request_rules clock codec o limit next r' w) c
      ∙ request_rules_json next rules limit r' w json
      ∙ ap (λ n. request_body clock codec next rules limit r' w (read_body n r.body)) limited
      ∙ ap (λ o. request_body clock codec next rules limit r' w (read_body (limit + 1) o)) body
      ∙ request_body_too_large next rules limit r' w (take (limit + 1) b) (omega (arith, long))
