-- ===== src/Proxy/Rewriting.antt =====
-- The path that the proxy gives: internal/proxy/proxy.go.
use text.Mathlib.TextLemmas.{cons-append}
use tanugate.Common.{
  ◌≡◌, refl, ap, sym, ◌∙◌, String, false, none, List, [], ◌∷◌, contains_char, cut_prefix, arith,
  ◌<>◌, ◌≢◌, ◌===◌, ◌++◌, ◌⊎◌, inl, inr, All, eq_iff,
}
use tanugate.Proxy.{replace_from, replace_all, rewrite}
use tanugate.Proxy.Placeholders.{
  brace, placeholder-brace, no_occurrence, contains_char-append, other_name, closing_plain,
  cut_prefix_same, up_to_brace, at_occurrence,
}

-- A template without a brace is the path, whatever the parameters are.
pub rewrite_constant :
    (params : List (String × String)) (template : String)
    → contains_char b'{' template ≡ false
    → rewrite params template ≡ template
unfolding rewrite
rewrite_constant [] template h = refl
rewrite_constant ((key, value) ∷ params) template h =
    let e : replace_all template ("{" <> key <> "}") value ≡ template =
      ap (λ old. replace_all template old value) (placeholder-brace key)
      ∙ no_occurrence (key <> "}") value template h in
    ap (λ x. rewrite params x) e ∙ rewrite_constant params template h

-- A name without braces.
abbrev pub IsPlainName : String → Type 0
IsPlainName name = (contains_char b'{' name ≡ false) × (contains_char b'}' name ≡ false)

-- What a path template with one placeholder has around it.
module _ (key pre post : String) (h : contains_char b'{' pre ≡ false)
    (k : contains_char b'{' post ≡ false) where
  abbrev template : String
  template = pre <> ("{" <> key <> "}" <> post)

  replace_placeholder :
      (value : String) → replace_all template ("{" <> key <> "}") value ≡ (pre <> (value <> post))
  replace_placeholder value =
      let rest = key <> "}" in
      ap (λ o. replace_all (pre <> (o <> post)) o value) (placeholder-brace key)
      ∙ up_to_brace rest value pre (String.◌∷◌ brace rest <> post) h
      ∙ ap (λ x. pre <> x)
          (at_occurrence rest value post ∙ ap (λ x. value <> x) (no_occurrence rest value post k))

  replace_other :
      (other value : String)
      → IsPlainName key
      → IsPlainName other
      → other ≢ key
      → replace_all template ("{" <> other <> "}") value ≡ template
  unfolding replace_from
  replace_other other value (a, b) (c, d) n =
      let rest = other <> "}" in
      let body = (key <> "}") <> post in
      let differ : (other === key) ≡ false = ground (arith, eq_iff other key) in
      let missed : cut_prefix (String.◌∷◌ brace body) (String.◌∷◌ brace rest) ≡ none =
        cut_prefix_same brace body rest ∙ other_name key other post b d differ in
      let bare : contains_char b'{' body ≡ false =
        contains_char-append b'{' (key <> "}") post
        ∙ (let e = contains_char-append b'{' key "}" in ground (arith, a, k, closing_plain)) in
      let open_ : ("{" <> key <> "}" <> post) ≡ String.◌∷◌ brace body =
        ap (λ x. x <> post) (placeholder-brace key) ∙ cons-append brace (key <> "}") post in
      let step : replace_from (String.◌∷◌ brace rest) value 0 (String.◌∷◌ brace body)
          ≡ String.◌∷◌ brace (replace_from (String.◌∷◌ brace rest) value 0 body) =
        rw (missed, replace_from) refl in
      ap (λ o. replace_all template o value) (placeholder-brace other)
      ∙ ap (λ x. replace_all (pre <> x) (String.◌∷◌ brace rest) value) open_
      ∙ up_to_brace rest value pre (String.◌∷◌ brace body) h
      ∙ ap (λ x. pre <> x)
          (step ∙ ap (λ x. String.◌∷◌ brace x) (no_occurrence rest value body bare) ∙ sym open_)

  -- For a template with one placeholder and no other opening brace, and parameters of which one has
  -- its name: the placeholder is replaced by that parameter's value and nothing else changes, if those
  -- before it have other names, its name and theirs have no braces, and its value has no opening brace
  -- or no parameter follows.
  pub rewrite_placeholder :
      (value : String) (before after : List (String × String))
      → IsPlainName key
      → All (λ p. IsPlainName p.0 × (p.0 ≢ key)) before
      → (after ≡ []) ⊎ (contains_char b'{' value ≡ false)
      → rewrite (before ++ (key, value) ∷ after) template ≡ (pre <> (value <> post))
  unfolding rewrite
  rewrite_placeholder value [] after a _ (inl e) =
      ap (λ ps. rewrite ps (replace_all template ("{" <> key <> "}") value)) e
      ∙ replace_placeholder value
  rewrite_placeholder value [] after a _ (inr v) =
      let bare : contains_char b'{' (pre <> (value <> post)) ≡ false =
        contains_char-append b'{' pre (value <> post)
        ∙ (let e = contains_char-append b'{' value post in ground (arith, h, k, v)) in
      ap (rewrite after) (replace_placeholder value)
      ∙ rewrite_constant after (pre <> (value <> post)) bare
  rewrite_placeholder value ((other, v) ∷ before) after a ((c, n), rest) b =
      ap (rewrite (before ++ (key, value) ∷ after)) (replace_other other v a c n)
      ∙ rewrite_placeholder value before after a rest b
