-- ===== src/Proxy/Placeholders.antt =====
-- Where a path template of internal/proxy/proxy.go has placeholders, and what replaces them.
use Prim.Native.Char.{Char, char, code}
use text.Mathlib.TextEquality.{Char-path}
use text.Mathlib.TextLemmas.{nil-append, cons-append}
use tanugate.Common.{
  ◌-◌, ==_iff, ◌≡◌, refl, ap, sym, ◌∙◌, String, false, none, some, contains_char, cut_prefix, ◌==◌,
  arith, ◌<>◌, ℕ, ◌===◌, ◌||◌, inl, inr, eq_iff, Bool-cases, true,
}
use tanugate.Proxy.{replace_from, chars}

abbrev pub brace : Char
brace = char 123 tt

-- A placeholder starts with a brace.
pub placeholder-brace : (key : String) → ("{" <> key <> "}") ≡ String.◌∷◌ brace (key <> "}")
placeholder-brace key =
    ap (λ x. x <> "}") (cons-append brace "" key ∙ ap (λ x. String.◌∷◌ brace x) (nil-append key))
    ∙ cons-append brace key "}"

cut_prefix_other :
    (c d : Char) (s t : String)
    → (code c == code d) ≡ false
    → cut_prefix (String.◌∷◌ c s) (String.◌∷◌ d t) ≡ none
unfolding cut_prefix
cut_prefix_other c d s t h = rw h refl

abbrev pub closing : Char
closing = char 125 tt

pub closing_plain : contains_char b'{' "}" ≡ false
unfolding contains_char
closing_plain = refl

pub cut_prefix_same :
    (c : Char) (s t : String) → cut_prefix (String.◌∷◌ c s) (String.◌∷◌ c t) ≡ cut_prefix s t
unfolding cut_prefix
cut_prefix_same c s t = let e = (==_iff (code c) (code c)).1 refl in rw e refl

names_differ :
    (c d : Char) (s t : String)
    → (code c == code d) ≡ true
    → (String.◌∷◌ d t === String.◌∷◌ c s) ≡ false
    → (t === s) ≡ false
names_differ c d s t e n = elim (Bool-cases (t === s)) [
  | inl f ↦
      let same : String.◌∷◌ d t ≡ String.◌∷◌ c s =
        ap (λ x. String.◌∷◌ x t) (sym (Char-path c d ((==_iff (code c) (code d)).0 e)))
        ∙ ap (λ x. String.◌∷◌ c x) ((eq_iff t s).0 f) in
      absurd (ground (arith, (eq_iff (String.◌∷◌ d t) (String.◌∷◌ c s)).1 same))
  | inr f ↦ f
]

-- A text without a brace has no placeholder.
pub no_occurrence :
    (rest value s : String)
    → contains_char b'{' s ≡ false
    → replace_from (String.◌∷◌ brace rest) value 0 s ≡ s
unfolding replace_from contains_char
no_occurrence rest value String.[] h = refl
no_occurrence rest value (String.◌∷◌ c s) h =
    let ih = no_occurrence rest value s (ground (arith, h)) in
    let e = cut_prefix_other c brace s rest (ground (arith, h)) in
    rw (e, replace_from) (ap (λ x. String.◌∷◌ c x) ih)

cut_prefix-append : (old s : String) → cut_prefix (old <> s) old ≡ some s
unfolding cut_prefix
cut_prefix-append String.[] s = ap (λ x. cut_prefix x "") (nil-append s)
cut_prefix-append (String.◌∷◌ c old) s =
    ap (λ x. cut_prefix x (String.◌∷◌ c old)) (cons-append c old s)
    ∙ (let e = (==_iff (code c) (code c)).1 refl in rw e (cut_prefix-append old s))

module _ (rest value : String) where
  -- What stands before the first brace is kept.
  pub up_to_brace :
      (pre s : String)
      → contains_char b'{' pre ≡ false
      → replace_from (String.◌∷◌ brace rest) value 0 (pre <> s)
        ≡ (pre <> replace_from (String.◌∷◌ brace rest) value 0 s)
  unfolding replace_from contains_char
  up_to_brace String.[] s h =
      ap (replace_from (String.◌∷◌ brace rest) value 0) (nil-append s)
      ∙ sym (nil-append (replace_from (String.◌∷◌ brace rest) value 0 s))
  up_to_brace (String.◌∷◌ c pre) s h =
      let ih = up_to_brace pre s (ground (arith, h)) in
      let e = cut_prefix_other c brace (pre <> s) rest (ground (arith, h)) in
      let step : replace_from (String.◌∷◌ brace rest) value 0 (String.◌∷◌ c (pre <> s))
          ≡ String.◌∷◌ c (replace_from (String.◌∷◌ brace rest) value 0 (pre <> s)) =
        rw (e, replace_from) refl in
      ap (replace_from (String.◌∷◌ brace rest) value 0) (cons-append c pre s)
      ∙ step
      ∙ ap (λ x. String.◌∷◌ c x) ih
      ∙ sym (cons-append c pre (replace_from (String.◌∷◌ brace rest) value 0 s))

  -- The rest of an occurrence is skipped.
  skipped :
      (t s : String)
      → replace_from (String.◌∷◌ brace rest) value (chars t) (t <> s)
        ≡ replace_from (String.◌∷◌ brace rest) value 0 s
  unfolding replace_from
  skipped String.[] s = ap (replace_from (String.◌∷◌ brace rest) value 0) (nil-append s)
  skipped (String.◌∷◌ c t) s =
      ap (replace_from (String.◌∷◌ brace rest) value (chars (String.◌∷◌ c t))) (cons-append c t s)
      ∙ skipped t s

  -- An occurrence is replaced.
  pub at_occurrence :
      (s : String)
      → replace_from (String.◌∷◌ brace rest) value 0 (String.◌∷◌ brace rest <> s)
        ≡ (value <> replace_from (String.◌∷◌ brace rest) value 0 s)
  unfolding replace_from
  at_occurrence s =
      let old = String.◌∷◌ brace rest in
      let found : cut_prefix (String.◌∷◌ brace (rest <> s)) old ≡ some s =
        ap (λ x. cut_prefix x old) (sym (cons-append brace rest s)) ∙ cut_prefix-append old s in
      let step : replace_from old value 0 (String.◌∷◌ brace (rest <> s))
          ≡ (value <> replace_from old value (chars old - 1) (rest <> s)) =
        rw (found, replace_from) refl in
      let size : chars old - 1 ≡ chars rest = omega arith in
      ap (replace_from old value 0) (cons-append brace rest s)
      ∙ step
      ∙ ap (λ n. value <> replace_from old value n (rest <> s)) size
      ∙ ap (λ x. value <> x) (skipped rest s)

pub contains_char-append :
    (k : ℕ) (s t : String) → contains_char k (s <> t) ≡ (contains_char k s || contains_char k t)
unfolding contains_char
contains_char-append k String.[] t = ap (contains_char k) (nil-append t)
contains_char-append k (String.◌∷◌ c s) t =
    let e = ap (contains_char k) (cons-append c s t) in
    let ih = contains_char-append k s t in ground arith

-- A placeholder of another parameter does not stand where one stands: names have no closing brace.
pub other_name :
    (key other post : String)
    → contains_char b'}' key ≡ false
    → contains_char b'}' other ≡ false
    → (other === key) ≡ false
    → cut_prefix ((key <> "}") <> post) (other <> "}") ≡ none
unfolding cut_prefix contains_char
other_name String.[] String.[] post h k n = absurd (ground (arith, eq_iff "" ""))
other_name String.[] (String.◌∷◌ d other) post h k n =
    ap (λ x. cut_prefix (x <> post) (String.◌∷◌ d other <> "}")) (nil-append "}")
    ∙ ap (λ x. cut_prefix x (String.◌∷◌ d other <> "}")) (cons-append closing "" post)
    ∙ ap (cut_prefix (String.◌∷◌ closing ("" <> post))) (cons-append d other "}")
    ∙ cut_prefix_other closing d ("" <> post) (other <> "}") (ground arith)
other_name (String.◌∷◌ c key) String.[] post h k n =
    ap (λ x. cut_prefix (x <> post) ("" <> "}")) (cons-append c key "}")
    ∙ ap (λ x. cut_prefix x ("" <> "}")) (cons-append c (key <> "}") post)
    ∙ ap (cut_prefix (String.◌∷◌ c ((key <> "}") <> post))) (nil-append "}")
    ∙ cut_prefix_other c closing ((key <> "}") <> post) "" (ground arith)
other_name (String.◌∷◌ c key) (String.◌∷◌ d other) post h k n =
    let whole : cut_prefix ((String.◌∷◌ c key <> "}") <> post) (String.◌∷◌ d other <> "}")
        ≡ cut_prefix (String.◌∷◌ c ((key <> "}") <> post)) (String.◌∷◌ d (other <> "}")) =
      ap (λ x. cut_prefix (x <> post) (String.◌∷◌ d other <> "}")) (cons-append c key "}")
      ∙ ap (λ x. cut_prefix x (String.◌∷◌ d other <> "}")) (cons-append c (key <> "}") post)
      ∙ ap (cut_prefix (String.◌∷◌ c ((key <> "}") <> post))) (cons-append d other "}") in
    whole ∙ elim (Bool-cases (code c == code d)) [
      | inl e ↦ rw e (
          other_name key other post (ground (arith, h)) (ground (arith, k))
            (names_differ c d key other e n))
      | inr e ↦ rw e refl
    ]
