-- ===== src/Router/Matching.antt =====
-- What the constraints of a route mean.
use Prim.Native.Char.{Char, code}
use Prim.Native.String.{count}
use text.Mathlib.TextLemmas.{nil-append, cons-append, length-append, length-cons, cons-ne-nil}
use mathlib.Core.Option
use tanugate.Common.{
  ℕ, ◌<◌, ◌≡◌, ◌≢◌, refl, sym, ap, ◌∙◌, ◌↔◌, inl, inr, String, true, false, Option, none, some,
  contains_char, has_prefix, trim_prefix, cut_suffix, before_last, map_chars, ◌===◌, ◌<>◌, arith,
  eq_iff, eq_refl, Option-cases, Bool-cases, ◌==◌,
}
use tanugate.Router.{wildcard_suffix, new_host_matcher, request_host, host_matches, is_label}

-- `cut_suffix` gives the text before the suffix.
cut_suffix_sound : (s t : String) {p : String} → cut_suffix s t ≡ some p → p <> t ≡ s
unfolding cut_suffix
cut_suffix_sound String.[] t {p} h =
    let (e, q) : (t ≡ "") × (p ≡ "") = (ground (arith, eq_iff "" t), ground (arith, eq_iff "" t)) in
    rw (e, q) (nil-append "")
cut_suffix_sound (String.◌∷◌ c s) t {p} h = elim (Bool-cases (String.◌∷◌ c s === t)) [
  | inl e ↦ let q : p ≡ "" = cc (rw e at h) in rw q (nil-append t ∙ sym ((eq_iff _ t).0 e))
  | inr n ↦
      let (rest, found, same) = (Option.map-eq-some_iff _ _).0 (rw n at h) in
      rw (← same) (cons-append c rest t ∙ ap (λ x. String.◌∷◌ c x) (cut_suffix_sound s t found))
]

append_longer : (c : Char) (p t : String) → String.◌∷◌ c (p <> t) ≢ t
append_longer c p t e = omega (arith, ap count e, length-cons c (p <> t), length-append p t)

cut_suffix_self : (t : String) → cut_suffix t t ≡ some ""
unfolding cut_suffix
cut_suffix_self String.[] = refl
cut_suffix_self (String.◌∷◌ c t) = rw (eq_refl (String.◌∷◌ c t))

cut_suffix_complete : (p t : String) → cut_suffix (p <> t) t ≡ some p
unfolding cut_suffix
cut_suffix_complete String.[] t = rw (nil-append t) (cut_suffix_self t)
cut_suffix_complete (String.◌∷◌ c p) t =
    rw (cons-append c p t) (
      ground
        (arith, eq_iff (String.◌∷◌ c (p <> t)) t, append_longer c p t, cut_suffix_complete p t))

count-map_chars : (f : Char → Char) (s : String) → count (map_chars f s) ≡ count s
unfolding map_chars
count-map_chars f String.[] = refl
count-map_chars f (String.◌∷◌ c s) =
    omega (arith, length-cons (f c) (map_chars f s), length-cons c s, count-map_chars f s)

count-before_last : (k : ℕ) (s p : String) → before_last k s ≡ some p → count p < count s
unfolding before_last
count-before_last k String.[] p h = cc
count-before_last k (String.◌∷◌ c s) p h = elim (Option-cases (before_last k s)) [
  | inl e ↦ let z : p ≡ "" = ground arith in rw z (omega (arith, length-cons c s))
  | inr (q, e) ↦
      let z : p ≡ String.◌∷◌ c q = ground arith in
      rw z (omega (arith, length-cons c s, length-cons c q, count-before_last k s q e))
]

before_last_of_contains :
    (k : ℕ) (s : String) → contains_char k s ≡ true → (p : String) × (before_last k s ≡ some p)
unfolding before_last contains_char
before_last_of_contains k String.[] h = cc
before_last_of_contains k (String.◌∷◌ c s) h = elim (Option-cases (before_last k s)) [
  | inl e ↦ elim (Bool-cases (code c == k)) [
    | inl same ↦ ("", ground arith)
    | inr other ↦ let (p, found) = before_last_of_contains k s (ground arith) in (p, cc)
  ]
  | inr (q, e) ↦ (String.◌∷◌ c q, rw e)
]

cons-ne-empty : (c : Char) (s : String) → (String.◌∷◌ c s === "") ≡ false
cons-ne-empty c s = ground (arith, eq_iff (String.◌∷◌ c s) "", cons-ne-nil c s)

star_cons : (s : String) → "*." <> s ≡ String.◌∷◌ "*" (String.◌∷◌ "." s)
star_cons s =
    cons-append "*" "." s
    ∙ ap (λ x. String.◌∷◌ "*" x) (cons-append "." "" s)
    ∙ ap (λ x. String.◌∷◌ "*" (String.◌∷◌ "." x)) (nil-append s)

dot_cons : (s : String) → String.◌∷◌ "." s ≡ "." <> s
dot_cons s = sym (cons-append "." "" s ∙ ap (λ x. String.◌∷◌ "." x) (nil-append s))

-- `*.suffix` in a configuration is the wildcard matcher of ".suffix" in lower case.
new_host_matcher_wildcard :
    (lower : Char → Char) (s : String)
    → lower "*" ≡ "*"
    → lower "." ≡ "."
    → new_host_matcher lower ("*." <> s) ≡ some (wildcard_suffix ("." <> map_chars lower s))
unfolding new_host_matcher map_chars has_prefix trim_prefix
new_host_matcher_wildcard lower s star dot =
    rw (star_cons s, cons-ne-empty "*" (String.◌∷◌ "." s), star, dot)
      (rw (dot_cons (map_chars lower s)))

label_of_cut :
    (host suffix : String) (cut : Option String)
    → cut_suffix host suffix ≡ cut
    → is_label cut ≡ true
    → (label : String) × (host ≡ label <> suffix)
      × (label ≢ "")
      × (contains_char b'.' label ≡ false)
label_of_cut host suffix none e h = cc
label_of_cut host suffix (some label) e h =
    (label, sym (cut_suffix_sound host suffix e), ground (arith, eq_iff label ""), ground arith)

-- A route with host `*.suffix` takes exactly the hosts of one more label: case and port aside, a
-- label that is not empty and has no dot, then ".suffix".
pub wildcard_host_iff :
    (lower : Char → Char) (s host : String)
    → lower "*" ≡ "*"
    → lower "." ≡ "."
    → (host_matches lower (new_host_matcher lower ("*." <> s)) host ≡ true) ↔ (
        (label : String) × (request_host lower host ≡ label <> ("." <> map_chars lower s))
        × (label ≢ "")
        × (contains_char b'.' label ≡ false))
unfolding host_matches
wildcard_host_iff lower s host star dot = rw (new_host_matcher_wildcard lower s star dot) (
  λ h. label_of_cut (request_host lower host) ("." <> map_chars lower s) _ refl h,
  λ r.
      rw (r.1, cut_suffix_complete r.0 ("." <> map_chars lower s))
        (ground (arith, r.2, r.3, eq_iff r.0 "")),
)

present_of_contains : (k : ℕ) (s : String) → contains_char k s ≡ true → (s === "") ≡ false
unfolding contains_char
present_of_contains k String.[] h = cc
present_of_contains k (String.◌∷◌ c s) h = cons-ne-empty c s

-- A route with an exact host that has a colon does not take a request for that very host: the router
-- cuts the request's host at its last colon, and compares with the host as it is configured.
pub host_with_colon_unmatched :
    (lower : Char → Char) (host : String)
    → contains_char b':' host ≡ true
    → has_prefix (map_chars lower host) "*." ≡ false
    → host_matches lower (new_host_matcher lower host) host ≡ false
unfolding host_matches new_host_matcher request_host
host_with_colon_unmatched lower host c x =
    let (p, cut) = before_last_of_contains b':' host c in
    let shorter = count-before_last b':' host p cut in
    let differs : map_chars lower p ≢ map_chars lower host =
      λ e. omega (arith, ap count e, count-map_chars lower p, count-map_chars lower host) in
    let present = present_of_contains b':' host c in
    rw (present, x, request_host, cut)
      (ground (arith, eq_iff (map_chars lower p) (map_chars lower host)))
