-- ===== src/Common/Equality.antt =====
-- Equality tests as the source writes them: of pointers, of slices, of maps.
use Prim.Native.Nat.{suc, ◌≤◌}
use Prim.Native.String.{String}
use mathlib.Core.Path.{◌≡◌, refl, sym, ap, subst, ◌∙◌}
use mathlib.Core.Logic.{◌↔◌, inl, inr}
use mathlib.Core.Bool.{Bool, true, false, ◌&&◌, not}
use mathlib.Core.Option.{Option, none, some}
use mathlib.Core.List.{List, [], ◌∷◌}
use native.Mathlib.Omega.{arith}
use text.Mathlib.Text.{◌==◌ as str_eq}
use text.Mathlib.TextEquality.{eq_iff}
use tanugate.Common.Tests.{◌==◌, if◌then◌else◌, Bool-cases, Option-cases}
use tanugate.Common.Lists.{length, all, All}
use tanugate.Common.Maps.{lookup, delete, lookup-delete}

-- A test that holds of equal values only, and of those.
abbrev pub Decides : {A : Type 0} → (A → A → Bool) → Type 0
Decides {A} same = (a b : A) → (same a b ≡ true) ↔ (a ≡ b)

abbrev pub bool_equal : Bool → Bool → Bool
bool_equal true b = b
bool_equal false b = not b

-- A conjunction of many tests.
abbrev pub all_true : List Bool → Bool
all_true [] = true
all_true (b ∷ bs) = b && all_true bs

-- Both pointers nil, or none and what they point to the same.
abbrev pub pointer_equal : {A : Type 0} → (A → A → Bool) → Option A → Option A → Bool
pointer_equal same none none = true
pointer_equal same none (some b) = false
pointer_equal same (some a) none = false
pointer_equal same (some a) (some b) = same a b

-- The loop over the indices of two slices, which have the same length.
unfoldable pub items_equal : {A : Type 0} → (A → A → Bool) → List A → List A → Bool
items_equal same (a ∷ as_) (b ∷ bs) = same a b && items_equal same as_ bs
items_equal same [] bs = true
items_equal same (a ∷ as_) [] = true

unfoldable pub slice_equal : {A : Type 0} → (A → A → Bool) → List A → List A → Bool
unfolding items_equal
slice_equal same a b = if length a == length b then items_equal same a b else false

abbrev pub held_in : {V : Type 0} → (V → V → Bool) → List (String × V) → String × V → Bool
held_in same b (name, v) = elim (lookup name b) [ none ↦ false | some w ↦ same v w ]

-- Two maps with as many entries, where each entry of the first is in the second.
unfoldable pub map_equal :
    {V : Type 0} → (V → V → Bool) → List (String × V) → List (String × V) → Bool
map_equal same a b = if length a == length b then all (held_in same b) a else false

-- A map: no key stands twice.
abbrev pub IsMap : {V : Type 0} → List (String × V) → Type 0
IsMap [] = Unit
IsMap ((key, v) ∷ m) = (lookup key m ≡ none) × IsMap m

pub bool_equal-Decides : Decides bool_equal
bool_equal-Decides true true = ground arith
bool_equal-Decides true false = ground arith
bool_equal-Decides false true = ground arith
bool_equal-Decides false false = ground arith

pub all_true-All : (bs : List Bool) → all_true bs ≡ true → All (λ b. b ≡ true) bs
all_true-All [] h = tt
all_true-All (b ∷ bs) h = (ground arith, all_true-All bs (ground arith))

module _ {A : Type 0} (same : A → A → Bool) (d : Decides same) where
  pub pointer_equal-Decides : Decides (pointer_equal same)
  pointer_equal-Decides none none = (λ h. refl, λ h. refl)
  pointer_equal-Decides none (some b) = (λ h. cc, λ h. cc)
  pointer_equal-Decides (some a) none = (λ h. cc, λ h. cc)
  pointer_equal-Decides (some a) (some b) = (λ h. ap some ((d a b).0 h), λ h. (d a b).1 cc)

  slice_equal-eq : (a b : List A) → slice_equal same a b ≡ true → a ≡ b
  unfolding slice_equal
  slice_equal-eq [] [] h = refl
  slice_equal-eq [] (b ∷ bs) h = ground arith
  slice_equal-eq (a ∷ as_) [] h = ground arith
  slice_equal-eq (a ∷ as_) (b ∷ bs) h =
      let rest = slice_equal-eq as_ bs (ground arith) in let first = (d a b).0 (ground arith) in cc

  slice_equal_refl : (a : List A) → slice_equal same a a ≡ true
  unfolding slice_equal
  slice_equal_refl [] = refl
  slice_equal_refl (a ∷ as_) = ground (arith, (d a a).1 refl, slice_equal_refl as_)

  pub slice_equal-Decides : Decides (slice_equal same)
  slice_equal-Decides a b =
      (slice_equal-eq a b, λ e. subst (λ x. slice_equal same a x ≡ true) e (slice_equal_refl a))

module _ {V : Type 0} where
  lookup-delete-none :
      (key name : String) (m : List (String × V))
      → lookup name m ≡ none
      → lookup name (delete key m) ≡ none
  lookup-delete-none key name m h = ground (arith, lookup-delete key name m)

  delete-IsMap : (key : String) (m : List (String × V)) → IsMap m → IsMap (delete key m)
  unfolding delete
  delete-IsMap key [] h = tt
  delete-IsMap key ((name, v) ∷ m) (n, h) =
      let rest = delete-IsMap key m h in
      let absent = lookup-delete-none key name m n in
      elim (Bool-cases (str_eq name key)) [ inl e ↦ rw e rest | inr e ↦ rw e (absent, rest) ]

  length-delete_absent :
      (key : String) (m : List (String × V))
      → lookup key m ≡ none
      → length (delete key m) ≡ length m
  unfolding lookup delete
  length-delete_absent key [] h = refl
  length-delete_absent key ((name, v) ∷ m) h = ground (arith, length-delete_absent key m)

  length-delete :
      (key : String) (m : List (String × V)) (v : V)
      → IsMap m
      → lookup key m ≡ some v
      → suc (length (delete key m)) ≡ length m
  unfolding lookup delete
  length-delete key [] v h k = cc
  length-delete key ((name, w) ∷ m) v (n, h) k = elim (Bool-cases (str_eq name key)) [
    | inl e ↦
        let same : name ≡ key = (eq_iff name key).0 e in
        let absent = length-delete_absent key m (subst (λ x. lookup x m ≡ none) same n) in
        rw e (ap suc absent)
    | inr e ↦ rw e (ap suc (length-delete key m v h (ground arith)))
  ]

  -- The entries of a list are in a map.
  abbrev SubMap : List (String × V) → List (String × V) → Type 0
  SubMap [] b = Unit
  SubMap ((key, v) ∷ a) b = (lookup key b ≡ some v) × SubMap a b

  SubMap-delete :
      (key : String) (a b : List (String × V))
      → lookup key a ≡ none
      → SubMap a b
      → SubMap a (delete key b)
  unfolding lookup
  SubMap-delete key [] b n h = tt
  SubMap-delete key ((name, v) ∷ a) b n (h, hs) = (
    ground (arith, lookup-delete key name b, eq_iff key name, eq_iff name key, eq_iff name name),
    SubMap-delete key a b (ground arith) hs,
  )

  -- Of as many entries, one inside the other: the same map.
  SubMap-lookup :
      (a b : List (String × V))
      → IsMap a
      → IsMap b
      → length a ≡ length b
      → SubMap a b
      → (name : String) → lookup name a ≡ lookup name b
  unfolding lookup
  SubMap-lookup [] [] ma mb l h name = refl
  SubMap-lookup [] (y ∷ b) ma mb l h name = absurd (omega arith)
  SubMap-lookup ((key, v) ∷ a) b (n, ma) mb l (h, hs) name =
      let shorter = length-delete key b v mb h in
      let rest =
        SubMap-lookup a (delete key b) ma (delete-IsMap key b mb) (omega arith)
          (SubMap-delete key a b n hs) name in
      ground (arith, lookup-delete key name b, eq_iff key name)

  SubMap-length : (a b : List (String × V)) → IsMap a → IsMap b → SubMap a b → length a ≤ length b
  SubMap-length [] b ma mb h = omega arith
  SubMap-length ((key, v) ∷ a) b (n, ma) mb (h, hs) =
      let shorter = length-delete key b v mb h in
      let rest =
        SubMap-length a (delete key b) ma (delete-IsMap key b mb) (SubMap-delete key a b n hs) in
      omega arith

  SubMap-cons :
      (key : String) (v : V) (a b : List (String × V))
      → lookup key a ≡ none
      → SubMap a b
      → SubMap a ((key, v) ∷ b)
  unfolding lookup
  SubMap-cons key v [] b n h = tt
  SubMap-cons key v ((name, w) ∷ a) b n (h, hs) =
      (ground (arith, eq_iff key name, eq_iff name key), SubMap-cons key v a b (ground arith) hs)

  SubMap-refl : (a : List (String × V)) → IsMap a → SubMap a a
  unfolding lookup
  SubMap-refl [] m = tt
  SubMap-refl ((key, v) ∷ a) (n, m) =
      (ground (arith, eq_iff key key), SubMap-cons key v a a n (SubMap-refl a m))

  SubMap-agree :
      (a b c : List (String × V))
      → ((name : String) → lookup name b ≡ lookup name c)
      → SubMap a b
      → SubMap a c
  SubMap-agree [] b c h s = tt
  SubMap-agree ((key, v) ∷ a) b c h (s, ss) = (sym (h key) ∙ s, SubMap-agree a b c h ss)

  module _ (same : V → V → Bool) (d : Decides same) where
    held-SubMap : (a b : List (String × V)) → all (held_in same b) a ≡ true → SubMap a b
    held-SubMap [] b h = tt
    held-SubMap ((key, v) ∷ a) b h = elim (Option-cases (lookup key b)) [
      | inl n ↦ absurd (ground arith)
      | inr (w, k) ↦ let e = (d v w).0 (ground arith) in (cc, held-SubMap a b (ground arith))
    ]

    SubMap-held : (a b : List (String × V)) → SubMap a b → all (held_in same b) a ≡ true
    SubMap-held [] b h = refl
    SubMap-held ((key, v) ∷ a) b (h, hs) =
        let rest = SubMap-held a b hs in let self = (d v v).1 refl in ground arith

    -- The test of maps holds exactly if they have the same value for each key.
    pub map_equal_iff :
        (a b : List (String × V))
        → IsMap a
        → IsMap b
        → (map_equal same a b ≡ true) ↔ ((name : String) → lookup name a ≡ lookup name b)
    unfolding map_equal
    map_equal_iff a b ma mb = (
      λ h. SubMap-lookup a b ma mb (ground arith) (held-SubMap a b (ground arith)),
      λ h.
          let in_b = SubMap-agree a a b h (SubMap-refl a ma) in
          let in_a = SubMap-agree b b a (λ name. sym (h name)) (SubMap-refl b mb) in
          let held = SubMap-held a b in_b in
          let le = SubMap-length a b ma mb in_b in
          let ge = SubMap-length b a mb ma in_a in ground arith,
    )
