-- ===== src/RateLimit/Burst.antt =====
-- What the backend in memory admits: at one moment at most the limit, and a full bucket for a key
-- whose bucket was evicted.
use tanugate.Common.{
  ℕ, suc, ◌+◌, ◌<◌, ◌≡◌, refl, ap, sym, subst, ◌∙◌, String, Bool, true, false, Option, none, some,
  [], ◌∷◌, lookup, insert, lookup-insert, ltb, if◌then◌else◌, ℤ, pos, Bool-cases, inl, inr, arith,
  eq_refl, IsMap, ◌===◌, eq_iff,
}
use tanugate.RateLimit.{Allowance}
use tanugate.RateLimit.Floats.{Floats, IsExact}
use tanugate.RateLimit.Memory.{
  Bucket, Buckets, elapsed_since, new_bucket, load_or_store, configured, take_token, use_bucket,
  allow, is_idle, evict_stale,
}

elapsed_since_refl : (now : ℕ) → elapsed_since now now ≡ pos 0
elapsed_since_refl now = ground arith

module _ (floats : Floats) (bound : ℕ) (exact : IsExact floats bound) (key : String) (n : ℕ)
    (small : n < bound) (window : ℤ) (now : ℕ) where
  open floats use {of_int, less, at_least, seconds, sub}

  -- A bucket that was refilled at this moment and holds `m` tokens.
  abbrev Holds : ℕ → Bucket floats → Type 0
  Holds m b = (b.tokens ≡ of_int (pos m)) × (b.last_refill ≡ now)

  abbrev ready : Bucket floats → Bucket floats
  ready b = record (configured floats (pos n) window b) { last_access = now }

  not_refilled :
      (m : ℕ) (b : Bucket floats)
      → Holds m b
      → use_bucket floats (pos n) window now b ≡ take_token floats window now (ready b)
  not_refilled m b (tokens, last) =
      let e : less (of_int (pos 0)) (seconds (elapsed_since now b.last_refill)) ≡ false =
        ap (λ t. less (of_int (pos 0)) (seconds (elapsed_since now t))) last
        ∙ ap (λ t. less (of_int (pos 0)) (seconds t)) (elapsed_since_refl now)
        ∙ exact.no_time in
      rw e refl

  -- What a bucket gives when it is used.
  abbrev Gives : Bool → ℕ → Allowance × Bucket floats → Type 0
  Gives answer m (a, b) = (a.allowed ≡ answer) × Holds m b

  one_left :
      (m : ℕ) (b : Bucket floats)
      → m < bound
      → Holds m b
      → at_least b.tokens (of_int (pos 1)) ≡ ltb 0 m
  one_left m b s (tokens, last) =
      ap (λ t. at_least t (of_int (pos 1))) tokens ∙ exact.at_least_one m s

  use_empty :
      (b : Bucket floats) → Holds 0 b → Gives false 0 (use_bucket floats (pos n) window now b)
  use_empty b h = subst (Gives false 0) (sym (not_refilled 0 b h)) (
      let e : at_least b.tokens (of_int (pos 1)) ≡ false = one_left 0 b (omega (arith, small)) h in
      rw e (refl, h))

  use_full :
      (m : ℕ) (b : Bucket floats)
      → suc m < bound
      → Holds (suc m) b
      → Gives true m (use_bucket floats (pos n) window now b)
  use_full m b s h = subst (Gives true m) (sym (not_refilled (suc m) b h)) (
      let e : at_least b.tokens (of_int (pos 1)) ≡ true = one_left (suc m) b s h ∙ ground arith in
      rw e (refl, (ap (λ t. sub t (of_int (pos 1))) h.0 ∙ exact.sub_one m s, h.1)))

  -- The calls of a number of requests at this moment that are allowed.
  unfoldable pub burst : ℕ → Buckets floats → ℕ
  unfolding allow
  burst ℕ.zero buckets = 0
  burst (suc k) buckets =
      let (answer, buckets') = allow floats key (pos n) window now buckets in
      (if answer.allowed then 1 else 0) + burst k buckets'

  -- The bucket that a call finds or makes.
  abbrev found : Buckets floats → Bucket floats
  found buckets = load_or_store floats (new_bucket floats (pos n) window now) (lookup key buckets)

  found-insert : (b : Bucket floats) (buckets : Buckets floats) → found (insert key b buckets) ≡ b
  found-insert b buckets =
      let held : lookup key (insert key b buckets) ≡ some b =
        lookup-insert key key b buckets ∙ rw (eq_refl key) refl in
      ap (λ o. load_or_store floats (new_bucket floats (pos n) window now) o) held

  abbrev used : Buckets floats → Allowance × Bucket floats
  used buckets = use_bucket floats (pos n) window now (found buckets)

  burst-zero : (buckets : Buckets floats) → burst 0 buckets ≡ 0
  unfolding burst
  burst-zero buckets = refl

  burst-suc :
      (k : ℕ) (buckets : Buckets floats)
      → burst (suc k) buckets
        ≡ (if (used buckets).0.allowed then 1 else 0)
          + burst k (insert key (used buckets).1 buckets)
  unfolding burst allow
  burst-suc k buckets = refl

  -- Behind a use that leaves `m` tokens, the next call finds these.
  next-Holds :
      (m : ℕ) (buckets : Buckets floats)
      → Holds m (used buckets).1
      → Holds m (found (insert key (used buckets).1 buckets))
  next-Holds m buckets h = subst (Holds m) (sym (found-insert (used buckets).1 buckets)) h

  -- At this moment a bucket with `m` tokens is good for `m` requests.
  burst_held :
      (k m : ℕ) (buckets : Buckets floats)
      → m < bound
      → Holds m (found buckets)
      → burst k buckets ≡ (if ltb k m then k else m)
  burst_held ℕ.zero m buckets s h = burst-zero buckets ∙ ground arith
  burst_held (suc k) ℕ.zero buckets s h =
      let (refused, h') = use_empty (found buckets) h in
      burst-suc k buckets
      ∙ rw refused (
          ap (λ x. 0 + x)
            (burst_held k 0 (insert key (used buckets).1 buckets) s (next-Holds 0 buckets h'))
          ∙ ground arith)
  burst_held (suc k) (suc m) buckets s h =
      let (taken, h') = use_full m (found buckets) s h in
      burst-suc k buckets
      ∙ rw taken (
          ap (λ x. 1 + x)
            (burst_held k m (insert key (used buckets).1 buckets) (omega (arith, s))
              (next-Holds m buckets h'))
          ∙ ground arith)

  -- If numbers up to the limit are exact: of any number of requests for a new key at one moment,
  -- exactly as many are allowed as the limit says, or all if they are fewer.
  pub burst_exact :
      (k : ℕ) (buckets : Buckets floats)
      → lookup key buckets ≡ none
      → burst k buckets ≡ (if ltb k n then k else n)
  burst_exact k buckets absent = burst_held k n buckets small (
      subst (Holds n)
        (sym (ap (λ o. load_or_store floats (new_bucket floats (pos n) window now) o) absent))
        (refl, refl))

module _ (floats : Floats) where
  evict_stale-lookup :
      (now : ℕ) (key : String) (buckets : Buckets floats)
      → lookup key buckets ≡ none
      → lookup key (evict_stale floats now buckets) ≡ none
  unfolding evict_stale lookup
  evict_stale-lookup now key [] h = refl
  evict_stale-lookup now key ((k, b) ∷ buckets) h =
      let ih = evict_stale-lookup now key buckets (ground (arith, h)) in
      elim (Bool-cases (is_idle floats now b)) [
        | inl e ↦ rw e ih
        | inr e ↦ rw e (ground (arith, ih, h))
      ]

  evicted :
      (now : ℕ) (key : String) (buckets : Buckets floats) (b : Bucket floats)
      → IsMap buckets
      → lookup key buckets ≡ some b
      → is_idle floats now b ≡ true
      → lookup key (evict_stale floats now buckets) ≡ none
  unfolding evict_stale lookup
  evicted now key [] b m h i = absurd (ground (arith, h))
  evicted now key ((k, c) ∷ buckets) b (fresh, m) h i = elim (Bool-cases (k === key)) [
    | inl e ↦
        let held : some c ≡ some b = ground (arith, e, h) in
        let idle : is_idle floats now c ≡ true = ap idle_in held ∙ i in
        rw idle (
          evict_stale-lookup now key buckets
            (subst (λ x. lookup x buckets ≡ none) ((eq_iff k key).0 e) fresh))
    | inr e ↦
        let ih = evicted now key buckets b m (ground (arith, e, h)) i in
        elim (Bool-cases (is_idle floats now c)) [ inl f ↦ rw f ih | inr f ↦ rw f (rw e ih) ]
  ]
    where
      idle_in : Option (Bucket floats) → Bool
      idle_in none = false
      idle_in (some x) = is_idle floats now x

  -- If a key was not used for more than five minutes, then behind an eviction its next request finds
  -- a full bucket, whatever was left in it and however long the window is.
  pub evict_stale-allow :
      (now later : ℕ) (key : String) (limit window : ℤ) (buckets : Buckets floats)
      (b : Bucket floats)
      → IsMap buckets
      → lookup key buckets ≡ some b
      → is_idle floats now b ≡ true
      → (allow floats key limit window later (evict_stale floats now buckets)).0
        ≡ (use_bucket floats limit window later (new_bucket floats limit window later)).0
  unfolding allow
  evict_stale-allow now later key limit window buckets b m h i =
      ap
        (λ o.
          (use_bucket floats limit window later
            (load_or_store floats (new_bucket floats limit window later) o)).0)
        (evicted now key buckets b m h i)
