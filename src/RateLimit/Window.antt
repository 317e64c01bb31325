-- ===== src/RateLimit/Window.antt =====
-- The sliding window admits at most the limit in every window: `slidingWindowScript` of
-- internal/middleware/ratelimit/redis.go over any sequence of calls.
use tanugate.Common.{
  ℕ, ◌<◌, ◌≤◌, ◌≡◌, refl, ap, sym, subst, ◌∙◌, String, true, false, none, List, [], ◌∷◌, ◌++◌,
  length, length-append, lookup, insert, ltb, ◌===◌, if◌then◌else◌, Bool-cases, inl, inr, arith,
}
use tanugate.RateLimit.Redis.{SortedSet, is_recent, trim, sliding_window}

-- A call for the key: its time and its member.
pub record Arrival : Type 0 where
  pub time : ℕ
  pub member : String

-- The set that the key has after some calls, and all that was admitted, the last one last.
pub record History : Type 0 where
  pub held : SortedSet
  pub admitted : SortedSet

abbrev pub nothing : History
nothing = record { held = []; admitted = [] }

module _ (window limit : ℕ) where
  abbrev pub admit : Arrival → History → History
  admit c h =
      let (verdict, set) = sliding_window window limit c.time c.member h.held in
      record {
        held = set;
        admitted = if verdict.allowed then h.admitted ++ (c.member, c.time) ∷ [] else h.admitted;
      }

  unfoldable pub admit_all : List Arrival → History → History
  unfolding sliding_window
  admit_all [] h = h
  admit_all (c ∷ cs) h = admit_all cs (admit c h)

-- Later calls come at later times, or at the same time, and with members of their own.
abbrev pub IsOrderly : ℕ → SortedSet → List Arrival → Type 0
IsOrderly now seen [] = Unit
IsOrderly now seen (c ∷ cs) =
    (now ≤ c.time)
    × (lookup c.member seen ≡ none)
    × IsOrderly c.time (seen ++ (c.member, c.time) ∷ []) cs

trim-append :
    (window now : ℕ) (a b : SortedSet)
    → trim window now (a ++ b) ≡ (trim window now a ++ trim window now b)
unfolding trim
trim-append window now [] b = refl
trim-append window now ((m, s) ∷ a) b =
    let ih = trim-append window now a b in
    elim (Bool-cases (is_recent window now s)) [
      | inl e ↦ rw e (ap (λ x. (m, s) ∷ x) ih)
      | inr e ↦ rw e ih
    ]

-- What a later window leaves out need not be kept.
trim_later :
    (window now later : ℕ) (set : SortedSet)
    → now ≤ later
    → trim window later (trim window now set) ≡ trim window later set
unfolding trim
trim_later window now later [] h = refl
trim_later window now later ((m, s) ∷ set) h =
    let ih = trim_later window now later set h in
    elim (Bool-cases (is_recent window now s)) [
      | inl e ↦ rw e (ap (λ x. if is_recent window later s then (m, s) ∷ x else x) ih)
      | inr e ↦ let old : is_recent window later s ≡ false = ground (arith, e, h) in rw (e, old) ih
    ]

trim_shorter : (window now : ℕ) (set : SortedSet) → length (trim window now set) ≤ length set
unfolding trim
trim_shorter window now [] = omega arith
trim_shorter window now ((m, s) ∷ set) =
    let ih = trim_shorter window now set in
    elim (Bool-cases (is_recent window now s)) [
      | inl e ↦ rw e (omega (arith, ih))
      | inr e ↦ rw e (omega (arith, ih))
    ]

insert_fresh :
    (m : String) (s : ℕ) (set : SortedSet)
    → lookup m set ≡ none
    → insert m s set ≡ (set ++ (m, s) ∷ [])
unfolding insert lookup
insert_fresh m s [] h = refl
insert_fresh m s ((k, v) ∷ set) h = elim (Bool-cases (k === m)) [
  | inl e ↦ absurd (ground (arith, e, h))
  | inr e ↦ rw e (ap (λ x. (k, v) ∷ x) (insert_fresh m s set (ground (arith, e, h))))
]

lookup-trim :
    (window now : ℕ) (m : String) (set : SortedSet)
    → lookup m set ≡ none
    → lookup m (trim window now set) ≡ none
unfolding trim lookup
lookup-trim window now m [] h = refl
lookup-trim window now m ((k, v) ∷ set) h =
    let ih = lookup-trim window now m set (ground (arith, h)) in
    elim (Bool-cases (is_recent window now v)) [
      | inl e ↦ rw e (ground (arith, ih, h))
      | inr e ↦ rw e ih
    ]

lookup-append :
    (m k : String) (v : ℕ) (set : SortedSet)
    → lookup m (set ++ (k, v) ∷ []) ≡ none
    → (lookup m set ≡ none) × ((k === m) ≡ false)
unfolding lookup
lookup-append m k v [] h = (refl, ground (arith, h))
lookup-append m k v ((x, y) ∷ set) h =
    let both = lookup-append m k v set (ground (arith, h)) in (ground (arith, h, both.0), both.1)

lookup-append_fresh :
    (m k : String) (v : ℕ) (set : SortedSet)
    → lookup m set ≡ none
    → (k === m) ≡ false
    → lookup m (set ++ (k, v) ∷ []) ≡ none
unfolding lookup
lookup-append_fresh m k v [] h e = rw e refl
lookup-append_fresh m k v ((x, y) ∷ set) h e =
    let ih = lookup-append_fresh m k v set (ground (arith, h)) e in ground (arith, h, ih)

module _ (window limit : ℕ) (positive : 0 < window) where
  -- What the key holds is what was admitted within the window, and not more than the limit.
  pub record IsTrimmed (now : ℕ) (h : History) : Type 0 where
    pub held : h.held ≡ trim window now h.admitted
    pub bounded : length h.held ≤ limit

  recent_now : (m : String) (t : ℕ) → trim window t ((m, t) ∷ []) ≡ (m, t) ∷ []
  unfolding trim
  recent_now m t = let e : is_recent window t t ≡ true = ground (arith, positive) in rw e refl

  admit-IsTrimmed :
      (now : ℕ) (h : History) (c : Arrival)
      → IsTrimmed now h
      → now ≤ c.time
      → lookup c.member h.admitted ≡ none
      → IsTrimmed c.time (admit window limit c h)
  unfolding sliding_window
  admit-IsTrimmed now h c i later fresh =
      let kept : trim window c.time h.held ≡ trim window c.time h.admitted =
        ap (λ x. trim window c.time x) i.held ∙ trim_later window now c.time h.admitted later in
      let unknown : lookup c.member (trim window c.time h.held) ≡ none =
        subst (λ x. lookup c.member x ≡ none) (sym kept)
          (lookup-trim window c.time c.member h.admitted fresh) in
      elim (Bool-cases (ltb (length (trim window c.time h.held)) limit)) [
        | inl e ↦
            let grown = insert_fresh c.member c.time (trim window c.time h.held) unknown in
            rw e (record {
              held =
                  grown
                  ∙ ap (λ x. x ++ (c.member, c.time) ∷ []) kept
                  ∙ sym (
                      trim-append window c.time h.admitted ((c.member, c.time) ∷ [])
                      ∙ ap (λ x. trim window c.time h.admitted ++ x) (recent_now c.member c.time));
              bounded =
                  let size =
                    ap length grown
                    ∙ length-append (trim window c.time h.held) ((c.member, c.time) ∷ []) in
                  ground (arith, size, e);
            })
        | inr e ↦ rw e (record {
          held = kept;
          bounded = omega (arith, trim_shorter window c.time h.held, i.bounded);
        })
      ]

  -- The members that are admitted are among those seen.
  abbrev Covers : SortedSet → History → Type 0
  Covers seen h = (m : String) → lookup m seen ≡ none → lookup m h.admitted ≡ none

  admit-Covers :
      (seen : SortedSet) (h : History) (c : Arrival)
      → Covers seen h
      → Covers (seen ++ (c.member, c.time) ∷ []) (admit window limit c h)
  unfolding sliding_window
  admit-Covers seen h c covers m absent =
      let (before, other) = lookup-append m c.member c.time seen absent in
      elim (Bool-cases (ltb (length (trim window c.time h.held)) limit)) [
        | inl e ↦ rw e (lookup-append_fresh m c.member c.time h.admitted (covers m before) other)
        | inr e ↦ rw e (covers m before)
      ]

  abbrev pub last_time : ℕ → List Arrival → ℕ
  last_time now [] = now
  last_time now (c ∷ cs) = last_time c.time cs

  admit_all-IsTrimmed :
      (cs : List Arrival) (now : ℕ) (seen : SortedSet) (h : History)
      → IsTrimmed now h
      → Covers seen h
      → IsOrderly now seen cs
      → IsTrimmed (last_time now cs) (admit_all window limit cs h)
  unfolding admit_all
  admit_all-IsTrimmed [] now seen h i covers o = i
  admit_all-IsTrimmed (c ∷ cs) now seen h i covers (later, fresh, o) =
      admit_all-IsTrimmed cs c.time (seen ++ (c.member, c.time) ∷ []) (admit window limit c h)
        (admit-IsTrimmed now h c i later (covers c.member fresh)) (admit-Covers seen h c covers) o

  -- If the window is not empty and the calls for a key come in the order of their times, each with a
  -- member of its own: of those admitted, at most as many as the limit are within the window that
  -- ends at the last call, or at any later time.
  pub sliding_window_bounded :
      (cs : List Arrival) (t : ℕ)
      → IsOrderly 0 [] cs
      → last_time 0 cs ≤ t
      → length (trim window t (admit_all window limit cs nothing).admitted) ≤ limit
  unfolding trim lookup
  sliding_window_bounded cs t o later =
      let i =
        admit_all-IsTrimmed cs 0 [] nothing (record { held = refl; bounded = omega arith })
          (λ m h. refl) o in
      let h = admit_all window limit cs nothing in
      let same = trim_later window (last_time 0 cs) t h.admitted later in
      let shorter = trim_shorter window t (trim window (last_time 0 cs) h.admitted) in
      let held = i.bounded in
      let sizes = ap length i.held in
      let sizes' = ap length same in omega (arith, shorter, held, sizes, sizes')
