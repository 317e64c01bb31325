-- ===== src/Config/Yaml/Merge.antt =====
-- The merge of two mappings, by the value that each key has in the result.
use tanugate.Common.{
  ℕ, zero, suc, ◌+◌, ◌≡◌, ◌≢◌, refl, ◌∙◌, ap, subst, inl, inr, String, Option, none, some, List, [],
  lookup, insert, lookup-insert, ok, ◌===◌, if◌then◌else◌, arith, eq_iff, Option-cases, Bool-cases,
}
use tanugate.Config.Yaml.{
  Node, Entries, no_entries, entry, mapping, node_value, append, set_value, index_from,
  apply_override, apply_overrides, merge_yaml_nodes,
}

-- The value of a key; of several entries for one key the last counts.
unfoldable pub find : String → Entries → Option Node
find k no_entries = none
find k (entry j v es) = elim (find k es) [
  | some w ↦ some w
  | none ↦ if node_value j === k then some v else none
]

-- The position of the last entry for a key.
last_index : String → Entries → Option ℕ
last_index k no_entries = none
last_index k (entry j v es) = elim (last_index k es) [
  | some i ↦ some (suc i)
  | none ↦ if node_value j === k then some 0 else none
]

find_of_no_index : (k : String) (es : Entries) → last_index k es ≡ none → find k es ≡ none
unfolding find last_index
find_of_no_index k no_entries h = refl
find_of_no_index k (entry j v es) h = ground (arith, find_of_no_index k es)

find-set_value_self :
    (k : String) (es : Entries) (i : ℕ) (v : Node)
    → last_index k es ≡ some i
    → find k (set_value es i v) ≡ some v
unfolding find last_index set_value
find-set_value_self k no_entries i v h = cc
find-set_value_self k (entry j w es) zero v h = ground (arith, find_of_no_index k es)
find-set_value_self k (entry j w es) (suc i) v h = ground (arith, find-set_value_self k es i v)

find-set_value_ne :
    (k other : String) (es : Entries) (i : ℕ) (v : Node)
    → last_index k es ≡ some i
    → k ≢ other
    → find other (set_value es i v) ≡ find other es
unfolding find last_index set_value
find-set_value_ne k other no_entries i v h n = refl
find-set_value_ne k other (entry j w es) zero v h n =
    ground (arith, eq_iff (node_value j) k, eq_iff (node_value j) other)
find-set_value_ne k other (entry j w es) (suc i) v h n =
    ground (arith, find-set_value_ne k other es i v)

last_index-set_value :
    (k : String) (es : Entries) (i : ℕ) (v : Node)
    → last_index k (set_value es i v) ≡ last_index k es
unfolding last_index set_value
last_index-set_value k no_entries i v = refl
last_index-set_value k (entry j w es) zero v = refl
last_index-set_value k (entry j w es) (suc i) v = rw (last_index-set_value k es i v, last_index)

find-append :
    (k : String) (es : Entries) (j v : Node)
    → find k (append es (entry j v no_entries)) ≡ (if node_value j === k then some v else find k es)
unfolding find append
find-append k no_entries j v = refl
find-append k (entry i w es) j v = ground (arith, find-append k es j v)

last_index-append :
    (k : String) (es : Entries) (j v : Node)
    → node_value j ≢ k
    → last_index k (append es (entry j v no_entries)) ≡ last_index k es
unfolding last_index append
last_index-append k no_entries j v n = ground (arith, eq_iff (node_value j) k)
last_index-append k (entry i w es) j v n = ground (arith, last_index-append k es j v)

abbrev shifted : ℕ → Option ℕ → Option ℕ → Option ℕ
shifted i (some j) d = some (i + j)
shifted i none d = d

lookup-index_from :
    (k : String) (i : ℕ) (es : Entries) (index : List (String × ℕ))
    → lookup k (index_from i es index) ≡ shifted i (last_index k es) (lookup k index)
unfolding index_from last_index
lookup-index_from k i no_entries index = refl
lookup-index_from k i (entry j v es) index = ground (
  arith,
  lookup-index_from k (i + 1) es (insert (node_value j) i index),
  lookup-insert (node_value j) k i index,
)

-- The index gives the last entry of each key that it holds.
abbrev IsIndex : List (String × ℕ) → Entries → Type 0
IsIndex index es = (k : String) (i : ℕ) → lookup k index ≡ some i → last_index k es ≡ some i

index_from-IsIndex : (es : Entries) → IsIndex (index_from 0 es []) es
unfolding lookup
index_from-IsIndex es k i h = ground (arith, lookup-index_from k 0 es [])

find-known :
    (k j : String) (es : Entries) (i : ℕ) (v : Node)
    → last_index k es ≡ some i
    → find j (set_value es i v) ≡ (if k === j then some v else find j es)
find-known k j es i v h = elim (Bool-cases (k === j)) [
  | inl same ↦ rw same (
      subst (λ x. find x (set_value es i v) ≡ some v) ((eq_iff k j).0 same)
        (find-set_value_self k es i v h))
  | inr differs ↦ rw differs (find-set_value_ne k j es i v h (ground (arith, eq_iff k j)))
]

key_ne :
    (index : List (String × ℕ)) (k j : String) (i : ℕ)
    → lookup k index ≡ none
    → lookup j index ≡ some i
    → k ≢ j
key_ne index k j i a b e = cc (ap (λ x. lookup x index) e)

IsIndex-apply_override :
    (index : List (String × ℕ)) (es : Entries) (k v : Node)
    → IsIndex index es
    → IsIndex index (apply_override index es k v)
unfolding apply_override
IsIndex-apply_override index es k v h j i e = elim (Option-cases (lookup (node_value k) index)) [
  | inl fresh ↦
      rw (fresh, apply_override)
        (last_index-append j es k v (key_ne index (node_value k) j i fresh e) ∙ h j i e)
  | inr (at, known) ↦ rw (known, apply_override) (last_index-set_value j es at v ∙ h j i e)
]

find-apply_override :
    (index : List (String × ℕ)) (es : Entries) (k v : Node) (j : String)
    → IsIndex index es
    → find j (apply_override index es k v) ≡ (if node_value k === j then some v else find j es)
unfolding apply_override
find-apply_override index es k v j h = elim (Option-cases (lookup (node_value k) index)) [
  | inl fresh ↦ rw (fresh, apply_override) (find-append j es k v)
  | inr (at, known) ↦
      rw (known, apply_override) (find-known (node_value k) j es at v (h (node_value k) at known))
]

abbrev pub over : Option Node → Option Node → Option Node
over (some v) d = some v
over none d = d

find-apply_overrides :
    (index : List (String × ℕ)) (es fs : Entries) (j : String)
    → IsIndex index es
    → find j (apply_overrides index es fs) ≡ over (find j fs) (find j es)
unfolding apply_overrides find
find-apply_overrides index es no_entries j h = refl
find-apply_overrides index es (entry k v fs) j h =
    find-apply_overrides index (apply_override index es k v) fs j
      (IsIndex-apply_override index es k v h)
    ∙ ground (arith, find-apply_override index es k v j h)

-- The merge of two mappings is a mapping with the base's tag, in which a key has the override's
-- value where the override has the key, and the base's value where it has not.
pub find-merge :
    (tag tag' : String) (es fs : Entries)
    → (gs : Entries) × (merge_yaml_nodes (mapping tag es) (mapping tag' fs) ≡ ok (mapping tag gs))
      × ((j : String) → find j gs ≡ over (find j fs) (find j es))
unfolding merge_yaml_nodes
find-merge tag tag' es fs = (
  apply_overrides (index_from 0 es []) es fs,
  refl,
  λ j. find-apply_overrides (index_from 0 es []) es fs j (index_from-IsIndex es),
)
