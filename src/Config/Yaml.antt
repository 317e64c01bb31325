-- ===== src/Config/Yaml.antt =====
-- `yaml.Node` of gopkg.in/yaml.v3, and the merge of two mappings: internal/config/resolve.go.
-- A mapping's `Content` [key0, val0, key1, val1, …] is a list of entries, so position i of an entry
-- is index 2 * i of its key. Of a node's other fields the tag and the value are kept.
pub mod Merge
use tanugate.Common.{
  ℕ, zero, suc, ◌+◌, String, Bool, true, false, Option, none, some, List, [], lookup, insert,
  Result, ok, err, ◌===◌, if◌then◌else◌,
}

mutual
  -- `absent` is the zero `Node` (kind 0); `other` is a node of any kind but a mapping.
  pub data Node : Type 0 where
    absent : Node
    mapping : String → Entries → Node
    other : ℕ → String → String → Nodes → Node

  pub data Nodes : Type 0 where
    no_nodes : Nodes
    child : Node → Nodes → Nodes

  pub data Entries : Type 0 where
    no_entries : Entries
    entry : Node → Node → Entries → Entries

-- `Value`, the text of a scalar.
abbrev pub node_value : Node → String
node_value absent = ""
node_value (mapping tag es) = ""
node_value (other kind tag v children) = v

abbrev pub is_present : Node → Bool
is_present absent = false
is_present (mapping tag es) = true
is_present (other kind tag v children) = true

pub data MergeError : Type 0 where
  base_not_mapping override_not_mapping : MergeError

unfoldable pub append : Entries → Entries → Entries
append no_entries fs = fs
append (entry k v es) fs = entry k v (append es fs)

-- `result.Content[2 * i + 1] = v`.
unfoldable pub set_value : Entries → ℕ → Node → Entries
set_value no_entries i v = no_entries
set_value (entry k w es) zero v = entry k v es
set_value (entry k w es) (suc i) v = entry k w (set_value es i v)

-- The loop that fills `baseIndex`, from position `i` on.
unfoldable pub index_from : ℕ → Entries → List (String × ℕ) → List (String × ℕ)
index_from i no_entries index = index
index_from i (entry k v es) index = index_from (i + 1) es (insert (node_value k) i index)

-- One round of the loop over the override's keys.
unfoldable pub apply_override : List (String × ℕ) → Entries → Node → Node → Entries
unfolding append set_value
apply_override index result k v = elim (lookup (node_value k) index) [
  | some i ↦ set_value result i v
  | none ↦ append result (entry k v no_entries)
]

unfoldable pub apply_overrides : List (String × ℕ) → Entries → Entries → Entries
apply_overrides index result no_entries = result
apply_overrides index result (entry k v es) =
    apply_overrides index (apply_override index result k v) es

unfoldable pub merge_yaml_nodes : Node → Node → Result MergeError Node
merge_yaml_nodes absent override = ok override
merge_yaml_nodes (other kind tag v children) override = err base_not_mapping
merge_yaml_nodes (mapping tag es) (mapping tag' fs) =
    ok (mapping tag (apply_overrides (index_from 0 es []) es fs))
merge_yaml_nodes (mapping tag es) absent = err override_not_mapping
merge_yaml_nodes (mapping tag es) (other kind tag' v children) = err override_not_mapping
