-- ===== src/Validate/Sections.antt =====
-- libs/schema_validate.py: the walk over a whole lab definition (definition_findings, addon_findings).
use lab_in_a_box.Prelude.{
  String, Bool, true, false, Option, none, some, List, [], ◌∷◌, ◌++◌, Dict, get, str_eq,
  if◌then◌else◌,
}
use lab_in_a_box.Result.{Result, ok, raise, type_error, attribute_error, ◌>>=◌}
use lab_in_a_box.Text.{◌<>◌}
use lab_in_a_box.Validate.{
  pos, Value, null, flag, number, text, array, object, Values, no_values, value_then, Fields,
  no_fields, field_then, Config, Field, Finding, section_findings,
}

-- What a base section's "fields" holds: a mapping with a name and a type is a field, any other mapping or
-- list is a group, and what is neither declares nothing.
mutual
  pub data Node : Type 0 where
    declared : Field → Node
    group : Nodes → Node
    scalar : Node

  pub data Nodes : Type 0 where
    no_nodes : Nodes
    node_then : Node → Nodes → Nodes

-- walk(node), the fields that it appends
unfoldable mutual
  pub walk : Node → List Field
  walk (declared f) = f ∷ []
  walk (group nodes) = walk_all nodes
  walk scalar = []

  pub walk_all : Nodes → List Field
  walk_all no_nodes = []
  walk_all (node_then n nodes) = walk n ++ walk_all nodes

abbrev pub Sections : Type 0
Sections = Dict Node

-- _section_fields; a section that is missing or has no fields declares none
unfoldable pub section_fields : Option Node → List Field
unfolding walk
section_fields none = []
section_fields (some fields) = walk fields

abbrev pub config_of : Fields → Config
config_of no_fields = []
config_of (field_then k v fs) = (k, v) ∷ config_of fs

abbrev pub list_of : Values → List Value
list_of no_values = []
list_of (value_then v vs) = v ∷ list_of vs

-- Python's truth of a value; of the texts of a number that is no integer, those of zero are left out.
abbrev pub truthy : Value → Bool
truthy null = false
truthy (flag b) = b
truthy (number (pos Prim.Native.Nat.zero)) = false
truthy (array no_values) = false
truthy (object no_fields) = false
truthy (text s) = if str_eq s "" then false else true
truthy _ = true

-- (definition.get(name) or {}).items()
abbrev pub mapping_items : Option Value → Result Config
mapping_items none = ok []
mapping_items (some (object fs)) = ok (config_of fs)
mapping_items (some v) = if truthy v then raise attribute_error else ok []

-- The values that a loop over (cfg.get(name) or []) meets and that may be mappings: those of a list. A text
-- and a mapping give texts.
abbrev pub loop_items : Option Value → Result (List Value)
loop_items none = ok []
loop_items (some (array vs)) = ok (list_of vs)
loop_items (some (object fs)) = ok []
loop_items (some (text s)) = ok []
loop_items (some v) = if truthy v then raise type_error else ok []

module _ (str_of : Value → String) (same : Value → Value → Bool)
    (re_match : (pattern subject : String) → Bool) where
  -- The findings of a value that should be a mapping; any other value has none.
  abbrev pub mapping_findings : List Field → Option Value → String → List String → List Finding
  mapping_findings fields (some (object fs)) place skip =
      section_findings str_of same re_match fields (config_of fs) place skip
  mapping_findings fields _ place skip = []

  abbrev pub items_findings : List Field → Config → String → List String → List Finding
  items_findings fields [] name skip = []
  items_findings fields ((key, v) ∷ rest) name skip =
      mapping_findings fields (some v) (name <> "." <> key) skip
      ++ items_findings fields rest name skip

  abbrev pub named_findings : Sections → Config → String → List String → List Finding
  named_findings sections definition name skip =
      mapping_findings (section_fields (get name sections)) (get name definition) name skip

  abbrev pub group_findings : Sections → Config → String → List String → Result (List Finding)
  group_findings sections definition name skip = do
    items ← mapping_items (get name definition)
    ok (items_findings (section_fields (get name sections)) items name skip)

  unfoldable pub definition_findings : Config → Sections → List String → Result (List Finding)
  unfolding section_fields
  definition_findings definition sections skip = do
    nodes ← group_findings sections definition "nodes" skip
    clusters ← group_findings sections definition "kclusters" skip
    ok (
        named_findings sections definition "common" skip
        ++ named_findings sections definition "pxe" skip
        ++ nodes
        ++ clusters)

  -- The overrides in a node's add-on entries.
  abbrev pub entries_findings : String → List Field → String → List Value → List Finding
  entries_findings section fields node [] = []
  entries_findings section fields node (object fs ∷ entries) =
      mapping_findings fields (get section (config_of fs))
        ("nodes." <> node <> ".addons." <> section) []
      ++ entries_findings section fields node entries
  entries_findings section fields node (_ ∷ entries) = entries_findings section fields node entries

  abbrev pub node_findings : String → List Field → String → Value → Result (List Finding)
  node_findings section fields node v = do
    cfg ← mapping_items (some v)
    entries ← loop_items (get "addons" cfg)
    ok (entries_findings section fields node entries)

  abbrev pub nodes_findings : String → List Field → Config → Result (List Finding)
  nodes_findings section fields [] = ok []
  nodes_findings section fields ((node, v) ∷ rest) = do
    here ← node_findings section fields node v
    later ← nodes_findings section fields rest
    ok (here ++ later)

  unfoldable pub addon_findings : Config → String → List Field → Result (List Finding)
  addon_findings definition section fields = do
    nodes ← mapping_items (get "nodes" definition)
    overrides ← nodes_findings section fields nodes
    ok (mapping_findings fields (get section definition) section [] ++ overrides)
