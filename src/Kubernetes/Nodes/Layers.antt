-- ===== src/Kubernetes/Nodes/Layers.antt =====
-- What a node's override leaves of an add-on's configuration.
use lab_in_a_box.Prelude.{
  String, true, false, Option, none, some, List, [], ◌∷◌, ◌++◌, map, mem, get, put, has, get-put,
  str_eq, ◌≡◌, refl, ◌∙◌, eq_iff, eq_refl, arith, inl, inr, Bool-cases,
}
use lab_in_a_box.Result.{ok}
use lab_in_a_box.Migrations.{Value, Config, Section, object, Addon, plain, override, Definition}
use lab_in_a_box.Migrations.Defaults.{addon_entry_name}
use lab_in_a_box.Kubernetes.Nodes.{
  updated, addon_entry_overrides, config_among, shared_section, node_addons, addon_node_config,
}

-- A dict has each key once.
abbrev pub Distinct : Config → Type 0
Distinct [] = Unit
Distinct ((k, v) ∷ d) = (has k d ≡ false) × Distinct d

-- The value of the override where it has one, else the shared one.
abbrev pub over : Option Value → Option Value → Option Value
over shared none = shared
over shared (some v) = some v

get-absent : (k : String) (d : Config) → has k d ≡ false → get k d ≡ none
get-absent k [] e = refl
get-absent k ((j, v) ∷ d) e = ground (arith, get-absent k d)

get-updated :
    (k : String) (shared overrides : Config)
    → Distinct overrides
    → get k (updated shared overrides) ≡ over (get k shared) (get k overrides)
get-updated k shared [] distinct = refl
get-updated k shared ((j, v) ∷ overrides) distinct =
    get-updated k (put j v shared) overrides distinct.1 ∙ elim (Bool-cases (str_eq j k)) [
      | inl p ↦
          let later : get k overrides ≡ none =
            get-absent k overrides (rw (← (eq_iff j k).0 p) distinct.0) in
          rw (later, get-put j k v shared, p) refl
      | inr p ↦ rw (get-put j k v shared, p) refl
    ]

config_among-past :
    (addon : String) (shared : Section) (names : List String) (entries : List Addon)
    → mem addon names ≡ false
    → config_among addon shared (map plain names ++ entries) ≡ config_among addon shared entries
unfolding addon_entry_name addon_entry_overrides
config_among-past addon shared [] entries m = refl
config_among-past addon shared (n ∷ names) entries m = elim (Bool-cases (str_eq n addon)) [
  | inl p ↦ ((let f : true ≡ false = rw (p) at m in cc))
  | inr p ↦ rw (p) (config_among-past addon shared names entries (rw (p) at m))
]

-- Where a node's add-ons are plain entries of other add-ons, then an entry that overrides the add-on by a
-- mapping that is not empty and has each key once, then any entries: a key of the add-on's configuration
-- on the node has the value of the override, or else that of the shared section.
pub addon_node_config-override :
    (d : Definition) (addon vm_name : String) (shared : Config) (first : String × Value)
    (overrides : Config) (names : List String) (after : List Addon)
    → shared_section d addon ≡ object shared
    → node_addons d vm_name
      ≡ map plain names ++ (override ((addon, object (first ∷ overrides)) ∷ []) ∷ after)
    → mem addon names ≡ false
    → Distinct (first ∷ overrides)
    → (c : Config) × (addon_node_config d addon vm_name ≡ ok (object c))
      × ((k : String) → get k c ≡ over (get k shared) (get k (first ∷ overrides)))
unfolding addon_node_config addon_entry_name addon_entry_overrides
addon_node_config-override d addon vm_name shared first overrides names after s a m distinct = (
  updated shared (first ∷ overrides),
  rw (s, a, config_among-past addon (object shared) names _ m, eq_refl addon) refl,
  λ k. get-updated k shared (first ∷ overrides) distinct,
)
