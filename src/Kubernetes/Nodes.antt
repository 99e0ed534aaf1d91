-- ===== src/Kubernetes/Nodes.antt =====
-- libs/k8s.py: the nodes of a cluster and of an add-on, and an add-on's configuration on a node.
pub mod Members
pub mod Layers
use lab_in_a_box.Prelude.{
  ℕ, zero, suc, String, Bool, true, false, not, ◌&&◌, ◌||◌, Option, none, some, List, [], ◌∷◌, ◌++◌,
  keep, length, Dict, get, put, has, str_eq, if◌then◌else◌,
}
use lab_in_a_box.Result.{Result, ok, raise, type_error, ◌>>=◌}
use lab_in_a_box.Text.{◌<>◌, lstrip, rstrip}
use lab_in_a_box.Migrations.{
  Value, text, Config, Section, object, other, Addon, plain, override, Owner, Definition, truthy,
}
use lab_in_a_box.Migrations.Defaults.{addon_entry_name}
use lab_in_a_box.Kubernetes.{clu_section}

-- cfg.get(key) == s
abbrev pub is_field : String → String → Config → Bool
is_field key s cfg = elim (get key cfg) [ some (text t) ↦ str_eq t s | _ ↦ false ]

abbrev pub in_cluster : String → String × Owner → Bool
in_cluster clu node = is_field "kcluster" clu node.1.fields

unfoldable pub kcluster_node_count : Definition → String → ℕ
kcluster_node_count d clu = length (keep (in_cluster clu) d.nodes)

-- cfg.get(key) or default, as text where it is one
abbrev pub value_or : Option Value → Option Value → Option Value
value_or none default = default
value_or (some v) default = if truthy v then some v else default

-- (cfg.get("KUBERNETES_NODE_TYPE") or cfg.get("INSTALL_RKE2_TYPE") or "server") == "server"
abbrev pub is_server : String × Owner → Bool
is_server node =
    elim (value_or (get "KUBERNETES_NODE_TYPE" node.1.fields)
      (value_or (get "INSTALL_RKE2_TYPE" node.1.fields) (some (text "server")))) [
        | some (text t) ↦ str_eq t "server"
        | _ ↦ false
      ]

abbrev pub first_name : Dict Owner → String
first_name [] = ""
first_name ((name, o) ∷ members) = name

-- The name of the first server, else the given one.
abbrev pub server_or : String → Dict Owner → String
server_or default [] = default
server_or default (node ∷ members) =
    let rest = server_or default members in if is_server node then node.0 else rest

abbrev ssh_to : String → String → String
ssh_to options node = "ssh -o StrictHostKeyChecking=accept-new " <> options <> "root@" <> node

-- node_cfg.get("INSTALL_RKE2_TYPE", "") in ("server", "")
abbrev type_allows : Option Value → Bool
type_allows none = true
type_allows (some (text t)) = str_eq t "server" || str_eq t ""
type_allows (some _) = false

abbrev first_allowed : Dict Owner → Option (String × String)
first_allowed [] = none
first_allowed ((name, o) ∷ nodes) =
    let rest = first_allowed nodes in
    if type_allows (get "INSTALL_RKE2_TYPE" o.fields) then some (name, ssh_to "-q " name) else rest

-- The environment variable of the node, where that of the cluster is set and not empty.
abbrev hint : (clu_name vm_name : Option String) → Option String
hint none vm_name = none
hint (some clu) vm_name = if str_eq clu "" then none else vm_name

unfoldable pub first_server_node :
    (clu_name vm_name : Option String) → Definition → Option (String × String)
first_server_node clu_name vm_name d = elim (hint clu_name vm_name) [
  | none ↦ first_allowed d.nodes
  | some h ↦
      if not (str_eq h "") && has h d.nodes then some (h, ssh_to "-q " h) else first_allowed d.nodes
]

-- any(addon_entry_name(e) == addon for e in entries)
abbrev pub names_addon : String → List Addon → Result Bool
names_addon addon [] = ok false
names_addon addon (e ∷ entries) = do
  name ← addon_entry_name e
  (if str_eq name addon then ok true else names_addon addon entries)

abbrev pub nodes_naming : String → Dict Owner → Result (List (String × String))
nodes_naming addon [] = ok []
nodes_naming addon ((name, o) ∷ nodes) = do
  here ← names_addon addon o.addons
  rest ← nodes_naming addon nodes
  ok (if here then (name, ssh_to "" name) ∷ rest else rest)

unfoldable pub addon_nodes :
    Definition → String → (vm_name : String) → Result (List (String × String))
unfolding addon_entry_name
addon_nodes d addon vm_name =
    if str_eq vm_name "" then nodes_naming addon d.nodes else ok ((vm_name, ssh_to "" vm_name) ∷ [])

-- bool(section)
abbrev section_truthy : Section → Bool
section_truthy (object []) = false
section_truthy (object (e ∷ c)) = true
section_truthy (other v) = truthy v

-- addon_entry_overrides; {} for what is empty or no mapping of a name
unfoldable pub addon_entry_overrides : Addon → Section
addon_entry_overrides (override ((name, s) ∷ [])) = if section_truthy s then s else object []
addon_entry_overrides _ = object []

-- dict(shared, **overrides) of two mappings
abbrev pub updated : Config → Config → Config
updated shared [] = shared
updated shared ((k, v) ∷ overrides) = updated (put k v shared) overrides

abbrev pub layered : Section → Section → Result Section
layered (object shared) (object overrides) = ok (object (updated shared overrides))
layered _ _ = raise type_error

abbrev pub config_among : String → Section → List Addon → Result Section
config_among addon shared [] = ok shared
config_among addon shared (e ∷ entries) = do
  name ← addon_entry_name e
  (if str_eq name addon && section_truthy (addon_entry_overrides e)
      then layered shared (addon_entry_overrides e)
      else config_among addon shared entries)

abbrev pub shared_section : Definition → String → Section
shared_section d addon = elim (get addon d.sections) [
  | none ↦ object []
  | some s ↦ if section_truthy s then s else object []
]

abbrev pub node_addons : Definition → String → List Addon
node_addons d vm_name = elim (get vm_name d.nodes) [ none ↦ [] | some o ↦ o.addons ]

unfoldable pub addon_node_config : Definition → String → String → Result Section
unfolding addon_entry_name addon_entry_overrides
addon_node_config d addon vm_name =
    config_among addon (shared_section d addon) (node_addons d vm_name)

module _ (str_of : Value → String) where
  -- str(cfg.get(key) or "").strip()
  abbrev pub stripped : String → Config → String
  stripped key cfg = elim (get key cfg) [
    | none ↦ ""
    | some (text s) ↦ rstrip (lstrip s)
    | some v ↦ if truthy v then rstrip (lstrip (str_of v)) else ""
  ]

  unfoldable pub kcluster_node : Definition → String → String
  kcluster_node d clu =
      let named = stripped "mgm_node" (clu_section d clu).fields in
      let members = keep (in_cluster clu) d.nodes in
      if str_eq named "" then server_or (first_name members) members else named
