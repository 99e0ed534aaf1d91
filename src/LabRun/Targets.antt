-- ===== src/LabRun/Targets.antt =====
-- libs/targets.py: what kind a node is; libs/harvester.py: the nodes of a Harvester cluster.
use lab_in_a_box.Prelude.{
  String, Bool, Option, none, some, [], keep, Dict, get, str_eq, if◌then◌else◌,
}
use lab_in_a_box.Migrations.{Value, text, Config, Owner, Definition, truthy}
use lab_in_a_box.Kubernetes.{clu_section}
use lab_in_a_box.Kubernetes.Nodes.{is_field, in_cluster, first_name}

abbrev pub truthy_or_none : Option Value → Bool
truthy_or_none none = Bool.false
truthy_or_none (some v) = truthy v

unfoldable pub is_existing_node : Config → Bool
is_existing_node cfg = truthy_or_none (get "existing" cfg)

abbrev pub node_fields : Definition → String → Config
node_fields d name = elim (get name d.nodes) [ none ↦ [] | some o ↦ o.fields ]

unfoldable pub node_kind : Definition → String → String
unfolding is_existing_node
node_kind d name = if is_existing_node (node_fields d name) then "baremetal" else "vm"

abbrev pub is_harvester : Config → Bool
is_harvester cfg = is_field "clu_type" "harvester" cfg

abbrev harvester_or_none : Definition → Option Value → String
harvester_or_none d (some (text clu)) =
    if str_eq clu "" then "" else if is_harvester (clu_section d clu).fields then clu else ""
harvester_or_none d _ = ""

-- harvester.cluster_of
unfoldable pub cluster_of : Definition → String → String
cluster_of d vm = harvester_or_none d (get "kcluster" (node_fields d vm))

-- harvester.cluster_nodes, with their sections
unfoldable pub cluster_nodes : Definition → String → Dict Owner
cluster_nodes d clu = keep (in_cluster clu) d.nodes

-- harvester.create_node
unfoldable pub create_node : Definition → String → String
unfolding cluster_nodes
create_node d clu = first_name (cluster_nodes d clu)
