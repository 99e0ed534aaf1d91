-- ===== src/Samples/Clusters.antt =====
-- A cluster that is to run Harbor, and its nodes.
use lab_in_a_box.Prelude.{
  String, true, none, some, List, [], ◌∷◌, mem, get, All, str_eq, if◌then◌else◌, ◌≡◌, ◌≢◌, ◌⊎◌,
  refl, sym, inl, inr, text-ne,
}
use mathlib.Core.Path.{subst}
use lab_in_a_box.Result.{ok}
use lab_in_a_box.Migrations.{Value, text, Config, object, plain, override, Owner, Definition}
use lab_in_a_box.Migrations.Defaults.{addon_entry_name}
use lab_in_a_box.Kubernetes.{
  Plugin, Supply, ingress, storageclass, ingress_supply, storage_supply, cluster_choices,
  cluster_choice, cluster_needs, cluster_plan, cluster_provides,
}
use lab_in_a_box.Kubernetes.Requirements.{requirement_issue}
use lab_in_a_box.Kubernetes.Plan.{get-All}
use lab_in_a_box.Kubernetes.Provides.{
  IsAmong, SuppliersProvide, Chosen, requirement_issue-cluster_provides,
}
use lab_in_a_box.Kubernetes.Nodes.{in_cluster, is_server, kcluster_node, addon_node_config}
use lab_in_a_box.Kubernetes.Nodes.Members.{HasNode, NoNode, both, kcluster_node-cases}
use lab_in_a_box.Kubernetes.Nodes.Layers.{over, addon_node_config-override}

abbrev printed : Value → String
printed v = "value"

abbrev plugins : String → Plugin
plugins name =
    if str_eq name "harbor"
    then record {
      targets = "container" ∷ [];
      requires_kubernetes = none;
      requires_cluster = ingress ∷ storageclass ∷ [];
      provides_cluster = [];
    }
    else record {
      targets = "container" ∷ [];
      requires_kubernetes = none;
      requires_cluster = [];
      provides_cluster = ingress ∷ storageclass ∷ [];
    }

abbrev Say : Supply → Type 0
Say s = All (λ e. e.1 ≢ "" → mem s.need (plugins e.1).provides_cluster ≡ true) s.choices

suppliers-Say : (s : Supply) → IsAmong s cluster_choices → Say s
suppliers-Say s (inl p) = subst Say (sym p) (λ ne. refl, (λ ne. refl, (λ ne. absurd (ne refl), tt)))
suppliers-Say s (inr (inl p)) =
    subst Say (sym p) (λ ne. refl, (λ ne. refl, (λ ne. absurd (ne refl), tt)))
suppliers-Say s (inr (inr b)) = absurd b

plugins-SuppliersProvide : SuppliersProvide printed plugins
plugins-SuppliersProvide s among choice addon e =
    get-All (λ a. a ≢ "" → mem s.need (plugins a).provides_cluster ≡ true) choice s.choices addon
      (suppliers-Say s among) e

abbrev node : String → Owner
node kind = record {
  fields = ("kcluster", text "c1") ∷ ("INSTALL_RKE2_TYPE", text kind) ∷ [];
  addons = plain "nfs" ∷ override (("harbor", object (("port", text "81") ∷ [])) ∷ []) ∷ [];
}

abbrev lab : Definition
lab = record {
  sections = ("harbor", object (("port", text "80") ∷ ("host", text "reg") ∷ [])) ∷ [];
  kclusters =
      (
        "c1",
        record {
          fields = ("clu_type", text "k3s") ∷ ("clu_storage", text "Longhorn ") ∷ [];
          addons = plain "harbor" ∷ [];
        },
      )
      ∷ [];
  nodes = ("n1", node "agent") ∷ ("n2", node "server") ∷ [];
  schema_versions = [];
}

kcluster_node-cases_example :
    HasNode (both (in_cluster "c1") is_server) (kcluster_node printed lab "c1") lab.nodes
    ⊎ ((NoNode (both (in_cluster "c1") is_server) lab.nodes
          × HasNode (in_cluster "c1") (kcluster_node printed lab "c1") lab.nodes)
        ⊎ (NoNode (in_cluster "c1") lab.nodes × (kcluster_node printed lab "c1" ≡ "")))
kcluster_node-cases_example = kcluster_node-cases printed lab "c1" refl

addon_node_config-override_example :
    (c : Config) × (addon_node_config lab "harbor" "n1" ≡ ok (object c))
    × ((k : String)
        → get k c
          ≡ over
              (get k (("port", text "80") ∷ ("host", text "reg") ∷ []))
              (get k (("port", text "81") ∷ [])))
addon_node_config-override_example =
    addon_node_config-override lab "harbor" "n1" (("port", text "80") ∷ ("host", text "reg") ∷ [])
      ("port", text "81") [] ("nfs" ∷ []) [] refl refl refl (refl, tt)

abbrev provided : List String
provided = ingress ∷ storageclass ∷ storageclass ∷ []

lab-Chosen : Chosen printed plugins lab "c1"
unfolding cluster_choice addon_entry_name lab_in_a_box.Text.lower lab_in_a_box.Text.lstrip
    lab_in_a_box.Text.rstrip lab_in_a_box.Text.is_space
lab-Chosen s (inl e) =
    subst
      (λ x.
        (choice : String) × (cluster_choice printed plugins lab "c1" x.need ≡ ok choice)
        × (choice ≢ "none"))
      (sym e) ("traefik", refl, text-ne "traefik" "none" refl)
lab-Chosen s (inr (inl e)) =
    subst
      (λ x.
        (choice : String) × (cluster_choice printed plugins lab "c1" x.need ≡ ok choice)
        × (choice ≢ "none"))
      (sym e) ("longhorn", refl, text-ne "longhorn" "none" refl)
lab-Chosen s (inr (inr b)) = absurd b

requirement_issue-cluster_provides_example :
    requirement_issue (plugins "harbor") "container" (some "k3s") (some provided)
    ≡ requirement_issue (plugins "harbor") "container" (some "k3s") none
unfolding cluster_choice cluster_needs cluster_plan cluster_provides addon_entry_name
    lab_in_a_box.Text.lower lab_in_a_box.Text.lstrip lab_in_a_box.Text.rstrip
    lab_in_a_box.Text.is_space
requirement_issue-cluster_provides_example =
    requirement_issue-cluster_provides printed plugins plugins-SuppliersProvide lab "c1"
      ("harbor" ∷ []) provided _ "harbor" "container" (some "k3s") refl lab-Chosen refl refl
      ((ingress_supply, inl refl, refl), ((storage_supply, inr (inl refl), refl), tt)) refl
