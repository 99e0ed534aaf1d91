-- ===== src/Samples/Runs.antt =====
-- A run on a lab of three machines: one cluster node, one whose creation fails, and one that exists.
use lab_in_a_box.Prelude.{
  String, Bool, true, false, not, ◌&&◌, Option, some, none, List, [], ◌∷◌, ◌++◌, ◌≡◌, refl, All,
  mem, str_eq, if◌then◌else◌,
}
use lab_in_a_box.Result.{Result, ok, raise, runtime_error}
use lab_in_a_box.Migrations.{Value, text, flag, items, object, plain, override, Definition}
use lab_in_a_box.Migrations.Defaults.{addon_entry_name}
use lab_in_a_box.Kubernetes.{
  Plugin, cluster_choice, cluster_needs, cluster_plan, cluster_provides, cluster_services,
}
use lab_in_a_box.Kubernetes.Requirements.{requirement_issue}
use lab_in_a_box.LabRun.{
  exited, addon_status, has_errors, exit_status, failed_nodes, Outside, State,
}
use lab_in_a_box.LabRun.Machines.{kept_by, create_one_vm, phase_create_vms}
use lab_in_a_box.LabRun.Targets.{is_existing_node}
use lab_in_a_box.LabRun.Clusters.{install_cluster_addons}
use lab_in_a_box.LabRun.Whole.{Setting, setup_lab}
use lab_in_a_box.LabRun.Keeping.{IsAllowed}
use lab_in_a_box.LabRun.Backed.{setup_lab-exit_status}
use lab_in_a_box.LabRun.Order.{IsOrdered, setup_lab-IsOrdered}
use lab_in_a_box.LabRun.Spared.{setup_lab-IsAllowed}
use lab_in_a_box.LabRun.Kept.{IsChecked, setup_lab-IsChecked}
use lab_in_a_box.LabRun.Complete.{IsCaught, node_names, phase_create_vms-names}
use lab_in_a_box.LabRun.AddonOrder.{IsDistinct, ran, install_cluster_addons-ran}

abbrev created_or_not : String → Result (List String)
created_or_not vm = if str_eq vm "n2" then raise runtime_error else ok []

abbrev outside : Outside (Unit {0})
outside = record {
  act = λ c w. (ok tt, w);
  reusable = λ vm w. (ok false, w);
  provisioned = λ vm w. (created_or_not vm, w);
  located = λ vm w. (ok ("k1", "qemu:///system"), w);
  boot_id = λ vm w. (ok "b1", w);
  addon_run = λ installer vm scope w. (ok (exited 0, false), w);
}

abbrev plugin : String → Plugin
plugin name = record {
  targets = "container" ∷ "vm" ∷ [];
  requires_kubernetes = none;
  requires_cluster = if str_eq name "harbor" then "storageclass" ∷ [] else [];
  provides_cluster = [];
}

abbrev printed : Value → String
printed v = ""

abbrev found : String → Option String
found name = some name

abbrev setting : Setting
setting = record {
  str_of = printed;
  plugin_of = plugin;
  installer_of = found;
  service = λ name. ok tt;
  finishing = λ nodes. nodes;
  defaults = [];
}

abbrev lab : Definition
lab = record {
  sections = ("common", object (("services", items ("dhcp" ∷ [])) ∷ [])) ∷ [];
  kclusters =
      (
        "c1",
        record {
          fields = ("clu_type", text "kubeadm") ∷ [];
          addons = plain "harbor" ∷ plain "monitoring" ∷ plain "harbor" ∷ [];
        },
      )
      ∷ (
        "c2",
        record {
          fields = ("clu_type", text "k3s") ∷ [];
          addons = plain "nfs" ∷ override (("harbor", object []) ∷ []) ∷ [];
        },
      )
      ∷ [];
  nodes =
      ("n1", record { fields = ("kcluster", text "c1") ∷ []; addons = [] })
      ∷ ("n2", record { fields = ("kcluster", text "c2") ∷ []; addons = plain "nfs" ∷ [] })
      ∷ ("n3", record { fields = ("existing", flag true) ∷ []; addons = [] })
      ∷ [];
  schema_versions = [];
}

abbrev start : State (Unit {0})
start = record {
  world = tt;
  report = record { nodes = []; clusters = []; addons = []; warnings = []; errors = [] };
  calls = [];
}

setup_lab-exit_status_example :
    exit_status (setup_lab outside setting lab false 0 start).1.report
    ≡ (if has_errors (setup_lab outside setting lab false 0 start).1.report then 1 else 0)
unfolding exit_status
setup_lab-exit_status_example = setup_lab-exit_status outside setting lab false 0 start refl

setup_lab-IsOrdered_example : IsOrdered (setup_lab outside setting lab true 2 start).1.calls
setup_lab-IsOrdered_example = setup_lab-IsOrdered outside setting lab true 2 start refl

setup_lab-IsAllowed_example :
    All
      (IsAllowed lab (failed_nodes (setup_lab outside setting lab false 0 start).1.report))
      (setup_lab outside setting lab false 0 start).1.calls
setup_lab-IsAllowed_example = setup_lab-IsAllowed outside setting lab false 0 start refl

setup_lab-IsChecked_example : IsChecked (setup_lab outside setting lab true 0 start).1.calls
setup_lab-IsChecked_example = setup_lab-IsChecked outside setting lab 0 start refl

provisions : (vm : String) (w : Unit {0}) → IsCaught (created_or_not vm)
provisions vm w = by_name (str_eq vm "n2")
  where
    by_name : (b : Bool) → IsCaught {A = List String} (if b then raise runtime_error else ok [])
    by_name true = tt
    by_name false = tt

phase_create_vms-names_example :
    ((phase_create_vms outside setting.finishing lab true 0 start).0 ≡ ok tt)
    × (node_names (phase_create_vms outside setting.finishing lab true 0 start).1
        ≡ "n1" ∷ "n2" ∷ "n3" ∷ [])
phase_create_vms-names_example =
    phase_create_vms-names outside (λ vm w. refl) (λ vm w. refl) (λ vm w. tt) provisions
      (λ vm w. tt) setting.finishing lab true start

abbrev addons_end : Result (Unit {0}) × State (Unit {0})
addons_end =
    install_cluster_addons outside printed plugin found lab "c1" (("clu_type", text "kubeadm") ∷ [])
      start

install_cluster_addons-ran_example :
    (first : List String) × (rest : List String) × (addons_end.1.calls
      ≡ ran "c1" "n1" (first ++ rest) [])
    × IsDistinct (first ++ rest)
    × ((a : String) → mem a first ≡ mem a ("longhorn" ∷ []))
    × ((a : String)
        → mem a rest
          ≡ (mem a ("harbor" ∷ "monitoring" ∷ "harbor" ∷ []) && not (mem a ("longhorn" ∷ []))))
unfolding install_cluster_addons cluster_choice cluster_needs cluster_plan cluster_provides
    cluster_services addon_entry_name addon_status requirement_issue lab_in_a_box.Text.lower
    lab_in_a_box.Text.lstrip lab_in_a_box.Text.rstrip lab_in_a_box.Text.is_space
install_cluster_addons-ran_example =
    install_cluster_addons-ran outside printed plugin found lab "c1"
      (("clu_type", text "kubeadm") ∷ []) ("longhorn" ∷ [])
      ("harbor" ∷ "monitoring" ∷ "harbor" ∷ []) "n1" start refl refl refl refl

-- What the creation of the machines leaves in the report.
failed_nodes_test :
    failed_nodes (phase_create_vms outside setting.finishing lab true 0 start).1.report ≡ "n2" ∷ []
unfolding phase_create_vms create_one_vm kept_by is_existing_node
failed_nodes_test = refl

exit_status_test :
    exit_status (phase_create_vms outside setting.finishing lab true 0 start).1.report ≡ 1
unfolding exit_status phase_create_vms create_one_vm kept_by is_existing_node
exit_status_test = refl
