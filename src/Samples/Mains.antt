-- ===== src/Samples/Mains.antt =====
-- The program on a lab of one machine with an add-on, whose checks pass.
use lab_in_a_box.Prelude.{true, false, some, none, [], ◌∷◌, refl}
use lab_in_a_box.Result.{ok}
use lab_in_a_box.Migrations.{Value, text, plain, Definition}
use lab_in_a_box.Kubernetes.{Plugin}
use lab_in_a_box.LabRun.{exited, Outside, State}
use lab_in_a_box.LabRun.Whole.{Setting, setup_lab}
use lab_in_a_box.LabRun.Main.{Options, Program, main_with}
use lab_in_a_box.LabRun.Reported.{AllReported, main_with-AllReported}
use lab_in_a_box.LabRun.Gate.{Cases, Succeeded, main_with-Cases, main_with-Succeeded}

abbrev outside : Outside (Unit {0})
outside = record {
  act = λ c w. (ok tt, w);
  reusable = λ vm w. (ok false, w);
  provisioned = λ vm w. (ok [], w);
  located = λ vm w. (ok ("k1", "qemu:///system"), w);
  boot_id = λ vm w. (ok "b1", w);
  addon_run = λ installer vm scope w. (ok (exited 0, false), w);
}

abbrev setting : Setting
setting = record {
  str_of = λ v. "";
  plugin_of = λ name. record {
    targets = "vm" ∷ [];
    requires_kubernetes = none;
    requires_cluster = [];
    provides_cluster = [];
  };
  installer_of = λ name. some name;
  service = λ name. ok tt;
  finishing = λ nodes. nodes;
  defaults = [];
}

abbrev lab : Definition
lab = record {
  sections = [];
  kclusters = [];
  nodes =
      ("n1", record { fields = ("myip", text "10.0.0.5") ∷ []; addons = plain "postgresql" ∷ [] })
      ∷ [];
  schema_versions = [];
}

abbrev program : Program (Unit {0})
program = record {
  out = λ json_file. outside;
  env = setting;
  history = [];
  config = [];
  read_text = λ path. none;
  run_script = λ f w. (true, w);
  load = λ file w. (ok lab, w);
  choose_ip = λ vm d w. (ok d, w);
  save = λ d w. (ok "lab-10.json", w);
  preflight = λ d w. (ok (d, [], true), w);
  check_addon = λ installer json_file w. (ok (exited 0, []), w);
  schema = λ w. (0, w);
  uncoloured = λ line. line;
}

abbrev given : Options
given = record { keep_them = false; parallel = 0; json_file = "lab.json" }

abbrev start : State (Unit {0})
start = record {
  world = tt;
  report = record { nodes = []; clusters = []; addons = []; warnings = []; errors = [] };
  calls = [];
}

main_with-Cases_example : Cases program given start (main_with program given start)
main_with-Cases_example = main_with-Cases program given start

main_with-Succeeded_example : Succeeded program given start (main_with program given start)
unfolding main_with setup_lab lab_in_a_box.Migrations.Pending.require_current
    lab_in_a_box.Migrations.Defaults.addon_entry_name lab_in_a_box.Text.split_on
    lab_in_a_box.Text.parse_nat lab_in_a_box.Images.Downloads.phase_fetch_images
    lab_in_a_box.Text.starts_with lab_in_a_box.Text.rstrip lab_in_a_box.Text.lstrip
    lab_in_a_box.Text.is_space lab_in_a_box.LabRun.Clusters.once
    lab_in_a_box.LabRun.Whole.phase_services lab_in_a_box.LabRun.Machines.phase_create_vms
    lab_in_a_box.LabRun.Clusters.phase_vm_addons lab_in_a_box.LabRun.Main.fold_issues
    lab_in_a_box.Kubernetes.Requirements.requirement_issue lab_in_a_box.LabRun.Targets.node_kind
    lab_in_a_box.LabRun.Clusters.phase_post_commands lab_in_a_box.LabRun.Clusters.node_commands
    lab_in_a_box.LabRun.exit_status lab_in_a_box.LabRun.addon_status
main_with-Succeeded_example = main_with-Succeeded program given start refl

main_with-AllReported_example : AllReported program given start (main_with program given start)
unfolding main_with setup_lab lab_in_a_box.Migrations.Pending.require_current
    lab_in_a_box.Migrations.Defaults.addon_entry_name lab_in_a_box.Text.split_on
    lab_in_a_box.Text.parse_nat lab_in_a_box.Images.Downloads.phase_fetch_images
    lab_in_a_box.Text.starts_with lab_in_a_box.Text.rstrip lab_in_a_box.Text.lstrip
    lab_in_a_box.Text.is_space lab_in_a_box.LabRun.Clusters.once
    lab_in_a_box.LabRun.Whole.phase_services lab_in_a_box.LabRun.Machines.phase_create_vms
    lab_in_a_box.LabRun.Clusters.phase_vm_addons lab_in_a_box.LabRun.Main.fold_issues
    lab_in_a_box.Kubernetes.Requirements.requirement_issue lab_in_a_box.LabRun.Targets.node_kind
    lab_in_a_box.LabRun.Clusters.phase_post_commands lab_in_a_box.LabRun.Clusters.node_commands
    lab_in_a_box.LabRun.exit_status lab_in_a_box.LabRun.addon_status
main_with-AllReported_example = main_with-AllReported program given start refl refl
