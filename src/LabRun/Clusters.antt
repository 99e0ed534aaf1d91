-- ===== src/LabRun/Clusters.antt =====
-- scripts/setup_lab.py: phase_dns, phase_install_k8s_and_addons, phase_vm_addons and phase_post_commands,
-- with k8s.load_kclu_vars and lab_creation.run_node_commands. Where an installer is found, what an add-on
-- declares and Python's str() are parameters. A message is what it is about, its names not sorted.
use lab_in_a_box.Prelude.{
  ℕ, ◌+◌, ◌*◌, String, Bool, true, false, not, ◌||◌, Option, none, some, List, [], ◌∷◌, ◌++◌, mem,
  keep, keys, get, has, str_eq, if◌then◌else◌,
}
use lab_in_a_box.Result.{Result, ok, raise, type_error, died}
use lab_in_a_box.Text.{◌<>◌}
use lab_in_a_box.Migrations.{
  Value, null, flag, number, text, items, Config, Addon, plain, override, Owner, Definition, truthy,
}
use lab_in_a_box.Migrations.Defaults.{addon_entry_name}
use lab_in_a_box.Hosts.{common_of, int_value}
use lab_in_a_box.Kubernetes.{Plugin, get_distro, clu_section, cluster_services, cluster_provides}
use lab_in_a_box.Kubernetes.Requirements.{check_requirements}
use lab_in_a_box.Kubernetes.Nodes.{in_cluster, first_name, kcluster_node}
use lab_in_a_box.LabRun.{
  installed, install_failed, Exit, Scope, cluster_scope, node_scope, Problem, install_error,
  install_skipped, addon_exited, command_failed, add_cluster, add_addon, add_error, failed_nodes,
  is_success, addon_status, add_kclu_dns, install_cluster, await_system, run_addon, run_command,
  Outside, M, continue, ◌>>=◌, ◌>>◌, pure, lift, attempt, is_runtime_error, is_system_exit, perform,
  note, report_of, for_each, add_errors,
}
use lab_in_a_box.LabRun.Targets.{truthy_or_none, node_fields, node_kind}
use lab_in_a_box.LabRun.Machines.{act}

abbrev pub is_scalar : String × Value → Bool
is_scalar (k, flag b) = true
is_scalar (k, number n) = true
is_scalar (k, text s) = true
is_scalar (k, _) = false

unfoldable pub load_kclu_vars : Definition → String → Result Config
load_kclu_vars d clu = if str_eq clu "" then ok [] else elim (get clu d.kclusters) [
  | none ↦ raise (died "kcluster not found in definition")
  | some o ↦ ok (keep is_scalar o.fields)
]

-- " ".join(addons): an entry that is no text is a TypeError
unfoldable pub joined_names : List Addon → Result (List String)
joined_names [] = ok []
joined_names (plain n ∷ entries) = elim (joined_names entries) [
  | ok names ↦ ok (n ∷ names)
  | raise e ↦ raise e
]
joined_names (override d ∷ entries) = raise type_error

-- if addon in installed: continue
unfoldable pub once : List String → List String → List String
once done [] = []
once done (a ∷ names) =
    let skipped = once done names in
    let taken = once (a ∷ done) names in if mem a done then skipped else a ∷ taken

-- The nodes of the cluster whose creation failed.
unfoldable pub missing_nodes : Definition → String → (failed : List String) → List String
missing_nodes d clu failed = keep (λ name. mem name failed) (keys (keep (in_cluster clu) d.nodes))

-- _empty
abbrev pub is_empty_value : Value → Bool
is_empty_value null = true
is_empty_value (flag b) = not b
is_empty_value (text s) = str_eq s ""
is_empty_value _ = false

abbrev commands_of : Value → Result (List String)
commands_of (text s) = ok (s ∷ [])
commands_of (items list) = ok (keep (λ c. not (str_eq c "")) list)
commands_of _ = raise type_error

abbrev commands_or_none : Option Value → Result (List String)
commands_or_none none = ok []
commands_or_none (some v) = if is_empty_value v then ok [] else commands_of v

-- lab_creation.node_commands
unfoldable pub node_commands : Definition → (vm phase : String) → Result (List String)
node_commands d vm phase =
    let key = phase <> "_commands" in
    if has key (node_fields d vm)
    then commands_or_none (get key (node_fields d vm))
    else commands_or_none (get key (common_of d))

module _ {W : Type 0} (out : Outside W) where
  unfoldable pub phase_dns : Definition → M W (Unit {0})
  phase_dns d =
      for_each (λ clu. lift (load_kclu_vars d clu) >>= λ cfg. act out (add_kclu_dns clu))
        (keys d.kclusters)

  -- What ran: reported, and an error where it failed.
  abbrev pub addon_ended : Scope → String → Exit × Bool → M W (Unit {0})
  addon_ended scope addon (rc, handed_off) =
      if is_success rc
      then note (add_addon scope addon (addon_status rc handed_off))
      else note (λ r.
        add_error (addon_exited scope addon rc)
          (add_addon scope addon (addon_status rc handed_off) r))

  abbrev pub run_installer : Scope → (addon vm installer : String) → M W (Unit {0})
  run_installer scope addon vm installer =
      perform (run_addon scope addon vm) (out.addon_run installer vm scope)
      >>= addon_ended scope addon

  -- One command after the other; what fails is told.
  abbrev pub after_command :
      (vm command : String) → Result (Unit {0}) → List Problem → M W (List Problem)
  after_command vm command (ok u) problems = pure problems
  after_command vm command (raise e) problems =
      if is_runtime_error e
      then pure (problems ++ command_failed vm command ∷ [])
      else lift (raise e)

  abbrev pub run_commands : (vm target : String) → List String → List Problem → M W (List Problem)
  run_commands vm target [] problems s = (ok problems, s)
  run_commands vm target (command ∷ commands) problems s =
      let (r, t) =
        (attempt (act out (run_command vm target command)) >>= λ ended.
        after_command vm command ended problems)
          s in
      continue r (run_commands vm target commands) t

module _ (installer_of : String → Option String) where
  -- die() where no installer is found
  abbrev pub installer : String → Result String
  installer addon = elim (installer_of addon) [
    | none ↦ raise (died "Addon script not found")
    | some path ↦ ok path
  ]

module _ {W : Type 0} (out : Outside W) (str_of : Value → String) (plugin_of : String → Plugin)
    (installer_of : String → Option String) (d : Definition) where
  abbrev text_or_empty : Option Value → String
  text_or_empty none = ""
  text_or_empty (some (text s)) = s
  text_or_empty (some v) = str_of v

  abbrev pub clu_type_of : Config → String
  clu_type_of cfg = text_or_empty (get "clu_type" cfg)

  -- The node that a cluster's add-ons are installed from; the environment takes texts only.
  abbrev manager_or_first : String → Option Value → Result String
  manager_or_first clu none = ok (first_name (keep (in_cluster clu) d.nodes))
  manager_or_first clu (some (text vm)) =
      if str_eq vm "" then ok (first_name (keep (in_cluster clu) d.nodes)) else ok vm
  manager_or_first clu (some v) =
      if truthy v then raise type_error else ok (first_name (keep (in_cluster clu) d.nodes))

  abbrev pub manager : String → Config → Result String
  manager clu cfg = manager_or_first clu (get "mgm_node" cfg)

  abbrev pub cluster_addon : String → Config → String → M W (Unit {0})
  cluster_addon clu cfg addon = do
    path ← lift (installer installer_of addon)
    provides ← lift (cluster_provides str_of plugin_of d clu)
    _ ←
        lift (
          check_requirements (plugin_of addon) "container" (some (clu_type_of cfg)) (some provides))
    vm ← lift (manager clu cfg)
    run_installer out (cluster_scope clu) addon vm path

  unfoldable pub install_cluster_addons : String → Config → M W (Unit {0})
  unfolding joined_names once
  install_cluster_addons clu cfg = do
    services ← lift (cluster_services str_of plugin_of d clu)
    listed ← lift (joined_names (clu_section d clu).addons)
    for_each (cluster_addon clu cfg) (once [] (services ++ listed))

  abbrev pub settle : (delay : ℕ) → String → Config → M W (Unit {0})
  settle delay clu cfg =
      if str_eq (kcluster_node str_of d clu) ""
      then pure tt
      else lift (get_distro (clu_type_of cfg)) >>= λ distro.
          act out (await_system (kcluster_node str_of d clu) (60 * (2 + delay)))

  abbrev pub cluster_broke : String → Problem → M W (Unit {0})
  cluster_broke clu p = note (λ r. add_error p (add_cluster clu install_failed r))

  abbrev pub after_install : (delay : ℕ) → String → Config → Result (Unit {0}) → M W (Unit {0})
  after_install delay clu cfg (ok u) =
      note (add_cluster clu installed) >> (settle delay clu cfg >> install_cluster_addons clu cfg)
  after_install delay clu cfg (raise e) =
      if is_runtime_error e || is_system_exit e
      then cluster_broke clu (install_error clu)
      else lift (raise e)

  abbrev pub install_k8s : String → Config → M W (Unit {0})
  install_k8s clu cfg =
      lift (get_distro (clu_type_of cfg)) >>= λ distro. act out (install_cluster clu)

  abbrev pub build_cluster : (delay : ℕ) → String → Config → M W (Unit {0})
  build_cluster delay clu cfg = attempt (install_k8s clu cfg) >>= after_install delay clu cfg

  abbrev pub unless_missing :
      (delay : ℕ) → String → Config → (missing : List String) → M W (Unit {0})
  unless_missing delay clu cfg [] = build_cluster delay clu cfg
  unless_missing delay clu cfg (vm ∷ missing) =
      cluster_broke clu (install_skipped clu (vm ∷ missing))

  unfoldable pub set_up_cluster : (delay : ℕ) → (failed : List String) → String → M W (Unit {0})
  unfolding load_kclu_vars missing_nodes install_cluster_addons
  set_up_cluster delay failed clu = do
    cfg ← lift (load_kclu_vars d clu)
    unless_missing delay clu cfg (missing_nodes d clu failed)

  -- common.delay_min, else that of the defaults, else 2
  abbrev pub delay_of : (defaults : Config) → Value
  delay_of defaults = elim (get "delay_min" (common_of d)) [
    | some v ↦ v
    | none ↦ elim (get "delay_min" defaults) [ some v ↦ v | none ↦ number 2 ]
  ]

  unfoldable pub phase_install_k8s_and_addons : (defaults : Config) → M W (Unit {0})
  unfolding set_up_cluster
  phase_install_k8s_and_addons defaults = do
    delay ← lift (int_value (delay_of defaults))
    r ← report_of
    for_each (set_up_cluster delay (failed_nodes r)) (keys d.kclusters)

  abbrev pub node_addon : String → Addon → M W (Unit {0})
  node_addon vm entry = do
    addon ← lift (addon_entry_name entry)
    path ← lift (installer installer_of addon)
    _ ← lift (check_requirements (plugin_of addon) (node_kind d vm) none none)
    run_installer out (node_scope vm) addon vm path

  unfoldable pub vm_addons : (failed : List String) → String × Owner → M W (Unit {0})
  unfolding addon_entry_name
  vm_addons failed (vm, o) = if mem vm failed then pure tt else for_each (node_addon vm) o.addons

  unfoldable pub phase_vm_addons : M W (Unit {0})
  unfolding vm_addons
  phase_vm_addons = do r ← report_of; for_each (vm_addons (failed_nodes r)) d.nodes

  -- cfg.get("myip") or vm_name
  abbrev pub ssh_target : String → String
  ssh_target vm =
      if truthy_or_none (get "myip" (node_fields d vm))
      then text_or_empty (get "myip" (node_fields d vm))
      else vm

  -- lab_creation.run_node_commands
  unfoldable pub run_node_commands : (vm phase : String) → M W (List Problem)
  run_node_commands vm phase = lift (node_commands d vm phase) >>= λ commands.
      run_commands out vm (ssh_target vm) commands []

  unfoldable pub post_commands : (failed : List String) → String → M W (Unit {0})
  unfolding run_node_commands
  post_commands failed vm =
      if mem vm failed then pure tt else run_node_commands vm "post" >>= add_errors

  unfoldable pub phase_post_commands : M W (Unit {0})
  unfolding post_commands
  phase_post_commands = do r ← report_of; for_each (post_commands (failed_nodes r)) (keys d.nodes)
