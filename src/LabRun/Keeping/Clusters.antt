-- ===== src/LabRun/Keeping/Clusters.antt =====
-- scripts/setup_lab.py: what the clusters' DNS entries, their installation and the add-ons and commands
-- of the nodes keep.
use lab_in_a_box.Prelude.{
  ℕ, String, true, false, ◌||◌, ◌++◌, Option, none, some, List, [], ◌∷◌, ◌≡◌, refl, mem, All, keep,
  keys, Dict, str_eq, ◌+◌, ◌*◌, Bool-cases, inl, inr,
}
use lab_in_a_box.Result.{Result, ok, raise}
use lab_in_a_box.Migrations.{Value, Config, Addon, Owner, Definition}
use lab_in_a_box.Migrations.Defaults.{addon_entry_name}
use lab_in_a_box.Hosts.{int_value}
use lab_in_a_box.Kubernetes.{Plugin, get_distro, clu_section, cluster_services, cluster_provides}
use lab_in_a_box.Kubernetes.Requirements.{check_requirements}
use lab_in_a_box.Kubernetes.Nodes.{in_cluster, kcluster_node}
use lab_in_a_box.LabRun.{
  cluster_scope, node_scope, Problem, install_error, install_skipped, failed_nodes, Call,
  add_kclu_dns, install_cluster, await_system, run_addon, run_command, stage, Outside, State, ◌>>=◌,
  pure, lift, attempt, is_runtime_error, is_system_exit, add_errors,
}
use lab_in_a_box.LabRun.Targets.{node_kind}
use lab_in_a_box.LabRun.Machines.{act}
use lab_in_a_box.LabRun.Clusters.{
  load_kclu_vars, joined_names, once, missing_nodes, node_commands, phase_dns, installer,
  clu_type_of, manager, cluster_addon, install_cluster_addons, settle, cluster_broke, after_install,
  install_k8s, build_cluster, unless_missing, set_up_cluster, delay_of,
  phase_install_k8s_and_addons, node_addon, vm_addons, phase_vm_addons, ssh_target,
  run_node_commands, post_commands, phase_post_commands,
}
use lab_in_a_box.LabRun.Keeping.{
  AllUp, IsAllowed, Keeping, Keeps, Keeps-continue, Keeps-bind, Keeps-for_each, Keeps-if,
}
use lab_in_a_box.LabRun.Keeping.Addons.{errors-Keeps, run_commands-Keeps, run_installer-Keeps}
use lab_in_a_box.LabRun.Keeping.Machines.{act-Keeps}

-- A cluster without missing nodes has no failed node.
pub missing_nodes-AllUp :
    (d : Definition) (clu : String) (failed : List String)
    → missing_nodes d clu failed ≡ []
    → AllUp d clu failed
unfolding missing_nodes
missing_nodes-AllUp d clu failed e = go d.nodes e
  where
    go :
        (nodes : Dict Owner)
        → keep (λ name. mem name failed) (keys (keep (in_cluster clu) nodes)) ≡ []
        → All (λ n. in_cluster clu n ≡ true → mem n.0 failed ≡ false) nodes
    go [] e = tt
    go (n ∷ nodes) e = elim (Bool-cases (in_cluster clu n)) [
      | inr p ↦ ((λ q. cc), go nodes (rw (p) at e))
      | inl p ↦ elim (Bool-cases (mem n.0 failed)) [
        | inl q ↦
            (let f : n.0 ∷ keep (λ name. mem name failed) (keys (keep (in_cluster clu) nodes))
                  ≡ [] =
                rw (q) at (rw (p) at e) in
              cc)
        | inr q ↦ ((λ h. q), go nodes (rw (q) at (rw (p) at e)))
      ]
    ]

module _ {W : Type 0} (out : Outside W) (P : Call → Type 0) (Inv : State W → Type 0)
    (k : Keeping W P Inv) where
  pub phase_dns-Keeps :
      ((c : Call) → stage c ≡ 1 → P c) → (d : Definition) → Keeps Inv (phase_dns out d)
  unfolding phase_dns
  phase_dns-Keeps allows d =
      Keeps-for_each Inv (λ clu. lift (load_kclu_vars d clu) >>= λ cfg. act out (add_kclu_dns clu))
        (λ clu.
          Keeps-continue Inv (load_kclu_vars d clu) (λ cfg. act out (add_kclu_dns clu))
            (λ cfg. act-Keeps out P Inv k (add_kclu_dns clu) (allows (add_kclu_dns clu) refl)))
        (keys d.kclusters)

  module _ (str_of : Value → String) (plugin_of : String → Plugin)
      (installer_of : String → Option String) (d : Definition) where
    install_cluster_addons-Keeps :
        (clu : String) (cfg : Config)
        → ((a vm : String) → P (run_addon (cluster_scope clu) a vm))
        → Keeps Inv (install_cluster_addons out str_of plugin_of installer_of d clu cfg)
    unfolding install_cluster_addons
    install_cluster_addons-Keeps clu cfg p =
        Keeps-continue Inv (cluster_services str_of plugin_of d clu) _ (λ services.
          Keeps-continue Inv (joined_names (clu_section d clu).addons) _ (λ listed.
            Keeps-for_each Inv (cluster_addon out str_of plugin_of installer_of d clu cfg) one
              (once [] (services ++ listed))))
      where
        one : (a : String) → Keeps Inv (cluster_addon out str_of plugin_of installer_of d clu cfg a)
        one a = Keeps-continue Inv (installer installer_of a) _ (λ path.
            Keeps-continue Inv (cluster_provides str_of plugin_of d clu) _ (λ provides.
              Keeps-continue Inv
                (check_requirements (plugin_of a) "container"
                  (some (clu_type_of out str_of plugin_of installer_of d cfg)) (some provides))
                _
                (λ u.
                  Keeps-continue Inv (manager out str_of plugin_of installer_of d clu cfg) _ (λ vm.
                    run_installer-Keeps out P Inv k (cluster_scope clu) a vm path (p a vm)))))

    module _ (failed : List String) (delay : ℕ)
        (allows : (c : Call) → stage c ≡ 4 → IsAllowed d failed c → P c) where
      settle-Keeps :
          (clu : String) (cfg : Config)
          → Keeps Inv (settle out str_of plugin_of installer_of d delay clu cfg)
      settle-Keeps clu cfg =
          Keeps-if Inv (str_eq (kcluster_node str_of d clu) "") (pure tt) _ (λ e s i. i)
            (λ e.
              Keeps-continue Inv (get_distro (clu_type_of out str_of plugin_of installer_of d cfg))
                _ (λ distro. act-Keeps out P Inv k wait (allows wait refl tt)))
        where
          wait : Call
          wait = await_system (kcluster_node str_of d clu) (60 * (2 + delay))

      broke-Keeps :
          (clu : String) (p : Problem)
          → Keeps Inv (cluster_broke out str_of plugin_of installer_of d clu p)
      broke-Keeps clu p s i = k.cluster_failure clu p s i

      after_install-Keeps :
          (clu : String) (cfg : Config)
          → AllUp d clu failed
          → (r : Result {0} Unit)
          → Keeps Inv (after_install out str_of plugin_of installer_of d delay clu cfg r)
      after_install-Keeps clu cfg up (ok u) s i =
          Keeps-bind Inv (settle out str_of plugin_of installer_of d delay clu cfg)
            (λ v. install_cluster_addons out str_of plugin_of installer_of d clu cfg)
            (settle-Keeps clu cfg)
            (λ v.
              install_cluster_addons-Keeps clu cfg
                (λ a vm. allows (run_addon (cluster_scope clu) a vm) refl up))
            _ (k.cluster clu s i)
      after_install-Keeps clu cfg up (raise e) s i =
          Keeps-if Inv (is_runtime_error e || is_system_exit e)
            (cluster_broke out str_of plugin_of installer_of d clu (install_error clu))
            (lift (raise e)) (λ q. broke-Keeps clu (install_error clu)) (λ q t j. j) s i

      build_cluster-Keeps :
          (clu : String) (cfg : Config)
          → AllUp d clu failed
          → Keeps Inv (build_cluster out str_of plugin_of installer_of d delay clu cfg)
      build_cluster-Keeps clu cfg up =
          Keeps-bind Inv (attempt (install_k8s out str_of plugin_of installer_of d clu cfg))
            (after_install out str_of plugin_of installer_of d delay clu cfg)
            (Keeps-continue Inv (get_distro (clu_type_of out str_of plugin_of installer_of d cfg))
              (λ distro. act out (install_cluster clu))
              (λ distro.
                act-Keeps out P Inv k (install_cluster clu) (allows (install_cluster clu) refl up)))
            (after_install-Keeps clu cfg up)

      unless_missing-Keeps :
          (clu : String) (cfg : Config) (missing : List String)
          → missing_nodes d clu failed ≡ missing
          → Keeps Inv (unless_missing out str_of plugin_of installer_of d delay clu cfg missing)
      unless_missing-Keeps clu cfg [] e s i =
          build_cluster-Keeps clu cfg (missing_nodes-AllUp d clu failed e) s i
      unless_missing-Keeps clu cfg (vm ∷ missing) e s i =
          broke-Keeps clu (install_skipped clu (vm ∷ missing)) s i

      pub set_up_cluster-Keeps :
          (clu : String)
          → Keeps Inv (set_up_cluster out str_of plugin_of installer_of d delay failed clu)
      unfolding set_up_cluster
      set_up_cluster-Keeps clu =
          Keeps-continue Inv (load_kclu_vars d clu) _
            (λ cfg. unless_missing-Keeps clu cfg (missing_nodes d clu failed) refl)

    pub phase_install-Keeps :
        (defaults : Config)
        → ((s : State W)
            → Inv s
            → (c : Call) → stage c ≡ 4
            → IsAllowed d (failed_nodes s.report) c
            → P c)
        → Keeps Inv (phase_install_k8s_and_addons out str_of plugin_of installer_of d defaults)
    unfolding phase_install_k8s_and_addons
    phase_install-Keeps defaults allows s i =
        Keeps-continue Inv (int_value (delay_of out str_of plugin_of installer_of d defaults)) _
          (λ delay t j.
            Keeps-for_each Inv
              (set_up_cluster out str_of plugin_of installer_of d delay (failed_nodes t.report))
              (set_up_cluster-Keeps (failed_nodes t.report) delay (allows t j)) (keys d.kclusters) t
              j)
          s i

    module _ (failed : List String)
        (allows : (c : Call) → stage c ≡ 5 → IsAllowed d failed c → P c) where
      node_addon-Keeps :
          (vm : String) (a : Addon)
          → mem vm failed ≡ false
          → Keeps Inv (node_addon out str_of plugin_of installer_of d vm a)
      node_addon-Keeps vm a up = Keeps-continue Inv (addon_entry_name a) _ (λ addon.
          Keeps-continue Inv (installer installer_of addon) _ (λ path.
            Keeps-continue Inv (check_requirements (plugin_of addon) (node_kind d vm) none none) _
              (λ u.
                run_installer-Keeps out P Inv k (node_scope vm) addon vm path
                  (allows (run_addon (node_scope vm) addon vm) refl up))))

      pub vm_addons-Keeps :
          (n : String × Owner) → Keeps Inv (vm_addons out str_of plugin_of installer_of d failed n)
      unfolding vm_addons
      vm_addons-Keeps (vm, o) =
          Keeps-if Inv (mem vm failed) (pure tt) _ (λ e s i. i)
            (λ e.
              Keeps-for_each Inv (node_addon out str_of plugin_of installer_of d vm)
                (λ a. node_addon-Keeps vm a e) o.addons)

    pub phase_vm_addons-Keeps :
        ((s : State W)
          → Inv s
          → (c : Call) → stage c ≡ 5
          → IsAllowed d (failed_nodes s.report) c
          → P c)
        → Keeps Inv (phase_vm_addons out str_of plugin_of installer_of d)
    unfolding phase_vm_addons
    phase_vm_addons-Keeps allows s i =
        Keeps-for_each Inv (vm_addons out str_of plugin_of installer_of d (failed_nodes s.report))
          (vm_addons-Keeps (failed_nodes s.report) (allows s i)) d.nodes s i

    module _ (failed : List String)
        (allows : (c : Call) → stage c ≡ 6 → IsAllowed d failed c → P c) where
      pub post_commands-Keeps :
          (vm : String) → Keeps Inv (post_commands out str_of plugin_of installer_of d failed vm)
      unfolding post_commands run_node_commands
      post_commands-Keeps vm =
          Keeps-if Inv (mem vm failed) (pure tt) _ (λ e s i. i)
            (λ e.
              Keeps-bind Inv (run_node_commands out str_of plugin_of installer_of d vm "post")
                add_errors
                (Keeps-continue Inv (node_commands d vm "post") _ (λ commands.
                  run_commands-Keeps out P Inv k vm target
                    (λ c. allows (run_command vm target c) refl e) commands []))
                (errors-Keeps out P Inv k))
        where
          target : String
          target = ssh_target out str_of plugin_of installer_of d vm

    pub phase_post-Keeps :
        ((s : State W)
          → Inv s
          → (c : Call) → stage c ≡ 6
          → IsAllowed d (failed_nodes s.report) c
          → P c)
        → Keeps Inv (phase_post_commands out str_of plugin_of installer_of d)
    unfolding phase_post_commands
    phase_post-Keeps allows s i =
        Keeps-for_each Inv
          (post_commands out str_of plugin_of installer_of d (failed_nodes s.report))
          (post_commands-Keeps (failed_nodes s.report) (allows s i)) (keys d.nodes) s i
