-- ===== src/LabRun/Keeping/Whole.antt =====
-- scripts/setup_lab.py: what a whole run comes to, from what its phases keep. A run may raise in any
-- phase; the phases up to the creation of the machines, and those behind it, keep a property each.
use lab_in_a_box.Prelude.{ℕ, suc, String, Bool, List, [], ◌∷◌, ◌≡◌, ◌≤◌, refl, Dict, get, arith}
use lab_in_a_box.Result.{Result, ok, raise}
use lab_in_a_box.Migrations.{Owner, Definition}
use lab_in_a_box.Hosts.{common_of}
use lab_in_a_box.LabRun.{
  Call, service_install, service_configure, service_enable, stage, Outside, State, M, continue,
  ◌>>◌, failed_nodes,
}
use lab_in_a_box.LabRun.Machines.{
  act, create_one_vm, phase_create_vms, phase_reboot_and_wait_kept_nodes,
}
use lab_in_a_box.LabRun.Clusters.{
  phase_dns, phase_install_k8s_and_addons, phase_vm_addons, phase_post_commands,
}
use lab_in_a_box.LabRun.Whole.{
  Setting, services_of, set_up_service, phase_services, when_k8s, setup_lab,
}
use lab_in_a_box.LabRun.Keeping.{
  IsAllowed, IsAllowed-stage, Keeping, Keeps, Keeps-continue, Keeps-bind, Keeps-for_each,
}
use lab_in_a_box.LabRun.Keeping.Machines.{act-Keeps, phase_create_vms-Keeps, phase_reboot-Keeps}
use lab_in_a_box.LabRun.Keeping.Clusters.{
  phase_dns-Keeps, phase_install-Keeps, phase_vm_addons-Keeps, phase_post-Keeps,
}

module _ {W : Type 0} (out : Outside W) (env : Setting) (d : Definition) where
  pub phase_services-Keeps :
      (P : Call → Type 0) (Inv : State W → Type 0)
      → Keeping W P Inv
      → ((c : Call) → stage c ≡ 0 → P c)
      → Keeps Inv (phase_services out env d)
  unfolding phase_services
  phase_services-Keeps P Inv k allows =
      Keeps-continue Inv (services_of (get "services" (common_of d))) _ (λ names.
        Keeps-for_each Inv (set_up_service out env d)
          (λ name. Keeps-continue Inv (env.service name) _ (λ u.
            Keeps-bind Inv (act out (service_install name)) _
              (act-Keeps out P Inv k (service_install name) (allows _ refl))
              (λ v.
                Keeps-bind Inv (act out (service_configure name)) _
                  (act-Keeps out P Inv k (service_configure name) (allows _ refl))
                  (λ w. act-Keeps out P Inv k (service_enable name) (allows _ refl)))))
          names)

  module _ (P : ℕ → Call → Type 0) (Early : ℕ → State W → Type 0)
      (Q : List String → ℕ → Call → Type 0) (Late : List String → ℕ → State W → Type 0)
      (Goal : State W → Type 0) (keep_them : Bool) where
    -- What has to be shown of the two properties, the second for the nodes that failed.
    pub record Story : Type 0 where
      pub early : (k : ℕ) → k ≤ 1 → Keeping W (P k) (Early k)
      pub early_call : (k : ℕ) (c : Call) → k ≤ 1 → stage c ≡ k → P k c
      pub early_next : (k : ℕ) (s : State W) → k ≤ 1 → Early k s → Early (suc k) s
      pub early_end : (k : ℕ) (s : State W) → k ≤ 2 → Early k s → Goal s
      pub machine : (n : String × Owner) → Keeps (Early 2) (create_one_vm out keep_them n)
      pub switch : (s : State W) → Early 2 s → Late (failed_nodes s.report) 3 s
      pub late : (failed : List String) (k : ℕ) → 3 ≤ k → Keeping W (Q failed k) (Late failed k)
      pub late_call :
          (failed : List String) (k : ℕ) (s : State W) (c : Call)
          → 3 ≤ k
          → Late failed k s
          → stage c ≡ k
          → IsAllowed d (failed_nodes s.report) c
          → Q failed k c
      pub late_next :
          (failed : List String) (k : ℕ) (s : State W)
          → 3 ≤ k
          → Late failed k s
          → Late failed (suc k) s
      pub late_end : (failed : List String) (k : ℕ) (s : State W) → 3 ≤ k → Late failed k s → Goal s

    module _ (story : Story) where
      continue-Goal :
          (r : Result {0} Unit) (m : M W (Unit {0})) (s : State W)
          → Goal s
          → Goal (m s).1
          → Goal (continue r (λ u. m) s).1
      continue-Goal (ok u) m s stopped went_on = went_on
      continue-Goal (raise e) m s stopped went_on = stopped

      when_k8s-Keeps :
          (Inv : State W → Type 0) (kclusters : Dict Owner) (m : M W (Unit {0}))
          → Keeps Inv m
          → Keeps Inv (when_k8s out env d kclusters m)
      when_k8s-Keeps Inv [] m h s i = i
      when_k8s-Keeps Inv (c ∷ kclusters) m h s i = h s i

      nodes_part : M W (Unit {0})
      nodes_part =
          phase_vm_addons out env.str_of env.plugin_of env.installer_of d
          >> phase_post_commands out env.str_of env.plugin_of env.installer_of d

      clusters_part : M W (Unit {0})
      clusters_part =
          phase_reboot_and_wait_kept_nodes out d keep_them
          >> phase_install_k8s_and_addons out env.str_of env.plugin_of env.installer_of d
              env.defaults

      clusters_part-Late :
          (failed : List String) (s : State W) → Late failed 3 s → Late failed 4 (clusters_part s).1
      unfolding clusters_part
      clusters_part-Late failed s l = by_result (reboots s).0 (reboots s).1 refl (
          phase_reboot-Keeps out (Q failed 3) (Late failed 3) (story.late failed 3 (omega arith))
            (λ c e.
              story.late_call failed 3 s c (omega arith) l e
                (IsAllowed-stage d (failed_nodes s.report) c (omega arith)))
            d keep_them s l)
        where
          reboots : M W (Unit {0})
          reboots = phase_reboot_and_wait_kept_nodes out d keep_them

          installs : M W (Unit {0})
          installs =
              phase_install_k8s_and_addons out env.str_of env.plugin_of env.installer_of d
                env.defaults

          by_result :
              (r : Result {0} Unit) (t : State W)
              → (reboots s).1 ≡ t
              → Late failed 3 t
              → Late failed 4 (continue r (λ u. installs) t).1
          by_result (raise e) t same k = story.late_next failed 3 t (omega arith) k
          by_result (ok u) t same k =
              phase_install-Keeps out (Q failed 4) (Late failed 4)
                (story.late failed 4 (omega arith)) env.str_of env.plugin_of env.installer_of d
                env.defaults (λ v j c. story.late_call failed 4 v c (omega arith) j) t
                (story.late_next failed 3 t (omega arith) k)

      nodes_part-Goal :
          (failed : List String) (s : State W) → Late failed 5 s → Goal (nodes_part s).1
      unfolding nodes_part
      nodes_part-Goal failed s l =
          let after =
            phase_vm_addons-Keeps out (Q failed 5) (Late failed 5)
              (story.late failed 5 (omega arith)) env.str_of env.plugin_of env.installer_of d
              (λ v j c. story.late_call failed 5 v c (omega arith) j) s l in
          continue-Goal (addons s).0 commands (addons s).1
            (story.late_end failed 5 (addons s).1 (omega arith) after)
            (story.late_end failed 6 _ (omega arith) (
              phase_post-Keeps out (Q failed 6) (Late failed 6) (story.late failed 6 (omega arith))
                env.str_of env.plugin_of env.installer_of d
                (λ v j c. story.late_call failed 6 v c (omega arith) j) (addons s).1
                (story.late_next failed 5 (addons s).1 (omega arith) after)))
        where
          addons : M W (Unit {0})
          addons = phase_vm_addons out env.str_of env.plugin_of env.installer_of d

          commands : M W (Unit {0})
          commands = phase_post_commands out env.str_of env.plugin_of env.installer_of d

      when_k8s-Late :
          (failed : List String) (kclusters : Dict Owner) (s : State W)
          → Late failed 3 s
          → Late failed 4 (when_k8s out env d kclusters clusters_part s).1
      when_k8s-Late failed [] s l = story.late_next failed 3 s (omega arith) l
      when_k8s-Late failed (c ∷ kclusters) s l = clusters_part-Late failed s l

      after_machines : M W (Unit {0})
      after_machines = when_k8s out env d d.kclusters clusters_part >> nodes_part

      after_machines-Goal : (s : State W) → Early 2 s → Goal (after_machines s).1
      unfolding after_machines
      after_machines-Goal s e =
          let l = when_k8s-Late (failed_nodes s.report) d.kclusters s (story.switch s e) in
          continue-Goal (clusters s).0 nodes_part (clusters s).1
            (story.late_end (failed_nodes s.report) 4 (clusters s).1 (omega arith) l)
            (nodes_part-Goal (failed_nodes s.report) (clusters s).1
              (story.late_next (failed_nodes s.report) 4 (clusters s).1 (omega arith) l))
        where
          clusters : M W (Unit {0})
          clusters = when_k8s out env d d.kclusters clusters_part

      -- Whatever a run does, and however it ends, it ends in a state with the property.
      pub setup_lab-Goal :
          (parallel : ℕ) (s : State W)
          → Early 0 s
          → Goal (setup_lab out env d keep_them parallel s).1
      unfolding setup_lab after_machines clusters_part nodes_part
      setup_lab-Goal parallel s e =
          let served =
            phase_services-Keeps (P 0) (Early 0) (story.early 0 (omega arith))
              (λ c q. story.early_call 0 c (omega arith) q) s e in
          let named =
            when_k8s-Keeps (Early 1) d.kclusters (phase_dns out d)
              (phase_dns-Keeps out (P 1) (Early 1) (story.early 1 (omega arith))
                (λ c q. story.early_call 1 c (omega arith) q) d)
              (services s).1 (story.early_next 0 (services s).1 (omega arith) served) in
          let made =
            phase_create_vms-Keeps out (Early 2) env.finishing d keep_them parallel story.machine
              (dns (services s).1).1
              (story.early_next 1 (dns (services s).1).1 (omega arith) named) in
          continue-Goal (services s).0 (dns >> (machines >> after_machines)) (services s).1
            (story.early_end 0 (services s).1 (omega arith) served)
            (continue-Goal (dns (services s).1).0 (machines >> after_machines)
              (dns (services s).1).1 (story.early_end 1 (dns (services s).1).1 (omega arith) named)
              (continue-Goal (machines (dns (services s).1).1).0 after_machines
                (machines (dns (services s).1).1).1
                (story.early_end 2 (machines (dns (services s).1).1).1 (omega arith) made)
                (after_machines-Goal (machines (dns (services s).1).1).1 made)))
        where
          services : M W (Unit {0})
          services = phase_services out env d

          dns : M W (Unit {0})
          dns = when_k8s out env d d.kclusters (phase_dns out d)

          machines : M W (Unit {0})
          machines = phase_create_vms out env.finishing d keep_them parallel
