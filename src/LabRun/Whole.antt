-- ===== src/LabRun/Whole.antt =====
-- scripts/setup_lab.py: phase_services, and setup_lab, the phases in their order.
use lab_in_a_box.Prelude.{
  ℕ, String, Bool, Option, none, some, List, [], ◌∷◌, Dict, get, if◌then◌else◌,
}
use lab_in_a_box.Result.{Result, ok, raise, type_error}
use lab_in_a_box.Migrations.{Value, text, items, Config, Owner, Definition, truthy}
use lab_in_a_box.Hosts.{common_of}
use lab_in_a_box.Kubernetes.{Plugin}
use lab_in_a_box.LabRun.{
  service_install, service_configure, service_enable, Outside, M, ◌>>=◌, ◌>>◌, pure, lift, for_each,
}
use lab_in_a_box.LabRun.Machines.{act, phase_create_vms, phase_reboot_and_wait_kept_nodes}
use lab_in_a_box.LabRun.Clusters.{
  phase_dns, phase_install_k8s_and_addons, phase_vm_addons, phase_post_commands,
}

-- The characters that a loop over a text gives.
abbrev characters : String → List String
characters String.[] = []
characters (String.◌∷◌ c s) = String.◌∷◌ c String.[] ∷ characters s

-- for name in definition["common"].get("services") or []
abbrev pub services_of : Option Value → Result (List String)
services_of none = ok []
services_of (some (text s)) = ok (characters s)
services_of (some (items names)) = ok names
services_of (some v) = if truthy v then raise type_error else ok []

-- What a run has besides the definition: where installers and services are found, what add-ons declare,
-- Python's str(), and the order in which the workers end.
pub record Setting : Type 0 where
  pub str_of : Value → String
  pub plugin_of : String → Plugin
  pub installer_of : String → Option String
  pub service : String → Result (Unit {0})
  pub finishing : Dict Owner → Dict Owner
  pub defaults : Config

module _ {W : Type 0} (out : Outside W) (env : Setting) (d : Definition) where
  abbrev pub set_up_service : String → M W (Unit {0})
  set_up_service name =
      lift (env.service name)
      >> (act out (service_install name)
          >> (act out (service_configure name) >> act out (service_enable name)))

  unfoldable pub phase_services : M W (Unit {0})
  phase_services =
      lift (services_of (get "services" (common_of d))) >>= λ names. for_each set_up_service names

  abbrev pub when_k8s : Dict Owner → M W (Unit {0}) → M W (Unit {0})
  when_k8s [] m = pure tt
  when_k8s (k ∷ kclusters) m = m

  -- without the summary
  unfoldable pub setup_lab : (keep : Bool) → (parallel : ℕ) → M W (Unit {0})
  setup_lab keep parallel =
      phase_services
      >> (when_k8s d.kclusters (phase_dns out d)
          >> (phase_create_vms out env.finishing d keep parallel
              >> (when_k8s d.kclusters (
                    phase_reboot_and_wait_kept_nodes out d keep
                    >> phase_install_k8s_and_addons out env.str_of env.plugin_of env.installer_of d
                        env.defaults)
                  >> (phase_vm_addons out env.str_of env.plugin_of env.installer_of d
                      >> phase_post_commands out env.str_of env.plugin_of env.installer_of d))))
