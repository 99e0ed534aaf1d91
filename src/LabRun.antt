-- ===== src/LabRun.antt =====
-- scripts/setup_lab.py: a run that sets a lab up. Its report (_RunReport, without the resources of the
-- lab, which are only shown), the calls that it makes of backends, add-ons and machines, and what a try
-- around such a call does. What a call does, and what it answers, is up to the outside, on a world of any
-- type. Each call is recorded, the newest first.
pub mod Targets
pub mod Machines
pub mod Clusters
pub mod Whole
pub mod Keeping
pub mod Backed
pub mod Reported
pub mod Order
pub mod Spared
pub mod Kept
pub mod Complete
pub mod AddonOrder
pub mod Main
pub mod Gate
use lab_in_a_box.Prelude.{
  ℕ, String, Bool, true, false, ◌||◌, Option, List, [], ◌∷◌, ◌++◌, any, keep, map, eqb, not,
}
use lab_in_a_box.Result.{Error, Result, ok, raise, remote_error, runtime_error, died}

pub data NodeStatus : Type 0 where
  created reused existing creation_failed : NodeStatus

pub data ClusterStatus : Type 0 where
  installed install_failed : ClusterStatus

-- The return code of a process: its exit status, or the signal that ended it.
pub data Exit : Type 0 where
  exited : ℕ → Exit
  signalled : ℕ → Exit

pub data AddonStatus : Type 0 where
  finished pending : AddonStatus
  failed_with : Exit → AddonStatus

pub data Scope : Type 0 where
  cluster_scope node_scope : String → Scope

-- A line of the summary: what it is about, or its text.
pub data Problem : Type 0 where
  keep_check_failed destroy_failed provision_failed install_error : String → Problem
  install_skipped : (clu : String) → List String → Problem
  addon_exited : Scope → (addon : String) → Exit → Problem
  command_failed : (vm command : String) → Problem
  message : String → Problem

pub record Report : Type 0 where
  pub nodes : List (String × NodeStatus)
  pub clusters : List (String × ClusterStatus)
  pub addons : List (Scope × String × AddonStatus)
  pub warnings : List Problem
  pub errors : List Problem

abbrev pub add_node : String → NodeStatus → Report → Report
add_node name status r = record r { nodes = r.nodes ++ (name, status) ∷ [] }

abbrev pub add_cluster : String → ClusterStatus → Report → Report
add_cluster name status r = record r { clusters = r.clusters ++ (name, status) ∷ [] }

abbrev pub add_addon : Scope → String → AddonStatus → Report → Report
add_addon scope name status r = record r { addons = r.addons ++ (scope, name, status) ∷ [] }

abbrev pub add_warning : Problem → Report → Report
add_warning p r = record r { warnings = r.warnings ++ p ∷ [] }

abbrev pub add_error : Problem → Report → Report
add_error p r = record r { errors = r.errors ++ p ∷ [] }

abbrev pub node_failed : String × NodeStatus → Bool
node_failed (name, creation_failed) = true
node_failed (name, _) = false

abbrev pub cluster_failed : String × ClusterStatus → Bool
cluster_failed (name, install_failed) = true
cluster_failed (name, installed) = false

abbrev pub addon_failed : Scope × String × AddonStatus → Bool
addon_failed (scope, name, failed_with e) = true
addon_failed (scope, name, _) = false

abbrev is_pending : Scope × String × AddonStatus → Bool
is_pending (scope, name, pending) = true
is_pending (scope, name, _) = false

-- bool(self.errors)
abbrev pub has_errors : Report → Bool
has_errors r = any (λ p. true) r.errors

unfoldable pub failed : Report → Bool
failed r =
    has_errors r
    || (any node_failed r.nodes || (any cluster_failed r.clusters || any addon_failed r.addons))

-- {name for name, status in _report.nodes if status == "FAILED"}
abbrev pub failed_nodes : Report → List String
failed_nodes r = map (λ p. p.0) (keep node_failed r.nodes)

-- What print_summary says last.
pub data Verdict : Type 0 where
  with_failures not_usable_yet with_warnings everything_ok : Verdict

unfoldable pub verdict : Report → Verdict
unfolding failed
verdict r = elim (failed r) [
  | true ↦ with_failures
  | false ↦ elim (any is_pending r.addons) [
    | true ↦ not_usable_yet
    | false ↦ elim (any (λ p. true) r.warnings) [ true ↦ with_warnings | false ↦ everything_ok ]
  ]
]

-- sys.exit(1 if _report.failed else 0)
unfoldable pub exit_status : Report → ℕ
unfolding failed
exit_status r = elim (failed r) [ true ↦ 1 | false ↦ 0 ]

abbrev pub is_success : Exit → Bool
is_success (exited n) = eqb n 0
is_success (signalled n) = false

-- _addon_status, with whether a step was handed off to a background worker
unfoldable pub addon_status : Exit → (handed_off : Bool) → AddonStatus
addon_status e handed_off = elim (is_success e) [
  | false ↦ failed_with e
  | true ↦ elim handed_off [ true ↦ pending | false ↦ finished ]
]

-- A call of what lies outside of this program. A check for --keep is recorded with its answer.
-- check_ssh_conn is await_ssh for a host that exists, and await_up behind a reboot.
pub data Call : Type 0 where
  service_install service_configure service_enable : (service : String) → Call
  add_kclu_dns : (clu : String) → Call
  await_ssh await_up purge_known_host destroy provision locate read_boot_id : (vm : String) → Call
  check_reusable : (vm : String) → Result Bool → Call
  reboot : (vm : String) → String × String → Call
  await_reboot : (vm boot_id : String) → Call
  install_cluster : (clu : String) → Call
  await_system : (server : String) → (timeout : ℕ) → Call
  run_addon : Scope → (addon vm : String) → Call
  run_command : (vm target command : String) → Call

pub record Outside (W : Type 0) : Type 0 where
  -- a call without a result
  pub act : Call → W → Result (Unit {0}) × W
  -- backends.get_backend and vm_is_reusable
  pub reusable : (vm : String) → W → Result Bool × W
  -- provision_vm, with its messages
  pub provisioned : (vm : String) → W → Result (List String) × W
  pub located : (vm : String) → W → Result (String × String) × W
  pub boot_id : (vm : String) → W → Result String × W
  -- the return code of an installer, and whether it handed a step off
  pub addon_run : (installer vm : String) → Scope → W → Result (Exit × Bool) × W

pub record State (W : Type 0) : Type 0 where
  pub world : W
  pub report : Report
  pub calls : List Call

abbrev pub M : Type 0 → Type 0 → Type 0
M W A = State W → Result A × State W

abbrev pub continue : {W A B : Type 0} → Result A → (A → M W B) → M W B
continue (ok a) f s = f a s
continue (raise e) f s = (raise e, s)

infixl 5 ◌>>=◌ ◌>>◌
abbrev pub ◌>>=◌ : {W A B : Type 0} → M W A → (A → M W B) → M W B
◌>>=◌ m f s = let (r, t) = m s in continue r f t

abbrev pub ◌>>◌ : {W B : Type 0} → M W (Unit {0}) → M W B → M W B
m >> k = m >>= λ _. k

abbrev pub pure : {W A : Type 0} → A → M W A
pure a s = (ok a, s)

abbrev pub lift : {W A : Type 0} → Result A → M W A
lift r s = (r, s)

-- try: what was raised is a value
abbrev pub attempt : {W A : Type 0} → M W A → M W (Result A)
attempt m s = let (r, t) = m s in (ok r, t)

-- except RuntimeError
abbrev pub is_runtime_error : Error → Bool
is_runtime_error remote_error = true
is_runtime_error runtime_error = true
is_runtime_error _ = false

-- except SystemExit
abbrev pub is_system_exit : Error → Bool
is_system_exit (died m) = true
is_system_exit _ = false

-- The phase that a call belongs to: services, DNS, machines, reboots, clusters, add-ons of the nodes,
-- and commands of the nodes.
abbrev pub stage : Call → ℕ
stage (service_install n) = 0
stage (service_configure n) = 0
stage (service_enable n) = 0
stage (add_kclu_dns clu) = 1
stage (await_ssh vm) = 2
stage (purge_known_host vm) = 2
stage (destroy vm) = 2
stage (provision vm) = 2
stage (check_reusable vm answer) = 2
stage (locate vm) = 3
stage (read_boot_id vm) = 3
stage (reboot vm place) = 3
stage (await_reboot vm id) = 3
stage (await_up vm) = 3
stage (install_cluster clu) = 4
stage (await_system server timeout) = 4
stage (run_addon (cluster_scope clu) addon vm) = 4
stage (run_addon (node_scope v) addon vm) = 5
stage (run_command vm target command) = 6

-- The machine that a call of the machines' phase is about.
abbrev pub about : Call → String
about (await_ssh vm) = vm
about (purge_known_host vm) = vm
about (destroy vm) = vm
about (provision vm) = vm
about (check_reusable vm answer) = vm
about _ = ""

abbrev pub called : {W : Type 0} → Call → W → State W → State W
called c w s = record { world = w; report = s.report; calls = c ∷ s.calls }

abbrev pub reported : {W : Type 0} → (Report → Report) → State W → State W
reported f s = record { world = s.world; report = f s.report; calls = s.calls }

abbrev pub perform : {W A : Type 0} → Call → (W → Result A × W) → M W A
perform c f s = let (r, w) = f s.world in (r, called c w s)

abbrev pub note : {W : Type 0} → (Report → Report) → M W (Unit {0})
note f s = (ok tt, reported f s)

abbrev pub report_of : {W : Type 0} → M W Report
report_of s = (ok s.report, s)

abbrev pub for_each : {W A : Type 0} → (A → M W (Unit {0})) → List A → M W (Unit {0})
for_each f [] s = (ok tt, s)
for_each f (a ∷ list) s = let (r, t) = f a s in continue r (λ _. for_each f list) t

abbrev pub add_errors : {W : Type 0} → List Problem → M W (Unit {0})
add_errors ps = for_each (λ p. note (add_error p)) ps
