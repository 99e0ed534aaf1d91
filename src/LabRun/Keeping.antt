-- ===== src/LabRun/Keeping.antt =====
-- scripts/setup_lab.py: what each phase of a run keeps. A property of the state that each call of a
-- phase and each entry in the report keeps is kept by the phase, whether it ends or raises.
pub mod Machines
pub mod Addons
pub mod Clusters
pub mod Whole
use lab_in_a_box.Prelude.{
  ℕ, String, Bool, true, false, List, [], ◌∷◌, ◌≡◌, refl, All, mem, if◌then◌else◌, Dict, ◌≤◌, arith,
}
use lab_in_a_box.Result.{Error, Result, ok, raise}
use lab_in_a_box.Migrations.{Owner, Definition}
use lab_in_a_box.Kubernetes.Nodes.{in_cluster}
use lab_in_a_box.LabRun.{
  NodeStatus, node_failed, creation_failed, installed, install_failed, AddonStatus, finished,
  pending, failed_with, Scope, cluster_scope, node_scope, Exit, Problem, Report, add_node,
  add_cluster, add_addon, add_error, Call, service_install, service_configure, service_enable,
  add_kclu_dns, await_ssh, await_up, purge_known_host, destroy, provision, check_reusable, locate,
  read_boot_id, reboot, await_reboot, await_system, install_cluster, run_addon, run_command, stage,
  State, M, continue, ◌>>=◌, lift, attempt, called, reported, note, for_each, add_errors, perform,
}

-- No node of the cluster is among the failed ones.
abbrev pub AllUp : Definition → String → (failed : List String) → Type 0
AllUp d clu failed = All (λ n. in_cluster clu n ≡ true → mem n.0 failed ≡ false) d.nodes

-- Nothing is done to a node whose creation failed, nor to a cluster with such a node.
abbrev pub IsAllowed : Definition → (failed : List String) → Call → Type 0
IsAllowed d failed (install_cluster clu) = AllUp d clu failed
IsAllowed d failed (run_addon (cluster_scope clu) addon vm) = AllUp d clu failed
IsAllowed d failed (run_addon (node_scope v) addon vm) = mem v failed ≡ false
IsAllowed d failed (run_command vm target command) = mem vm failed ≡ false
IsAllowed d failed _ = Unit

-- What belongs to an early phase is allowed.
pub IsAllowed-stage :
    (d : Definition) (failed : List String) (c : Call) → stage c ≤ 3 → IsAllowed d failed c
IsAllowed-stage d failed (service_install n) h = tt
IsAllowed-stage d failed (service_configure n) h = tt
IsAllowed-stage d failed (service_enable n) h = tt
IsAllowed-stage d failed (add_kclu_dns clu) h = tt
IsAllowed-stage d failed (await_ssh vm) h = tt
IsAllowed-stage d failed (await_up vm) h = tt
IsAllowed-stage d failed (purge_known_host vm) h = tt
IsAllowed-stage d failed (destroy vm) h = tt
IsAllowed-stage d failed (provision vm) h = tt
IsAllowed-stage d failed (check_reusable vm answer) h = tt
IsAllowed-stage d failed (locate vm) h = tt
IsAllowed-stage d failed (read_boot_id vm) h = tt
IsAllowed-stage d failed (reboot vm place) h = tt
IsAllowed-stage d failed (await_reboot vm id) h = tt
IsAllowed-stage d failed (await_system server timeout) h = tt
IsAllowed-stage d failed (install_cluster clu) h = absurd (omega arith)
IsAllowed-stage d failed (run_addon (cluster_scope clu) addon vm) h = absurd (omega arith)
IsAllowed-stage d failed (run_addon (node_scope v) addon vm) h = absurd (omega arith)
IsAllowed-stage d failed (run_command vm target command) h = absurd (omega arith)

module _ (W : Type 0) (P : Call → Type 0) (Inv : State W → Type 0) where
  -- Kept by each call of a kind, and by each entry that a later phase makes.
  pub record Keeping : Type 0 where
    pub call : (c : Call) → P c → (s : State W) (w : W) → Inv s → Inv (called c w s)
    pub problem : (p : Problem) (s : State W) → Inv s → Inv (reported (add_error p) s)
    pub cluster :
        (clu : String) (s : State W) → Inv s → Inv (reported (add_cluster clu installed) s)
    pub cluster_failure :
        (clu : String) (p : Problem) (s : State W)
        → Inv s
        → Inv (reported (λ r. add_error p (add_cluster clu install_failed r)) s)
    pub addon_finished :
        (scope : Scope) (a : String) (s : State W)
        → Inv s
        → Inv (reported (add_addon scope a finished) s)
    pub addon_pending :
        (scope : Scope) (a : String) (s : State W)
        → Inv s
        → Inv (reported (add_addon scope a pending) s)
    pub addon_failure :
        (scope : Scope) (a : String) (e : Exit) (p : Problem) (s : State W)
        → Inv s
        → Inv (reported (λ r. add_error p (add_addon scope a (failed_with e) r)) s)

  -- Kept by each entry on a node.
  pub record KeepingNodes : Type 0 where
    pub node :
        (vm : String) (status : NodeStatus) (s : State W)
        → node_failed (vm, status) ≡ false
        → Inv s
        → Inv (reported (add_node vm status) s)
    pub node_failure :
        (vm : String) (p : Problem) (s : State W)
        → Inv s
        → Inv (reported (λ r. add_error p (add_node vm creation_failed r)) s)

module _ {W : Type 0} (Inv : State W → Type 0) where
  abbrev pub Keeps : {A : Type 0} → M W A → Type 0
  Keeps m = (s : State W) → Inv s → Inv (m s).1

module _ {W : Type 0} (Inv : State W → Type 0) {A B : Type 0} where
  pub Keeps-continue :
      (r : Result A) (f : A → M W B) → ((a : A) → Keeps Inv (f a)) → Keeps Inv (continue r f)
  Keeps-continue (ok a) f h s i = h a s i
  Keeps-continue (raise e) f h s i = i

  pub Keeps-bind :
      (m : M W A) (f : A → M W B) → Keeps Inv m → ((a : A) → Keeps Inv (f a)) → Keeps Inv (m >>= f)
  Keeps-bind m f hm hf s i = Keeps-continue (m s).0 f hf (m s).1 (hm s i)

module _ {W : Type 0} (Inv : State W → Type 0) {A : Type 0} where
  pub Keeps-for_each :
      (f : A → M W (Unit {0}))
      → ((a : A) → Keeps Inv (f a))
      → (list : List A) → Keeps Inv (for_each f list)
  Keeps-for_each f h [] s i = i
  Keeps-for_each f h (a ∷ list) s i =
      Keeps-continue Inv (f a s).0 (λ u. for_each f list) (λ u. Keeps-for_each f h list) (f a s).1
        (h a s i)

  pub Keeps-if :
      (b : Bool) (m n : M W A)
      → (b ≡ true → Keeps Inv m)
      → (b ≡ false → Keeps Inv n)
      → Keeps Inv (if b then m else n)
  Keeps-if true m n hm hn = hm refl
  Keeps-if false m n hm hn = hn refl
