-- ===== src/LabRun/Kept.antt =====
-- scripts/setup_lab.py: with --keep, which machines a run destroys.
use mathlib.Core.Path.{subst}
use lab_in_a_box.Prelude.{
  ℕ, String, Bool, true, false, List, [], ◌∷◌, ◌≡◌, ◌≤◌, ◌⊎◌, inl, inr, refl, sym, arith,
}
use lab_in_a_box.Result.{
  Result, ok, raise, value_error, index_error, key_error, type_error, attribute_error, remote_error,
  runtime_error, decryption_error, died,
}
use lab_in_a_box.Migrations.{Owner, Definition}
use lab_in_a_box.LabRun.{
  existing, add_node, Call, service_install, service_configure, service_enable, add_kclu_dns,
  await_ssh, await_up, purge_known_host, destroy, provision, check_reusable, locate, read_boot_id,
  reboot, await_reboot, install_cluster, await_system, run_addon, cluster_scope, node_scope,
  run_command, stage, about, Outside, State, continue, called, ◌>>=◌, ◌>>◌, note,
}
use lab_in_a_box.LabRun.Targets.{is_existing_node}
use lab_in_a_box.LabRun.Machines.{recreate, kept_by, act, keep_check, after_check, create_one_vm}
use lab_in_a_box.LabRun.Whole.{Setting, setup_lab}
use lab_in_a_box.LabRun.Keeping.{Keeping, KeepingNodes, Keeps, Keeps-if, Keeps-bind}
use lab_in_a_box.LabRun.Keeping.Machines.{after_check-Keeps}
use lab_in_a_box.LabRun.Keeping.Whole.{Story, setup_lab-Goal}

-- The backend says that the machine does not match the definition, or no host has it.
abbrev pub SaysNo : Result Bool → Type 0
SaysNo (ok false) = Unit
SaysNo (raise (died m)) = Unit
SaysNo _ = ⊥

-- An earlier check of the machine said no.
abbrev pub HasNo : String → List Call → Type 0
HasNo vm [] = ⊥
HasNo vm (check_reusable v answer ∷ calls) = ((v ≡ vm) × SaysNo answer) ⊎ HasNo vm calls
HasNo vm (_ ∷ calls) = HasNo vm calls

-- No machine is destroyed, or created, without such a check before.
abbrev pub IsChecked : List Call → Type 0
IsChecked [] = Unit
IsChecked (destroy vm ∷ calls) = HasNo vm calls × IsChecked calls
IsChecked (provision vm ∷ calls) = HasNo vm calls × IsChecked calls
IsChecked (_ ∷ calls) = IsChecked calls

IsChecked-other :
    (c : Call) (calls : List Call) → (stage c ≡ 2 → ⊥) → IsChecked calls → IsChecked (c ∷ calls)
IsChecked-other (destroy vm) calls ne h = absurd (ne refl)
IsChecked-other (provision vm) calls ne h = absurd (ne refl)
IsChecked-other (service_install n) calls ne h = h
IsChecked-other (service_configure n) calls ne h = h
IsChecked-other (service_enable n) calls ne h = h
IsChecked-other (add_kclu_dns clu) calls ne h = h
IsChecked-other (await_ssh vm) calls ne h = h
IsChecked-other (await_up vm) calls ne h = h
IsChecked-other (purge_known_host vm) calls ne h = h
IsChecked-other (check_reusable vm answer) calls ne h = h
IsChecked-other (locate vm) calls ne h = h
IsChecked-other (read_boot_id vm) calls ne h = h
IsChecked-other (reboot vm place) calls ne h = h
IsChecked-other (await_reboot vm id) calls ne h = h
IsChecked-other (install_cluster clu) calls ne h = h
IsChecked-other (await_system server timeout) calls ne h = h
IsChecked-other (run_addon scope addon vm) calls ne h = h
IsChecked-other (run_command vm target command) calls ne h = h

-- The machine may be destroyed.
abbrev IsFree : String → List Call → Type 0
IsFree vm calls = HasNo vm calls × IsChecked calls

IsFree-call :
    (vm : String) (c : Call) (calls : List Call)
    → (stage c ≡ 2) × (about c ≡ vm)
    → IsFree vm calls
    → IsFree vm (c ∷ calls)
IsFree-call vm (await_ssh v) calls e f = f
IsFree-call vm (purge_known_host v) calls e f = f
IsFree-call vm (destroy v) calls e f = (f.0, (subst (λ x. HasNo x calls) (sym e.1) f.0, f.1))
IsFree-call vm (provision v) calls e f = (f.0, (subst (λ x. HasNo x calls) (sym e.1) f.0, f.1))
IsFree-call vm (check_reusable v answer) calls e f = (inr f.0, f.1)
IsFree-call vm (service_install n) calls e f = absurd (omega (arith, e.0))
IsFree-call vm (service_configure n) calls e f = absurd (omega (arith, e.0))
IsFree-call vm (service_enable n) calls e f = absurd (omega (arith, e.0))
IsFree-call vm (add_kclu_dns clu) calls e f = absurd (omega (arith, e.0))
IsFree-call vm (await_up v) calls e f = absurd (omega (arith, e.0))
IsFree-call vm (locate v) calls e f = absurd (omega (arith, e.0))
IsFree-call vm (read_boot_id v) calls e f = absurd (omega (arith, e.0))
IsFree-call vm (reboot v place) calls e f = absurd (omega (arith, e.0))
IsFree-call vm (await_reboot v id) calls e f = absurd (omega (arith, e.0))
IsFree-call vm (install_cluster clu) calls e f = absurd (omega (arith, e.0))
IsFree-call vm (await_system server timeout) calls e f = absurd (omega (arith, e.0))
IsFree-call vm (run_addon (cluster_scope clu) addon v) calls e f = absurd (omega (arith, e.0))
IsFree-call vm (run_addon (node_scope n) addon v) calls e f = absurd (omega (arith, e.0))
IsFree-call vm (run_command v target command) calls e f = absurd (omega (arith, e.0))

module _ {W : Type 0} where
  abbrev Checks : State W → Type 0
  Checks s = IsChecked s.calls

  abbrev Frees : String → State W → Type 0
  Frees vm s = IsFree vm s.calls

  Checks-keeping : Keeping W (λ c. stage c ≡ 2 → ⊥) Checks
  Checks-keeping = record {
    call = λ c p s w i. IsChecked-other c s.calls p i;
    problem = λ p s i. i;
    cluster = λ clu s i. i;
    cluster_failure = λ clu p s i. i;
    addon_finished = λ scope a s i. i;
    addon_pending = λ scope a s i. i;
    addon_failure = λ scope a e p s i. i;
  }

  Frees-keeping : (vm : String) → Keeping W (λ c. (stage c ≡ 2) × (about c ≡ vm)) (Frees vm)
  Frees-keeping vm = record {
    call = λ c p s w i. IsFree-call vm c s.calls p i;
    problem = λ p s i. i;
    cluster = λ clu s i. i;
    cluster_failure = λ clu p s i. i;
    addon_finished = λ scope a s i. i;
    addon_pending = λ scope a s i. i;
    addon_failure = λ scope a e p s i. i;
  }

  Frees-nodes : (vm : String) → KeepingNodes W (λ c. (stage c ≡ 2) × (about c ≡ vm)) (Frees vm)
  Frees-nodes vm = record { node = λ v status s e i. i; node_failure = λ v p s i. i }

module _ {W : Type 0} (out : Outside W) where
  -- What is done behind the check, as its answer is.
  after_answer :
      (vm : String) (answer : Result Bool) (s : State W)
      → IsChecked s.calls
      → ((SaysNo answer) → HasNo vm s.calls)
      → Checks (continue (kept_by answer) (after_check out vm) s).1
  unfolding kept_by
  after_answer vm (ok true) s i says = i
  after_answer vm (ok false) s i says = recreated vm s (says tt, i)
    where
      recreated : (v : String) (t : State W) → Frees v t → Checks (after_check out v recreate t).1
      recreated v t f =
          (after_check-Keeps out (λ c. (stage c ≡ 2) × (about c ≡ v)) (Frees v) (Frees-keeping v)
            (Frees-nodes v) v (λ c e a. (e, a)) recreate t f).1
  after_answer vm (raise (died m)) s i says =
      (after_check-Keeps out (λ c. (stage c ≡ 2) × (about c ≡ vm)) (Frees vm) (Frees-keeping vm)
        (Frees-nodes vm) vm (λ c e a. (e, a)) recreate s (says tt, i)).1
  after_answer vm (raise remote_error) s i says = i
  after_answer vm (raise runtime_error) s i says = i
  after_answer vm (raise value_error) s i says = i
  after_answer vm (raise index_error) s i says = i
  after_answer vm (raise key_error) s i says = i
  after_answer vm (raise type_error) s i says = i
  after_answer vm (raise attribute_error) s i says = i
  after_answer vm (raise decryption_error) s i says = i

  create_one_vm-Checks : (n : String × Owner) → Keeps Checks (create_one_vm out true n)
  unfolding create_one_vm
  create_one_vm-Checks (vm, o) =
      Keeps-if Checks (is_existing_node o.fields)
        (act out (await_ssh vm) >> note (add_node vm existing))
        (keep_check out true vm >>= after_check out vm)
        (λ e.
          Keeps-bind Checks (act out (await_ssh vm)) (λ u. note (add_node vm existing)) (λ s i. i)
            (λ u s i. i))
        (λ e s i.
          after_answer vm (out.reusable vm s.world).0
            (called (check_reusable vm (out.reusable vm s.world).0) (out.reusable vm s.world).1 s) i
            (λ no. inl (refl, no)))

module _ {W : Type 0} (out : Outside W) (env : Setting) (d : Definition) where
  story :
      Story out env d
        (λ k c. stage c ≡ 2 → ⊥)
        (λ k. Checks)
        (λ f k c. stage c ≡ 2 → ⊥)
        (λ f k. Checks)
        Checks
        true
  story = record {
    early = λ k h. Checks-keeping;
    early_call = λ k c h e. early_stage k c h e;
    early_next = λ k s h i. i;
    early_end = λ k s h i. i;
    machine = create_one_vm-Checks out;
    switch = λ s i. i;
    late = λ f k h. Checks-keeping;
    late_call = λ f k s c h i e a. late_stage k c h e;
    late_next = λ f k s h i. i;
    late_end = λ f k s h i. i;
  }
    where
      early_stage : (k : ℕ) (c : Call) → k ≤ 1 → stage c ≡ k → stage c ≡ 2 → ⊥
      early_stage k c h e two = omega arith

      late_stage : (k : ℕ) (c : Call) → 3 ≤ k → stage c ≡ k → stage c ≡ 2 → ⊥
      late_stage k c h e two = omega arith

  -- Whatever happens outside, and however the run ends: with --keep, and from a state without calls, a
  -- run destroys or creates a machine only behind a check of it in which the backend said that the
  -- machine does not match the definition, or ended with SystemExit.
  pub setup_lab-IsChecked :
      (parallel : ℕ) (s : State W)
      → s.calls ≡ []
      → IsChecked (setup_lab out env d true parallel s).1.calls
  setup_lab-IsChecked parallel s e =
      setup_lab-Goal out env d (λ k c. stage c ≡ 2 → ⊥) (λ k. Checks) (λ f k c. stage c ≡ 2 → ⊥)
        (λ f k. Checks) Checks true story parallel s (subst IsChecked (sym e) tt)
