-- ===== src/LabRun/Reported.antt =====
-- scripts/setup_lab.py: a run that ends without an exception has reported each node of its definition.
use lab_in_a_box.Prelude.{
  ℕ, String, Bool, true, false, List, [], ◌∷◌, ◌++◌, ◌≡◌, ◌∙◌, refl, sym, ap, keys, append_assoc,
  append-nil, Bool-cases, inl, inr, any, map, Dict,
}
use lab_in_a_box.Result.{
  Result, ok, raise, value_error, index_error, key_error, type_error, attribute_error, remote_error,
  runtime_error, decryption_error, died,
}
use lab_in_a_box.Migrations.{Owner, Definition}
use lab_in_a_box.LabRun.{
  existing, await_ssh, purge_known_host, destroy, provision, check_reusable, Call, Outside, State,
  M, message, continue, for_each, called, note, add_node, node_failed, ◌>>◌, ◌>>=◌,
}
use lab_in_a_box.LabRun.Targets.{is_existing_node}
use lab_in_a_box.LabRun.Machines.{
  Kept, recreate, reuse, unreachable, kept_by, after_destroy, after_provision, act, keep_check,
  provisioning, after_check, create_one_vm, phase_create_vms, phase_reboot_and_wait_kept_nodes,
}
use lab_in_a_box.LabRun.Clusters.{
  phase_dns, phase_install_k8s_and_addons, phase_vm_addons, phase_post_commands,
}
use lab_in_a_box.LabRun.Whole.{Setting, phase_services, when_k8s, setup_lab}
use lab_in_a_box.LabRun.Complete.{node_names, Reports-node, add_errors-Reports}
use lab_in_a_box.LabRun.Keeping.{Keeping}
use lab_in_a_box.LabRun.Keeping.Machines.{phase_reboot-Keeps}
use lab_in_a_box.LabRun.Keeping.Clusters.{
  phase_dns-Keeps, phase_install-Keeps, phase_vm_addons-Keeps, phase_post-Keeps,
}
use lab_in_a_box.LabRun.Keeping.Whole.{phase_services-Keeps}
use lab_in_a_box.LabRun.Main.{Options, Program, main_with}
use lab_in_a_box.LabRun.Gate.{Passed, main_with-Succeeded}

module _ {W : Type 0} where
  -- Where it does not raise, these nodes are reported behind the others.
  abbrev Names : List String → State W → Result (Unit {0}) × State W → Type 0
  Names vms s end = end.0 ≡ ok tt → node_names end.1 ≡ node_names s ++ vms

  Names-continue :
      (r : Result {0} Unit) (m : M W (Unit {0})) (vms : List String) (s t : State W)
      → (r ≡ ok tt → Names vms s (m t))
      → Names vms s (continue r (λ u. m) t)
  Names-continue (ok u) m vms s t h = h refl
  Names-continue (raise e) m vms s t h = λ q. cc

  after_provision-Names :
      (vm : String) (r : Result (List String)) (s : State W)
      → Names (vm ∷ []) s (after_provision vm r s)
  after_provision-Names vm (ok messages) s e = (add_errors-Reports (map message messages) vm _ s).1
  after_provision-Names vm (raise (died m)) s e = Reports-node vm _ s
  after_provision-Names vm (raise remote_error) s e = Reports-node vm _ s
  after_provision-Names vm (raise runtime_error) s e = Reports-node vm _ s
  after_provision-Names vm (raise value_error) s e = cc
  after_provision-Names vm (raise index_error) s e = cc
  after_provision-Names vm (raise key_error) s e = cc
  after_provision-Names vm (raise type_error) s e = cc
  after_provision-Names vm (raise attribute_error) s e = cc
  after_provision-Names vm (raise decryption_error) s e = cc

  after_destroy-Names :
      (vm : String) (r : Result {0} Unit) (m : M W (Unit {0})) (s : State W)
      → ((t : State W) → node_names t ≡ node_names s → Names (vm ∷ []) s (m t))
      → Names (vm ∷ []) s ((after_destroy vm r >> m) s)
  after_destroy-Names vm (ok u) m s h = h s refl
  after_destroy-Names vm (raise (died x)) m s h = h s refl
  after_destroy-Names vm (raise remote_error) m s h = h _ refl
  after_destroy-Names vm (raise runtime_error) m s h = h _ refl
  after_destroy-Names vm (raise value_error) m s h = λ e. cc
  after_destroy-Names vm (raise index_error) m s h = λ e. cc
  after_destroy-Names vm (raise key_error) m s h = λ e. cc
  after_destroy-Names vm (raise type_error) m s h = λ e. cc
  after_destroy-Names vm (raise attribute_error) m s h = λ e. cc
  after_destroy-Names vm (raise decryption_error) m s h = λ e. cc

module _ {W : Type 0} (out : Outside W) where
  provisioning-Names : (vm : String) (s : State W) → Names (vm ∷ []) s (provisioning out vm s)
  provisioning-Names vm s =
      after_provision-Names vm (out.provisioned vm s.world).0
        (called (provision vm) (out.provisioned vm s.world).1 s)

  after_check-Names :
      (vm : String) (kept : Kept) (s : State W) → Names (vm ∷ []) s (after_check out vm kept s)
  after_check-Names vm reuse s = λ e. Reports-node vm _ s
  after_check-Names vm unreachable s = λ e. Reports-node vm _ s
  after_check-Names vm recreate s =
      Names-continue (out.act (purge_known_host vm) s.world).0 _ (vm ∷ []) s t (λ q.
        after_destroy-Names vm (out.act (destroy vm) t.world).0 (provisioning out vm)
          (called (destroy vm) (out.act (destroy vm) t.world).1 t)
          (λ u same e. provisioning-Names vm u e ∙ ap (λ l. l ++ vm ∷ []) same))
    where
      t : State W
      t = called (purge_known_host vm) (out.act (purge_known_host vm) s.world).1 s

  after_answer-Names :
      (vm : String) (r : Result Kept) (s : State W)
      → Names (vm ∷ []) s (continue r (after_check out vm) s)
  after_answer-Names vm (ok kept) s = after_check-Names vm kept s
  after_answer-Names vm (raise e) s = λ q. cc

  keep_check-Names :
      (keep_them : Bool) (vm : String) (s : State W)
      → Names (vm ∷ []) s ((keep_check out keep_them vm >>= after_check out vm) s)
  keep_check-Names false vm s = after_check-Names vm recreate s
  keep_check-Names true vm s =
      after_answer-Names vm (kept_by (out.reusable vm s.world).0)
        (called (check_reusable vm (out.reusable vm s.world).0) (out.reusable vm s.world).1 s)

  create_one_vm-Names :
      (keep_them : Bool) (n : String × Owner) (s : State W)
      → Names (n.0 ∷ []) s (create_one_vm out keep_them n s)
  unfolding create_one_vm
  create_one_vm-Names keep_them (vm, o) s = elim (Bool-cases (is_existing_node o.fields)) [
    | inl p ↦ rw (p) (
        Names-continue (out.act (await_ssh vm) s.world).0 (note (add_node vm existing)) (vm ∷ []) s
          (act out (await_ssh vm) s).1
          (λ q e. Reports-node vm existing (act out (await_ssh vm) s).1))
    | inr p ↦ rw (p) (keep_check-Names keep_them vm s)
  ]

  for_each-Names :
      (keep_them : Bool) (nodes : Dict Owner) (s : State W)
      → Names (keys nodes) s (for_each (create_one_vm out keep_them) nodes s)
  for_each-Names keep_them [] s = λ e. sym (append-nil (node_names s))
  for_each-Names keep_them (n ∷ nodes) s =
      let first = create_one_vm-Names keep_them n s in
      let t = (create_one_vm out keep_them n s).1 in
      let rest = for_each-Names keep_them nodes t in
      Names-continue (create_one_vm out keep_them n s).0 _ (keys (n ∷ nodes)) s t (λ q e.
        rest e
        ∙ (ap (λ l. l ++ keys nodes) (first q)
            ∙ append_assoc (node_names s) (n.0 ∷ []) (keys nodes)))

abbrev AnyCall : Call → Type 0
AnyCall c = Unit

module _ {W : Type 0} where
  -- It reports no node.
  abbrev IsQuiet : M W (Unit {0}) → Type 0
  IsQuiet m = (s : State W) → node_names (m s).1 ≡ node_names s

  keeping : (l : List String) → Keeping W AnyCall (λ s. node_names s ≡ l)
  keeping l = record {
    call = λ c p s w i. i;
    problem = λ p s i. i;
    cluster = λ clu s i. i;
    cluster_failure = λ clu p s i. i;
    addon_finished = λ scope a s i. i;
    addon_pending = λ scope a s i. i;
    addon_failure = λ scope a e p s i. i;
  }

  IsQuiet-bind : (m k : M W (Unit {0})) → IsQuiet m → IsQuiet k → IsQuiet (m >> k)
  IsQuiet-bind m k a b s = by_result (m s).0 ∙ a s
    where
      by_result :
          (r : Result {0} Unit) → node_names (continue r (λ u. k) (m s).1).1 ≡ node_names (m s).1
      by_result (ok u) = b (m s).1
      by_result (raise e) = refl

module _ {W : Type 0} (out : Outside W) (env : Setting) (d : Definition) where
  when_k8s-IsQuiet :
      (kclusters : Dict Owner) (m : M W (Unit {0}))
      → IsQuiet m
      → IsQuiet (when_k8s out env d kclusters m)
  when_k8s-IsQuiet [] m h s = refl
  when_k8s-IsQuiet (c ∷ kclusters) m h s = h s

  before_machines : M W (Unit {0})
  before_machines = when_k8s out env d d.kclusters (phase_dns out d)

  after_machines : (keep_them : Bool) → M W (Unit {0})
  after_machines keep_them =
      when_k8s out env d d.kclusters (
        phase_reboot_and_wait_kept_nodes out d keep_them
        >> phase_install_k8s_and_addons out env.str_of env.plugin_of env.installer_of d
            env.defaults)
      >> (phase_vm_addons out env.str_of env.plugin_of env.installer_of d
          >> phase_post_commands out env.str_of env.plugin_of env.installer_of d)

  before_machines-IsQuiet : IsQuiet before_machines
  unfolding before_machines
  before_machines-IsQuiet =
      when_k8s-IsQuiet d.kclusters (phase_dns out d)
        (λ s. phase_dns-Keeps out AnyCall _ (keeping (node_names s)) (λ c q. tt) d s refl)

  after_machines-IsQuiet : (keep_them : Bool) → IsQuiet (after_machines keep_them)
  unfolding after_machines
  after_machines-IsQuiet keep_them =
      IsQuiet-bind _ _
        (when_k8s-IsQuiet d.kclusters _ (
          IsQuiet-bind (phase_reboot_and_wait_kept_nodes out d keep_them) _
            (λ s.
              phase_reboot-Keeps out AnyCall _ (keeping (node_names s)) (λ c q. tt) d keep_them s
                refl)
            (λ s.
              phase_install-Keeps out AnyCall _ (keeping (node_names s)) env.str_of env.plugin_of
                env.installer_of d env.defaults (λ v j c q r. tt) s refl)))
        (IsQuiet-bind (phase_vm_addons out env.str_of env.plugin_of env.installer_of d) _
          (λ s.
            phase_vm_addons-Keeps out AnyCall _ (keeping (node_names s)) env.str_of env.plugin_of
              env.installer_of d (λ v j c q r. tt) s refl)
          (λ s.
            phase_post-Keeps out AnyCall _ (keeping (node_names s)) env.str_of env.plugin_of
              env.installer_of d (λ v j c q r. tt) s refl))

  -- A run without workers, where it does not raise, has reported each node of its definition.
  pub setup_lab-Names :
      (keep_them : Bool) (s : State W) → Names (keys d.nodes) s (setup_lab out env d keep_them 0 s)
  unfolding setup_lab phase_create_vms before_machines after_machines
  setup_lab-Names keep_them s =
      let t = (phase_services out env d s).1 in
      let u = (before_machines t).1 in
      let v = (phase_create_vms out env.finishing d keep_them 0 u).1 in
      let quiet : node_names u ≡ node_names s =
        before_machines-IsQuiet t
        ∙ phase_services-Keeps out env d AnyCall _ (keeping (node_names s)) (λ c q. tt) s refl in
      Names-continue (phase_services out env d s).0 _ (keys d.nodes) s t (λ a.
        Names-continue (before_machines t).0 _ (keys d.nodes) s u (λ b.
          Names-continue (phase_create_vms out env.finishing d keep_them 0 u).0 _ (keys d.nodes) s v
            (λ c e.
              after_machines-IsQuiet keep_them v
              ∙ (for_each-Names out keep_them d.nodes u c ∙ ap (λ l. l ++ keys d.nodes) quiet))))

module _ {W : Type 0} (p : Program W) (o : Options) (s : State W) where
  -- The report behind the run has each node of the definition that the preflight gave, and none failed.
  abbrev pub AllReported : Result ℕ × State W → Type 0
  AllReported end =
      (c : Passed p o s end) × (node_names end.1 ≡ node_names c.ready ++ keys c.checked.nodes)
      × (any node_failed end.1.report.nodes ≡ false)

  -- Where no workers are asked for and the program behind its arguments ends with the status 0: all checks
  -- have passed, and the nodes of its report are those it had before the run and behind them the nodes of the
  -- definition that the preflight gave, in the definition's order, and none of them failed.
  pub main_with-AllReported :
      o.parallel ≡ 0 → (main_with p o s).0 ≡ ok 0 → AllReported (main_with p o s)
  main_with-AllReported no_workers e =
      let (c, ran, clean) = main_with-Succeeded p o s e in
      let ran₀ : setup_lab (p.out c.allocated.1) p.env c.checked o.keep_them 0 c.ready
          ≡ (ok tt, (main_with p o s).1) =
        ap (λ n. setup_lab (p.out c.allocated.1) p.env c.checked o.keep_them n c.ready)
          (sym no_workers)
        ∙ ran in
      (
        c,
        ap (λ x. node_names x.1) (sym ran₀)
            ∙ setup_lab-Names (p.out c.allocated.1) p.env c.checked o.keep_them c.ready
                (ap (λ x. x.0) ran₀),
        clean.1,
      )
