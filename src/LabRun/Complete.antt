-- ===== src/LabRun/Complete.antt =====
-- scripts/setup_lab.py: the creation of the machines goes on after a failure, and reports each node.
use mathlib.Core.List.{map-append}
use lab_in_a_box.Prelude.{
  String, Bool, true, false, List, [], ◌∷◌, ◌++◌, ◌≡◌, ◌∙◌, refl, sym, ap, map, keys, append_assoc,
  append-nil, Bool-cases, inl, inr, Dict,
}
use lab_in_a_box.Result.{
  Result, ok, raise, value_error, index_error, key_error, type_error, attribute_error, remote_error,
  runtime_error, decryption_error, died,
}
use lab_in_a_box.Migrations.{Owner, Definition}
use lab_in_a_box.LabRun.{
  NodeStatus, existing, Problem, message, await_ssh, purge_known_host, destroy, provision,
  check_reusable, Outside, State, M, continue, for_each, add_errors, called, note, add_error,
  add_node, ◌>>◌, ◌>>=◌,
}
use lab_in_a_box.LabRun.Targets.{is_existing_node}
use lab_in_a_box.LabRun.Machines.{
  Kept, recreate, reuse, unreachable, kept_by, after_destroy, after_provision, act, keep_check,
  provisioning, after_check, create_one_vm, phase_create_vms,
}

-- A value, SystemExit or RuntimeError.
abbrev pub IsCaught : {A : Type 0} → Result A → Type 0
IsCaught (ok a) = Unit
IsCaught (raise (died m)) = Unit
IsCaught (raise remote_error) = Unit
IsCaught (raise runtime_error) = Unit
IsCaught (raise e) = ⊥

module _ {W : Type 0} where
  -- The nodes that the report names.
  abbrev pub node_names : State W → List String
  node_names s = map (λ p. p.0) s.report.nodes

  -- It ends, and one more node is reported.
  abbrev pub Reports : String → State W → Result (Unit {0}) × State W → Type 0
  Reports vm s end = (end.0 ≡ ok tt) × (node_names end.1 ≡ node_names s ++ vm ∷ [])

  pub Reports-node :
      (vm : String) (status : NodeStatus) (s : State W)
      → node_names (note (add_node vm status) s).1 ≡ node_names s ++ vm ∷ []
  Reports-node vm status s = map-append (λ p. p.0) s.report.nodes ((vm, status) ∷ [])

  pub add_errors-Reports :
      (ps : List Problem) (vm : String) (status : NodeStatus) (s : State W)
      → Reports vm s ((add_errors ps >> note (add_node vm status)) s)
  add_errors-Reports [] vm status s = (refl, Reports-node vm status s)
  add_errors-Reports (p ∷ ps) vm status s = add_errors-Reports ps vm status (note (add_error p) s).1

  after_provision-Reports :
      (vm : String) (r : Result (List String)) (s : State W)
      → IsCaught r
      → Reports vm s (after_provision vm r s)
  after_provision-Reports vm (ok messages) s c = add_errors-Reports (map message messages) vm _ s
  after_provision-Reports vm (raise (died m)) s c = (refl, Reports-node vm _ s)
  after_provision-Reports vm (raise remote_error) s c = (refl, Reports-node vm _ s)
  after_provision-Reports vm (raise runtime_error) s c = (refl, Reports-node vm _ s)
  after_provision-Reports vm (raise value_error) s c = absurd c
  after_provision-Reports vm (raise index_error) s c = absurd c
  after_provision-Reports vm (raise key_error) s c = absurd c
  after_provision-Reports vm (raise type_error) s c = absurd c
  after_provision-Reports vm (raise attribute_error) s c = absurd c
  after_provision-Reports vm (raise decryption_error) s c = absurd c

  -- What destroy_vm ended with does not stop what comes behind it.
  after_destroy-Reports :
      (vm : String) (r : Result {0} Unit) (m : M W (Unit {0})) (s : State W)
      → IsCaught r
      → ((t : State W) → node_names t ≡ node_names s → Reports vm s (m t))
      → Reports vm s ((after_destroy vm r >> m) s)
  after_destroy-Reports vm (ok u) m s c h = h s refl
  after_destroy-Reports vm (raise (died x)) m s c h = h s refl
  after_destroy-Reports vm (raise remote_error) m s c h = h _ refl
  after_destroy-Reports vm (raise runtime_error) m s c h = h _ refl
  after_destroy-Reports vm (raise value_error) m s c h = absurd c
  after_destroy-Reports vm (raise index_error) m s c h = absurd c
  after_destroy-Reports vm (raise key_error) m s c h = absurd c
  after_destroy-Reports vm (raise type_error) m s c h = absurd c
  after_destroy-Reports vm (raise attribute_error) m s c h = absurd c
  after_destroy-Reports vm (raise decryption_error) m s c h = absurd c

module _ {W : Type 0} (out : Outside W)
    (answers : (vm : String) (w : W) → (out.act (await_ssh vm) w).0 ≡ ok tt)
    (purges : (vm : String) (w : W) → (out.act (purge_known_host vm) w).0 ≡ ok tt)
    (destroys : (vm : String) (w : W) → IsCaught (out.act (destroy vm) w).0)
    (provisions : (vm : String) (w : W) → IsCaught (out.provisioned vm w).0)
    (checks : (vm : String) (w : W) → IsCaught (out.reusable vm w).0) where
  provisioning-Reports : (vm : String) (s : State W) → Reports vm s (provisioning out vm s)
  provisioning-Reports vm s =
      after_provision-Reports vm (out.provisioned vm s.world).0
        (called (provision vm) (out.provisioned vm s.world).1 s) (provisions vm s.world)

  after_check-Reports :
      (vm : String) (kept : Kept) (s : State W) → Reports vm s (after_check out vm kept s)
  after_check-Reports vm reuse s = (refl, Reports-node vm _ s)
  after_check-Reports vm unreachable s = (refl, Reports-node vm _ s)
  after_check-Reports vm recreate s = rw (purges vm s.world) (
      after_destroy-Reports vm (out.act (destroy vm) t.world).0 (provisioning out vm)
        (called (destroy vm) (out.act (destroy vm) t.world).1 t) (destroys vm t.world)
        (λ u same. let (e, f) = provisioning-Reports vm u in (e, f ∙ ap (λ l. l ++ vm ∷ []) same)))
    where
      t : State W
      t = called (purge_known_host vm) (out.act (purge_known_host vm) s.world).1 s

  after_answer-Reports :
      (vm : String) (r : Result Bool) (s : State W)
      → IsCaught r
      → Reports vm s (continue (kept_by r) (after_check out vm) s)
  unfolding kept_by
  after_answer-Reports vm (ok true) s c = after_check-Reports vm reuse s
  after_answer-Reports vm (ok false) s c = after_check-Reports vm recreate s
  after_answer-Reports vm (raise (died m)) s c = after_check-Reports vm recreate s
  after_answer-Reports vm (raise remote_error) s c = after_check-Reports vm unreachable s
  after_answer-Reports vm (raise runtime_error) s c = after_check-Reports vm unreachable s
  after_answer-Reports vm (raise value_error) s c = absurd c
  after_answer-Reports vm (raise index_error) s c = absurd c
  after_answer-Reports vm (raise key_error) s c = absurd c
  after_answer-Reports vm (raise type_error) s c = absurd c
  after_answer-Reports vm (raise attribute_error) s c = absurd c
  after_answer-Reports vm (raise decryption_error) s c = absurd c

  keep_check-Reports :
      (keep_them : Bool) (vm : String) (s : State W)
      → Reports vm s ((keep_check out keep_them vm >>= after_check out vm) s)
  keep_check-Reports false vm s = after_check-Reports vm recreate s
  keep_check-Reports true vm s =
      after_answer-Reports vm (out.reusable vm s.world).0
        (called (check_reusable vm (out.reusable vm s.world).0) (out.reusable vm s.world).1 s)
        (checks vm s.world)

  create_one_vm-Reports :
      (keep_them : Bool) (n : String × Owner) (s : State W)
      → Reports n.0 s (create_one_vm out keep_them n s)
  unfolding create_one_vm
  create_one_vm-Reports keep_them (vm, o) s = elim (Bool-cases (is_existing_node o.fields)) [
    | inl p ↦
        rw (p)
          (rw (answers vm s.world) (refl, Reports-node vm existing (act out (await_ssh vm) s).1))
    | inr p ↦ rw (p) (keep_check-Reports keep_them vm s)
  ]

  for_each-Reports :
      (keep_them : Bool) (nodes : Dict Owner) (s : State W)
      → ((for_each (create_one_vm out keep_them) nodes s).0 ≡ ok tt)
        × (node_names (for_each (create_one_vm out keep_them) nodes s).1
            ≡ node_names s ++ keys nodes)
  for_each-Reports keep_them [] s = (refl, sym (append-nil (node_names s)))
  for_each-Reports keep_them (n ∷ nodes) s =
      let (e, f) = create_one_vm-Reports keep_them n s in
      let (g, h) = for_each-Reports keep_them nodes (create_one_vm out keep_them n s).1 in
      rw (e)
        (g, h ∙ (ap (λ l. l ++ keys nodes) f ∙ append_assoc (node_names s) (n.0 ∷ []) (keys nodes)))

  -- Where the existing hosts answer, known hosts are purged, and checks, destructions and creations end with
  -- a value, SystemExit or RuntimeError: the creation of the machines, one at a time, does not raise,
  -- and the report then names each node of the definition, once and in its order.
  pub phase_create_vms-names :
      (finishing : Dict Owner → Dict Owner) (d : Definition) (keep_them : Bool) (s : State W)
      → ((phase_create_vms out finishing d keep_them 0 s).0 ≡ ok tt)
        × (node_names (phase_create_vms out finishing d keep_them 0 s).1
            ≡ node_names s ++ keys d.nodes)
  unfolding phase_create_vms
  phase_create_vms-names finishing d keep_them s = for_each-Reports keep_them d.nodes s
