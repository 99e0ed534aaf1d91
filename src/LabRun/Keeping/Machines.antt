-- ===== src/LabRun/Keeping/Machines.antt =====
-- scripts/setup_lab.py: what the creation of the machines and their reboot keep.
use lab_in_a_box.Prelude.{
  ℕ, String, Bool, true, false, not, Option, none, some, List, [], ◌∷◌, ◌≡◌, refl, map, mem, keep,
  Dict, get, str_eq, if◌then◌else◌, eqb,
}
use lab_in_a_box.Result.{
  Result, ok, raise, value_error, index_error, key_error, type_error, attribute_error, remote_error,
  runtime_error, decryption_error, died,
}
use lab_in_a_box.Migrations.{Owner, Definition}
use lab_in_a_box.LabRun.{
  created, reused, existing, keep_check_failed, destroy_failed, provision_failed, message, add_node,
  Call, await_ssh, await_up, purge_known_host, destroy, provision, locate, read_boot_id,
  check_reusable, reboot, await_reboot, stage, about, Outside, State, M, ◌>>=◌, ◌>>◌, pure, attempt,
  perform, note, for_each, add_errors,
}
use lab_in_a_box.LabRun.Targets.{truthy_or_none, is_existing_node}
use lab_in_a_box.LabRun.Machines.{
  Kept, recreate, reuse, unreachable, after_destroy, after_provision, act, keep_check,
  destroy_first, provisioning, after_check, create_one_vm, pool, creators, phase_create_vms,
  restart, is_rebooted, reboot_all, await_boot, await_node, phase_reboot_and_wait_kept_nodes,
}
use lab_in_a_box.LabRun.Keeping.{
  Keeping, KeepingNodes, Keeps, Keeps-continue, Keeps-bind, Keeps-for_each, Keeps-if,
}

module _ {W : Type 0} (out : Outside W) (P : Call → Type 0) (Inv : State W → Type 0)
    (k : Keeping W P Inv) where
  pub act-Keeps : (c : Call) → P c → Keeps Inv (act out c)
  act-Keeps c p s i = k.call c p s (out.act c s.world).1 i

  module _ (n : KeepingNodes W P Inv) where
    add_errors-Keeps : (ps : List String) → Keeps Inv (add_errors (map message ps))
    add_errors-Keeps [] s i = i
    add_errors-Keeps (p ∷ ps) s i = add_errors-Keeps ps _ (k.problem (message p) s i)

    after_destroy-Keeps : (vm : String) (r : Result {0} Unit) → Keeps Inv (after_destroy vm r)
    after_destroy-Keeps vm (ok u) s i = i
    after_destroy-Keeps vm (raise (died m)) s i = i
    after_destroy-Keeps vm (raise remote_error) s i = k.problem (destroy_failed vm) s i
    after_destroy-Keeps vm (raise runtime_error) s i = k.problem (destroy_failed vm) s i
    after_destroy-Keeps vm (raise value_error) s i = i
    after_destroy-Keeps vm (raise index_error) s i = i
    after_destroy-Keeps vm (raise key_error) s i = i
    after_destroy-Keeps vm (raise type_error) s i = i
    after_destroy-Keeps vm (raise attribute_error) s i = i
    after_destroy-Keeps vm (raise decryption_error) s i = i

    after_provision-Keeps :
        (vm : String) (r : Result (List String)) → Keeps Inv (after_provision vm r)
    after_provision-Keeps vm (ok messages) s i =
        Keeps-bind Inv (add_errors (map message messages)) (λ u. note (add_node vm created))
          (add_errors-Keeps messages) (λ u t j. n.node vm created t refl j) s i
    after_provision-Keeps vm (raise (died m)) s i = n.node_failure vm (provision_failed vm) s i
    after_provision-Keeps vm (raise remote_error) s i = n.node_failure vm (provision_failed vm) s i
    after_provision-Keeps vm (raise runtime_error) s i = n.node_failure vm (provision_failed vm) s i
    after_provision-Keeps vm (raise value_error) s i = i
    after_provision-Keeps vm (raise index_error) s i = i
    after_provision-Keeps vm (raise key_error) s i = i
    after_provision-Keeps vm (raise type_error) s i = i
    after_provision-Keeps vm (raise attribute_error) s i = i
    after_provision-Keeps vm (raise decryption_error) s i = i

    module _ (vm : String) (allows : (c : Call) → stage c ≡ 2 → about c ≡ vm → P c) where
      destroy_first-Keeps : Keeps Inv (destroy_first out vm)
      destroy_first-Keeps =
          Keeps-bind Inv (attempt (act out (destroy vm))) (after_destroy vm)
            (act-Keeps (destroy vm) (allows (destroy vm) refl refl)) (after_destroy-Keeps vm)

      provisioning-Keeps : Keeps Inv (provisioning out vm)
      provisioning-Keeps =
          Keeps-bind Inv (attempt (perform (provision vm) (out.provisioned vm)))
            (after_provision vm)
            (λ s i.
              k.call (provision vm) (allows (provision vm) refl refl) s
                (out.provisioned vm s.world).1 i)
            (after_provision-Keeps vm)

      pub after_check-Keeps : (kept : Kept) → Keeps Inv (after_check out vm kept)
      after_check-Keeps reuse s i = n.node vm reused s refl i
      after_check-Keeps unreachable s i = n.node_failure vm (keep_check_failed vm) s i
      after_check-Keeps recreate s i =
          Keeps-bind Inv (act out (purge_known_host vm))
            (λ u. destroy_first out vm >> provisioning out vm)
            (act-Keeps (purge_known_host vm) (allows (purge_known_host vm) refl refl))
            (λ u.
              Keeps-bind Inv (destroy_first out vm) (λ v. provisioning out vm) (destroy_first-Keeps)
                (λ v. provisioning-Keeps))
            s i

      keep_check-Keeps : (keep_it : Bool) → Keeps Inv (keep_check out keep_it vm)
      keep_check-Keeps false s i = i
      keep_check-Keeps true s i =
          let answer = (out.reusable vm s.world).0 in
          k.call (check_reusable vm answer) (allows (check_reusable vm answer) refl refl) s
            (out.reusable vm s.world).1 i

      pub create_one_vm-Keeps :
          (keep_it : Bool) (o : Owner) → Keeps Inv (create_one_vm out keep_it (vm, o))
      unfolding create_one_vm
      create_one_vm-Keeps keep_it o =
          Keeps-if Inv (is_existing_node o.fields)
            (act out (await_ssh vm) >> note (add_node vm existing))
            (keep_check out keep_it vm >>= after_check out vm)
            (λ e.
              Keeps-bind Inv (act out (await_ssh vm)) (λ u. note (add_node vm existing))
                (act-Keeps (await_ssh vm) (allows (await_ssh vm) refl refl))
                (λ u s i. n.node vm existing s refl i))
            (λ e.
              Keeps-bind Inv (keep_check out keep_it vm) (after_check out vm)
                (keep_check-Keeps keep_it) (after_check-Keeps))

  module _ (allows : (c : Call) → stage c ≡ 3 → P c) where
    restart-Keeps : (ids : Dict String) (vm : String) → Keeps Inv (restart out ids vm)
    restart-Keeps ids vm =
        Keeps-bind Inv (perform (locate vm) (out.located vm)) _
          (λ s i. k.call (locate vm) (allows (locate vm) refl) s (out.located vm s.world).1 i)
          (λ place.
            Keeps-bind Inv (perform (read_boot_id vm) (out.boot_id vm)) _
              (λ s i.
                k.call (read_boot_id vm) (allows (read_boot_id vm) refl) s
                  (out.boot_id vm s.world).1 i)
              (λ id.
                Keeps-bind Inv (act out (reboot vm place)) (λ u. pure ((vm, id) ∷ ids))
                  (act-Keeps (reboot vm place) (allows (reboot vm place) refl)) (λ u s i. i)))

    reboot_all-Keeps :
        (d : Definition) (nodes : Dict Owner) (ids : Dict String)
        → Keeps Inv (reboot_all out d nodes ids)
    reboot_all-Keeps d [] ids s i = i
    reboot_all-Keeps d ((vm, o) ∷ nodes) ids s i =
        Keeps-continue Inv (one s).0 (reboot_all out d nodes) (reboot_all-Keeps d nodes) (one s).1 (
          Keeps-if Inv (is_rebooted d (vm, o)) (restart out ids vm) (pure ids)
            (λ e. restart-Keeps ids vm) (λ e t j. j) s i)
      where
        one : M W (Dict String)
        one = if is_rebooted d (vm, o) then restart out ids vm else pure ids

    await_boot-Keeps : (vm : String) (id : Option String) → Keeps Inv (await_boot out vm id)
    await_boot-Keeps vm none s i = i
    await_boot-Keeps vm (some id) s i =
        Keeps-if Inv (str_eq id "") (pure tt) (act out (await_reboot vm id)) (λ e t j. j)
          (λ e. act-Keeps (await_reboot vm id) (allows (await_reboot vm id) refl)) s i

    await_node-Keeps :
        (ids : Dict String) (node : String × Owner) → Keeps Inv (await_node out ids node)
    await_node-Keeps ids (vm, o) =
        Keeps-if Inv (truthy_or_none (get "kcluster" o.fields))
          (await_boot out vm (get vm ids) >> act out (await_up vm)) (pure tt)
          (λ e.
            Keeps-bind Inv (await_boot out vm (get vm ids)) (λ u. act out (await_up vm))
              (await_boot-Keeps vm (get vm ids))
              (λ u. act-Keeps (await_up vm) (allows (await_up vm) refl)))
          (λ e s i. i)

    pub phase_reboot-Keeps :
        (d : Definition) (keep_it : Bool)
        → Keeps Inv (phase_reboot_and_wait_kept_nodes out d keep_it)
    unfolding phase_reboot_and_wait_kept_nodes
    phase_reboot-Keeps d keep_it =
        Keeps-if Inv keep_it
          (reboot_all out d d.nodes [] >>= λ ids. for_each (await_node out ids) d.nodes) (pure tt)
          (λ e.
            Keeps-bind Inv (reboot_all out d d.nodes [])
              (λ ids. for_each (await_node out ids) d.nodes) (reboot_all-Keeps d d.nodes [])
              (λ ids. Keeps-for_each Inv (await_node out ids) (await_node-Keeps ids) d.nodes))
          (λ e s i. i)

module _ {W : Type 0} (out : Outside W) (Inv : State W → Type 0) where
  pub pool-Keeps :
      (f : String × Owner → M W (Unit {0}))
      → ((n : String × Owner) → Keeps Inv (f n))
      → (nodes : Dict Owner) → Keeps Inv (pool out f nodes)
  pool-Keeps f h [] s i = i
  pool-Keeps f h (n ∷ nodes) s i = pool-Keeps f h nodes (f n s).1 (h n s i)

  pub phase_create_vms-Keeps :
      (finishing : Dict Owner → Dict Owner) (d : Definition) (keep_it : Bool) (parallel : ℕ)
      → ((node : String × Owner) → Keeps Inv (create_one_vm out keep_it node))
      → Keeps Inv (phase_create_vms out finishing d keep_it parallel)
  unfolding phase_create_vms
  phase_create_vms-Keeps finishing d keep_it parallel each =
      Keeps-if Inv (eqb parallel 0) (for_each one d.nodes)
        (for_each one (keep (λ n. mem n.0 (creators d)) d.nodes)
          >> pool out one (finishing (keep (λ n. not (mem n.0 (creators d))) d.nodes)))
        (λ e. Keeps-for_each Inv one each d.nodes)
        (λ e.
          Keeps-bind Inv (for_each one (keep (λ n. mem n.0 (creators d)) d.nodes))
            (λ u. pool out one (finishing (keep (λ n. not (mem n.0 (creators d))) d.nodes)))
            (Keeps-for_each Inv one each (keep (λ n. mem n.0 (creators d)) d.nodes))
            (λ u. pool-Keeps one each (finishing (keep (λ n. not (mem n.0 (creators d))) d.nodes))))
    where
      one : String × Owner → M W (Unit {0})
      one = create_one_vm out keep_it
