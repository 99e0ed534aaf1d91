-- ===== src/LabRun/Machines.antt =====
-- scripts/setup_lab.py: _create_one_vm, phase_create_vms and phase_reboot_and_wait_kept_nodes. The
-- workers of a parallel run are taken one after the other, in the order in which they finish, which is a
-- parameter. Log lines are left out, and so is a node's environment (_merged_env), of which only the
-- backend's check for --keep reads.
use lab_in_a_box.Prelude.{
  ℕ, String, Bool, true, false, not, ◌||◌, Option, none, some, List, [], ◌∷◌, map, mem, keep, eqb,
  Dict, get, str_eq, if◌then◌else◌,
}
use lab_in_a_box.Result.{Result, ok, raise, remote_error, runtime_error, died}
use lab_in_a_box.Migrations.{Owner, Definition}
use lab_in_a_box.LabRun.{
  created, reused, existing, creation_failed, Problem, keep_check_failed, destroy_failed,
  provision_failed, message, add_node, add_error, Call, await_ssh, await_up, purge_known_host,
  destroy, provision, locate, read_boot_id, check_reusable, reboot, await_reboot, Outside, M,
  continue, ◌>>=◌, ◌>>◌, pure, lift, attempt, perform, note, for_each, add_errors, called,
}
use lab_in_a_box.LabRun.Targets.{
  truthy_or_none, is_existing_node, is_harvester, cluster_of, create_node,
}

-- What the check for --keep leads to.
pub data Kept : Type 0 where
  recreate reuse unreachable : Kept

unfoldable pub kept_by : Result Bool → Result Kept
kept_by (ok true) = ok reuse
kept_by (ok false) = ok recreate
kept_by (raise (died m)) = ok recreate
kept_by (raise remote_error) = ok unreachable
kept_by (raise runtime_error) = ok unreachable
kept_by (raise e) = raise e

abbrev failed_node : {W : Type 0} → String → Problem → M W (Unit {0})
failed_node vm p = note (λ r. add_error p (add_node vm creation_failed r))

-- What destroy_vm ended with; its die() is no failure.
abbrev pub after_destroy : {W : Type 0} → String → Result (Unit {0}) → M W (Unit {0})
after_destroy vm (ok u) = pure tt
after_destroy vm (raise (died m)) = pure tt
after_destroy vm (raise remote_error) = note (add_error (destroy_failed vm))
after_destroy vm (raise runtime_error) = note (add_error (destroy_failed vm))
after_destroy vm (raise e) = lift (raise e)

-- What provision_vm ended with.
abbrev pub after_provision : {W : Type 0} → String → Result (List String) → M W (Unit {0})
after_provision vm (ok messages) = add_errors (map message messages) >> note (add_node vm created)
after_provision vm (raise (died m)) = failed_node vm (provision_failed vm)
after_provision vm (raise remote_error) = failed_node vm (provision_failed vm)
after_provision vm (raise runtime_error) = failed_node vm (provision_failed vm)
after_provision vm (raise e) = lift (raise e)

-- The nodes that create a Harvester cluster.
abbrev creators_of : Definition → Dict Owner → List String
creators_of d [] = []
creators_of d ((clu, o) ∷ kclusters) =
    let rest = creators_of d kclusters in
    if is_harvester o.fields then create_node d clu ∷ rest else rest

abbrev pub creators : Definition → List String
creators d = creators_of d d.kclusters

-- The nodes that are rebooted.
unfoldable pub is_rebooted : Definition → String × Owner → Bool
unfolding is_existing_node cluster_of
is_rebooted d (vm, o) =
    if truthy_or_none (get "kcluster" o.fields)
    then not (is_existing_node o.fields || not (str_eq (cluster_of d vm) ""))
    else false

module _ {W : Type 0} (out : Outside W) where
  abbrev pub act : Call → M W (Unit {0})
  act c = perform c (out.act c)

  -- get_backend(for_existing=True).vm_is_reusable, under its try
  abbrev pub checked : String → M W (Result Bool)
  checked vm s =
      let (answer, w) = out.reusable vm s.world in
      (ok answer, called (check_reusable vm answer) w s)

  abbrev pub keep_check : Bool → String → M W Kept
  keep_check false vm = pure recreate
  keep_check true vm = do answer ← checked vm; lift (kept_by answer)

  abbrev pub destroy_first : String → M W (Unit {0})
  destroy_first vm = do r ← attempt (act (destroy vm)); after_destroy vm r

  abbrev pub provisioning : String → M W (Unit {0})
  provisioning vm = do
    r ← attempt (perform (provision vm) (out.provisioned vm))
    after_provision vm r

  abbrev pub after_check : String → Kept → M W (Unit {0})
  after_check vm reuse = note (add_node vm reused)
  after_check vm unreachable = failed_node vm (keep_check_failed vm)
  after_check vm recreate = act (purge_known_host vm) >> (destroy_first vm >> provisioning vm)

  unfoldable pub create_one_vm : (keep : Bool) → String × Owner → M W (Unit {0})
  unfolding kept_by is_existing_node
  create_one_vm keep (vm, o) =
      if is_existing_node o.fields
      then act (await_ssh vm) >> note (add_node vm existing)
      else keep_check keep vm >>= after_check vm

  -- Every worker runs; the first exception is raised then.
  abbrev first_raised : Result (Unit {0}) → Result (Unit {0}) → Result (Unit {0})
  first_raised (ok u) r = r
  first_raised (raise e) r = raise e

  abbrev pub pool : (String × Owner → M W (Unit {0})) → Dict Owner → M W (Unit {0})
  pool f [] s = (ok tt, s)
  pool f (n ∷ nodes) s = let (r, t) = f n s in let (q, u) = pool f nodes t in (first_raised r q, u)

  -- The workers of the pool take the nodes in the order of the definition; `finishing` is the order in
  -- which they end.
  unfoldable pub phase_create_vms :
      (finishing : Dict Owner → Dict Owner)
      → Definition
      → (keep : Bool) → (parallel : ℕ) → M W (Unit {0})
  unfolding create_one_vm
  phase_create_vms finishing d keep_them parallel =
      if eqb parallel 0
      then for_each (create_one_vm keep_them) d.nodes
      else for_each (create_one_vm keep_them) (keep (λ n. mem n.0 (creators d)) d.nodes)
        >> pool (create_one_vm keep_them)
            (finishing (keep (λ n. not (mem n.0 (creators d))) d.nodes))

  abbrev pub restart : Dict String → String → M W (Dict String)
  restart boot_ids vm = do
    place ← perform (locate vm) (out.located vm)
    id ← perform (read_boot_id vm) (out.boot_id vm)
    _ ← act (reboot vm place)
    pure ((vm, id) ∷ boot_ids)

  -- The boot id of each node before its reboot.
  abbrev pub reboot_all : Definition → Dict Owner → Dict String → M W (Dict String)
  reboot_all d [] boot_ids s = (ok boot_ids, s)
  reboot_all d ((vm, o) ∷ nodes) boot_ids s =
      let (r, t) = (if is_rebooted d (vm, o) then restart boot_ids vm else pure boot_ids) s in
      continue r (reboot_all d nodes) t

  abbrev pub await_boot : String → Option String → M W (Unit {0})
  await_boot vm none = pure tt
  await_boot vm (some id) = if str_eq id "" then pure tt else act (await_reboot vm id)

  abbrev pub await_node : Dict String → String × Owner → M W (Unit {0})
  await_node boot_ids (vm, o) =
      if truthy_or_none (get "kcluster" o.fields)
      then await_boot vm (get vm boot_ids) >> act (await_up vm)
      else pure tt

  unfoldable pub phase_reboot_and_wait_kept_nodes : Definition → (keep : Bool) → M W (Unit {0})
  unfolding is_rebooted
  phase_reboot_and_wait_kept_nodes d keep_them =
      if keep_them
      then (do boot_ids ← reboot_all d d.nodes []; for_each (await_node boot_ids) d.nodes)
      else pure tt
