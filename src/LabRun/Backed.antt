-- ===== src/LabRun/Backed.antt =====
-- scripts/setup_lab.py: a failure in the report is also among its errors.
use lab_in_a_box.Prelude.{
  any-append, ℕ, String, Bool, true, false, [], ◌∷◌, ◌≡◌, refl, arith, if◌then◌else◌,
}
use lab_in_a_box.Migrations.{Definition}
use lab_in_a_box.LabRun.{
  NodeStatus, node_failed, creation_failed, installed, install_failed, cluster_failed, finished,
  pending, failed_with, addon_failed, AddonStatus, Scope, exit_status, Problem, Report, add_node,
  add_cluster, add_addon, add_error, has_errors, failed, Call, Outside, State,
}
use lab_in_a_box.LabRun.Whole.{Setting, setup_lab}
use lab_in_a_box.LabRun.Keeping.{Keeping, KeepingNodes}
use lab_in_a_box.LabRun.Keeping.Machines.{create_one_vm-Keeps}
use lab_in_a_box.LabRun.Keeping.Whole.{Story, setup_lab-Goal}

-- What failed is among the errors.
abbrev pub IsBacked : Report → Type 0
IsBacked r = failed r ≡ has_errors r

exit_status-IsBacked : (r : Report) → IsBacked r → exit_status r ≡ (if has_errors r then 1 else 0)
unfolding exit_status failed
exit_status-IsBacked r b = ground arith

IsBacked-exit_status : (r : Report) → exit_status r ≡ (if has_errors r then 1 else 0) → IsBacked r
unfolding exit_status failed
IsBacked-exit_status r e = ground arith

IsBacked-error : (p : Problem) (r : Report) → IsBacked (add_error p r)
unfolding failed
IsBacked-error p r = ground (arith, any-append (λ (q : Problem). true) r.errors (p ∷ []))

module _ (r : Report) (backed : IsBacked r) where
  IsBacked-node :
      (vm : String) (status : NodeStatus)
      → node_failed (vm, status) ≡ false
      → IsBacked (add_node vm status r)
  unfolding failed
  IsBacked-node vm status e = ground (arith, any-append node_failed r.nodes ((vm, status) ∷ []))

  IsBacked-cluster : (clu : String) → IsBacked (add_cluster clu installed r)
  unfolding failed
  IsBacked-cluster clu =
      ground (arith, any-append cluster_failed r.clusters ((clu, installed) ∷ []))

  IsBacked-addon :
      (scope : Scope) (a : String) (status : AddonStatus)
      → addon_failed (scope, a, status) ≡ false
      → IsBacked (add_addon scope a status r)
  unfolding failed
  IsBacked-addon scope a status e =
      ground (arith, any-append addon_failed r.addons ((scope, a, status) ∷ []))

module _ {W : Type 0} where
  abbrev Backs : State W → Type 0
  Backs s = IsBacked s.report

  backing : (P : Call → Type 0) → Keeping W P Backs
  backing P = record {
    call = λ c p s w i. i;
    problem = λ p s i. IsBacked-error p s.report;
    cluster = λ clu s i. IsBacked-cluster s.report i clu;
    cluster_failure = λ clu p s i. IsBacked-error p (add_cluster clu install_failed s.report);
    addon_finished = λ scope a s i. IsBacked-addon s.report i scope a finished refl;
    addon_pending = λ scope a s i. IsBacked-addon s.report i scope a pending refl;
    addon_failure =
        λ scope a e p s i. IsBacked-error p (add_addon scope a (failed_with e) s.report);
  }

  backing_nodes : (P : Call → Type 0) → KeepingNodes W P Backs
  backing_nodes P = record {
    node = λ vm status s e i. IsBacked-node s.report i vm status e;
    node_failure = λ vm p s i. IsBacked-error p (add_node vm creation_failed s.report);
  }

abbrev AnyCall : Call → Type 0
AnyCall c = Unit

module _ {W : Type 0} (out : Outside W) (env : Setting) (d : Definition) (keep_them : Bool) where
  story :
      Story out env d
        (λ k. AnyCall)
        (λ k. Backs {W = W})
        (λ f k. AnyCall)
        (λ f k. Backs {W = W})
        (Backs {W = W})
        keep_them
  story = record {
    early = λ k h. backing AnyCall;
    early_call = λ k c h e. tt;
    early_next = λ k s h i. i;
    early_end = λ k s h i. i;
    machine = λ n.
        create_one_vm-Keeps out AnyCall (Backs {W = W}) (backing AnyCall) (backing_nodes AnyCall)
          n.0 (λ c e a. tt) keep_them n.1;
    switch = λ s i. i;
    late = λ f k h. backing AnyCall;
    late_call = λ f k s c h i e a. tt;
    late_next = λ f k s h i. i;
    late_end = λ f k s h i. i;
  }

  -- Whatever happens outside, and however the run ends: if the program's exit status was 1 just with an
  -- error in the report before the run, then so it is after it, so that no machine, cluster or add-on has
  -- failed without an error in the report.
  pub setup_lab-exit_status :
      (parallel : ℕ) (s : State W)
      → exit_status s.report ≡ (if has_errors s.report then 1 else 0)
      → exit_status (setup_lab out env d keep_them parallel s).1.report
        ≡ (if has_errors (setup_lab out env d keep_them parallel s).1.report then 1 else 0)
  setup_lab-exit_status parallel s e =
      exit_status-IsBacked (setup_lab out env d keep_them parallel s).1.report (
        setup_lab-Goal out env d (λ k. AnyCall) (λ k. Backs {W = W}) (λ f k. AnyCall)
          (λ f k. Backs {W = W}) (Backs {W = W}) keep_them story parallel s
          (IsBacked-exit_status s.report e))
