-- ===== src/LabRun/Spared.antt =====
-- scripts/setup_lab.py: what a run does not touch after a node's creation failed.
use mathlib.Core.Path.{subst}
use lab_in_a_box.Prelude.{ℕ, String, Bool, List, [], ◌∷◌, ◌≡◌, ◌≤◌, All, refl, sym, arith}
use lab_in_a_box.Migrations.{Definition}
use lab_in_a_box.LabRun.{Call, stage, Outside, State, failed_nodes}
use lab_in_a_box.LabRun.Whole.{Setting, setup_lab}
use lab_in_a_box.LabRun.Keeping.{IsAllowed, IsAllowed-stage, Keeping, KeepingNodes}
use lab_in_a_box.LabRun.Keeping.Machines.{create_one_vm-Keeps}
use lab_in_a_box.LabRun.Keeping.Whole.{Story, setup_lab-Goal}

All-IsAllowed :
    (d : Definition) (failed : List String) (calls : List Call)
    → All (λ c. stage c ≤ 3) calls
    → All (IsAllowed d failed) calls
All-IsAllowed d failed [] h = tt
All-IsAllowed d failed (c ∷ calls) h =
    (IsAllowed-stage d failed c h.0, All-IsAllowed d failed calls h.1)

module _ (d : Definition) {W : Type 0} where
  -- Up to the creation of the machines.
  abbrev Early : State W → Type 0
  Early s = All (λ c. stage c ≤ 3) s.calls

  -- Behind it, with the nodes that failed.
  abbrev Late : List String → State W → Type 0
  Late failed s = (failed_nodes s.report ≡ failed) × All (IsAllowed d failed) s.calls

  abbrev Spares : State W → Type 0
  Spares s = All (IsAllowed d (failed_nodes s.report)) s.calls

  Early-keeping : Keeping W (λ c. stage c ≤ 3) Early
  Early-keeping = record {
    call = λ c p s w i. (p, i);
    problem = λ p s i. i;
    cluster = λ clu s i. i;
    cluster_failure = λ clu p s i. i;
    addon_finished = λ scope a s i. i;
    addon_pending = λ scope a s i. i;
    addon_failure = λ scope a e p s i. i;
  }

  Early-nodes : KeepingNodes W (λ c. stage c ≤ 3) Early
  Early-nodes = record { node = λ vm status s e i. i; node_failure = λ vm p s i. i }

  Late-keeping : (failed : List String) → Keeping W (IsAllowed d failed) (Late failed)
  Late-keeping failed = record {
    call = λ c p s w i. (i.0, (p, i.1));
    problem = λ p s i. i;
    cluster = λ clu s i. i;
    cluster_failure = λ clu p s i. i;
    addon_finished = λ scope a s i. i;
    addon_pending = λ scope a s i. i;
    addon_failure = λ scope a e p s i. i;
  }

  Late-Spares : (failed : List String) (s : State W) → Late failed s → Spares s
  Late-Spares failed s l = subst (λ f. All (IsAllowed d f) s.calls) (sym l.0) l.1

module _ {W : Type 0} (out : Outside W) (env : Setting) (d : Definition) (keep_them : Bool) where
  story :
      Story out env d
        (λ k c. stage c ≤ 3)
        (λ k. Early d)
        (λ f k. IsAllowed d f)
        (λ f k. Late d f)
        (Spares d)
        keep_them
  story = record {
    early = λ k h. Early-keeping d;
    early_call = λ k c h e. early_stage k c h e;
    early_next = λ k s h i. i;
    early_end = λ k s h i. All-IsAllowed d (failed_nodes s.report) s.calls i;
    machine = λ n.
        create_one_vm-Keeps out (λ c. stage c ≤ 3) (Early d) (Early-keeping d) (Early-nodes d) n.0
          (λ c e a. machine_stage c e) keep_them n.1;
    switch = λ s i. (refl, All-IsAllowed d (failed_nodes s.report) s.calls i);
    late = λ f k h. Late-keeping d f;
    late_call = λ f k s c h i e a. subst (λ g. IsAllowed d g c) i.0 a;
    late_next = λ f k s h i. i;
    late_end = λ f k s h i. Late-Spares d f s i;
  }
    where
      early_stage : (k : ℕ) (c : Call) → k ≤ 1 → stage c ≡ k → stage c ≤ 3
      early_stage k c h e = omega arith

      machine_stage : (c : Call) → stage c ≡ 2 → stage c ≤ 3
      machine_stage c e = omega arith

  -- Whatever happens outside, and however the run ends: from a state without calls, no add-on is run
  -- for, and no command on, a node whose creation failed; and where it is a node of a cluster, that
  -- cluster is not installed, and no add-on is run for it.
  pub setup_lab-IsAllowed :
      (parallel : ℕ) (s : State W)
      → s.calls ≡ []
      → All
          (IsAllowed d (failed_nodes (setup_lab out env d keep_them parallel s).1.report))
          (setup_lab out env d keep_them parallel s).1.calls
  setup_lab-IsAllowed parallel s e =
      setup_lab-Goal out env d (λ k c. stage c ≤ 3) (λ k. Early d) (λ f k. IsAllowed d f)
        (λ f k. Late d f) (Spares d) keep_them story parallel s
        (subst (λ calls. All (λ c. stage c ≤ 3) calls) (sym e) tt)
