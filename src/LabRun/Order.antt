-- ===== src/LabRun/Order.antt =====
-- scripts/setup_lab.py: the order of a run's phases.
use mathlib.Core.Path.{subst}
use lab_in_a_box.Prelude.{ℕ, suc, Bool, List, [], ◌∷◌, ◌≡◌, ◌≤◌, All, sym, arith}
use lab_in_a_box.Migrations.{Definition}
use lab_in_a_box.LabRun.{Call, stage, Outside, State}
use lab_in_a_box.LabRun.Whole.{Setting, setup_lab}
use lab_in_a_box.LabRun.Keeping.{Keeping, KeepingNodes}
use lab_in_a_box.LabRun.Keeping.Machines.{create_one_vm-Keeps}
use lab_in_a_box.LabRun.Keeping.Whole.{Story, setup_lab-Goal}

-- Each call comes behind those of its phase and of the phases before; the newest call stands first.
abbrev pub IsOrdered : List Call → Type 0
IsOrdered [] = Unit
IsOrdered (c ∷ calls) = All (λ e. stage e ≤ stage c) calls × IsOrdered calls

-- The calls are in order, none of a phase behind the given one.
abbrev Upto : ℕ → List Call → Type 0
Upto k calls = All (λ e. stage e ≤ k) calls × IsOrdered calls

All-le_suc :
    (k : ℕ) (calls : List Call) → All (λ e. stage e ≤ k) calls → All (λ e. stage e ≤ suc k) calls
All-le_suc k [] h = tt
All-le_suc k (c ∷ calls) h =
    let below : stage c ≤ k = h.0 in ((omega arith), All-le_suc k calls h.1)

Upto-call : (k : ℕ) (c : Call) (calls : List Call) → stage c ≡ k → Upto k calls → Upto k (c ∷ calls)
Upto-call k c calls e u =
    ((omega arith, u.0), (subst (λ n. All (λ e. stage e ≤ n) calls) (sym e) u.0, u.1))

module _ {W : Type 0} where
  abbrev Until : ℕ → State W → Type 0
  Until k s = Upto k s.calls

  keeping : (k : ℕ) → Keeping W (λ c. stage c ≡ k) (Until k)
  keeping k = record {
    call = λ c p s w i. Upto-call k c s.calls p i;
    problem = λ p s i. i;
    cluster = λ clu s i. i;
    cluster_failure = λ clu p s i. i;
    addon_finished = λ scope a s i. i;
    addon_pending = λ scope a s i. i;
    addon_failure = λ scope a e p s i. i;
  }

  keeping_nodes : (k : ℕ) → KeepingNodes W (λ c. stage c ≡ k) (Until k)
  keeping_nodes k = record { node = λ vm status s e i. i; node_failure = λ vm p s i. i }

module _ {W : Type 0} (out : Outside W) (env : Setting) (d : Definition) (keep_them : Bool) where
  story :
      Story out env d
        (λ k c. stage c ≡ k)
        Until
        (λ f k c. stage c ≡ k)
        (λ f. Until)
        (λ s. IsOrdered s.calls)
        keep_them
  story = record {
    early = λ k h. keeping k;
    early_call = λ k c h e. e;
    early_next = λ k s h i. (All-le_suc k s.calls i.0, i.1);
    early_end = λ k s h i. i.1;
    machine = λ n.
        create_one_vm-Keeps out (λ c. stage c ≡ 2) (Until 2) (keeping 2) (keeping_nodes 2) n.0
          (λ c e a. e) keep_them n.1;
    switch = λ s i. (All-le_suc 2 s.calls i.0, i.1);
    late = λ f k h. keeping k;
    late_call = λ f k s c h i e a. e;
    late_next = λ f k s h i. (All-le_suc k s.calls i.0, i.1);
    late_end = λ f k s h i. i.1;
  }

  -- Whatever happens outside, and however the run ends: from a state without calls, the calls of a run
  -- come in the order of the phases, the services' first, then the DNS entries, the machines, the
  -- reboots, the clusters with their add-ons, the add-ons of the nodes, and the nodes' commands.
  pub setup_lab-IsOrdered :
      (parallel : ℕ) (s : State W)
      → s.calls ≡ []
      → IsOrdered (setup_lab out env d keep_them parallel s).1.calls
  setup_lab-IsOrdered parallel s e =
      setup_lab-Goal out env d (λ k c. stage c ≡ k) Until (λ f k c. stage c ≡ k) (λ f. Until)
        (λ s. IsOrdered s.calls) keep_them story parallel s
        (subst (λ calls. Upto 0 calls) (sym e) (tt, tt))
