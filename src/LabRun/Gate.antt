-- ===== src/LabRun/Gate.antt =====
-- scripts/setup_lab.py: what has to pass before a run touches a lab, and what an exit status of 0 means.
pub mod Quiet
use lab_in_a_box.Prelude.{
  ℕ, String, Bool, true, false, Option, none, some, List, [], ◌∷◌, ◌++◌, ◌≡◌, ◌⊎◌, ◌∙◌, inl, inr,
  refl, sym, ap, any, Dict, arith,
}
use mathlib.Core.Path.{subst}
use lab_in_a_box.Result.{Error, Result, ok, raise, ok-eq}
use lab_in_a_box.Migrations.{Owner, Definition}
use lab_in_a_box.Migrations.Defaults.{addon_names}
use lab_in_a_box.Migrations.Pending.{require_current}
use lab_in_a_box.LabRun.{
  node_failed, cluster_failed, addon_failed, Call, Report, has_errors, failed, exit_status, State,
  M, note, continue, ◌>>=◌, pure,
}
use lab_in_a_box.LabRun.Clusters.{once}
use lab_in_a_box.LabRun.Whole.{setup_lab}
use lab_in_a_box.LabRun.Gate.Quiet.{
  allocate_missing-calls, validate_addon_configs-calls, validate_addon_configs-passes,
}
use lab_in_a_box.LabRun.Main.{
  Check, Allocated, check_issues, Options, Program, outer, fetching, without_ip, choose_ips,
  allocate_missing, phase_allocate_ips, addon_issues, all_issues, passes, sorted_names,
  validate_addon_configs, finish, after_addons, after_preflight, fold_issues, main_with,
}

one_ne_zero : ◌≡◌ {A = Result ℕ} (ok 1) (ok 0) → ⊥
one_ne_zero e = let n : ◌≡◌ {A = ℕ} 1 0 = ok-eq e in absurd (omega arith)

module _ {W : Type 0} (p : Program W) (o : Options) (s : State W) where
  -- The definition that the file holds is current, its images are fetched, its addresses are chosen, its
  -- preflight and the add-ons' own checks have passed, and then the lab was set up.
  pub record Passed (end : Result ℕ × State W) : Type 0 where
    pub loaded : Definition
    pub with_loaded : State W
    pub load : outer (p.load o.json_file) s ≡ (ok loaded, with_loaded)
    pub current : require_current p.env.str_of loaded p.history ≡ ok tt
    pub with_images : State W
    pub fetch : fetching p loaded with_loaded ≡ (ok tt, with_images)
    pub allocated : Allocated
    pub with_addresses : State W
    pub allocation :
        phase_allocate_ips p loaded o.json_file with_images ≡ (ok allocated, with_addresses)
    pub checked : Definition
    pub lines : List String
    pub with_checked : State W
    pub preflight :
        outer (p.preflight allocated.0) with_addresses ≡ (ok (checked, lines, true), with_checked)
    pub ready : State W
    pub addons :
        validate_addon_configs p checked allocated.1
          (note (fold_issues p.uncoloured lines) with_checked).1
        ≡ (ok ([], true), ready)
    pub untouched : ready.calls ≡ s.calls
    pub run : end ≡ finish p checked allocated.1 o ready

  -- The run did not come to the lab, or all checks have passed.
  abbrev pub Cases : Result ℕ × State W → Type 0
  Cases end = ((end.1.calls ≡ s.calls) × (end.0 ≡ ok 0 → ⊥)) ⊎ Passed end

  Cases-continue :
      {A : Type 0} (r : Result A) (f : A → M W ℕ) (t : State W)
      → t.calls ≡ s.calls
      → ((a : A) → ◌≡◌ {A = Result A × State W} (r, t) (ok a, t) → Cases (f a t))
      → Cases (continue r f t)
  Cases-continue (ok a) f t same h = h a refl
  Cases-continue (raise e) f t same h = inl (same, λ q. cc)

  -- What passed before the preflight has answered.
  module _ (loaded : Definition) (with_loaded with_images with_addresses with_checked : State W)
      (allocated : Allocated) (load : outer (p.load o.json_file) s ≡ (ok loaded, with_loaded))
      (current : require_current p.env.str_of loaded p.history ≡ ok tt)
      (fetch : fetching p loaded with_loaded ≡ (ok tt, with_images))
      (allocation : phase_allocate_ips p loaded o.json_file with_images
        ≡ (ok allocated, with_addresses)) where
    after_addons-Cases :
        (d : Definition) (lines : List String) (ready : State W) (r : Result (List String × Bool))
        → outer (p.preflight allocated.0) with_addresses ≡ (ok (d, lines, true), with_checked)
        → validate_addon_configs p d allocated.1
            (note (fold_issues p.uncoloured lines) with_checked).1
          ≡ (r, ready)
        → ready.calls ≡ s.calls
        → Cases (continue r (after_addons p d allocated.1 o) ready)
    after_addons-Cases d lines ready (raise e) q v same = inl (same, λ h. cc)
    after_addons-Cases d lines ready (ok (issues, false)) q v same = inl (same, one_ne_zero)
    after_addons-Cases d lines ready (ok (issues, true)) q v same = inr (record {
      loaded = loaded;
      with_loaded = with_loaded;
      load = load;
      current = current;
      with_images = with_images;
      fetch = fetch;
      allocated = allocated;
      with_addresses = with_addresses;
      allocation = allocation;
      checked = d;
      lines = lines;
      with_checked = with_checked;
      preflight = q;
      ready = ready;
      addons = v ∙ ap (λ l. (ok (l, true), ready)) none_left;
      untouched = same;
      run = refl;
    })
      where
        none_left : issues ≡ []
        none_left =
            validate_addon_configs-passes p d allocated.1
              (note (fold_issues p.uncoloured lines) with_checked).1 issues (ap (λ x. x.0) v)

    after_preflight-Cases :
        (answer : Definition × List String × Bool)
        → outer (p.preflight allocated.0) with_addresses ≡ (ok answer, with_checked)
        → with_checked.calls ≡ s.calls
        → Cases (after_preflight p o allocated.1 answer with_checked)
    after_preflight-Cases (d, lines, false) q same = inl (same, one_ne_zero)
    after_preflight-Cases (d, lines, true) q same =
        after_addons-Cases d lines v.1 v.0 q refl
          (validate_addon_configs-calls p d allocated.1 u ∙ same)
      where
        u : State W
        u = (note (fold_issues p.uncoloured lines) with_checked).1

        v : Result (List String × Bool) × State W
        v = validate_addon_configs p d allocated.1 u

  -- Either the program behind its arguments does not end with the status 0, and no call of a run was made; or
  -- the definition of the file is current, its images were fetched, its missing addresses chosen, the
  -- preflight of what this gave passed and the add-ons' own checks, of the file with the addresses, left no
  -- issue, all before the first call, and what comes behind them is the run of what the preflight gave, with
  -- its exit status.
  pub main_with-Cases : Cases (main_with p o s)
  unfolding main_with phase_allocate_ips
  main_with-Cases = Cases-continue (load s).0 _ (load s).1 refl (λ loaded a.
      Cases-continue (require_current p.env.str_of loaded p.history) _ _ refl (λ u b.
        Cases-continue (fetching p loaded (load s).1).0 _ (fetched loaded) refl (λ v c.
          Cases-continue (allocation loaded).0 _ (allocation loaded).1
            (allocate_missing-calls p (without_ip p loaded) loaded o.json_file (fetched loaded))
            (λ allocated d.
              Cases-continue (outer (p.preflight allocated.0) (allocation loaded).1).0 _
                (outer (p.preflight allocated.0) (allocation loaded).1).1
                (allocate_missing-calls p (without_ip p loaded) loaded o.json_file (fetched loaded))
                (λ answer e.
                  after_preflight-Cases loaded (load s).1 (fetched loaded) (allocation loaded).1
                    (outer (p.preflight allocated.0) (allocation loaded).1).1 allocated a
                    (ap (λ x. x.0) b) c d answer e
                    (allocate_missing-calls p (without_ip p loaded) loaded o.json_file
                      (fetched loaded)))))))
    where
      load : M W Definition
      load = outer (p.load o.json_file)

      fetched : Definition → State W
      fetched loaded = (fetching p loaded (load s).1).1

      allocation : Definition → Result Allocated × State W
      allocation loaded =
          allocate_missing p (without_ip p loaded) loaded o.json_file (fetched loaded)

-- Nothing in the report failed.
abbrev pub IsClean : Report → Type 0
IsClean r =
    (has_errors r ≡ false)
    × (any node_failed r.nodes ≡ false)
    × (any cluster_failed r.clusters ≡ false)
    × (any addon_failed r.addons ≡ false)

exit_status-IsClean : (r : Report) → exit_status r ≡ 0 → IsClean r
unfolding exit_status failed
exit_status-IsClean r e = ground arith

module _ {W : Type 0} (p : Program W) (o : Options) (s : State W) where
  -- The run itself, from the state that the checks leave to the end of the program.
  abbrev pub Succeeded : Result ℕ × State W → Type 0
  Succeeded end =
      (c : Passed p o s end) × (setup_lab (p.out c.allocated.1) p.env c.checked o.keep_them
          o.parallel c.ready
        ≡ (ok tt, end.1))
      × IsClean end.1.report

  -- Where the program behind its arguments ends with the status 0: all checks have passed; the run of what
  -- the preflight gave, from the state behind the checks and with the file that holds the addresses, ended
  -- without an exception and in the state that the program ends in; and no machine, cluster or add-on of the
  -- report there failed, and no error stands in it.
  pub main_with-Succeeded : (main_with p o s).0 ≡ ok 0 → Succeeded (main_with p o s)
  main_with-Succeeded e = by_cases (main_with-Cases p o s)
    where
      end : Result ℕ × State W
      end = main_with p o s

      by_result :
          (c : Passed p o s end) (r : Result {0} Unit) (u : State W)
          → setup_lab (p.out c.allocated.1) p.env c.checked o.keep_them o.parallel c.ready ≡ (r, u)
          → end ≡ continue r (λ v w. (ok (exit_status w.report), w)) u
          → Succeeded end
      by_result c (raise x) u q run =
          (let f : ◌≡◌ {A = Result ℕ} (raise x) (ok 0) = sym (ap (λ z. z.0) run) ∙ e in cc)
      by_result c (ok v) u q run = (
        c,
        q ∙ ap (λ z. (ok tt, z.1)) (sym run),
        subst (λ z. IsClean z.report) (sym (ap (λ z. z.1) run))
            (exit_status-IsClean u.report (ok-eq (sym (ap (λ z. z.0) run) ∙ e))),
      )

      by_cases : Cases p o s end → Succeeded end
      by_cases (inl (same, ne)) = absurd (ne e)
      by_cases (inr c) =
          by_result c
            (setup_lab (p.out c.allocated.1) p.env c.checked o.keep_them o.parallel c.ready).0
            (setup_lab (p.out c.allocated.1) p.env c.checked o.keep_them o.parallel c.ready).1 refl
            c.run
