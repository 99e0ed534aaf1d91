-- ===== src/LabRun/Gate/Quiet.antt =====
-- scripts/setup_lab.py: what main does before a run makes none of the run's calls.
use lab_in_a_box.Prelude.{
  String, Bool, true, Option, none, some, List, [], ◌∷◌, ◌++◌, ◌≡◌, ◌∙◌, refl, Dict,
}
use lab_in_a_box.Result.{Result, ok, raise}
use lab_in_a_box.Migrations.{Owner, Definition}
use lab_in_a_box.Migrations.Defaults.{addon_names}
use lab_in_a_box.LabRun.{State, M, continue, ◌>>=◌, pure}
use lab_in_a_box.LabRun.Clusters.{once}
use lab_in_a_box.LabRun.Main.{
  Check, Allocated, check_issues, Program, outer, choose_ips, allocate_missing, addon_issues,
  all_issues, passes, sorted_names, validate_addon_configs,
}

module _ {W : Type 0} (p : Program W) where
  choose_ips-calls :
      (nodes : Dict Owner) (d : Definition) (t : State W)
      → (choose_ips p nodes d t).1.calls ≡ t.calls
  choose_ips-calls [] d t = refl
  choose_ips-calls ((vm, n) ∷ nodes) d t =
      by_result (p.choose_ip vm d t.world).0 (λ e. choose_ips-calls nodes e _)
    where
      u : State W
      u = (outer (p.choose_ip vm d) t).1

      by_result :
          (r : Result Definition)
          → ((e : Definition) → (choose_ips p nodes e u).1.calls ≡ u.calls)
          → (continue r (choose_ips p nodes) u).1.calls ≡ t.calls
      by_result (ok e) later = later e
      by_result (raise e) later = refl

  pub allocate_missing-calls :
      (nodes : Dict Owner) (d : Definition) (json : String) (t : State W)
      → (allocate_missing p nodes d json t).1.calls ≡ t.calls
  allocate_missing-calls [] d json t = refl
  allocate_missing-calls (n ∷ nodes) d json t =
      by_result (choose_ips p (n ∷ nodes) d t).0 ∙ choose_ips-calls (n ∷ nodes) d t
    where
      u : State W
      u = (choose_ips p (n ∷ nodes) d t).1

      by_save :
          (r : Result String) (given : Definition)
          → (continue {B = Allocated} r (λ v. pure (given, v)) (outer (p.save given) u).1).1.calls
            ≡ u.calls
      by_save (ok path) given = refl
      by_save (raise e) given = refl

      by_result :
          (r : Result Definition)
          → (continue {B = Allocated} r
              (λ given. outer (p.save given) >>= λ v. pure (given, v))
              u).1.calls
            ≡ u.calls
      by_result (ok given) = by_save (p.save given u.world).0 given
      by_result (raise e) = refl

  addon_issues-calls :
      (json a : String) (installer : Option String) (t : State W)
      → (addon_issues p json a installer t).1.calls ≡ t.calls
  addon_issues-calls json a none t = refl
  addon_issues-calls json a (some path) t = by_result (p.check_addon path json t.world).0
    where
      by_result :
          (r : Result Check)
          → (continue r
              (λ check. pure (check_issues a check))
              (outer (p.check_addon path json) t).1).1.calls
            ≡ t.calls
      by_result (ok check) = refl
      by_result (raise e) = refl

  all_issues-calls :
      (json : String) (addons : List String) (t : State W)
      → (all_issues p json addons t).1.calls ≡ t.calls
  all_issues-calls json [] t = refl
  all_issues-calls json (a ∷ addons) t =
      by_result (one t).0 (all_issues-calls json addons u)
      ∙ addon_issues-calls json a (p.env.installer_of a) t
    where
      one : M W (List String)
      one = addon_issues p json a (p.env.installer_of a)

      u : State W
      u = (one t).1

      by_rest :
          (r : Result (List String)) (here : List String) (v : State W)
          → (continue r (λ rest. pure (here ++ rest)) v).1.calls ≡ v.calls
      by_rest (ok rest) here v = refl
      by_rest (raise e) here v = refl

      by_result :
          (r : Result (List String))
          → (all_issues p json addons u).1.calls ≡ u.calls
          → (continue r
              (λ here. all_issues p json addons >>= λ rest. pure (here ++ rest))
              u).1.calls
            ≡ u.calls
      by_result (ok here) later =
          by_rest (all_issues p json addons u).0 here (all_issues p json addons u).1 ∙ later
      by_result (raise e) later = refl

  pub validate_addon_configs-calls :
      (d : Definition) (json : String) (t : State W)
      → (validate_addon_configs p d json t).1.calls ≡ t.calls
  unfolding validate_addon_configs
  validate_addon_configs-calls d json t = by_names (addon_names d)
    where
      by_issues :
          (r : Result (List String)) (v : State W)
          → (continue {B = List String × Bool} r
              (λ issues. pure (issues, passes p issues))
              v).1.calls
            ≡ v.calls
      by_issues (ok issues) v = refl
      by_issues (raise e) v = refl

      by_names :
          (r : Result (List String))
          → (continue {B = List String × Bool} r
              (λ names. all_issues p json (sorted_names (once [] names)) >>= λ issues.
                pure (issues, passes p issues))
              t).1.calls
            ≡ t.calls
      by_names (ok names) =
          by_issues (all_issues p json (sorted_names (once [] names)) t).0
            (all_issues p json (sorted_names (once [] names)) t).1
          ∙ all_issues-calls json (sorted_names (once [] names)) t
      by_names (raise e) = refl

  -- The checks pass just without an issue.
  pub validate_addon_configs-passes :
      (d : Definition) (json : String) (t : State W) (issues : List String)
      → (validate_addon_configs p d json t).0 ≡ ok (issues, true)
      → issues ≡ []
  unfolding validate_addon_configs
  validate_addon_configs-passes d json t issues = by_names (addon_names d)
    where
      by_list :
          (found : List String)
          → ◌≡◌ {A = Result (List String × Bool)} (ok (found, passes p found)) (ok (issues, true))
          → issues ≡ []
      by_list [] e = cc
      by_list (i ∷ found) e = cc

      by_issues :
          (r : Result (List String)) (v : State W)
          → (continue {B = List String × Bool} r (λ issues. pure (issues, passes p issues)) v).0
            ≡ ok (issues, true)
          → issues ≡ []
      by_issues (ok found) v e = by_list found e
      by_issues (raise x) v e = cc

      by_names :
          (r : Result (List String))
          → (continue {B = List String × Bool} r
              (λ names. all_issues p json (sorted_names (once [] names)) >>= λ issues.
                pure (issues, passes p issues))
              t).0
            ≡ ok (issues, true)
          → issues ≡ []
      by_names (ok names) e =
          by_issues (all_issues p json (sorted_names (once [] names)) t).0
            (all_issues p json (sorted_names (once [] names)) t).1 e
      by_names (raise x) e = cc
