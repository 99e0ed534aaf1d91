-- ===== src/LabRun/AddonOrder.antt =====
-- scripts/setup_lab.py: which add-ons a cluster gets, and in which order.
use lab_in_a_box.Prelude.{
  String, Bool, true, false, not, ◌&&◌, Option, some, List, [], ◌∷◌, ◌++◌, ◌≡◌, ◌∙◌, refl, sym, ap,
  mem, mem-append, arith, if◌then◌else◌, str_eq, Bool-cases, inl, inr, eq_iff, append-nil,
}
use lab_in_a_box.Result.{Result, ok, raise}
use lab_in_a_box.Migrations.{Value, Config, Definition}
use lab_in_a_box.Kubernetes.{Plugin, clu_section, cluster_services, cluster_provides}
use lab_in_a_box.Kubernetes.Requirements.{check_requirements}
use lab_in_a_box.LabRun.{
  Exit, Scope, cluster_scope, Call, run_addon, Outside, State, M, continue, called, for_each,
  add_addon, addon_status, addon_exited, add_error, is_success, note,
}
use lab_in_a_box.LabRun.Clusters.{
  joined_names, once, addon_ended, installer, clu_type_of, manager, cluster_addon,
  install_cluster_addons,
}

-- No text stands in the list twice.
abbrev pub IsDistinct : List String → Type 0
IsDistinct [] = Unit
IsDistinct (x ∷ xs) = (mem x xs ≡ false) × IsDistinct xs

once-mem :
    (done names : List String) (a : String)
    → mem a (once done names) ≡ (mem a names && not (mem a done))
unfolding once
once-mem done [] a = refl
once-mem done (x ∷ names) a = elim (Bool-cases (mem x done)) [
  | inl p ↦ rw (p) (ground (arith, once-mem done names a, same p))
  | inr p ↦ rw (p) (ground (arith, once-mem (x ∷ done) names a, same p))
]
  where
    same : {b : Bool} → mem x done ≡ b → str_eq x a ≡ true → mem a done ≡ b
    same p e = rw (← (eq_iff x a).0 e) p

once-IsDistinct : (done names : List String) → IsDistinct (once done names)
unfolding once
once-IsDistinct done [] = tt
once-IsDistinct done (x ∷ names) = elim (Bool-cases (mem x done)) [
  | inl p ↦ rw (p) (once-IsDistinct done names)
  | inr p ↦
      rw (p)
        (ground (arith, once-mem (x ∷ done) names x, eq_iff x x), once-IsDistinct (x ∷ done) names)
]

once_same :
    (d e names : List String) → ((a : String) → mem a d ≡ mem a e) → once d names ≡ once e names
unfolding once
once_same d e [] h = refl
once_same d e (x ∷ names) h =
    ground (arith, h x, once_same d e names h, once_same (x ∷ d) (x ∷ e) names (λ a. rw (h a) refl))

once-append :
    (done xs ys : List String) → once done (xs ++ ys) ≡ once done xs ++ once (xs ++ done) ys
unfolding once
once-append done [] ys = refl
once-append done (x ∷ xs) ys = elim (Bool-cases (mem x done)) [
  | inl p ↦ rw (p) (
      once-append done xs ys
      ∙ ap (λ l. once done xs ++ l)
          (once_same (xs ++ done) (x ∷ (xs ++ done)) ys
            (λ a. ground (arith, mem-append a xs done, known p a))))
  | inr p ↦ rw (p) (
      ap (λ l. x ∷ l)
        (once-append (x ∷ done) xs ys
          ∙ ap (λ l. once (x ∷ done) xs ++ l)
              (once_same (xs ++ x ∷ done) (x ∷ (xs ++ done)) ys
                (λ a. ground (arith, mem-append a xs done, mem-append a xs (x ∷ done))))))
]
  where
    known : mem x done ≡ true → (a : String) → str_eq x a ≡ true → mem a done ≡ true
    known p a e = rw (← (eq_iff x a).0 e) p

-- The calls that run the add-ons from the machine, the newest first, before older calls.
abbrev pub ran : String → (vm : String) → List String → List Call → List Call
ran clu vm [] older = older
ran clu vm (a ∷ names) older = ran clu vm names (run_addon (cluster_scope clu) a vm ∷ older)

module _ {W : Type 0} {A : Type 0} where
  continue-calls :
      (r : Result A) (f : A → M W (Unit {0})) (s : State W) (calls : List Call)
      → ((a : A) → r ≡ ok a → (f a s).0 ≡ ok tt → (f a s).1.calls ≡ calls)
      → (continue r f s).0 ≡ ok tt
      → (continue r f s).1.calls ≡ calls
  continue-calls (ok a) f s calls h e = h a refl e
  continue-calls (raise x) f s calls h e = cc

module _ {W : Type 0} (out : Outside W) (str_of : Value → String) (plugin_of : String → Plugin)
    (installer_of : String → Option String) (d : Definition) (clu : String) (cfg : Config) where
  addon_ended-calls :
      (scope : Scope) (a : String) (r : Exit × Bool) (s : State W)
      → (addon_ended out scope a r s).1.calls ≡ s.calls
  addon_ended-calls scope a (rc, off) s = by_success (is_success rc)
    where
      by_success :
          (b : Bool)
          → ((if b
                then note {W = W} (add_addon scope a (addon_status rc off))
                else note (λ r.
                  add_error (addon_exited scope a rc) (add_addon scope a (addon_status rc off) r)))
              s).1.calls
            ≡ s.calls
      by_success true = refl
      by_success false = refl

  cluster_addon-calls :
      (vm a : String) (s : State W)
      → manager out str_of plugin_of installer_of d clu cfg ≡ ok vm
      → (cluster_addon out str_of plugin_of installer_of d clu cfg a s).0 ≡ ok tt
      → (cluster_addon out str_of plugin_of installer_of d clu cfg a s).1.calls
        ≡ run_addon (cluster_scope clu) a vm ∷ s.calls
  cluster_addon-calls vm a s m = continue-calls (installer installer_of a) _ s _ (λ path p.
      continue-calls (cluster_provides str_of plugin_of d clu) _ s _ (λ provides q.
        continue-calls
          (check_requirements (plugin_of a) "container"
            (some (clu_type_of out str_of plugin_of installer_of d cfg)) (some provides))
          _ s _
          (λ u r. continue-calls (manager out str_of plugin_of installer_of d clu cfg) _ s _ (λ v t.
            let same : v ≡ vm = (let f : ok v ≡ ok vm = sym t ∙ m in cc) in
            rw (← same) (ran_one v path)))))
    where
      ran_one :
          (v path : String)
          → (continue
              (out.addon_run path v (cluster_scope clu) s.world).0
              (addon_ended out (cluster_scope clu) a)
              (called
                (run_addon (cluster_scope clu) a v)
                (out.addon_run path v (cluster_scope clu) s.world).1
                s)).0
            ≡ ok tt
          → (continue
              (out.addon_run path v (cluster_scope clu) s.world).0
              (addon_ended out (cluster_scope clu) a)
              (called
                (run_addon (cluster_scope clu) a v)
                (out.addon_run path v (cluster_scope clu) s.world).1
                s)).1.calls
            ≡ run_addon (cluster_scope clu) a v ∷ s.calls
      ran_one v path =
          continue-calls (out.addon_run path v (cluster_scope clu) s.world).0
            (addon_ended out (cluster_scope clu) a)
            (called (run_addon (cluster_scope clu) a v)
              (out.addon_run path v (cluster_scope clu) s.world).1 s)
            (run_addon (cluster_scope clu) a v ∷ s.calls)
            (λ r e f. addon_ended-calls (cluster_scope clu) a r _)

  for_each-calls :
      (vm : String) (names : List String) (s : State W)
      → manager out str_of plugin_of installer_of d clu cfg ≡ ok vm
      → (for_each (cluster_addon out str_of plugin_of installer_of d clu cfg) names s).0 ≡ ok tt
      → (for_each (cluster_addon out str_of plugin_of installer_of d clu cfg) names s).1.calls
        ≡ ran clu vm names s.calls
  for_each-calls vm [] s m e = refl
  for_each-calls vm (a ∷ names) s m e =
      by_result (for_each-calls vm names (one s).1 m) (one s).0 refl e
    where
      one : M W (Unit {0})
      one = cluster_addon out str_of plugin_of installer_of d clu cfg a

      rest : M W (Unit {0})
      rest = for_each (cluster_addon out str_of plugin_of installer_of d clu cfg) names

      by_result :
          ((rest (one s).1).0 ≡ ok tt → (rest (one s).1).1.calls ≡ ran clu vm names (one s).1.calls)
          → (r : Result {0} Unit) → (one s).0 ≡ r
          → (continue r (λ u. rest) (one s).1).0 ≡ ok tt
          → (continue r (λ u. rest) (one s).1).1.calls ≡ ran clu vm (a ∷ names) s.calls
      by_result later (raise x) q f = cc
      by_result later (ok u) q f =
          later f ∙ ap (λ l. ran clu vm names l) (cluster_addon-calls vm a s m q)

  -- Where a cluster's add-ons are installed and no call raises: they are run from the cluster's machine,
  -- each once, first those that supply what the cluster lacks, then those that the definition lists and
  -- that are not among these.
  pub install_cluster_addons-ran :
      (services listed : List String) (vm : String) (s : State W)
      → cluster_services str_of plugin_of d clu ≡ ok services
      → joined_names (clu_section d clu).addons ≡ ok listed
      → manager out str_of plugin_of installer_of d clu cfg ≡ ok vm
      → (install_cluster_addons out str_of plugin_of installer_of d clu cfg s).0 ≡ ok tt
      → (first : List String) × (rest : List String) × ((install_cluster_addons out str_of plugin_of
            installer_of d clu cfg s).1.calls
          ≡ ran clu vm (first ++ rest) s.calls)
        × IsDistinct (first ++ rest)
        × ((a : String) → mem a first ≡ mem a services)
        × ((a : String) → mem a rest ≡ (mem a listed && not (mem a services)))
  unfolding install_cluster_addons
  install_cluster_addons-ran services listed vm s c j m = rw (c) (
      rw (j) (λ e. (
        once [] services,
        once (services ++ []) listed,
        for_each-calls vm (once [] (services ++ listed)) s m e
            ∙ ap (λ l. ran clu vm l s.calls) (once-append [] services listed),
        rw (← once-append [] services listed) (once-IsDistinct [] (services ++ listed)),
        (λ a. ground (arith, once-mem [] services a)),
        (λ a. rw (append-nil services) (once-mem services listed a)),
      )))
