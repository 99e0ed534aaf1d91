-- ===== src/Kubernetes/Provides.antt =====
-- What a planned cluster provides covers what its add-ons require.
use lab_in_a_box.Prelude.{
  text-ne, String, true, Option, none, some, List, [], ◌∷◌, ◌++◌, map, mem, All, mem-append,
  mem_here, mem-later, Dict, get, str_eq, if◌then◌else◌, ◌≡◌, ◌∙◌, ◌≢◌, ◌⊎◌, inl, inr, refl, sym,
  ap, eq_iff, some-eq, arith, Bool-cases,
}
use lab_in_a_box.Result.{Result, ok, raise, ◌>>=◌, ok-eq, bind-ok}
use lab_in_a_box.Migrations.{Value, Definition}
use lab_in_a_box.Migrations.Defaults.{entry_names}
use lab_in_a_box.Kubernetes.{
  Distro, Supply, Plugin, distro_of, cluster_choices, plan_step, plan_steps, cluster_choice,
  cluster_needs, cluster_plan, cluster_provides, each_of, clu_section,
}
use lab_in_a_box.Kubernetes.Requirements.{
  requirement_issue, container_issue, supports, unsupported_target, first_unmet,
}
use lab_in_a_box.Kubernetes.Plan.{OwnIsBundled, Covered, plan_step-Covered, known-OwnIsBundled}

-- The needs of pairs.
abbrev needs_of : List (String × String) → List String
needs_of pairs = map (λ p. p.0) pairs

needs_of-append :
    (xs ys : List (String × String)) → needs_of (xs ++ ys) ≡ needs_of xs ++ needs_of ys
needs_of-append [] ys = refl
needs_of-append (x ∷ xs) ys = ap (λ l. x.0 ∷ l) (needs_of-append xs ys)

mem-left : (s : String) (xs ys : List String) → mem s xs ≡ true → mem s (xs ++ ys) ≡ true
mem-left s xs ys e = rw (mem-append s xs ys, e)

mem-right : (s : String) (xs ys : List String) → mem s ys ≡ true → mem s (xs ++ ys) ≡ true
mem-right s xs ys e = ground (arith, mem-append s xs ys)

Covered-append :
    (distro : Distro) (s : Supply) (listed : List String) (xs ys : List (String × String))
    → Covered distro s listed xs ⊎ Covered distro s listed ys
    → Covered distro s listed (xs ++ ys)
Covered-append distro s listed xs ys (inl (inl b)) = inl b
Covered-append distro s listed xs ys (inr (inl b)) = inl b
Covered-append distro s listed xs ys (inl (inr (inr l))) = inr (inr l)
Covered-append distro s listed xs ys (inr (inr (inr l))) = inr (inr l)
Covered-append distro s listed xs ys (inl (inr (inl m))) =
    inr (inl (rw (needs_of-append xs ys) (mem-left s.need (needs_of xs) (needs_of ys) m)))
Covered-append distro s listed xs ys (inr (inr (inl m))) =
    inr (inl (rw (needs_of-append xs ys) (mem-right s.need (needs_of xs) (needs_of ys) m)))

-- The supply is one of the list.
abbrev pub IsAmong : Supply → List Supply → Type 0
IsAmong s [] = ⊥
IsAmong s (x ∷ xs) = (s ≡ x) ⊎ IsAmong s xs

get_past :
    (choice a b : String) (d : Dict String)
    → b ≢ ""
    → get choice ((a, b) ∷ d) ≡ some ""
    → get choice d ≡ some ""
get_past choice a b d ne g = elim (Bool-cases (str_eq a choice)) [
  | inl p ↦ absurd (ne (some-eq (rw (p) at g)))
  | inr p ↦ rw (p) at g
]

get_last :
    (choice : String) → get {V = String} choice (("none", "") ∷ []) ≡ some "" → choice ≡ "none"
get_last choice g = elim (Bool-cases (str_eq "none" choice)) [
  | inl p ↦ sym ((eq_iff "none" choice).0 p)
  | inr p ↦ (let f : ◌≡◌ {A = Option String} none (some "") = rw (p) at g in cc)
]

-- The add-on of a choice is empty for "none" only.
only_none :
    (s : Supply) (choice : String)
    → IsAmong s cluster_choices
    → get choice s.choices ≡ some ""
    → choice ≡ "none"
only_none s choice (inl e) g = get_last choice (
    get_past choice "traefik" "traefik" (("none", "") ∷ []) (text-ne "traefik" "" refl) (
      get_past choice "nginx" "nginx" (("traefik", "traefik") ∷ ("none", "") ∷ [])
        (text-ne "nginx" "" refl) (sym (ap (λ x. get choice x.choices) e) ∙ g)))
only_none s choice (inr (inl e)) g = get_last choice (
    get_past choice "local-path" "local_path" (("none", "") ∷ []) (text-ne "local_path" "" refl) (
      get_past choice "longhorn" "longhorn" (("local-path", "local_path") ∷ ("none", "") ∷ [])
        (text-ne "longhorn" "" refl) (sym (ap (λ x. get choice x.choices) e) ∙ g)))
only_none s choice (inr (inr b)) g = absurd b

container_issue-covered :
    (p : Plugin) (clu_type : Option String) (provides : List String)
    → first_unmet p.requires_cluster provides ≡ none
    → container_issue p clu_type (some provides) ≡ container_issue p clu_type none
container_issue-covered p clu_type provides e = by_kubernetes p.requires_kubernetes refl
  where
    by_kubernetes :
        (k : Option (List String))
        → p.requires_kubernetes ≡ k
        → container_issue p clu_type (some provides) ≡ container_issue p clu_type none
    by_kubernetes none q = rw (q) e
    by_kubernetes (some []) q = rw (q) e
    by_kubernetes (some (k ∷ ks)) q = rw (q, e) refl

module _ (str_of : Value → String) (plugin_of : String → Plugin) where
  plan_steps-Covered :
      (d : Definition) (clu : String) (distro : Distro) (listed required : List String) (s : Supply)
      (choice : String) (supplies : List Supply) (pairs : List (String × String))
      → OwnIsBundled distro
      → cluster_choice str_of plugin_of d clu s.need ≡ ok choice
      → get choice s.choices ≢ some ""
      → mem s.need required ≡ true
      → IsAmong s supplies
      → plan_steps str_of plugin_of d clu distro listed required supplies ≡ ok pairs
      → Covered distro s listed pairs
  plan_steps-Covered d clu distro listed required s choice [] pairs own c ne r among e =
      absurd among
  plan_steps-Covered d clu distro listed required s choice (x ∷ supplies) pairs own c ne r among e =
      let (xs, p, f) =
        bind-ok (plan_step str_of plugin_of d clu distro listed required x)
          (λ xs. plan_steps str_of plugin_of d clu distro listed required supplies >>= λ ys.
            ok (xs ++ ys))
          pairs e in
      let (ys, q, g) =
        bind-ok (plan_steps str_of plugin_of d clu distro listed required supplies)
          (λ ys. ok (xs ++ ys)) pairs f in
      rw (← ok-eq g) (
        Covered-append distro s listed xs ys (elim among [
          | inl same ↦ inl (
              plan_step-Covered str_of plugin_of d clu distro listed required s choice xs own c ne r
                (ap (λ y. plan_step str_of plugin_of d clu distro listed required y) same ∙ p))
          | inr later ↦ inr (
              plan_steps-Covered d clu distro listed required s choice supplies ys own c ne r later
                q)
        ]))

  -- The add-ons that supply a need say so.
  abbrev pub SuppliersProvide : Type 0
  SuppliersProvide =
      (s : Supply)
      → IsAmong s cluster_choices
      → (choice addon : String) → get choice s.choices ≡ some addon
      → addon ≢ ""
      → mem s.need (plugin_of addon).provides_cluster ≡ true

  each_of-mem :
      (declared : String → List String) (need n : String) (names : List String)
      → mem n names ≡ true
      → mem need (declared n) ≡ true
      → mem need (each_of declared names) ≡ true
  each_of-mem declared need n [] m e = cc
  each_of-mem declared need n (x ∷ names) m e = elim (Bool-cases (str_eq x n)) [
    | inl p ↦ mem-left need (declared x) (each_of declared names) (rw ((eq_iff x n).0 p) e)
    | inr p ↦
        mem-right need (declared x) (each_of declared names)
          (each_of-mem declared need n names (rw (p) at m) e)
  ]

  Covered-mem :
      SuppliersProvide
      → (distro : Distro) (s : Supply) (listed : List String) (pairs : List (String × String))
      → IsAmong s cluster_choices
      → Covered distro s listed pairs
      → mem s.need (
          distro.bundled
          ++ (needs_of pairs ++ each_of (λ n. (plugin_of n).provides_cluster) listed))
        ≡ true
  Covered-mem suppliers distro s listed pairs among (inl b) = mem-left s.need distro.bundled _ b
  Covered-mem suppliers distro s listed pairs among (inr (inl p)) =
      mem-right s.need distro.bundled _ (mem-left s.need (needs_of pairs) _ p)
  Covered-mem suppliers distro s listed pairs among (inr (inr (choice, addon, g, ne, m))) =
      mem-right s.need distro.bundled _ (
        mem-right s.need (needs_of pairs) _ (
          each_of-mem (λ n. (plugin_of n).provides_cluster) s.need addon listed m
            (suppliers s among choice addon g ne)))

  -- Where the add-ons that can supply a need say so: a need that an add-on of the cluster requires, and for
  -- which the cluster's choice is not "none", is among what the cluster provides, whenever its plan succeeds
  -- and its distribution is known.
  pub cluster_provides_needed :
      SuppliersProvide
      → (d : Definition) (clu : String) (required provides : List String) (s : Supply)
        (choice : String) (distro : Distro)
      → distro_of (clu_section d clu) ≡ some distro
      → IsAmong s cluster_choices
      → cluster_choice str_of plugin_of d clu s.need ≡ ok choice
      → choice ≢ "none"
      → cluster_needs str_of plugin_of d clu ≡ ok required
      → mem s.need required ≡ true
      → cluster_provides str_of plugin_of d clu ≡ ok provides
      → mem s.need provides ≡ true
  unfolding cluster_provides cluster_plan
  cluster_provides_needed suppliers d clu required provides s choice distro known among c not_none r
        m e =
      by_names (entry_names (clu_section d clu).addons) refl (rw (known, r) at e)
    where
      by_names :
          (names : Result (List String))
          → entry_names (clu_section d clu).addons ≡ names
          → ((names >>= λ listed.
                plan_steps str_of plugin_of d clu distro listed required cluster_choices)
              >>= λ plan. names >>= λ listed. ok (
                  distro.bundled
                  ++ (needs_of plan ++ each_of (λ n. (plugin_of n).provides_cluster) listed)))
            ≡ ok provides
          → mem s.need provides ≡ true
      by_names (raise x) p f = cc
      by_names (ok listed) p f =
          let (plan, q, g) =
            bind-ok (plan_steps str_of plugin_of d clu distro listed required cluster_choices)
              (λ plan. ok (
                distro.bundled
                ++ (needs_of plan ++ each_of (λ n. (plugin_of n).provides_cluster) listed)))
              provides f in
          rw (← ok-eq g) (
            Covered-mem suppliers distro s listed plan among (
              plan_steps-Covered d clu distro listed required s choice cluster_choices plan
                (known-OwnIsBundled (get "clu_type" (clu_section d clu).fields) distro known) c
                (λ empty. not_none (only_none s choice among empty)) m among q))

  -- The cluster's choice for each need is made, and is not "none".
  abbrev pub Chosen : Definition → String → Type 0
  Chosen d clu =
      (s : Supply)
      → IsAmong s cluster_choices
      → (choice : String) × (cluster_choice str_of plugin_of d clu s.need ≡ ok choice)
        × (choice ≢ "none")

  -- Each need is one that a cluster has a field for.
  abbrev pub Known : List String → Type 0
  Known needs = All (λ n. (s : Supply) × IsAmong s cluster_choices × (n ≡ s.need)) needs

  first_unmet-none :
      (needs provides : List String)
      → Known needs
      → ((s : Supply)
          → IsAmong s cluster_choices
          → mem s.need needs ≡ true
          → mem s.need provides ≡ true)
      → first_unmet needs provides ≡ none
  first_unmet-none [] provides known all = refl
  first_unmet-none (n ∷ needs) provides ((s, among, e), known) all =
      let here : mem n provides ≡ true =
        rw (e) (all s among (ap (λ x. mem x (n ∷ needs)) (sym e) ∙ mem_here n needs)) in
      rw (here) (
        first_unmet-none needs provides known
          (λ t among_t m. all t among_t (mem-later t.need n needs m)))

  -- Where the add-ons that can supply a need say so, and the cluster's choices are made and not "none": an
  -- add-on of the cluster that requires no other needs meets, on what the cluster provides, only the issues
  -- that it would meet if the needs were not checked.
  pub requirement_issue-cluster_provides :
      SuppliersProvide
      → (d : Definition) (clu : String) (names provides : List String) (distro : Distro)
        (addon : String) (target : String) (clu_type : Option String)
      → distro_of (clu_section d clu) ≡ some distro
      → Chosen d clu
      → entry_names (clu_section d clu).addons ≡ ok names
      → mem addon names ≡ true
      → Known (plugin_of addon).requires_cluster
      → cluster_provides str_of plugin_of d clu ≡ ok provides
      → requirement_issue (plugin_of addon) target clu_type (some provides)
        ≡ requirement_issue (plugin_of addon) target clu_type none
  unfolding requirement_issue cluster_needs
  requirement_issue-cluster_provides suppliers d clu names provides distro addon target clu_type
        known chosen n m needs e =
      ap
        (λ i.
          if supports (plugin_of addon) target
          then (if str_eq target "container" then i else none)
          else some (unsupported_target target (plugin_of addon).targets))
        (container_issue-covered (plugin_of addon) clu_type provides covered)
    where
      covered : first_unmet (plugin_of addon).requires_cluster provides ≡ none
      covered = first_unmet-none (plugin_of addon).requires_cluster provides needs (λ s among q.
          let (choice, c, not_none) = chosen s among in
          cluster_provides_needed suppliers d clu
            (each_of (λ x. (plugin_of x).requires_cluster) names) provides s choice distro known
            among c not_none (rw (n) refl)
            (each_of-mem (λ x. (plugin_of x).requires_cluster) s.need addon names m q) e)
