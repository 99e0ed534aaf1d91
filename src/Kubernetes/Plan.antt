-- ===== src/Kubernetes/Plan.antt =====
-- One pass of cluster_plan's loop.
use lab_in_a_box.Prelude.{
  String, Bool, true, false, ◌&&◌, Option, none, some, List, [], ◌∷◌, map, mem, keys, All, mem_here,
  Dict, get, str_eq, ◌≡◌, ◌≢◌, ◌⊎◌, inl, inr, refl, ap, eq_iff, some-eq, arith, Bool-cases,
}
use lab_in_a_box.Result.{ok, ◌>>=◌, ok-eq}
use lab_in_a_box.Migrations.{Value, text, Definition}
use lab_in_a_box.Kubernetes.{
  Distro, Supply, Plugin, distros, known_distro, addon_of, supply_with, plan_step, cluster_choice,
  is_own, listed_unless,
}

-- Only what the distribution brings has a choice that is the distribution's own.
abbrev pub OwnIsBundled : Distro → Type 0
OwnIsBundled distro =
    (need choice : String)
    → is_own choice (get need distro.bundled_choice) ≡ true
    → mem need distro.bundled ≡ true

-- What covers a need: the distribution, the plan, or a listed add-on.
abbrev pub Covered : Distro → Supply → (listed : List String) → List (String × String) → Type 0
Covered distro s listed pairs =
    (mem s.need distro.bundled ≡ true)
    ⊎ ((mem s.need (map (λ p. p.0) pairs) ≡ true)
        ⊎ ((choice addon : String) × (get choice s.choices ≡ some addon)
            × (addon ≢ "")
            × (mem addon listed ≡ true)))

-- A supplier that is an add-on is in the plan, or was listed already.
supplied-Covered :
    (distro : Distro) (s : Supply) (listed : List String) (choice : String) (o : Option String)
    (pairs : List (String × String))
    → get choice s.choices ≡ o
    → o ≢ some ""
    → (addon_of o >>= λ addon. ok (listed_unless s.need addon listed)) ≡ ok pairs
    → Covered distro s listed pairs
supplied-Covered distro s listed choice none pairs g ne e = cc
supplied-Covered distro s listed choice (some addon) pairs g ne e =
    elim (Bool-cases (mem addon listed)) [
      | inl m ↦ inr (inr (choice, addon, g, (λ p. ne (ap some p)), m))
      | inr m ↦ elim (Bool-cases (str_eq addon "")) [
        | inl p ↦ absurd (ne (ap some ((eq_iff addon "").0 p)))
        | inr p ↦ inr (inl (rw (← ok-eq (rw (m, p) at e)) (mem_here s.need [])))
      ]
    ]

supply_with-Covered :
    (distro : Distro) (s : Supply) (listed : List String) (choice : String)
    (pairs : List (String × String))
    → OwnIsBundled distro
    → get choice s.choices ≢ some ""
    → supply_with distro s listed choice ≡ ok pairs
    → Covered distro s listed pairs
supply_with-Covered distro s listed choice pairs own ne e =
    elim (Bool-cases (is_own choice (get s.need distro.bundled_choice))) [
      | inl o ↦ inl (own s.need choice o)
      | inr o ↦ elim (Bool-cases (mem s.need distro.bundled)) [
        | inl b ↦ inl b
        | inr b ↦
            supplied-Covered distro s listed choice (get choice s.choices) pairs refl ne
              (rw (o, b) at e)
      ]
    ]

own-keys :
    (need choice : String) (d : Dict String)
    → is_own choice (get need d) ≡ true
    → mem need (keys d) ≡ true
own-keys need choice [] e = e
own-keys need choice ((k, v) ∷ d) e = ground (arith, own-keys need choice d)

keys-OwnIsBundled :
    (distro : Distro) → distro.bundled ≡ keys distro.bundled_choice → OwnIsBundled distro
keys-OwnIsBundled distro e need choice own = rw (e) (own-keys need choice distro.bundled_choice own)

pub get-All :
    {V : Type 0} (P : V → Type 0) (k : String) (d : Dict V) (v : V)
    → All (λ e. P e.1) d
    → get k d ≡ some v
    → P v
get-All P k [] v h e = cc
get-All P k ((j, w) ∷ d) v h e = elim (Bool-cases (str_eq j k)) [
  | inl p ↦ rw (← some-eq (rw (p) at e)) h.0
  | inr p ↦ get-All P k d v h.1 (rw (p) at e)
]

pub known-OwnIsBundled :
    (clu_type : Option Value) (distro : Distro)
    → known_distro clu_type ≡ some distro
    → OwnIsBundled distro
known-OwnIsBundled (some (text s)) distro e = keys-OwnIsBundled distro (
    get-All (λ x. x.bundled ≡ keys x.bundled_choice) s distros distro
      (refl, (refl, (refl, (refl, tt)))) e)
known-OwnIsBundled none distro e = cc
known-OwnIsBundled (some _) distro e = cc

and_false : (b : Bool) → (b && false) ≡ false
and_false true = refl
and_false false = refl

module _ (str_of : Value → String) (plugin_of : String → Plugin) where
  pub plan_step-Covered :
      (d : Definition) (clu : String) (distro : Distro) (listed required : List String) (s : Supply)
      (choice : String) (pairs : List (String × String))
      → OwnIsBundled distro
      → cluster_choice str_of plugin_of d clu s.need ≡ ok choice
      → get choice s.choices ≢ some ""
      → mem s.need required ≡ true
      → plan_step str_of plugin_of d clu distro listed required s ≡ ok pairs
      → Covered distro s listed pairs
  plan_step-Covered d clu distro listed required s choice pairs own c ne r e =
      elim (Bool-cases (mem s.need distro.bundled)) [
        | inl b ↦ inl b
        | inr b ↦
            supply_with-Covered distro s listed choice pairs own ne (rw (b, r, c, and_false) at e)
      ]
