-- ===== src/Kubernetes/Requirements.antt =====
-- libs/apps.py: whether an add-on can be placed. The message of a die() is left short.
use lab_in_a_box.Prelude.{
  String, Bool, false, Option, none, some, List, [], ◌∷◌, mem, str_eq, if◌then◌else◌,
}
use lab_in_a_box.Result.{Result, ok, raise, died}
use lab_in_a_box.Kubernetes.{Plugin}

-- Why an add-on cannot be placed.
pub data Refusal : Type 0 where
  unsupported_target : String → List String → Refusal
  wrong_distribution : List String → Option String → Refusal
  unmet : (need : String) → Refusal

abbrev pub supports : Plugin → String → Bool
supports p target = mem target p.targets

abbrev pub first_unmet : (needs provides : List String) → Option Refusal
first_unmet [] provides = none
first_unmet (n ∷ needs) provides =
    if mem n provides then first_unmet needs provides else some (unmet n)

abbrev pub unmet_needs : Plugin → Option (List String) → Option Refusal
unmet_needs p none = none
unmet_needs p (some provides) = first_unmet p.requires_cluster provides

abbrev pub is_one_of : Option String → List String → Bool
is_one_of none names = false
is_one_of (some s) names = mem s names

abbrev pub container_issue : Plugin → Option String → Option (List String) → Option Refusal
container_issue p clu_type provides = elim p.requires_kubernetes [
  | none ↦ unmet_needs p provides
  | some [] ↦ unmet_needs p provides
  | some (k ∷ ks) ↦
      if is_one_of clu_type (k ∷ ks)
      then unmet_needs p provides
      else some (wrong_distribution (k ∷ ks) clu_type)
]

unfoldable pub requirement_issue :
    Plugin
    → (target : String) → (clu_type : Option String) → (provides : Option (List String))
    → Option Refusal
requirement_issue p target clu_type provides =
    if supports p target
    then (if str_eq target "container" then container_issue p clu_type provides else none)
    else some (unsupported_target target p.targets)

-- check_requirements: whether the program goes on
abbrev pub check_requirements :
    Plugin
    → (target : String) → (clu_type : Option String) → (provides : Option (List String))
    → Result {0} Unit
check_requirements p target clu_type provides =
    elim (requirement_issue p target clu_type provides) [
      | none ↦ ok tt
      | some r ↦ raise (died "Addon")
    ]
