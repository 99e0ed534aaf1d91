-- ===== src/Kubernetes.antt =====
-- libs/k8s.py and libs/apps.py: what supplies a cluster's ingress controller and storage class. An add-on's declaration (apps.load_plugin) is a parameter, and so is
-- Python's str() of a value that is no text. The message of a die() is left short. A set is a list.
pub mod Plan
pub mod Requirements
pub mod Provides
pub mod Nodes
use lab_in_a_box.Prelude.{
  String, Bool, true, false, not, ◌&&◌, ◌||◌, Option, none, some, List, [], ◌∷◌, ◌++◌, map, mem,
  keys, Dict, get, has, str_eq, if◌then◌else◌,
}
use lab_in_a_box.Result.{Result, ok, raise, died, key_error, ◌>>=◌}
use lab_in_a_box.Text.{lstrip, rstrip, lower}
use lab_in_a_box.Migrations.{Value, text, Config, Owner, Definition, truthy}
use lab_in_a_box.Migrations.Defaults.{entry_names}

-- What a class of distribution says of itself.
pub record Distro : Type 0 where
  pub name : String
  pub bundled : List String
  pub bundled_choice : Dict String
  pub can_disable_bundled : Bool

abbrev pub ingress : String
ingress = "ingress"

abbrev pub storageclass : String
storageclass = "storageclass"

abbrev harvester : Distro
harvester = record {
  name = "harvester";
  bundled = ingress ∷ storageclass ∷ [];
  bundled_choice = (ingress, "nginx") ∷ (storageclass, "longhorn") ∷ [];
  can_disable_bundled = false;
}

abbrev k3s : Distro
k3s = record {
  name = "k3s";
  bundled = ingress ∷ storageclass ∷ [];
  bundled_choice = (ingress, "traefik") ∷ (storageclass, "local-path") ∷ [];
  can_disable_bundled = true;
}

abbrev kubeadm : Distro
kubeadm = record { name = "kubeadm"; bundled = []; bundled_choice = []; can_disable_bundled = true }

abbrev rke2 : Distro
rke2 = record {
  name = "rke2";
  bundled = ingress ∷ [];
  bundled_choice = (ingress, "nginx") ∷ [];
  can_disable_bundled = true;
}

abbrev pub distros : Dict Distro
distros = ("harvester", harvester) ∷ ("k3s", k3s) ∷ ("kubeadm", kubeadm) ∷ ("rke2", rke2) ∷ []

-- get_distro
unfoldable pub get_distro : String → Result Distro
get_distro clu_type = elim (get clu_type distros) [
  | none ↦ raise (died "Unknown Kubernetes distribution")
  | some d ↦ ok d
]

-- _known_distro, of a field that is a text or absent
abbrev pub known_distro : Option Value → Option Distro
known_distro (some (text s)) = get s distros
known_distro _ = none

-- A need, the field that names its supplier, the add-on of each supplier, and the default.
pub record Supply : Type 0 where
  pub need : String
  pub field : String
  pub choices : Dict String
  pub default : String

abbrev pub ingress_supply : Supply
ingress_supply = record {
  need = ingress;
  field = "clu_ingress";
  choices = ("nginx", "nginx") ∷ ("traefik", "traefik") ∷ ("none", "") ∷ [];
  default = "nginx";
}

abbrev pub storage_supply : Supply
storage_supply = record {
  need = storageclass;
  field = "clu_storage";
  choices = ("longhorn", "longhorn") ∷ ("local-path", "local_path") ∷ ("none", "") ∷ [];
  default = "longhorn";
}

-- _CLUSTER_CHOICES
abbrev pub cluster_choices : List Supply
cluster_choices = ingress_supply ∷ storage_supply ∷ []

-- What an add-on's PLUGIN declares.
pub record Plugin : Type 0 where
  pub targets : List String
  pub requires_kubernetes : Option (List String)
  pub requires_cluster : List String
  pub provides_cluster : List String

abbrev pub or_default : Option String → String → String
or_default none default = default
or_default (some s) default = s

-- _clu_section; a cluster that is missing has no fields and no add-ons
abbrev pub clu_section : Definition → String → Owner
clu_section d clu = elim (get clu d.kclusters) [
  | none ↦ record { fields = []; addons = [] }
  | some o ↦ o
]

abbrev pub distro_of : Owner → Option Distro
distro_of o = known_distro (get "clu_type" o.fields)

abbrev pub own_choice : Option Distro → String → Option String
own_choice none need = none
own_choice (some d) need = get need d.bundled_choice

-- [x for name in names for x in declared(name)]
abbrev pub each_of : (String → List String) → List String → List String
each_of declared [] = []
each_of declared (n ∷ names) = declared n ++ each_of declared names

-- distro.bundled_choice.get(need) == choice
abbrev pub is_own : String → Option String → Bool
is_own choice none = false
is_own choice (some own) = str_eq own choice

-- choices[choice]
abbrev pub addon_of : Option String → Result String
addon_of none = raise key_error
addon_of (some a) = ok a

abbrev pub listed_unless : String → String → List String → List (String × String)
listed_unless need addon listed =
    if not (str_eq addon "") && not (mem addon listed) then (need, addon) ∷ [] else []

-- What the plan has for a choice that was made.
abbrev pub supply_with : Distro → Supply → List String → String → Result (List (String × String))
supply_with distro s listed choice =
    if is_own choice (get s.need distro.bundled_choice)
    then ok []
    else if mem s.need distro.bundled && not distro.can_disable_bundled
    then raise (died "the distribution brings its own")
    else (addon_of (get choice s.choices) >>= λ addon. ok (listed_unless s.need addon listed))

module _ (str_of : Value → String) (plugin_of : String → Plugin) where
  -- str(cfg.get(field) or default).strip().lower()
  abbrev pub said : Config → String → String → String
  said cfg field default =
      let value : Option Value → String = λ v. elim v [
        | none ↦ default
        | some (text s) ↦ if str_eq s "" then default else s
        | some w ↦ if truthy w then str_of w else default
      ] in
      lower (rstrip (lstrip (value (get field cfg))))

  -- The choice of one supply, which must be among its choices.
  abbrev pub choice_of : Owner → Supply → Result String
  choice_of o s =
      let choice = said o.fields s.field (or_default (own_choice (distro_of o) s.need) s.default) in
      if has choice s.choices then ok choice else raise (died "unknown choice")

  abbrev pub choice_among : Owner → String → List Supply → Result String
  choice_among o need [] = ok ""
  choice_among o need (s ∷ supplies) =
      if str_eq s.need need then choice_of o s else choice_among o need supplies

  unfoldable pub cluster_choice : Definition → String → String → Result String
  cluster_choice d clu need = choice_among (clu_section d clu) need cluster_choices

  unfoldable pub cluster_needs : Definition → String → Result (List String)
  cluster_needs d clu = do
    names ← entry_names (clu_section d clu).addons
    ok (each_of (λ n. (plugin_of n).requires_cluster) names)

  -- A pass of cluster_plan's loop: the pairs that it adds.
  abbrev pub plan_step :
      Definition
      → String
      → Distro
      → (listed required : List String) → Supply
      → Result (List (String × String))
  plan_step d clu distro listed required s =
      let supplied = cluster_choice d clu s.need >>= supply_with distro s listed in
      if str_eq (said (clu_section d clu).fields s.field "") ""
        && (mem s.need distro.bundled || not (mem s.need required))
      then ok []
      else supplied

  abbrev pub plan_steps :
      Definition
      → String
      → Distro
      → (listed required : List String) → List Supply
      → Result (List (String × String))
  plan_steps d clu distro listed required [] = ok []
  plan_steps d clu distro listed required (s ∷ supplies) = do
    here ← plan_step d clu distro listed required s
    rest ← plan_steps d clu distro listed required supplies
    ok (here ++ rest)

  abbrev plan_on : Definition → String → Option Distro → Result (List (String × String))
  plan_on d clu none = ok []
  plan_on d clu (some distro) = do
    listed ← entry_names (clu_section d clu).addons
    required ← cluster_needs d clu
    plan_steps d clu distro listed required cluster_choices

  unfoldable pub cluster_plan : Definition → String → Result (List (String × String))
  unfolding cluster_choice cluster_needs
  cluster_plan d clu = plan_on d clu (distro_of (clu_section d clu))

  unfoldable pub cluster_services : Definition → String → Result (List String)
  unfolding cluster_plan
  cluster_services d clu = do plan ← cluster_plan d clu; ok (map (λ p. p.1) plan)

  abbrev pub disabled_among : Config → Distro → List Supply → List String
  disabled_among ctx distro [] = []
  disabled_among ctx distro (s ∷ supplies) =
      let rest = disabled_among ctx distro supplies in
      elim (get s.need distro.bundled_choice) [
        | none ↦ rest
        | some own ↦ if str_eq (said ctx s.field own) own then rest else s.need ∷ rest
      ]

  unfoldable pub cluster_disabled : Config → Distro → List String
  cluster_disabled ctx distro = disabled_among ctx distro cluster_choices

  abbrev pub bundled_of : Option Distro → List String
  bundled_of none = []
  bundled_of (some distro) = distro.bundled

  unfoldable pub cluster_provides : Definition → String → Result (List String)
  unfolding cluster_plan
  cluster_provides d clu = do
    plan ← cluster_plan d clu
    names ← entry_names (clu_section d clu).addons
    ok (
        bundled_of (distro_of (clu_section d clu))
        ++ (map (λ p. p.0) plan ++ each_of (λ n. (plugin_of n).provides_cluster) names))
