-- ===== src/Migrations.antt =====
-- libs/migrations.py: the steps that move a lab definition across a breaking schema version. A definition
-- is its top-level sections, and the clusters and nodes, each with its add-ons; a change names the key and
-- what was written, without the reason and the owner's name that its sentence shows.
pub mod Steps
pub mod Walk
pub mod Rules
pub mod Rerun
pub mod Defaults
pub mod Pending
pub mod Table
use lab_in_a_box.Prelude.{
  ℕ, String, Bool, true, false, not, Option, none, some, List, [], ◌∷◌, ◌++◌, Dict, get, del, eqb,
  str_eq, if◌then◌else◌,
}

-- A value of a section.
pub data Value : Type 0 where
  null : Value
  flag : Bool → Value
  number : ℕ → Value
  text : String → Value
  items : List String → Value

abbrev pub Config : Type 0
Config = Dict Value

-- What a name of the definition, or of an entry of a list of add-ons, stands for.
pub data Section : Type 0 where
  object : Config → Section
  other : Value → Section

-- An entry of a list of add-ons: a name, or a mapping from a name to what overrides its section.
pub data Addon : Type 0 where
  plain : String → Addon
  override : Dict Section → Addon

-- A cluster or a node: its fields, and its add-ons.
pub record Owner : Type 0 where
  pub fields : Config
  pub addons : List Addon

pub record Definition : Type 0 where
  -- without kclusters, nodes and schema_versions
  pub sections : Dict Section
  pub kclusters : Dict Owner
  pub nodes : Dict Owner
  pub schema_versions : Dict String

pub data Change : Type 0 where
  removed : (key : String) → Change
  set_to : (key value : String) → Change
  listed : (key before : String) → List String → Change

-- Something changed in place, and the changes that were made.
abbrev pub Changing {ℓ} : Type ℓ → Type ℓ
Changing A = A → A × List Change

-- One change after the other.
abbrev pub then_also {ℓ} : {A : Type ℓ} → Changing A → Changing A → Changing A
then_also f g a = let (b, xs) = f a in let (c, ys) = g b in (c, xs ++ ys)

-- A change of each element.
abbrev pub each {ℓ} : {A : Type ℓ} → Changing A → Changing (List A)
each f [] = ([], [])
each f (a ∷ list) = let (b, xs) = f a in let (bs, ys) = each f list in (b ∷ bs, xs ++ ys)

-- bool(value)
abbrev pub truthy : Value → Bool
truthy null = false
truthy (flag b) = b
truthy (number n) = not (eqb n 0)
truthy (text s) = not (str_eq s "")
truthy (items []) = false
truthy (items (x ∷ xs)) = true

abbrev pub on_section : Changing Config → Changing Section
on_section f (other v) = (other v, [])
on_section f (object c) = let (d, xs) = f c in (object d, xs)

-- What stands under the name, if that is a mapping.
abbrev pub on_entry : String → Changing Config → Changing (Dict Section)
on_entry name f [] = ([], [])
on_entry name f ((k, s) ∷ d) =
    let (rest, ys) = on_entry name f d in
    let (t, xs) = on_section f s in if str_eq k name then ((k, t) ∷ d, xs) else ((k, s) ∷ rest, ys)

abbrev pub on_addon : String → Changing Config → Changing Addon
on_addon name f (plain n) = (plain n, [])
on_addon name f (override d) = let (e, xs) = on_entry name f d in (override e, xs)

abbrev pub on_owner : String → Changing Config → Changing (String × Owner)
on_owner name f (k, o) =
    let (list, xs) = each (on_addon name f) o.addons in
    ((k, record { fields = o.fields; addons = list }), xs)

-- for cfg in _section_configs(definition, name): the section, and each override of it
unfoldable pub section_configs : String → Changing Config → Changing Definition
section_configs name f d =
    let (s, xs) = on_entry name f d.sections in
    let (k, ys) = each (on_owner name f) d.kclusters in
    let (n, zs) = each (on_owner name f) d.nodes in
    (
      record { sections = s; kclusters = k; nodes = n; schema_versions = d.schema_versions },
      xs ++ (ys ++ zs),
    )

-- A key, and the values with which it is removed.
abbrev pub Rule : Type 0
Rule = String × (Value → Bool)

abbrev remove_if : Bool → String → Changing Config
remove_if true key c = (del key c, removed key ∷ [])
remove_if false key c = (c, [])

abbrev pub is_hit : (Value → Bool) → Option Value → Bool
is_hit test none = false
is_hit test (some v) = test v

abbrev pub hits : Rule → Config → Bool
hits r c = is_hit r.1 (get r.0 c)

-- if key in cfg and ...: del cfg[key]
abbrev pub drop_if : Rule → Changing Config
drop_if r c = remove_if (hits r c) r.0 c

abbrev pub drop_by : List Rule → Changing Config
drop_by [] c = (c, [])
drop_by (r ∷ rs) c = then_also (drop_if r) (drop_by rs) c
