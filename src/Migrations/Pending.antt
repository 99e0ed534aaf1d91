-- ===== src/Migrations/Pending.antt =====
-- libs/migrations.py: which steps a lab definition still needs, recording its versions, and applying the
-- steps. Configuration files of other kinds than "lab" are left out.
pub mod Stamped
use Prim.Native.Nat.{Ordering}
use Prim.Native.String.{compare}
use lab_in_a_box.Prelude.{
  ℕ, String, Bool, true, false, not, ◌&&◌, ◌||◌, Option, none, some, List, [], ◌∷◌, ◌++◌, Dict, get,
  put, has, keep, map, mem, ltb, eqb, str_eq, if◌then◌else◌,
}
use lab_in_a_box.Result.{Result, ok, raise, value_error, key_error, died, of_option, ◌>>=◌}
use lab_in_a_box.Text.{◌<>◌, split_on, parse_nat}
use lab_in_a_box.SchemaVersions.{Entry}
use lab_in_a_box.SchemaVersions.Check.{step_of, last_version}
use lab_in_a_box.Migrations.{Value, Section, object, other, Definition, Change}
use lab_in_a_box.Migrations.Defaults.{addon_names}
use lab_in_a_box.Migrations.Table.{Step, all_steps}

-- Schema name -> its entries, oldest first.
abbrev pub Record : Type 0
Record = Dict (List Entry)

abbrev pub numbers : List String → Result (List ℕ)
numbers [] = ok []
numbers (p ∷ ps) = do n ← of_option (parse_nat p); rest ← numbers ps; ok (n ∷ rest)

-- _version_key, for parts of digits
unfoldable pub version_key : String → Result (List ℕ)
version_key version = numbers (split_on 46 version)

-- a > b, as Python compares tuples
abbrev pub later : List ℕ → List ℕ → Bool
later [] b = false
later (x ∷ a) [] = true
later (x ∷ a) (y ∷ b) = ltb y x || (eqb x y && later a b)

-- Whether `s` comes before `t`, or is it.
abbrev text_leb : String → String → Bool
text_leb s t = elim (compare s t) [ Ordering.gt ↦ false | _ ↦ true ]

abbrev insert_name : String → List String → List String
insert_name s [] = s ∷ []
insert_name s (t ∷ ts) =
    let rest = insert_name s ts in if text_leb s t then s ∷ t ∷ ts else t ∷ rest

-- sorted(set(names))
unfoldable pub sorted_set : List String → List String
sorted_set [] = []
sorted_set (s ∷ ss) = let rest = sorted_set ss in if mem s rest then rest else insert_name s rest

-- {k for k in data if isinstance(data.get(k), dict)}, the base sections left out
abbrev section_names : Dict Section → List String
section_names [] = []
section_names ((k, object c) ∷ d) = k ∷ section_names d
section_names ((k, other v) ∷ d) = section_names d

abbrev pub base_sections : List String
base_sections =
    "common" ∷ "nodes" ∷ "disabled_nodes" ∷ "kclusters" ∷ "cluster" ∷ "pxe" ∷ "schema_versions" ∷ []

-- schemas_of, for a lab definition
unfoldable pub schemas_of : Definition → Result (List String)
unfolding sorted_set
schemas_of d = do
  addons ← addon_names d
  let names = keep (λ n. not (mem n base_sections)) (addons ++ section_names d.sections)
  ok ("lab" ∷ map (λ n. "addon:" <> n) (sorted_set names))

abbrev pub entries_of : Option (List Entry) → List Entry
entries_of none = []
entries_of (some es) = es

abbrev pub recorded_or_first : Option String → String
recorded_or_first none = "1.0"
recorded_or_first (some v) = v

-- Schema, version and name of a step.
abbrev pub Needed : Type 0
Needed = String × String × String

abbrev pub cons_if : Bool → Needed → List Needed → List Needed
cons_if true n rest = n ∷ rest
cons_if false n rest = rest

abbrev pub needed_by :
    String → List ℕ → Entry → Option String → Result (List Needed) → Result (List Needed)
needed_by name have e none rest = rest
needed_by name have e (some step) rest = do
  key ← version_key e.version
  others ← rest
  ok (cons_if (later key have) (name, e.version, step) others)

-- for entry in record.get(name, [])
unfoldable pub entries_needed : String → List ℕ → List Entry → Result (List Needed)
unfolding version_key
entries_needed name have [] = ok []
entries_needed name have (e ∷ es) =
    needed_by name have e (step_of e.migration) (entries_needed name have es)

-- for name in schemas_of(kind, data)
unfoldable pub schemas_needed : Dict String → Record → List String → Result (List Needed)
unfolding entries_needed version_key
schemas_needed recorded history [] = ok []
schemas_needed recorded history (name ∷ names) = do
  have ← version_key (recorded_or_first (get name recorded))
  first ← entries_needed name have (entries_of (get name history))
  rest ← schemas_needed recorded history names
  ok (first ++ rest)

unfoldable pub pending : Definition → Record → Result (List Needed)
unfolding schemas_of schemas_needed
pending d history = do names ← schemas_of d; schemas_needed d.schema_versions history names

abbrev pub last_of : List Entry → Option String
last_of [] = none
last_of (e ∷ []) = some e.version
last_of (e ∷ f ∷ es) = last_of (f ∷ es)

abbrev pub cons_version : String → Option String → Dict String → Dict String
cons_version name none d = d
cons_version name (some v) d = (name, v) ∷ d

-- {name: record[name][-1]["version"] for name in ... if record.get(name)}
abbrev pub latest : Record → List String → Dict String
latest history [] = []
latest history (name ∷ names) =
    cons_version name (last_of (entries_of (get name history))) (latest history names)

abbrev pub stamped : Definition → Dict String → Definition
stamped d versions = record {
  sections = d.sections;
  kclusters = d.kclusters;
  nodes = d.nodes;
  schema_versions = versions;
}

-- stamp, for a lab definition
unfoldable pub stamp : Definition → Record → Result Definition
unfolding schemas_of
stamp d history = do names ← schemas_of d; ok (stamped d (latest history names))

module _ (str_of : Value → String) where
  abbrev step_named : Option Step → Definition → Result (Definition × List Change)
  step_named none d = raise key_error
  step_named (some f) d = f d

  -- Each step on what the one before left; a change is shown with its schema and version.
  abbrev pub apply_steps :
      List Needed → Definition → Result (Definition × List (String × String × Change))
  apply_steps [] d = ok (d, [])
  apply_steps ((name, version, step) ∷ needed) d = do
    done ← step_named (get step (all_steps str_of)) d
    rest ← apply_steps needed done.0
    ok (rest.0, map (λ c. (name, version, c)) done.1 ++ rest.1)

  unfoldable pub migrate :
      Definition → Record → Result (Definition × List (String × String × Change))
  unfolding pending all_steps
  migrate d history = do needed ← pending d history; apply_steps needed d

  -- needed_changes: migrate on a copy
  unfoldable pub needed_changes : Definition → Record → Result (List (String × String × Change))
  unfolding migrate
  needed_changes d history = do migrated ← migrate d history; ok migrated.1

  abbrev stop_unless_none : List (String × String × Change) → Result (Unit {0})
  stop_unless_none [] = ok tt
  stop_unless_none (c ∷ cs) = raise (died "written for older schema versions")

  -- require_current, with the record that load_record gives
  unfoldable pub require_current : Definition → Record → Result (Unit {0})
  unfolding needed_changes
  require_current d history = do changes ← needed_changes d history; stop_unless_none changes
