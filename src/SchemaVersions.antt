-- ===== src/SchemaVersions.antt =====
-- libs/schema_versions.py: the compatibility record of the schemas, and the problems that its check
-- reports. A problem is a value with the data that its sentence shows; the stored snapshots are given as
-- a function of schema name and version.
pub mod Check
pub mod Chain
pub mod Whole
use Prim.Native.Nat.{Ordering}
use Prim.Native.String.{compare}
use lab_in_a_box.Prelude.{
  ℕ, ◌+◌, String, Bool, true, false, not, ◌&&◌, ◌||◌, Option, none, some, List, [], ◌∷◌, ◌++◌, map,
  keep, mem, Dict, get, has, keys, ltb, eqb, str_eq, if◌then◌else◌,
}
use lab_in_a_box.Result.{Result, ok, raise, value_error, ◌>>=◌}
use lab_in_a_box.Text.{split_on, parse_nat}

abbrev pub Version : Type 0
Version = ℕ × ℕ

abbrev pub both_numbers : Option ℕ → Option ℕ → Result Version
both_numbers (some major) (some minor) = ok (major, minor)
both_numbers _ _ = raise value_error

abbrev pub two_parts : List String → Result Version
two_parts (major ∷ minor ∷ []) = both_numbers (parse_nat major) (parse_nat minor)
two_parts _ = raise value_error

-- MAJOR.MINOR, each of decimal digits; the line feed that "$" lets stand behind them is left out: such a
-- version raises here.
unfoldable pub parse_version : String → Result Version
parse_version version = two_parts (split_on 46 version)

-- The FIELD_KEYS properties of a schema field.
pub record Props : Type 0 where
  pub type : Option String
  pub required : Bool
  pub default : Option String
  pub enum : List String
  pub pattern_text : Option String
  pub min : Option String
  pub max : Option String

pub record Snapshot : Type 0 where
  pub version : String
  pub fields : Dict Props

pub record Entry : Type 0 where
  pub version : String
  pub breaking : Bool
  pub changes : String
  pub migration : Option String

pub data Change : Type 0 where
  removed became_required added_required added became_optional : (field : String) → Change
  retyped : (field : String) (before after : Option String) → Change
  no_longer_accepts also_accepts : (field : String) → List String → Change
  altered : (field key : String) (before after : Option String) → Change

-- sorted(fields.items()): by field name
abbrev text_leb : String → String → Bool
text_leb a b = elim (compare a b) [ Ordering.gt ↦ false | _ ↦ true ]

abbrev insert_field : String → Props → Dict Props → Dict Props
insert_field k v [] = (k, v) ∷ []
insert_field k v ((j, w) ∷ d) =
    let rest = insert_field k v d in if text_leb k j then (k, v) ∷ (j, w) ∷ d else (j, w) ∷ rest

unfoldable pub sorted : Dict Props → Dict Props
sorted [] = []
sorted ((k, v) ∷ d) = insert_field k v (sorted d)

abbrev pub when : Bool → Change → List Change
when true c = c ∷ []
when false c = []

abbrev option_eq : Option String → Option String → Bool
option_eq none none = true
option_eq (some a) (some b) = str_eq a b
option_eq _ _ = false

abbrev is_nil : List String → Bool
is_nil [] = true
is_nil (x ∷ xs) = false

abbrev pub dropped : Props → Props → List String
dropped props now = if is_nil now.enum then [] else keep (λ v. not (mem v now.enum)) props.enum

-- What breaking_changes reports of a field that was there before.
abbrev pub field_breaks : String → Props → Option Props → List Change
field_breaks field props none = removed field ∷ []
field_breaks field props (some now) =
    when (not (option_eq props.type now.type)) (retyped field props.type now.type)
    ++ (when (now.required && not props.required) (became_required field)
        ++ when (not (is_nil (dropped props now))) (no_longer_accepts field (dropped props now)))

abbrev pub old_fields : Dict Props → Dict Props → List Change
old_fields [] after = []
old_fields ((field, props) ∷ before) after =
    field_breaks field props (get field after) ++ old_fields before after

abbrev pub new_required : Dict Props → Dict Props → List Change
new_required [] before = []
new_required ((field, props) ∷ after) before =
    when (not (has field before) && props.required) (added_required field)
    ++ new_required after before

unfoldable pub breaking_changes : Snapshot → Snapshot → List Change
unfolding sorted
breaking_changes old new =
    old_fields (sorted old.fields) new.fields ++ new_required (sorted new.fields) old.fields

abbrev altered_key : String → String → Option String → Option String → List Change
altered_key field key a b = when (not (option_eq a b)) (altered field key a b)

abbrev added_values : Props → Props → List String
added_values props now = keep (λ v. not (mem v props.enum)) now.enum

abbrev field_others : String → Props → Option Props → List Change
field_others field props none = []
field_others field props (some now) =
    altered_key field "default" props.default now.default
    ++ (altered_key field "pattern" props.pattern_text now.pattern_text
        ++ (altered_key field "min" props.min now.min
            ++ (altered_key field "max" props.max now.max
                ++ (when (not (is_nil (added_values props now)) && not (is_nil props.enum))
                      (also_accepts field (added_values props now))
                    ++ when (props.required && not now.required) (became_optional field)))))

abbrev kept_fields : Dict Props → Dict Props → List Change
kept_fields [] after = []
kept_fields ((field, props) ∷ before) after =
    field_others field props (get field after) ++ kept_fields before after

abbrev new_optional : Dict Props → Dict Props → List Change
new_optional [] before = []
new_optional ((field, props) ∷ after) before =
    when (not (has field before) && not props.required) (added field) ++ new_optional after before

unfoldable pub other_changes : Snapshot → Snapshot → List Change
unfolding sorted
other_changes old new =
    new_optional (sorted new.fields) old.fields ++ kept_fields (sorted old.fields) new.fields
