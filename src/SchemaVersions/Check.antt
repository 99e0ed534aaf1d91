-- ===== src/SchemaVersions/Check.antt =====
-- libs/schema_versions.py: _entry_problems, _schema_problems and check.
use lab_in_a_box.Prelude.{
  Dict, get, has, keep, ◌+◌, String, Bool, true, false, not, ◌&&◌, Option, none, some, List, [],
  ◌∷◌, ◌++◌, map, mem, ltb, eqb, str_eq, if◌then◌else◌,
}
use lab_in_a_box.Result.{Result, ok, ◌>>=◌}
use lab_in_a_box.SchemaVersions.{
  Version, parse_version, Snapshot, Entry, Change, breaking_changes, other_changes,
}

pub data Problem : Type 0 where
  -- of a version entry
  no_snapshot no_changes_text minor_by_one major_and_zero needs_migration unknown_migration
        stray_migration :
      (version : String) → Problem
  breaking_flag : (version : String) → Bool → Problem
  breaking_in_compatible : (version : String) → Change → Problem
  -- of a schema
  declares_no_version not_recorded bad_version : Problem
  last_differs : (declared last : String) → Problem
  changed_since : (last : String) → List Change → Problem
  -- of the record
  no_such_schema unnamed_migration : String → Problem

abbrev pub problem_if : Bool → Problem → List Problem
problem_if true p = p ∷ []
problem_if false p = []

abbrev pub same_version : Version → Version → Bool
same_version a b = eqb a.0 b.0 && eqb a.1 b.1

-- prev is not None and parsed[0] > prev[0]
abbrev pub major_bump : Option Version → Version → Bool
major_bump none now = false
major_bump (some prev) now = ltb prev.0 now.0

-- prev is not None and not major_bump and parsed != (prev[0], prev[1] + 1)
abbrev pub bad_minor : Option Version → Version → Bool
bad_minor none now = false
bad_minor (some prev) now = not (ltb prev.0 now.0) && not (same_version now (prev.0, prev.1 + 1))

abbrev pub bad_major : Option Version → Version → Bool
bad_major none now = false
bad_major (some prev) now = ltb prev.0 now.0 && not (same_version now (prev.0 + 1, 0))

abbrev pub same_bool : Bool → Bool → Bool
same_bool true b = b
same_bool false b = not b

-- An entry's migration step; an empty one counts as none.
abbrev pub step_of : Option String → Option String
step_of none = none
step_of (some s) = if str_eq s "" then none else some s

abbrev pub migration_problems : String → Option String → Bool → List String → List Problem
migration_problems v none bump migrations = problem_if bump (needs_migration v)
migration_problems v (some step) bump migrations =
    problem_if (not (mem step migrations)) (unknown_migration v)
    ++ problem_if (not bump) (stray_migration v)

abbrev pub is_stored : Option Snapshot → Bool
is_stored none = false
is_stored (some s) = true

abbrev pub compatibility_problems : String → Option Snapshot → Option Snapshot → Bool → List Problem
compatibility_problems v (some stored) (some prev) false =
    map (breaking_in_compatible v) (breaking_changes prev stored)
compatibility_problems v _ _ _ = []

-- The checks of an entry once its version is parsed.
abbrev pub parsed_problems :
    Entry
    → Option Version
    → Option Snapshot
    → Option Snapshot
    → List String
    → Version
    → List Problem
parsed_problems e prev prev_snap stored migrations parsed =
    let bump = major_bump prev parsed in
    problem_if (not (is_stored stored)) (no_snapshot e.version)
    ++ (problem_if (str_eq e.changes "") (no_changes_text e.version)
        ++ (problem_if (bad_minor prev parsed) (minor_by_one e.version)
            ++ (problem_if (bad_major prev parsed) (major_and_zero e.version)
                ++ (problem_if (not (same_bool e.breaking bump)) (breaking_flag e.version bump)
                    ++ (migration_problems e.version (step_of e.migration) bump migrations
                        ++ compatibility_problems e.version stored prev_snap bump)))))

abbrev pub Store : Type 0
Store = (name version : String) → Option Snapshot

module _ (read_snapshot : Store) (migrations : List String) (name : String) where
  unfoldable pub entry_problems : Entry → Option Version → Option Snapshot → Result (List Problem)
  entry_problems e prev prev_snap = do
    parsed ← parse_version e.version
    ok (parsed_problems e prev prev_snap (read_snapshot name e.version) migrations parsed)

  -- What the loop over the entries ends with: the problems, and, unless a version could not be parsed,
  -- the last snapshot.
  abbrev pub Outcome : Type 0
  Outcome = List Problem × Option (Option Snapshot)

  abbrev pub prepend : List Problem → Outcome → Outcome
  prepend ps o = (ps ++ o.0, o.1)

  abbrev pub go_on : Result (List Problem) → Result Version → (Version → Outcome) → Outcome
  go_on (ok ps) (ok v) rest = prepend ps (rest v)
  go_on _ _ rest = (bad_version ∷ [], none)

  unfoldable pub walk : List Entry → Option Version → Option Snapshot → Outcome
  unfolding entry_problems
  walk [] prev prev_snap = ([], some prev_snap)
  walk (e ∷ es) prev prev_snap =
      let rest = λ (v : Version). walk es (some v) (read_snapshot name e.version) in
      go_on (entry_problems e prev prev_snap) (parse_version e.version) rest

  -- Whether the fields are the recorded ones; a difference that no change shows counts too.
  abbrev pub final_problems :
      (same_fields : Snapshot → Snapshot → Bool)
      → Snapshot
      → String
      → Option Snapshot
      → List Problem
  final_problems same_fields snap last prev_snap =
      if not (str_eq last snap.version)
      then last_differs snap.version last ∷ []
      else elim prev_snap [
        | none ↦ []
        | some p ↦
            if same_fields p snap
            then []
            else changed_since last (breaking_changes p snap ++ other_changes p snap) ∷ []
      ]

  abbrev pub last_version : Entry → List Entry → String
  last_version e [] = e.version
  last_version e (f ∷ es) = last_version f es

  abbrev pub finish :
      (same_fields : Snapshot → Snapshot → Bool) → Snapshot → String → Outcome → List Problem
  finish same_fields snap last (ps, none) = ps
  finish same_fields snap last (ps, some prev_snap) =
      ps ++ final_problems same_fields snap last prev_snap

  unfoldable pub schema_problems :
      (same_fields : Snapshot → Snapshot → Bool) → Snapshot → List Entry → List Problem
  schema_problems same_fields snap [] =
      if str_eq snap.version "" then declares_no_version ∷ [] else not_recorded ∷ []
  schema_problems same_fields snap (e ∷ es) =
      if str_eq snap.version ""
      then declares_no_version ∷ []
      else finish same_fields snap (last_version e es) (walk (e ∷ es) none none)

-- The names of the dict that the other one has not.
abbrev pub missing {ℓ κ} : {V : Type ℓ} {W : Type κ} → Dict V → Dict W → List String
missing [] d = []
missing ((k, v) ∷ c) d = let rest = missing c d in if has k d then rest else k ∷ rest

abbrev pub entries_or_none : Option (List Entry) → List Entry
entries_or_none none = []
entries_or_none (some es) = es

abbrev pub steps_named : List Entry → List String
steps_named [] = []
steps_named (e ∷ es) = elim e.migration [ none ↦ steps_named es | some s ↦ s ∷ steps_named es ]

abbrev pub all_steps_named : Dict (List Entry) → List String
all_steps_named [] = []
all_steps_named ((name, es) ∷ history) = steps_named es ++ all_steps_named history

module _ (read_snapshot : Store) (same_fields : Snapshot → Snapshot → Bool) where
  -- for name, snap in current.items(), in their order
  unfoldable pub current_problems : List String → Dict (List Entry) → Dict Snapshot → List Problem
  unfolding schema_problems
  current_problems migrations history [] = []
  current_problems migrations history ((name, snap) ∷ current) =
      schema_problems read_snapshot migrations name same_fields snap
        (entries_or_none (get name history))
      ++ current_problems migrations history current

  -- check, for dicts and steps in alphabetical order
  unfoldable pub check :
      Dict Snapshot → Dict (List Entry) → (migrations : List String) → List Problem
  unfolding current_problems
  check current history migrations =
      map no_such_schema (missing history current)
      ++ (current_problems migrations history current
          ++ map unnamed_migration (keep (λ s. not (mem s (all_steps_named history))) migrations))
