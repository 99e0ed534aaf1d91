-- ===== src/Samples/Whole.antt =====
-- A record of one schema, checked as a whole.
use lab_in_a_box.Prelude.{String, Bool, true, List, [], ◌∷◌, ◌≡◌, refl, mem, has, Dict, str_eq}
use lab_in_a_box.SchemaVersions.{Snapshot, Entry}
use lab_in_a_box.SchemaVersions.Check.{check}
use lab_in_a_box.SchemaVersions.Whole.{AllChains, IsNamed, check-AllChains}
use lab_in_a_box.Samples.Lab.{stored, field, first_entry, later_entries}

abbrev same_version_only : Snapshot → Snapshot → Bool
same_version_only a b = str_eq a.version b.version

abbrev recorded : Dict (List Entry)
recorded = ("lab", first_entry ∷ later_entries) ∷ []

abbrev current : Dict Snapshot
current = ("lab", record { version = "2.0"; fields = ("host", field true) ∷ [] }) ∷ []

check-AllChains_example :
    AllChains stored same_version_only ("drop_port" ∷ []) recorded current
    × ((name : String) → has name recorded ≡ true → has name current ≡ true)
    × ((step : String) → mem step ("drop_port" ∷ []) ≡ true → IsNamed step recorded)
unfolding check lab_in_a_box.SchemaVersions.Check.schema_problems
    lab_in_a_box.SchemaVersions.parse_version lab_in_a_box.SchemaVersions.breaking_changes
    lab_in_a_box.SchemaVersions.Check.walk lab_in_a_box.Text.split_on lab_in_a_box.Text.parse_nat
check-AllChains_example =
    check-AllChains stored same_version_only ("drop_port" ∷ []) recorded current refl
