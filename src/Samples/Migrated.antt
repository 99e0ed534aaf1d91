-- ===== src/Samples/Migrated.antt =====
-- A definition with an old rancher section that one cluster overrides.
use lab_in_a_box.Prelude.{String, none, [], ◌∷◌, ◌≡◌, refl}
use lab_in_a_box.Result.{ok}
use lab_in_a_box.Migrations.{
  Value, text, Section, object, Addon, plain, override, Definition, Owner, Change, set_to,
  section_configs, number,
}
use lab_in_a_box.Migrations.Table.{all_steps, step_twice}
use lab_in_a_box.Migrations.Defaults.{rancher_2_0}
use lab_in_a_box.Migrations.Pending.{Record, pending, stamp}
use lab_in_a_box.Migrations.Pending.Stamped.{SoundHistory, pending-stamp}
use lab_in_a_box.SchemaVersions.Chain.{walk-IsChain}
use lab_in_a_box.Samples.Lab.{stored, first_entry, later_entries}

abbrev str_of : Value → String
str_of v = "0"

abbrev old_lab : Definition
old_lab = record {
  sections = ("rancher", object (("rancher_rel", text "rancher-stable") ∷ [])) ∷ [];
  kclusters =
      (
        "main",
        record {
          fields = [];
          addons =
              plain "harbor"
              ∷ override (("rancher", object (("rancher_helm_chart", text "") ∷ [])) ∷ [])
              ∷ [];
        },
      )
      ∷ [];
  nodes = [];
  schema_versions = [];
}

abbrev new_lab : Definition
new_lab = record {
  sections =
      (
        "rancher",
        object (
            ("rancher_rel", text "rancher-stable")
            ∷ ("rancher_repo_url", text "https://releases.rancher.com/server-charts/stable")
            ∷ ("rancher_helm_chart", text "rancher-stable/rancher")
            ∷ []),
      )
      ∷ [];
  kclusters =
      (
        "main",
        record {
          fields = [];
          addons =
              plain "harbor"
              ∷ override (
                  ("rancher", object (("rancher_helm_chart", text "rancher-stable/rancher") ∷ []))
                  ∷ [])
              ∷ [];
        },
      )
      ∷ [];
  nodes = [];
  schema_versions = [];
}

step_twice_example : ok (rancher_2_0 str_of new_lab) ≡ ok (new_lab, [])
unfolding all_steps rancher_2_0
step_twice_example =
    step_twice str_of "rancher_2_0" (λ d. ok (rancher_2_0 str_of d)) old_lab new_lab
      (rancher_2_0 str_of old_lab).1 refl refl

abbrev history : Record
history = ("lab", first_entry ∷ later_entries) ∷ []

history-Sound : SoundHistory stored ("drop_port" ∷ []) history
unfolding lab_in_a_box.SchemaVersions.parse_version lab_in_a_box.SchemaVersions.breaking_changes
    lab_in_a_box.SchemaVersions.Check.walk lab_in_a_box.Text.split_on lab_in_a_box.Text.parse_nat
history-Sound =
    (walk-IsChain stored ("drop_port" ∷ []) "lab" (first_entry ∷ later_entries) none none refl, tt)

abbrev current_lab : Definition
current_lab = record {
  sections = old_lab.sections;
  kclusters = old_lab.kclusters;
  nodes = [];
  schema_versions = ("lab", "2.0") ∷ [];
}

pending-stamp_example : pending current_lab history ≡ ok []
unfolding stamp lab_in_a_box.Migrations.Defaults.addon_entry_name
pending-stamp_example =
    pending-stamp stored ("drop_port" ∷ []) history old_lab current_lab history-Sound refl
