-- ===== src/Samples/Lab.antt =====
-- A lab definition whose nodes get addresses, and a record of schema versions.
use lab_in_a_box.Prelude.{
  String, Bool, true, false, Option, none, some, List, [], ◌∷◌, ◌≡◌, refl, str_eq, if◌then◌else◌,
}
use lab_in_a_box.Result.{ok}
use lab_in_a_box.Text.{text_length}
use lab_in_a_box.Ip.{Network, hosts}
use lab_in_a_box.IpAlloc.{Definition, Surroundings, taken_by_others, allocate}
use lab_in_a_box.IpAlloc
use lab_in_a_box.IpAlloc.Choice.{Chosen, allocate_unregistered, allocate_again}
use lab_in_a_box.SchemaVersions.{Snapshot, Entry, Props}
use lab_in_a_box.SchemaVersions.Check.{Store, last_version}
use lab_in_a_box.SchemaVersions.Chain.{IsChain, schema_problems-IsChain}

abbrev lab : Definition
lab = record {
  mygw = some "10.1.0.1";
  mydns = some "10.1.0.2, 9.9.9.9";
  mymask = some "29";
  mydomain = some "lab.example";
  nodes = ("node-1", record { myip = some "10.1.0.3" }) ∷ ("node-2", record { myip = none }) ∷ [];
}

abbrev lab_net : Network
lab_net = record { base = 167837696; prefix = 29 }

abbrev around : String → Surroundings
around registered = record {
  registered = registered;
  zone_ips = "10.1.0.6" ∷ [];
  used = [];
  own_ips = [];
  answers_ping = λ ip. str_eq ip "10.1.0.5";
}

lab_network_example : lab_in_a_box.IpAlloc.lab_network lab ≡ some lab_net
unfolding lab_in_a_box.IpAlloc.lab_network lab_in_a_box.Ip.parse_network lab_in_a_box.Text.lstrip
    lab_in_a_box.Text.rstrip lab_in_a_box.Text.is_space
lab_network_example = refl

allocate_unregistered_example :
    (o : Option String) × (allocate text_length "node-2" lab (around "") true ≡ ok o)
    × Chosen
        (taken_by_others "node-2" lab (around ""))
        true
        (λ ip. str_eq ip "10.1.0.5")
        (hosts lab_net)
        o
allocate_unregistered_example =
    allocate_unregistered text_length "node-2" lab (around "") true lab_net lab_network_example refl

allocate_again_example :
    allocate text_length "node-2" lab (around "10.1.0.4") false ≡ ok (some "10.1.0.4")
unfolding allocate lab_in_a_box.IpAlloc.lab_network lab_in_a_box.IpAlloc.definition_ips
    lab_in_a_box.Ip.parse_network lab_in_a_box.Ip.hosts lab_in_a_box.Ip.ip_text
    lab_in_a_box.Ip.network_text lab_in_a_box.Text.lstrip lab_in_a_box.Text.rstrip
    lab_in_a_box.Text.is_space lab_in_a_box.Text.words lab_in_a_box.Text.span
allocate_again_example =
    allocate_again text_length "node-2" "10.1.0.4" lab (around "") (around "10.1.0.4") true false
      lab_net lab_network_example refl refl refl

abbrev pub field : Bool → Props
field required = record {
  type = some "str";
  required = required;
  default = none;
  enum = [];
  pattern_text = none;
  min = none;
  max = none;
}

abbrev pub stored : Store
stored name version =
    if str_eq version "1.0"
    then some (record { version = "1.0"; fields = ("port", field false) ∷ [] })
    else if str_eq version "1.1"
    then some
        (record { version = "1.1"; fields = ("port", field false) ∷ ("host", field false) ∷ [] })
    else if str_eq version "2.0"
    then some (record { version = "2.0"; fields = ("host", field true) ∷ [] })
    else none

abbrev pub first_entry : Entry
first_entry = record { version = "1.0"; breaking = false; changes = "first"; migration = none }

abbrev pub later_entries : List Entry
later_entries =
    record { version = "1.1"; breaking = false; changes = "host added"; migration = none }
    ∷ record {
      version = "2.0";
      breaking = true;
      changes = "port removed";
      migration = some "drop_port";
    }
    ∷ []

schema_problems-IsChain_example :
    (e : Entry) × (rest : List Entry) × (first_entry ∷ later_entries ≡ e ∷ rest)
    × IsChain stored ("drop_port" ∷ []) "lab" (e ∷ rest) none none
    × (last_version stored ("drop_port" ∷ []) "lab" e rest ≡ "2.0")
unfolding lab_in_a_box.SchemaVersions.Check.schema_problems
    lab_in_a_box.SchemaVersions.parse_version lab_in_a_box.SchemaVersions.breaking_changes
    lab_in_a_box.SchemaVersions.Check.walk lab_in_a_box.Text.split_on lab_in_a_box.Text.parse_nat
schema_problems-IsChain_example =
    schema_problems-IsChain stored ("drop_port" ∷ []) "lab" (λ a b. str_eq a.version b.version)
      (record { version = "2.0"; fields = ("host", field true) ∷ [] }) (first_entry ∷ later_entries)
      refl
