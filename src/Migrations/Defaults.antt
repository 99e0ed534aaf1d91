-- ===== src/Migrations/Defaults.antt =====
-- libs/migrations.py: the steps that write values, rancher_2_0, open_ports_2_0 and
-- _appcollection_default_2_0.
pub mod Rerun
use Prim.Native.String
use Prim.Native.Char.{code}
use lab_in_a_box.Prelude.{
  ℕ, String, Bool, true, false, not, ◌&&◌, ◌||◌, Option, none, some, List, [], ◌∷◌, ◌++◌, Dict, get,
  put, has, mem, eqb, str_eq, if◌then◌else◌,
}
use lab_in_a_box.Result.{Result, ok, raise, died, ◌>>=◌}
use lab_in_a_box.Text.{◌<>◌, is_blank, words}
use lab_in_a_box.Migrations.{
  Value, text, items, null, flag, number, Config, Section, object, other, Addon, plain, override,
  Owner, Definition, Change, set_to, listed, Changing, each, truthy, then_also, on_entry, on_addon,
  on_owner,
}

-- s with each comma replaced by a space
abbrev without_commas : String → String
without_commas String.[] = String.[]
without_commas (String.◌∷◌ c s) =
    if eqb (code c) 44 then " " <> without_commas s else String.◌∷◌ c (without_commas s)

-- [port for port in re.split(r"[,\s]+", s.strip()) if port]
unfoldable pub ports_of : String → List String
ports_of s = words (without_commas s)

-- A text under the key becomes a list; a blank one stays.
abbrev pub list_value : String → Option Value → Changing Config
list_value key (some (text s)) c =
    if is_blank s then (c, []) else (put key (items (ports_of s)) c, listed key s (ports_of s) ∷ [])
list_value key _ c = (c, [])

abbrev pub list_key : String → Changing Config
list_key key c = list_value key (get key c) c

abbrev pub list_ports : Changing Config
list_ports = then_also (list_key "open_ports") (list_key "aws_open_ports")

abbrev pub on_fields : Changing Config → Changing (String × Owner)
on_fields f (k, o) = let (c, xs) = f o.fields in ((k, record { fields = c; addons = o.addons }), xs)

unfoldable pub open_ports_2_0 : Changing Definition
unfolding ports_of
open_ports_2_0 d =
    let (s, xs) = on_entry "common" list_ports d.sections in
    let (n, ys) = each (on_fields list_ports) d.nodes in
    (
      record {
        sections = s;
        kclusters = d.kclusters;
        nodes = n;
        schema_versions = d.schema_versions;
      },
      xs ++ ys,
    )

abbrev pub stable_url : String
stable_url = "https://releases.rancher.com/server-charts/stable"

abbrev pub or_inherited : Option Value → Option Value → Option Value
or_inherited old none = old
or_inherited old (some v) = some v

-- dict(inherited, **cfg).get(key)
abbrev pub effective : Config → Config → String → Option Value
effective inherited c key = or_inherited (get key inherited) (get key c)

abbrev pub is_set : Option Value → Bool
is_set none = false
is_set (some v) = truthy v

-- cfg[key] = value, where it is not set yet
abbrev pub set_unless : Bool → String → String → Changing Config
set_unless true key value c = (c, [])
set_unless false key value c = (put key (text value) c, set_to key value ∷ [])

module _ (str_of : Value → String) where
  abbrev pub shown : Option Value → String
  shown (some (text s)) = s
  shown (some v) = str_of v
  shown none = "None"

  -- The repo and the chart are both looked at before either is written.
  abbrev pub rancher_config : Config → Changing Config
  rancher_config inherited c =
      let rel = effective inherited c "rancher_rel" in
      if is_set rel
      then then_also
          (set_unless (is_set (effective inherited c "rancher_repo_url")) "rancher_repo_url"
            stable_url)
          (set_unless (is_set (effective inherited c "rancher_helm_chart")) "rancher_helm_chart"
            (shown rel <> "/rancher"))
          c
      else (c, [])

  abbrev pub section_of : Option Section → Config
  section_of (some (object c)) = c
  section_of _ = []

  -- The section first, and the overrides with the section as it then is.
  unfoldable pub rancher_2_0 : Changing Definition
  rancher_2_0 d =
      let (s, xs) = on_entry "rancher" (rancher_config []) d.sections in
      let inherited = section_of (get "rancher" s) in
      let (k, ys) = each (on_owner "rancher" (rancher_config inherited)) d.kclusters in
      let (n, zs) = each (on_owner "rancher" (rancher_config inherited)) d.nodes in
      (
        record { sections = s; kclusters = k; nodes = n; schema_versions = d.schema_versions },
        xs ++ (ys ++ zs),
      )

-- apps.addon_entry_name: an override names exactly one add-on.
unfoldable pub addon_entry_name : Addon → Result String
addon_entry_name (plain n) = ok n
addon_entry_name (override ((k, s) ∷ [])) = ok k
addon_entry_name (override _) = raise (died "addons[] entry must have exactly one key")

-- The names of a list of add-ons.
abbrev pub entry_names : List Addon → Result (List String)
entry_names [] = ok []
entry_names (a ∷ list) = do name ← addon_entry_name a; rest ← entry_names list; ok (name ∷ rest)

-- apps.collect_addon_names, with repetitions and not sorted
abbrev pub owners_names : Dict Owner → Result (List String)
owners_names [] = ok []
owners_names ((k, o) ∷ d) = do
  names ← entry_names o.addons
  rest ← owners_names d
  ok (names ++ rest)

abbrev pub addon_names : Definition → Result (List String)
addon_names d = do
  clusters ← owners_names d.kclusters
  nodes ← owners_names d.nodes
  ok (clusters ++ nodes)

abbrev pub is_mapping : Option Section → Bool
is_mapping (some (object c)) = true
is_mapping _ = false

-- The section, or a new one where none is there.
abbrev pub section_or_new : Option Section → Config
section_or_new (some (object c)) = c
section_or_new _ = []

abbrev pub write_source : String → String → Config → Changing Definition
write_source name key c d = if has key c then (d, []) else (
  record {
    sections = put name (object (put key (text "upstream") c)) d.sections;
    kclusters = d.kclusters;
    nodes = d.nodes;
    schema_versions = d.schema_versions;
  },
  set_to key "upstream" ∷ [],
)

abbrev pub write_if_used : String → String → Definition → List String → Definition × List Change
write_if_used name key d names =
    if is_mapping (get name d.sections) || mem name names
    then write_source name key (section_or_new (get name d.sections)) d
    else (d, [])

-- The step of _appcollection_default_2_0(name, prefix), `key` being the name of the field.
unfoldable pub appcollection_default_2_0 :
    (name key : String) → Definition → Result (Definition × List Change)
unfolding addon_entry_name
appcollection_default_2_0 name key d = do names ← addon_names d; ok (write_if_used name key d names)
