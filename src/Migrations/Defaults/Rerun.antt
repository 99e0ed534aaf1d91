-- ===== src/Migrations/Defaults/Rerun.antt =====
-- The steps that write values, made on what they give.
use lab_in_a_box.Prelude.{
  String, Bool, true, false, ◌||◌, Option, none, some, List, [], ◌∷◌, ◌≡◌, refl, ap, ◌∙◌, inl, inr,
  get, put, has, mem, get-put, eq_refl, str_eq, Bool-cases, arith,
}
use lab_in_a_box.Result.{ok-eq, Result, ok, raise, ◌>>=◌}
use lab_in_a_box.Text.{◌<>◌, is_blank}
use lab_in_a_box.Text.Words.{cons-ne-empty}
use lab_in_a_box.Migrations.{Value, text, Config, Definition, Change, Changing, on_entry, on_owner}
use lab_in_a_box.Migrations.Defaults.{
  or_inherited, effective, is_set, set_unless, stable_url, shown, rancher_config, section_of,
  rancher_2_0, section_or_new, is_mapping, list_value, list_key, list_ports, on_fields,
  open_ports_2_0, addon_names, write_if_used, appcollection_default_2_0,
}
use lab_in_a_box.Migrations.Walk.{Settles, each-Settles, on_entry-Settles, on_owner-Settles}

-- There is no text to split: whatever the key has, it is left.
abbrev IsListed : Option Value → Type 0
IsListed (some (text s)) = is_blank s ≡ true
IsListed _ = Unit

list_value-still :
    (key : String) (o : Option Value) (c : Config) → IsListed o → list_value key o c ≡ (c, [])
list_value-still key none c h = refl
list_value-still key (some (text s)) c h = rw h
list_value-still key (some _) c h = refl

list_value-same :
    (key : String) (o : Option Value) (c : Config)
    → get key c ≡ o
    → IsListed (get key (list_value key o c).0)
list_value-same key (some (text s)) c e = elim (Bool-cases (is_blank s)) [
  | inl b ↦ rw (b, e) b
  | inr b ↦ rw (b, get-put, eq_refl) tt
]
list_value-same key none c e = rw e tt
list_value-same key (some _) c e = rw e tt

list_value-other :
    (key other : String) (o : Option Value) (c : Config)
    → str_eq key other ≡ false
    → get other (list_value key o c).0 ≡ get other c
list_value-other key other (some (text s)) c e = elim (Bool-cases (is_blank s)) [
  | inl b ↦ rw b
  | inr b ↦ rw (b, get-put, e)
]
list_value-other key other none c e = refl
list_value-other key other (some _) c e = refl

list_ports-Settles : Settles list_ports list_ports
list_ports-Settles c = rw (
  list_value-still "open_ports" (get "open_ports" c'') c'' first,
  list_value-still "aws_open_ports" (get "aws_open_ports" c'') c'' second,
)
  where
    c' : Config
    c' = (list_key "open_ports" c).0

    c'' : Config
    c'' = (list_key "aws_open_ports" c').0

    first : IsListed (get "open_ports" c'')
    first =
        rw (list_value-other "aws_open_ports" "open_ports" (get "aws_open_ports" c') c' refl)
          (list_value-same "open_ports" (get "open_ports" c) c refl)

    second : IsListed (get "aws_open_ports" c'')
    second = list_value-same "aws_open_ports" (get "aws_open_ports" c') c' refl

on_fields-Settles : (f : Changing Config) → Settles f f → Settles (on_fields f) (on_fields f)
on_fields-Settles f s (k, o) = rw (s o.fields)

pub open_ports_twice : Settles open_ports_2_0 open_ports_2_0
unfolding open_ports_2_0
open_ports_twice d = rw (
  on_entry-Settles "common" list_ports list_ports list_ports-Settles d.sections,
  each-Settles (on_fields list_ports) (on_fields list_ports)
      (on_fields-Settles list_ports list_ports-Settles) d.nodes,
)

set_unless-other :
    (inh c : Config) (b : Bool) (key value other : String)
    → str_eq key other ≡ false
    → effective inh (set_unless b key value c).0 other ≡ effective inh c other
set_unless-other inh c true key value other e = refl
set_unless-other inh c false key value other e =
    ap (or_inherited (get other inh)) (get-put key other (text value) c ∙ rw e)

set_unless-set :
    (inh c : Config) (b : Bool) (key value : String)
    → is_set (effective inh c key) ≡ b
    → str_eq value "" ≡ false
    → is_set (effective inh (set_unless b key value c).0 key) ≡ true
set_unless-set inh c true key value s e = s
set_unless-set inh c false key value s e =
    ap (λ o. is_set (or_inherited (get key inh) o)) (get-put key key (text value) c)
    ∙ rw (eq_refl, e)

chart-ne-empty : (s : String) → str_eq (s <> "/rancher") "" ≡ false
chart-ne-empty String.[] = refl
chart-ne-empty (String.◌∷◌ c s) = cons-ne-empty c (s <> "/rancher")

module _ (str_of : Value → String) where
  rancher_config-Settles :
      (inh : Config) → Settles (rancher_config str_of inh) (rancher_config str_of inh)
  rancher_config-Settles inh c = elim (Bool-cases (is_set (effective inh c "rancher_rel"))) [
    | inr e ↦ rw (e, e)
    | inl e ↦ rw e (settled e)
  ]
    where
      chart : String
      chart = shown str_of (effective inh c "rancher_rel") <> "/rancher"

      c' : Config
      c' =
          (set_unless (is_set (effective inh c "rancher_repo_url")) "rancher_repo_url" stable_url
            c).0

      c'' : Config
      c'' =
          (set_unless (is_set (effective inh c "rancher_helm_chart")) "rancher_helm_chart" chart
            c').0

      kept :
          (key : String)
          → str_eq "rancher_helm_chart" key ≡ false
          → effective inh c'' key ≡ effective inh c' key
      kept key e = set_unless-other inh c' _ "rancher_helm_chart" chart key e

      repo : is_set (effective inh c'' "rancher_repo_url") ≡ true
      repo =
          ap is_set (kept "rancher_repo_url" refl)
          ∙ set_unless-set inh c _ "rancher_repo_url" stable_url refl refl

      helm : is_set (effective inh c'' "rancher_helm_chart") ≡ true
      helm =
          set_unless-set inh c' _ "rancher_helm_chart" chart
            (ap is_set
              (set_unless-other inh c _ "rancher_repo_url" stable_url "rancher_helm_chart" refl))
            (chart-ne-empty _)

      settled :
          is_set (effective inh c "rancher_rel") ≡ true → rancher_config str_of inh c'' ≡ (c'', [])
      settled e =
          let rel : is_set (effective inh c'' "rancher_rel") ≡ true =
            ap is_set (
              kept "rancher_rel" refl
              ∙ set_unless-other inh c _ "rancher_repo_url" stable_url "rancher_rel" refl)
            ∙ e in
          rw (rel, repo, helm)

  pub rancher_twice : Settles (rancher_2_0 str_of) (rancher_2_0 str_of)
  unfolding rancher_2_0
  rancher_twice d =
      let section : Config =
        section_of str_of
          (get "rancher" (on_entry "rancher" (rancher_config str_of []) d.sections).0) in
      let owners =
        each-Settles (on_owner "rancher" (rancher_config str_of section))
          (on_owner "rancher" (rancher_config str_of section))
          (on_owner-Settles "rancher" (rancher_config str_of section)
            (rancher_config str_of section) (rancher_config-Settles section)) in
      rw (
        on_entry-Settles "rancher" (rancher_config str_of []) (rancher_config str_of [])
            (rancher_config-Settles []) d.sections,
        owners d.kclusters,
        owners d.nodes,
      )

has-put_self : (k : String) (v : Value) (c : Config) → has k (put k v c) ≡ true
has-put_self k v [] = rw eq_refl
has-put_self k v ((j, w) ∷ c) = ground (arith, has-put_self k v c)

write_twice :
    (name key : String) (d : Definition) (names : List String)
    → write_if_used name key (write_if_used name key d names).0 names
      ≡ ((write_if_used name key d names).0, [])
write_twice name key d names =
    elim (Bool-cases (is_mapping (get name d.sections) || mem name names)) [
      | inr e ↦ rw (e, e)
      | inl e ↦ elim (Bool-cases (has key (section_or_new (get name d.sections)))) [
        | inl h ↦ rw (e, h, e, h)
        | inr h ↦ rw (e, h, get-put, eq_refl, has-put_self)
      ]
    ]

write-names :
    (name key : String) (d : Definition) (names : List String)
    → addon_names (write_if_used name key d names).0 ≡ addon_names d
write-names name key d names =
    elim (Bool-cases (is_mapping (get name d.sections) || mem name names)) [
      | inr e ↦ rw e
      | inl e ↦ elim (Bool-cases (has key (section_or_new (get name d.sections)))) [
        | inl h ↦ rw (e, h)
        | inr h ↦ rw (e, h)
      ]
    ]

pub appcollection_default_twice :
    (name key : String) (d d' : Definition) (changes : List Change)
    → appcollection_default_2_0 name key d ≡ ok (d', changes)
    → appcollection_default_2_0 name key d' ≡ ok (d', [])
unfolding appcollection_default_2_0
appcollection_default_twice name key d d' changes e = by_names (addon_names d) refl e
  where
    by_names :
        (r : Result (List String))
        → addon_names d ≡ r
        → (r >>= λ names. ok (write_if_used name key d names)) ≡ ok (d', changes)
        → appcollection_default_2_0 name key d' ≡ ok (d', [])
    by_names (raise x) p q = cc
    by_names (ok names) p q =
        let same : (write_if_used name key d names).0 ≡ d' = ap (λ x. x.0) (ok-eq q) in
        rw (← same) (rw (write-names name key d names, p) (ap ok (write_twice name key d names)))
