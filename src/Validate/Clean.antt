-- ===== src/Validate/Clean.antt =====
-- What it means that a section, or a whole definition, has no finding.
use lab_in_a_box.Prelude.{
  String, Bool, false, Option, none, some, List, [], ◌∷◌, ◌++◌, ◌≡◌, ◌⊎◌, ap, refl, get, mem, inl,
  inr, eq_iff, some-eq, Bool-cases, str_eq, Dict,
}
use lab_in_a_box.Result.{Result, ok, raise, ok-eq, ◌>>=◌}
use lab_in_a_box.Text.{◌<>◌}
use lab_in_a_box.Validate.Sections.{
  Sections, section_fields, config_of, mapping_findings, items_findings, group_findings,
  named_findings, definition_findings,
}
use lab_in_a_box.Validate.{
  Fields, object, Config, Value, Field, Finding, value_finding, by_name, place_of, field_finding,
  fields_findings, section_findings, cons_finding,
}

cons_finding_nil :
    (x : Option Finding) (rest : List Finding) → cons_finding x rest ≡ [] → (x ≡ none) × (rest ≡ [])
cons_finding_nil none rest e = (refl, e)
cons_finding_nil (some x) rest e = cc

module _ (str_of : Value → String) (same : Value → Value → Bool)
    (re_match : (pattern subject : String) → Bool) where
  field_finding-none :
      (cfg : Config) (place : String) (skip : List String) (name : String) (f : Field) (v : Value)
      → field_finding str_of same re_match cfg place skip (name, f) ≡ none
      → get name cfg ≡ some v
      → mem name skip ≡ false
      → value_finding str_of same re_match f v (place_of place name) ≡ none
  field_finding-none cfg place skip name f v e g m = rw (m, g) at e

  fields_findings-none :
      (d : Dict Field) (cfg : Config) (place : String) (skip : List String) (name : String)
      (f : Field) (v : Value)
      → fields_findings str_of same re_match d cfg place skip ≡ []
      → get name d ≡ some f
      → get name cfg ≡ some v
      → mem name skip ≡ false
      → value_finding str_of same re_match f v (place_of place name) ≡ none
  fields_findings-none [] cfg place skip name f v e h g m = cc
  fields_findings-none ((key, x) ∷ d) cfg place skip name f v e h g m =
      let (here, rest) =
        cons_finding_nil (field_finding str_of same re_match cfg place skip (key, x))
          (fields_findings str_of same re_match d cfg place skip) e in
      elim (Bool-cases (str_eq key name)) [
        | inl same_key ↦
            let found : x ≡ f = some-eq (rw (same_key) at h) in
            let key_eq : key ≡ name = (eq_iff key name).0 same_key in
            rw (← found) (
              rw (key_eq) at
                (field_finding-none cfg place skip key x v here (rw (key_eq) g) (rw (key_eq) m)))
        | inr other ↦ fields_findings-none d cfg place skip name f v rest (rw (other) at h) g m
      ]

  -- A section without a finding: of each field that is declared, the last declaration of its name, that is
  -- not skipped and that the section has, the value has no finding.
  pub section_findings-none :
      (fields : List Field) (cfg : Config) (place : String) (skip : List String)
      → section_findings str_of same re_match fields cfg place skip ≡ []
      → (name : String) (f : Field) (v : Value) → get name (by_name fields []) ≡ some f
      → get name cfg ≡ some v
      → mem name skip ≡ false
      → value_finding str_of same re_match f v (place_of place name) ≡ none
  unfolding section_findings
  section_findings-none fields cfg place skip e name f v =
      fields_findings-none (by_name fields []) cfg place skip name f v e

  append_nil_both : (xs ys : List Finding) → xs ++ ys ≡ [] → (xs ≡ []) × (ys ≡ [])
  append_nil_both [] ys e = (refl, e)
  append_nil_both (x ∷ xs) ys e = cc

  items_findings-none :
      (fields : List Field) (items : Config) (name : String) (skip : List String)
      → items_findings str_of same re_match fields items name skip ≡ []
      → (key : String) (cfg : Fields) → get key items ≡ some (object cfg)
      → section_findings str_of same re_match fields (config_of cfg) (name <> "." <> key) skip ≡ []
  items_findings-none fields [] name skip e key cfg g = cc
  items_findings-none fields ((k, w) ∷ items) name skip e key cfg g =
      let (here, rest) =
        append_nil_both
          (mapping_findings str_of same re_match fields (some w) (name <> "." <> k) skip)
          (items_findings str_of same re_match fields items name skip) e in
      elim (Bool-cases (str_eq k key)) [
        | inl same_key ↦
            rw (← (eq_iff k key).0 same_key) (rw (some-eq (rw (same_key) at g)) at here)
        | inr other ↦ items_findings-none fields items name skip rest key cfg (rw (other) at g)
      ]

  group_findings-none :
      (sections : Sections) (definition : Config) (group : String) (skip : List String)
      → group_findings str_of same re_match sections definition group skip ≡ ok []
      → (members : Fields) (key : String) (cfg : Fields)
      → get group definition ≡ some (object members)
      → get key (config_of members) ≡ some (object cfg)
      → section_findings str_of same re_match
          (section_fields (get group sections))
          (config_of cfg)
          (group <> "." <> key)
          skip
        ≡ []
  group_findings-none sections definition group skip e members key cfg g h =
      items_findings-none _ (config_of members) group skip (ok-eq (rw (g) at e)) key cfg h

  definition_groups :
      (definition : Config) (sections : Sections) (skip : List String)
      → definition_findings str_of same re_match definition sections skip ≡ ok []
      → (group_findings str_of same re_match sections definition "nodes" skip ≡ ok [])
        × (group_findings str_of same re_match sections definition "kclusters" skip ≡ ok [])
        × (named_findings str_of same re_match sections definition "common" skip ≡ [])
        × (named_findings str_of same re_match sections definition "pxe" skip ≡ [])
  unfolding definition_findings
  definition_groups definition sections skip e =
      by_groups (group_findings str_of same re_match sections definition "nodes" skip)
        (group_findings str_of same re_match sections definition "kclusters" skip) e
    where
      by_groups :
          (r r' : Result (List Finding))
          → (r >>= λ nodes. r' >>= λ clusters. ok (
              named_findings str_of same re_match sections definition "common" skip
              ++ named_findings str_of same re_match sections definition "pxe" skip
              ++ nodes
              ++ clusters))
            ≡ ok []
          → (r ≡ ok [])
            × (r' ≡ ok [])
            × (named_findings str_of same re_match sections definition "common" skip ≡ [])
            × (named_findings str_of same re_match sections definition "pxe" skip ≡ [])
      by_groups (raise x) r' p = cc
      by_groups (ok nodes) (raise x) p = cc
      by_groups (ok nodes) (ok clusters) p =
          let common : List Finding =
            named_findings str_of same re_match sections definition "common" skip in
          let pxe : List Finding =
            named_findings str_of same re_match sections definition "pxe" skip in
          let (q, k) = append_nil_both (common ++ pxe ++ nodes) clusters (ok-eq p) in
          let (r, n) = append_nil_both (common ++ pxe) nodes q in
          let (c, x) = append_nil_both common pxe r in (ap ok n, ap ok k, c, x)

  -- A lab definition without a finding: of each of its nodes that is a mapping, the value of each field
  -- that the schema of nodes declares, the last declaration of its name, and that is not skipped, has no
  -- finding; and likewise of each of its clusters.
  pub definition_findings-none :
      (definition : Config) (sections : Sections) (skip : List String)
      → definition_findings str_of same re_match definition sections skip ≡ ok []
      → (group : String) → (group ≡ "nodes") ⊎ (group ≡ "kclusters")
      → (members : Fields) (key : String) (cfg : Fields)
      → get group definition ≡ some (object members)
      → get key (config_of members) ≡ some (object cfg)
      → (name : String) (f : Field) (v : Value)
      → get name (by_name (section_fields (get group sections)) []) ≡ some f
      → get name (config_of cfg) ≡ some v
      → mem name skip ≡ false
      → value_finding str_of same re_match f v (place_of (group <> "." <> key) name) ≡ none
  definition_findings-none definition sections skip e group which members key cfg g h =
      section_findings-none (section_fields (get group sections)) (config_of cfg)
        (group <> "." <> key) skip
        (group_findings-none sections definition group skip (of_group which) members key cfg g h)
    where
      of_group :
          (group ≡ "nodes") ⊎ (group ≡ "kclusters")
          → group_findings str_of same re_match sections definition group skip ≡ ok []
      of_group (inl p) = rw (p) ((definition_groups definition sections skip e).0)
      of_group (inr p) = rw (p) ((definition_groups definition sections skip e).1)
