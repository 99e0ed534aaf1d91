-- ===== src/Migrations/Steps.antt =====
-- libs/migrations.py: the steps themselves.
use lab_in_a_box.Prelude.{String, Bool, true, false, not, ◌&&◌, ◌||◌, List, [], ◌∷◌, str_eq, map}
use lab_in_a_box.Text.{◌<>◌, contains, starts_with, is_digit}
use lab_in_a_box.Migrations.{
  Value, text, Config, Definition, Changing, truthy, then_also, Rule, drop_by, hits,
  section_configs,
}

-- s.endswith(t)
abbrev pub ends_with : String → String → Bool
ends_with String.[] t = str_eq String.[] t
ends_with (String.◌∷◌ c s) t = str_eq (String.◌∷◌ c s) t || ends_with s t

-- re.match(r"^20[0-9]{2}\.", s)
abbrev pub is_edge_version : String → Bool
is_edge_version (String.◌∷◌ a (String.◌∷◌ b (String.◌∷◌ c (String.◌∷◌ d s)))) =
    starts_with (String.◌∷◌ a (String.◌∷◌ b String.[])) "20"
    && (is_digit c && (is_digit d && starts_with s "."))
is_edge_version _ = false

-- value == s
abbrev pub is_text : String → Value → Bool
is_text s (text t) = str_eq t s
is_text s _ = false

abbrev pub always : Value → Bool
always v = true

-- _drop_keys
unfoldable pub drop_keys : String → List String → Changing Definition
drop_keys name keys = section_configs name (drop_by (map (λ k. (k, always)) keys))

unfoldable pub postgresql_2_0 : Changing Definition
postgresql_2_0 =
    drop_keys "postgresql" ("postgresql_rel" ∷ "postgresql_repo_url" ∷ "postgresql_version" ∷ [])

unfoldable pub appcollection_2_0 : Changing Definition
appcollection_2_0 = drop_keys "appcollection" ("appcollection_rel" ∷ "appcollection_repo_url" ∷ [])

unfoldable pub kagent_2_0 : Changing Definition
kagent_2_0 = drop_keys "kagent" ("kagent_rel" ∷ "kagent_repo_url" ∷ [])

-- _litellm_2_0
unfoldable pub litellm_2_0 : String → Changing Definition
litellm_2_0 name = drop_keys name ((name <> "_rel") ∷ (name <> "_repo_url") ∷ [])

-- Python's str() of a value that is no text is given.
module _ (str_of : Value → String) where
  abbrev pub text_of : Value → String
  text_of (text s) = s
  text_of v = str_of v

  abbrev pub linkerd_rules : List Rule
  linkerd_rules =
      ("linkerd_repo_url", λ v. contains "helm.linkerd.io/stable" (text_of v))
      ∷ ("linkerd_rel", is_text "linkerd")
      ∷ ("linkerd_version", λ v. truthy v && not (is_edge_version (text_of v)))
      ∷ []

  unfoldable pub linkerd_2_0 : Changing Definition
  linkerd_2_0 = section_configs "linkerd" (drop_by linkerd_rules)

  abbrev pub bitnami_rel : Rule
  bitnami_rel = ("keycloak_rel", is_text "bitnami")

  abbrev pub bitnami_url : Rule
  bitnami_url = ("keycloak_repo_url", λ v. contains "bitnami" (text_of v))

  abbrev pub drop_all_if : Bool → List String → Changing Config
  drop_all_if true keys c = drop_by (map (λ k. (k, always)) keys) c
  drop_all_if false keys c = (c, [])

  abbrev pub keycloak_config : Changing Config
  keycloak_config c =
      drop_all_if (hits bitnami_rel c || hits bitnami_url c)
        ("keycloak_rel" ∷ "keycloak_repo_url" ∷ "keycloak_version" ∷ []) c

  unfoldable pub keycloak_2_0 : Changing Definition
  keycloak_2_0 = section_configs "keycloak" keycloak_config

  abbrev pub compliance_rules : List Rule
  compliance_rules =
      ("complianceascode_rel", is_text "compliance-operator")
      ∷ ("complianceascode_repo_url", λ v. contains "openshift.github.io" (text_of v))
      ∷ ("complianceascode_version", λ v. truthy v && not (contains "+up" (text_of v)))
      ∷ ("complianceascode_profile", λ v. truthy v && not (ends_with (text_of v) "-profile"))
      ∷ []

  unfoldable pub complianceascode_2_0 : Changing Definition
  complianceascode_2_0 =
      then_also (drop_keys "complianceascode" ("complianceascode_ns" ∷ []))
        (section_configs "complianceascode" (drop_by compliance_rules))

  abbrev pub trento_rules : List Rule
  trento_rules = ("trento_admin", λ v. contains "@" (text_of v)) ∷ []

  unfoldable pub trento_2_0 : Changing Definition
  trento_2_0 =
      then_also (drop_keys "trento" ("trento_rel" ∷ "trento_repo_url" ∷ []))
        (section_configs "trento" (drop_by trento_rules))
