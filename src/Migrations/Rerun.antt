-- ===== src/Migrations/Rerun.antt =====
-- Each step of libs/migrations.py, made on what it gives.
use lab_in_a_box.Prelude.{
  String, Bool, false, ◌||◌, Option, none, some, List, [], ◌∷◌, ◌≡◌, refl, inl, inr, map, get,
  Bool-cases,
}
use lab_in_a_box.Migrations.{Value, Config, Rule, hits, is_hit, drop_by}
use lab_in_a_box.Migrations.Steps.{
  always, drop_keys, keycloak_config, bitnami_rel, bitnami_url, compliance_rules, trento_rules,
  linkerd_rules, linkerd_2_0, keycloak_2_0, complianceascode_2_0, trento_2_0,
}
use lab_in_a_box.Migrations.Walk.{Settles, section_configs-Settles, walks-Settles}
use lab_in_a_box.Migrations.Rules.{
  drop_by-Settles, drop_by-Settles_before, drop_by-Settles_after, drop_by-Free,
}

-- Removing keys from a section and its overrides once more removes nothing.
pub drop_keys_twice :
    (name : String) (keys : List String) → Settles (drop_keys name keys) (drop_keys name keys)
unfolding drop_keys
drop_keys_twice name keys =
    section_configs-Settles name (drop_by rules) (drop_by rules) (drop_by-Settles rules)
  where
    rules : List Rule
    rules = map (λ k. (k, always)) keys

hits-always :
    (k : String) (test : Value → Bool) (c : Config)
    → hits (k, always) c ≡ false
    → hits (k, test) c ≡ false
hits-always k test c h = by_value (get k c) h
  where
    by_value : (o : Option Value) → is_hit always o ≡ false → is_hit test o ≡ false
    by_value none e = refl
    by_value (some v) e = cc

module _ (str_of : Value → String) where
  pub linkerd_twice : Settles (linkerd_2_0 str_of) (linkerd_2_0 str_of)
  unfolding linkerd_2_0
  linkerd_twice =
      section_configs-Settles "linkerd" (drop_by (linkerd_rules str_of))
        (drop_by (linkerd_rules str_of)) (drop_by-Settles (linkerd_rules str_of))

  keycloak_config-Settles : Settles (keycloak_config str_of) (keycloak_config str_of)
  keycloak_config-Settles c =
      elim (Bool-cases (hits (bitnami_rel str_of) c || hits (bitnami_url str_of) c)) [
        | inl e ↦ rw e gone
        | inr e ↦ rw (e, e)
      ]
    where
      keys : List String
      keys = "keycloak_rel" ∷ "keycloak_repo_url" ∷ "keycloak_version" ∷ []

      dropped : Config
      dropped = (drop_by (map (λ k. (k, always)) keys) c).0

      gone : keycloak_config str_of dropped ≡ (dropped, [])
      gone =
          let free = drop_by-Free (map (λ k. (k, always)) keys) c in
          rw (
            hits-always "keycloak_rel" (bitnami_rel str_of).1 dropped free.0,
            hits-always "keycloak_repo_url" (bitnami_url str_of).1 dropped free.1.0,
          )

  pub keycloak_twice : Settles (keycloak_2_0 str_of) (keycloak_2_0 str_of)
  unfolding keycloak_2_0
  keycloak_twice =
      section_configs-Settles "keycloak" (keycloak_config str_of) (keycloak_config str_of)
        keycloak_config-Settles

  pub complianceascode_twice : Settles (complianceascode_2_0 str_of) (complianceascode_2_0 str_of)
  unfolding complianceascode_2_0 drop_keys
  complianceascode_twice =
      walks-Settles "complianceascode" (drop_by ns) (drop_by (compliance_rules str_of))
        (drop_by-Settles_before ns (compliance_rules str_of))
        (drop_by-Settles_after ns (compliance_rules str_of))
    where
      ns : List Rule
      ns = ("complianceascode_ns", always) ∷ []

  pub trento_twice : Settles (trento_2_0 str_of) (trento_2_0 str_of)
  unfolding trento_2_0 drop_keys
  trento_twice =
      walks-Settles "trento" (drop_by repo) (drop_by (trento_rules str_of))
        (drop_by-Settles_before repo (trento_rules str_of))
        (drop_by-Settles_after repo (trento_rules str_of))
    where
      repo : List Rule
      repo = ("trento_rel", always) ∷ ("trento_repo_url", always) ∷ []
