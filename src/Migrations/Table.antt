-- ===== src/Migrations/Table.antt =====
-- libs/migrations.py: MIGRATIONS, the steps by their names.
use lab_in_a_box.Prelude.{
  String, Bool, true, false, none, some, List, [], ◌∷◌, ◌≡◌, ap, Dict, get, str_eq, if◌then◌else◌,
}
use lab_in_a_box.Result.{ok-eq, Result, ok}
use lab_in_a_box.Migrations.{Value, Definition, Change, Changing}
use lab_in_a_box.Migrations.Steps.{
  postgresql_2_0, appcollection_2_0, kagent_2_0, litellm_2_0, linkerd_2_0, keycloak_2_0,
  complianceascode_2_0, trento_2_0,
}
use lab_in_a_box.Migrations.Defaults.{rancher_2_0, open_ports_2_0, appcollection_default_2_0}
use lab_in_a_box.Migrations.Walk.{Settles}
use lab_in_a_box.Migrations.Rerun.{
  drop_keys_twice, linkerd_twice, keycloak_twice, complianceascode_twice, trento_twice,
}
use lab_in_a_box.Migrations.Defaults.Rerun.{
  open_ports_twice, rancher_twice, appcollection_default_twice,
}

abbrev pub Step : Type 0
Step = Definition → Result (Definition × List Change)

-- A step that cannot fail.
abbrev total : Changing Definition → Step
total f d = ok (f d)

abbrev default_step : String → String → Step
default_step name prefix = appcollection_default_2_0 name prefix

unfoldable pub all_steps : (str_of : Value → String) → Dict Step
all_steps str_of =
    ("anthropic_2_0", total (litellm_2_0 "anthropic"))
    ∷ ("appcollection_2_0", total appcollection_2_0)
    ∷ ("argocd_2_0", default_step "argocd" "argocd_source")
    ∷ ("complianceascode_2_0", total (complianceascode_2_0 str_of))
    ∷ ("coredns_2_0", default_step "coredns" "coredns_source")
    ∷ ("fluentd_2_0", default_step "fluentd" "fluentd_source")
    ∷ ("gemini_2_0", total (litellm_2_0 "gemini"))
    ∷ ("harbor_2_0", default_step "harbor" "harbor_source")
    ∷ ("kagent_2_0", total kagent_2_0)
    ∷ ("keycloak_2_0", total (keycloak_2_0 str_of))
    ∷ ("kimi_2_0", total (litellm_2_0 "kimi"))
    ∷ ("linkerd_2_0", total (linkerd_2_0 str_of))
    ∷ ("longhorn_2_0", default_step "longhorn" "lh_source")
    ∷ ("milvus_2_0", default_step "milvus" "milvus_source")
    ∷ ("ollama_2_0", default_step "ollama" "ollama_source")
    ∷ ("open_ports_2_0", total open_ports_2_0)
    ∷ ("open_webui_2_0", default_step "open_webui" "open_webui_source")
    ∷ ("openai_2_0", total (litellm_2_0 "openai"))
    ∷ ("postgresql_2_0", total postgresql_2_0)
    ∷ ("rancher_2_0", total (rancher_2_0 str_of))
    ∷ ("traefik_2_0", default_step "traefik" "traefik_source")
    ∷ ("trento_2_0", total (trento_2_0 str_of))
    ∷ []

-- What the step gives, it leaves as it is.
abbrev Reruns : Step → Type 0
Reruns f = (d d' : Definition) (changes : List Change) → f d ≡ ok (d', changes) → f d' ≡ ok (d', [])

abbrev AllRerun : Dict Step → Type 0
AllRerun [] = Unit
AllRerun ((k, f) ∷ steps) = Reruns f × AllRerun steps

total-Reruns : (f : Changing Definition) → Settles f f → Reruns (total f)
total-Reruns f s d d' changes e =
    let same : (f d).0 ≡ d' = ap (λ x. x.0) (ok-eq e) in rw (← same) (ap ok (s d))

named-Reruns :
    (steps : Dict Step)
    → AllRerun steps
    → (name : String) (f : Step) → get name steps ≡ some f
    → Reruns f
named-Reruns [] all name f e = cc
named-Reruns ((k, g) ∷ steps) all name f e =
    by_name (str_eq k name) (named-Reruns steps all.1 name f) e
  where
    some-same : {g h : Step} → some g ≡ some h → g ≡ h
    some-same p = ap (λ o. elim o [ none ↦ g | some x ↦ x ]) p

    by_name :
        (b : Bool)
        → (get name steps ≡ some f → Reruns f)
        → (if b then some g else get name steps) ≡ some f
        → Reruns f
    by_name true rest p = rw (← some-same p) all.0
    by_name false rest p = rest p

all_steps-AllRerun : (str_of : Value → String) → AllRerun (all_steps str_of)
unfolding all_steps litellm_2_0 appcollection_2_0 kagent_2_0 postgresql_2_0
all_steps-AllRerun str_of = (
  by_keys "anthropic" _,
  (
    by_keys "appcollection" _,
    (
      default "argocd" _,
      (
        total-Reruns _ (complianceascode_twice str_of),
        (
          default "coredns" _,
          (
            default "fluentd" _,
            (
              by_keys "gemini" _,
              (
                default "harbor" _,
                (
                  by_keys "kagent" _,
                  (
                    total-Reruns _ (keycloak_twice str_of),
                    (
                      by_keys "kimi" _,
                      (
                        total-Reruns _ (linkerd_twice str_of),
                        (
                          default "longhorn" _,
                          (
                            default "milvus" _,
                            (
                              default "ollama" _,
                              (
                                total-Reruns _ open_ports_twice,
                                (
                                  default "open_webui" _,
                                  (
                                    by_keys "openai" _,
                                    (
                                      by_keys "postgresql" _,
                                      (
                                        total-Reruns _ (rancher_twice str_of),
                                        (
                                          default "traefik" _,
                                          (total-Reruns _ (trento_twice str_of), tt),
                                        ),
                                      ),
                                    ),
                                  ),
                                ),
                              ),
                            ),
                          ),
                        ),
                      ),
                    ),
                  ),
                ),
              ),
            ),
          ),
        ),
      ),
    ),
  ),
)
  where
    by_keys :
        (name : String) (keys : List String)
        → Reruns (total (lab_in_a_box.Migrations.Steps.drop_keys name keys))
    by_keys name keys = total-Reruns _ (drop_keys_twice name keys)

    default : (name key : String) → Reruns (appcollection_default_2_0 name key)
    default name key = appcollection_default_twice name key

-- Whatever step is named, and however Python writes values that are no texts: run on the definition that
-- it gave, the step changes nothing.
pub step_twice :
    (str_of : Value → String) (name : String) (step : Step) (d d' : Definition)
    (changes : List Change)
    → get name (all_steps str_of) ≡ some step
    → step d ≡ ok (d', changes)
    → step d' ≡ ok (d', [])
step_twice str_of name step d d' changes e =
    named-Reruns (all_steps str_of) (all_steps-AllRerun str_of) name step e d d' changes
