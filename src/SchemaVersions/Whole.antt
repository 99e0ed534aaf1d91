-- ===== src/SchemaVersions/Whole.antt =====
-- What holds of all schemas when the check of the whole record reports no problem.
use lab_in_a_box.Prelude.{
  String, Bool, true, not, ◌||◌, Option, none, some, List, [], ◌∷◌, ◌≡◌, ◌⊎◌, inl, inr, refl, sym,
  ap, ◌∙◌, map, keep, mem, mem-append, get, has, Dict, str_eq, Bool-cases, eq_iff, arith,
}
use lab_in_a_box.SchemaVersions.{Snapshot, Entry}
use lab_in_a_box.SchemaVersions.Check.{
  Store, no_such_schema, unnamed_migration, schema_problems, last_version, entries_or_none, missing,
  steps_named, all_steps_named, current_problems, check,
}
use lab_in_a_box.SchemaVersions.Chain.{IsChain, append-eq-nil, map-eq-nil, schema_problems-IsChain}

str_eq_path : (a b : String) → str_eq a b ≡ true → a ≡ b
str_eq_path a b e = (eq_iff a b).0 e

-- An entry names the step as its migration.
abbrev pub HasStep : String → List Entry → Type 0
HasStep step [] = ⊥
HasStep step (e ∷ es) = (e.migration ≡ some step) ⊎ HasStep step es

-- An entry of one of the recorded schemas names the step.
abbrev pub IsNamed : String → Dict (List Entry) → Type 0
IsNamed step [] = ⊥
IsNamed step ((name, es) ∷ history) = HasStep step es ⊎ IsNamed step history

steps_named-HasStep :
    (step : String) (es : List Entry) → mem step (steps_named es) ≡ true → HasStep step es
steps_named-HasStep step [] h = cc
steps_named-HasStep step (e ∷ es) h = by_migration e.migration refl (steps_named-HasStep step es) h
  where
    named : Option String → List String
    named m = elim m [ none ↦ steps_named es | some s ↦ s ∷ steps_named es ]

    by_migration :
        (m : Option String)
        → e.migration ≡ m
        → (mem step (steps_named es) ≡ true → HasStep step es)
        → mem step (named m) ≡ true
        → HasStep step (e ∷ es)
    by_migration none q later h = inr (later h)
    by_migration (some s) q later h = elim (Bool-cases (str_eq s step)) [
      | inl same ↦ inl (q ∙ ap some (str_eq_path s step same))
      | inr other ↦ inr (later (sym (ap (λ b. b || mem step (steps_named es)) other) ∙ h))
    ]

all_steps_named-IsNamed :
    (step : String) (history : Dict (List Entry))
    → mem step (all_steps_named history) ≡ true
    → IsNamed step history
all_steps_named-IsNamed step [] h = cc
all_steps_named-IsNamed step ((name, es) ∷ history) h =
    elim (Bool-cases (mem step (steps_named es))) [
      | inl own ↦ inl (steps_named-HasStep step es own)
      | inr other ↦ inr (
          all_steps_named-IsNamed step history (
            sym (ap (λ b. b || mem step (all_steps_named history)) other)
            ∙ sym (mem-append step (steps_named es) (all_steps_named history))
            ∙ h))
    ]

-- A text of which the test fails is none of those that are left over.
keep-not :
    (test : String → Bool) (x : String) (xs : List String)
    → keep (λ s. not (test s)) xs ≡ []
    → mem x xs ≡ true
    → test x ≡ true
keep-not test x [] h m = cc
keep-not test x (y ∷ xs) h m =
    ground (arith, eq_iff y x, keep-not test x xs, λ (e : y ≡ x). ap test e)

missing-has :
    {V W : Type 0} (k : String) (c : Dict V) (d : Dict W)
    → missing c d ≡ []
    → has k c ≡ true
    → has k d ≡ true
missing-has k [] d h m = cc
missing-has k ((j, v) ∷ c) d h m =
    ground (arith, eq_iff j k, missing-has k c d, λ (e : j ≡ k). ap (λ x. has x d) e)

module _ (read_snapshot : Store) (same_fields : Snapshot → Snapshot → Bool)
    (migrations : List String) (history : Dict (List Entry)) where
  -- The recorded entries of each schema are a chain that ends with the version it declares.
  abbrev pub AllChains : Dict Snapshot → Type 0
  AllChains [] = Unit
  AllChains ((name, snap) ∷ current) =
      ((e : Entry) × (rest : List Entry) × (entries_or_none (get name history) ≡ e ∷ rest)
        × IsChain read_snapshot migrations name (e ∷ rest) none none
        × (last_version read_snapshot migrations name e rest ≡ snap.version))
      × AllChains current

  current_problems-AllChains :
      (current : Dict Snapshot)
      → current_problems read_snapshot same_fields migrations history current ≡ []
      → AllChains current
  unfolding current_problems
  current_problems-AllChains [] h = tt
  current_problems-AllChains ((name, snap) ∷ current) h =
      let (own, rest) =
        append-eq-nil
          (schema_problems read_snapshot migrations name same_fields snap
            (entries_or_none (get name history)))
          _ h in
      (
        schema_problems-IsChain read_snapshot migrations name same_fields snap _ own,
        current_problems-AllChains current rest,
      )

  -- When the check of a record reports no problem: the recorded entries of each current schema are a chain
  -- of versions that ends with the version it declares, every recorded schema is a current one, and every
  -- registered step is the migration that an entry of a recorded schema names.
  pub check-AllChains :
      (current : Dict Snapshot)
      → check read_snapshot same_fields current history migrations ≡ []
      → AllChains current
        × ((name : String) → has name history ≡ true → has name current ≡ true)
        × ((step : String) → mem step migrations ≡ true → IsNamed step history)
  unfolding check
  check-AllChains current h =
      let (known, h₁) = append-eq-nil (map no_such_schema (missing history current)) _ h in
      let (chains, steps) =
        append-eq-nil (current_problems read_snapshot same_fields migrations history current) _
          h₁ in
      (
        current_problems-AllChains current chains,
        λ name m. missing-has name history current (map-eq-nil no_such_schema _ known) m,
        λ step m. all_steps_named-IsNamed step history (
            keep-not (λ s. mem s (all_steps_named history)) step migrations
              (map-eq-nil unnamed_migration _ steps) m),
      )
