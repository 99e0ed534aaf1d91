-- ===== src/SchemaVersions/Chain.antt =====
-- A schema without problems has a sound chain of versions.
use lab_in_a_box.Prelude.{
  ◌+◌, String, Bool, true, false, not, Option, none, some, List, [], ◌∷◌, ◌++◌, ◌≡◌, refl, ◌⊎◌, inl,
  inr, map, mem, ltb, str_eq, Bool-cases, arith, if◌then◌else◌, eq_iff,
}
use lab_in_a_box.Result.{Result, ok, raise, ◌>>=◌}
use lab_in_a_box.SchemaVersions.{
  Version, parse_version, Snapshot, Entry, breaking_changes, other_changes,
}
use lab_in_a_box.SchemaVersions.Check.{
  Problem, no_snapshot, no_changes_text, minor_by_one, major_and_zero, needs_migration,
  unknown_migration, stray_migration, breaking_flag, breaking_in_compatible, same_version,
  is_stored, migration_problems, problem_if, major_bump, bad_minor, bad_major, step_of, same_bool,
  parsed_problems, compatibility_problems, Store, walk, go_on, last_version, schema_problems,
  finish, last_differs, changed_since,
}

-- One version after another: MINOR by one, or MAJOR by one and MINOR 0.
abbrev pub Follows : Option Version → Version → Type 0
Follows none v = Unit
Follows (some u) v = (v ≡ (u.0, u.1 + 1)) ⊎ (v ≡ (u.0 + 1, 0))

abbrev pub Migrates : List String → Option String → Bool → Type 0
Migrates migrations none breaks = breaks ≡ false
Migrates migrations (some step) breaks = (breaks ≡ true) × (mem step migrations ≡ true)

-- No change of a compatible version breaks a definition written for the version before.
abbrev pub Compatible : Option Snapshot → Option Snapshot → Bool → Type 0
Compatible (some prev) (some stored) false = breaking_changes prev stored ≡ []
Compatible _ _ _ = Unit

not-false : {b : Bool} → not b ≡ false → b ≡ true
not-false {b} e = ground arith

same_bool-eq : (a b : Bool) → same_bool a b ≡ true → a ≡ b
same_bool-eq a b e = ground arith

pub append-eq-nil : {A : Type 0} (xs ys : List A) → xs ++ ys ≡ [] → (xs ≡ []) × (ys ≡ [])
append-eq-nil [] ys e = (refl, e)
append-eq-nil (x ∷ xs) ys e = cc

cons-ne-nil : {A : Type 0} {x : A} {xs : List A} → ¬ (x ∷ xs ≡ [])
cons-ne-nil e = cc

problem_if-nil : (b : Bool) (p : Problem) → problem_if b p ≡ [] → b ≡ false
problem_if-nil true p e = cc
problem_if-nil false p e = refl

same_version-eq : (a b : Version) → same_version a b ≡ true → a ≡ b
same_version-eq a b e = ground arith

Follows-of_tests :
    (prev : Option Version) (v : Version)
    → bad_minor prev v ≡ false
    → bad_major prev v ≡ false
    → Follows prev v
Follows-of_tests none v h k = tt
Follows-of_tests (some u) v h k = elim (Bool-cases (ltb u.0 v.0)) [
  | inl e ↦ inr (same_version-eq v (u.0 + 1, 0) (not-false (rw e at k)))
  | inr e ↦ inl (same_version-eq v (u.0, u.1 + 1) (not-false (rw e at h)))
]

Migrates-of_tests :
    (t : String) (step : Option String) (b : Bool) (migrations : List String)
    → migration_problems t step b migrations ≡ []
    → Migrates migrations step b
Migrates-of_tests t none b migrations e = problem_if-nil b (needs_migration t) e
Migrates-of_tests t (some step) b migrations e =
    let (unknown, stray) =
      append-eq-nil (problem_if (not (mem step migrations)) (unknown_migration t))
        (problem_if (not b) (stray_migration t)) e in
    (
      not-false (problem_if-nil (not b) _ stray),
      not-false (problem_if-nil (not (mem step migrations)) _ unknown),
    )

pub map-eq-nil : {A B : Type 0} (f : A → B) (xs : List A) → map f xs ≡ [] → xs ≡ []
map-eq-nil f [] e = refl
map-eq-nil f (x ∷ xs) e = cc

Compatible-of_tests :
    (t : String) (prev stored : Option Snapshot) (b : Bool)
    → compatibility_problems t stored prev b ≡ []
    → Compatible prev stored b
Compatible-of_tests t (some p) (some s) false e = map-eq-nil (breaking_in_compatible t) _ e
Compatible-of_tests t (some p) (some s) true e = tt
Compatible-of_tests t (some p) none b e = tt
Compatible-of_tests t none stored b e = tt

-- An entry without problems.
record IsSoundEntry (e : Entry) (prev : Option Version) (prev_snap stored : Option Snapshot)
    (migrations : List String) (v : Version) : Type 0 where
  follows : Follows prev v
  flag : e.breaking ≡ major_bump prev v
  migrates : Migrates migrations (step_of e.migration) (major_bump prev v)
  compatible : Compatible prev_snap stored (major_bump prev v)

entry_sound :
    (e : Entry) (prev : Option Version) (prev_snap stored : Option Snapshot)
    (migrations : List String) (v : Version)
    → parsed_problems e prev prev_snap stored migrations v ≡ []
    → IsSoundEntry e prev prev_snap stored migrations v
entry_sound e prev prev_snap stored migrations v h =
    let (_, h₁) = append-eq-nil (problem_if (not (is_stored stored)) (no_snapshot e.version)) _ h in
    let (_, h₂) =
      append-eq-nil (problem_if (str_eq e.changes "") (no_changes_text e.version)) _ h₁ in
    let (minor, h₃) = append-eq-nil (problem_if (bad_minor prev v) (minor_by_one e.version)) _ h₂ in
    let (major, h₄) =
      append-eq-nil (problem_if (bad_major prev v) (major_and_zero e.version)) _ h₃ in
    let (flag, h₅) =
      append-eq-nil
        (problem_if (not (same_bool e.breaking (major_bump prev v)))
          (breaking_flag e.version (major_bump prev v)))
        _ h₄ in
    let (steps, compat) =
      append-eq-nil
        (migration_problems e.version (step_of e.migration) (major_bump prev v) migrations) _ h₅ in
    record {
      follows = Follows-of_tests prev v (problem_if-nil _ _ minor) (problem_if-nil _ _ major);
      flag = same_bool-eq e.breaking _ (not-false (problem_if-nil _ _ flag));
      migrates = Migrates-of_tests e.version (step_of e.migration) _ migrations steps;
      compatible = Compatible-of_tests e.version prev_snap stored _ compat;
    }

module _ (read_snapshot : Store) (migrations : List String) (name : String) where
  abbrev pub IsChain : List Entry → Option Version → Option Snapshot → Type 0
  IsChain [] prev prev_snap = Unit
  IsChain (e ∷ es) prev prev_snap =
      (v : Version) × (parse_version e.version ≡ ok v)
      × Follows prev v
      × (e.breaking ≡ major_bump prev v)
      × Migrates migrations (step_of e.migration) (major_bump prev v)
      × Compatible prev_snap (read_snapshot name e.version) (major_bump prev v)
      × IsChain es (some v) (read_snapshot name e.version)

  -- A walk over the entries that finds no problem has found a chain.
  pub walk-IsChain :
      (es : List Entry) (prev : Option Version) (prev_snap : Option Snapshot)
      → (walk read_snapshot migrations name es prev prev_snap).0 ≡ []
      → IsChain es prev prev_snap
  unfolding walk
  walk-IsChain [] prev prev_snap h = tt
  walk-IsChain (e ∷ es) prev prev_snap h =
      by_version (parse_version e.version) refl h (λ v. walk-IsChain es (some v) stored)
    where
      stored : Option Snapshot
      stored = read_snapshot name e.version

      Rest : Version → Type 0
      Rest v =
          (walk read_snapshot migrations name es (some v) stored).0 ≡ []
          → IsChain es (some v) stored

      by_version :
          (r : Result Version)
          → parse_version e.version ≡ r
          → (go_on read_snapshot migrations name
              (r >>= λ v. ok (parsed_problems e prev prev_snap stored migrations v))
              r
              (λ v. walk read_snapshot migrations name es (some v) stored)).0
            ≡ []
          → ((v : Version) → Rest v)
          → IsChain (e ∷ es) prev prev_snap
      by_version (raise x) p q ih = cc
      by_version (ok v) p q ih =
          let (own, rest) =
            append-eq-nil (parsed_problems e prev prev_snap stored migrations v) _ q in
          let sound = entry_sound e prev prev_snap stored migrations v own in
          (v, p, sound.follows, sound.flag, sound.migrates, sound.compatible, ih v rest)

  walk-stopped :
      (es : List Entry) (prev : Option Version) (prev_snap : Option Snapshot)
      → (walk read_snapshot migrations name es prev prev_snap).1 ≡ none
      → ¬ ((walk read_snapshot migrations name es prev prev_snap).0 ≡ [])
  unfolding walk
  walk-stopped [] prev prev_snap h e = cc
  walk-stopped (x ∷ es) prev prev_snap h e =
      by_version (parse_version x.version) h e
        (λ v. walk-stopped es (some v) (read_snapshot name x.version))
    where
      by_version :
          (r : Result Version)
          → (go_on read_snapshot migrations name
              (r >>= λ v.
                ok (parsed_problems x prev prev_snap (read_snapshot name x.version) migrations v))
              r
              (λ v.
                walk read_snapshot migrations name es (some v) (read_snapshot name x.version))).1
            ≡ none
          → (go_on read_snapshot migrations name
              (r >>= λ v.
                ok (parsed_problems x prev prev_snap (read_snapshot name x.version) migrations v))
              r
              (λ v.
                walk read_snapshot migrations name es (some v) (read_snapshot name x.version))).0
            ≡ []
          → ((v : Version)
              → (walk read_snapshot migrations name es (some v) (read_snapshot name x.version)).1
                ≡ none
              → ¬ (
                  (walk read_snapshot migrations name es (some v) (read_snapshot name x.version)).0
                  ≡ []))
          → ⊥
      by_version (raise y) a b ih = cc
      by_version (ok v) a b ih =
          ih v a
            (append-eq-nil
              (parsed_problems x prev prev_snap (read_snapshot name x.version) migrations v) _ b).1

  finish_sound :
      (same_fields : Snapshot → Snapshot → Bool) (snap : Snapshot) (last : String)
      (o : List Problem × Option (Option Snapshot))
      → (o.1 ≡ none → ¬ (o.0 ≡ []))
      → finish read_snapshot migrations name same_fields snap last o ≡ []
      → (o.0 ≡ []) × (str_eq last snap.version ≡ true)
  finish_sound same_fields snap last (ps, none) k h = absurd (k refl h)
  finish_sound same_fields snap last (ps, some p) k h =
      let (own, final) = append-eq-nil ps _ h in (own, declared (str_eq last snap.version) final)
    where
      declared :
          (b : Bool)
          → (if not b then last_differs snap.version last ∷ [] else elim p [
            | none ↦ []
            | some q ↦
                if same_fields q snap
                then []
                else changed_since last (breaking_changes q snap ++ other_changes q snap) ∷ []
          ])
            ≡ []
          → b ≡ true
      declared true e = refl
      declared false e = cc

  -- A schema of which the check reports no problem has a chain of versions: each follows the one before
  -- by MINOR + 1, or by MAJOR + 1 and MINOR 0; exactly the latter are marked breaking and name a
  -- registered migration; the others break no definition written for the version before; and the
  -- version that the schema declares is the last of them.
  pub schema_problems-IsChain :
      (same_fields : Snapshot → Snapshot → Bool) (snap : Snapshot) (es : List Entry)
      → schema_problems read_snapshot migrations name same_fields snap es ≡ []
      → (e : Entry) × (rest : List Entry) × (es ≡ e ∷ rest)
        × IsChain (e ∷ rest) none none
        × (last_version read_snapshot migrations name e rest ≡ snap.version)
  unfolding schema_problems
  schema_problems-IsChain same_fields snap [] h = elim (Bool-cases (str_eq snap.version "")) [
    | inl e ↦ absurd (cons-ne-nil (rw e at h))
    | inr e ↦ absurd (cons-ne-nil (rw e at h))
  ]
  schema_problems-IsChain same_fields snap (e ∷ rest) h =
      elim (Bool-cases (str_eq snap.version "")) [
        | inl q ↦ absurd (cons-ne-nil (rw q at h))
        | inr q ↦
            let (own, declared) =
              finish_sound same_fields snap (last_version read_snapshot migrations name e rest)
                (walk read_snapshot migrations name (e ∷ rest) none none)
                (walk-stopped (e ∷ rest) none none) (rw q at h) in
            (e, rest, refl, walk-IsChain (e ∷ rest) none none own, (eq_iff _ _).0 declared)
      ]
