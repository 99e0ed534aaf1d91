-- ===== src/Migrations/Pending/Stamped.antt =====
-- A definition that records the latest versions needs no step.
use lab_in_a_box.Prelude.{
  ℕ, String, Bool, true, false, ◌&&◌, ◌||◌, Option, none, some, List, [], ◌∷◌, ◌≡◌, refl, sym, ap,
  ◌∙◌, inl, inr, get, mem, ltb, leb, eqb, str_eq, eq_refl, eq_iff, Bool-cases, arith, Dict,
}
use lab_in_a_box.Result.{ok-eq, Result, ok, raise, of_option, ◌>>=◌}
use lab_in_a_box.Text.{split_on, parse_nat}
use lab_in_a_box.SchemaVersions.{Version, Entry, Snapshot, parse_version, two_parts, both_numbers}
use lab_in_a_box.SchemaVersions.Check.{Store, step_of}
use lab_in_a_box.SchemaVersions.Chain.{Follows, IsChain}
use lab_in_a_box.Migrations.{Value, Definition}
use lab_in_a_box.Migrations.Pending.{
  Record, numbers, version_key, later, entries_needed, needed_by, schemas_needed, schemas_of,
  pending, last_of, latest, cons_version, stamp, stamped, migrate, needed_changes, require_current,
  entries_of, recorded_or_first,
}

abbrev leb_version : Version → Version → Bool
leb_version u v = ltb u.0 v.0 || (eqb u.0 v.0 && leb u.1 v.1)

leb_version_refl : (v : Version) → leb_version v v ≡ true
leb_version_refl v = ground arith

leb_version_trans :
    (u v w : Version) → leb_version u v ≡ true → leb_version v w ≡ true → leb_version u w ≡ true
leb_version_trans u v w h k = ground arith

Follows-leb_version : (u v : Version) → Follows (some u) v → leb_version u v ≡ true
Follows-leb_version u v (inl e) = rw e (ground arith)
Follows-leb_version u v (inr e) = rw e (ground arith)

abbrev key_list : Version → List ℕ
key_list v = v.0 ∷ v.1 ∷ []

later-leb_version :
    (u v : Version) → leb_version u v ≡ true → later (key_list u) (key_list v) ≡ false
later-leb_version u v h = ground arith

numbers-parts :
    (parts : List String) (v : Version) → two_parts parts ≡ ok v → numbers parts ≡ ok (key_list v)
numbers-parts [] v e = cc
numbers-parts (a ∷ []) v e = cc
numbers-parts (a ∷ b ∷ c ∷ parts) v e = cc
numbers-parts (a ∷ b ∷ []) v e = both (parse_nat a) (parse_nat b) e
  where
    both :
        (m n : Option ℕ)
        → both_numbers m n ≡ ok v
        → (of_option m >>= λ x. (of_option n >>= λ y. ok (y ∷ [])) >>= λ rest. ok (x ∷ rest))
          ≡ ok (key_list v)
    both none n p = cc
    both (some x) none p = cc
    both (some x) (some y) p = rw (← ok-eq p)

-- The two ways of reading a version agree.
version_key-parsed :
    (s : String) (v : Version) → parse_version s ≡ ok v → version_key s ≡ ok (key_list v)
unfolding version_key parse_version
version_key-parsed s v e = numbers-parts (split_on 46 s) v e

-- No entry has a version above the given one.
abbrev Bounded : Version → List Entry → Type 0
Bounded top [] = Unit
Bounded top (e ∷ es) =
    (v : Version) × (parse_version e.version ≡ ok v) × (leb_version v top ≡ true) × Bounded top es

module _ (read_snapshot : Store) (migrations : List String) (name : String) where
  chain-Bounded :
      (e : Entry) (es : List Entry) (prev : Option Version) (prev_snap : Option Snapshot)
      → IsChain read_snapshot migrations name (e ∷ es) prev prev_snap
      → (top : Version) × (l : String) × (last_of (e ∷ es) ≡ some l)
        × (parse_version l ≡ ok top)
        × Bounded top (e ∷ es)
  chain-Bounded e [] prev prev_snap (v, p, _, _, _, _, _) =
      (v, e.version, refl, p, (v, p, leb_version_refl v, tt))
  chain-Bounded e (f ∷ es) prev prev_snap (v, p, _, _, _, _, next) =
      let (top, l, last, parsed, bound) =
        chain-Bounded f es (some v) (read_snapshot name e.version) next in
      let (u, q, follows, _, _, _, _) = next in
      let (x, r, below, rest) = bound in
      let same : u ≡ x = ok-eq (sym q ∙ r) in
      let step : leb_version v x ≡ true = rw (← same) (Follows-leb_version v u follows) in
      (top, l, last, parsed, (v, p, leb_version_trans v x top step below, bound))

entries_needed-none :
    (name : String) (top : Version) (es : List Entry)
    → Bounded top es
    → entries_needed name (key_list top) es ≡ ok []
unfolding entries_needed
entries_needed-none name top [] b = refl
entries_needed-none name top (e ∷ es) (v, p, below, b) =
    by_step (step_of e.migration) (entries_needed-none name top es b)
  where
    by_step :
        (o : Option String)
        → entries_needed name (key_list top) es ≡ ok []
        → needed_by name (key_list top) e o (entries_needed name (key_list top) es) ≡ ok []
    by_step none rest = rest
    by_step (some step) rest =
        rw (version_key-parsed e.version v p, rest, later-leb_version v top below)

module _ (read_snapshot : Store) (migrations : List String) where
  abbrev pub SoundEntries : String → List Entry → Type 0
  SoundEntries name [] = Unit
  SoundEntries name (e ∷ es) = IsChain read_snapshot migrations name (e ∷ es) none none

  -- The entries of each schema form a chain of versions.
  abbrev pub SoundHistory : Record → Type 0
  SoundHistory [] = Unit
  SoundHistory ((name, es) ∷ history) = SoundEntries name es × SoundHistory history

  entries_of_sound :
      (name : String) (history : Record)
      → SoundHistory history
      → SoundEntries name (entries_of (get name history))
  entries_of_sound name [] s = tt
  entries_of_sound name ((n, es) ∷ history) s = elim (Bool-cases (str_eq n name)) [
    | inl e ↦ rw ((eq_iff n name).0 e, eq_refl) (rw ((eq_iff n name).0 e) at s.0)
    | inr e ↦ rw e (entries_of_sound name history s.1)
  ]

cons_version-skip :
    (n name : String) (o : Option String) (d : Dict String)
    → str_eq n name ≡ false
    → get name (cons_version n o d) ≡ get name d
cons_version-skip n name none d e = refl
cons_version-skip n name (some v) d e = rw e

get-latest-none :
    (history : Record) (name : String) (names : List String)
    → last_of (entries_of (get name history)) ≡ none
    → get name (latest history names) ≡ none
get-latest-none history name [] h = refl
get-latest-none history name (n ∷ names) h = elim (Bool-cases (str_eq n name)) [
  | inl e ↦ rw ((eq_iff n name).0 e, h) (get-latest-none history name names h)
  | inr e ↦ cons_version-skip n name _ _ e ∙ get-latest-none history name names h
]

get-latest :
    (history : Record) (name v : String) (names : List String)
    → last_of (entries_of (get name history)) ≡ some v
    → mem name names ≡ true
    → get name (latest history names) ≡ some v
get-latest history name v [] h m = cc
get-latest history name v (n ∷ names) h m = elim (Bool-cases (str_eq n name)) [
  | inl e ↦ rw ((eq_iff n name).0 e, h, eq_refl)
  | inr e ↦ cons_version-skip n name _ _ e ∙ get-latest history name v names h (rw e at m)
]

-- With the latest versions recorded, a schema needs no step.
abbrev NothingNeeded : Record → List String → String → Type 0
NothingNeeded history names name =
    (have : List ℕ) × (version_key (recorded_or_first (get name (latest history names))) ≡ ok have)
    × (entries_needed name have (entries_of (get name history)) ≡ ok [])

module _ (read_snapshot : Store) (migrations : List String) (history : Record)
    (names : List String) where
  nothing_needed :
      (name : String)
      → SoundHistory read_snapshot migrations history
      → mem name names ≡ true
      → NothingNeeded history names name
  unfolding entries_needed version_key split_on parse_nat
  nothing_needed name sound m =
      by_entries (entries_of (get name history)) refl
        (entries_of_sound read_snapshot migrations name history sound)
    where
      by_entries :
          (es : List Entry)
          → entries_of (get name history) ≡ es
          → SoundEntries read_snapshot migrations name es
          → NothingNeeded history names name
      by_entries [] e s = (1 ∷ 0 ∷ [], rw (get-latest-none history name names (ap last_of e)), rw e)
      by_entries (x ∷ es) e s =
          let (top, l, last, parsed, bound) =
            chain-Bounded read_snapshot migrations name x es none none s in
          (
            key_list top,
            rw (get-latest history name l names (ap last_of e ∙ last) m)
                (version_key-parsed l top parsed),
            rw e (entries_needed-none name top (x ∷ es) bound),
          )

  schemas_needed-none :
      (ms : List String)
      → SoundHistory read_snapshot migrations history
      → ((n : String) → mem n ms ≡ true → mem n names ≡ true)
      → schemas_needed (latest history names) history ms ≡ ok []
  unfolding schemas_needed
  schemas_needed-none [] sound inside = refl
  schemas_needed-none (n ∷ ms) sound inside =
      let (have, key, first) = nothing_needed n sound (inside n (rw eq_refl)) in
      rw (key, first, schemas_needed-none ms sound (λ k m. inside k (rw m (or_true (str_eq n k)))))
    where
      or_true : (b : Bool) → (b || true) ≡ true
      or_true true = refl
      or_true false = refl

-- Once a definition records the latest versions of a history in which the entries of each schema form a
-- chain of versions, it needs no step of that history.
pub pending-stamp :
    (read_snapshot : Store) (migrations : List String) (history : Record) (d d' : Definition)
    → SoundHistory read_snapshot migrations history
    → stamp d history ≡ ok d'
    → pending d' history ≡ ok []
unfolding pending stamp
pending-stamp read_snapshot migrations history d d' sound e = by_names (schemas_of d) refl e
  where
    by_names :
        (r : Result (List String))
        → schemas_of d ≡ r
        → (r >>= λ names. ok (stamped d (latest history names))) ≡ ok d'
        → pending d' history ≡ ok []
    by_names (raise x) p q = cc
    by_names (ok names) p q =
        rw (← ok-eq q)
          (rw p (schemas_needed-none read_snapshot migrations history names names sound (λ n m. m)))

-- Once a definition records the latest versions of a history in which the entries of each schema form a
-- chain of versions, migrating it changes nothing, and it is accepted as current.
pub require_current-stamp :
    (str_of : Value → String) (read_snapshot : Store) (migrations : List String) (history : Record)
    (d d' : Definition)
    → SoundHistory read_snapshot migrations history
    → stamp d history ≡ ok d'
    → (migrate str_of d' history ≡ ok (d', [])) × (require_current str_of d' history ≡ ok tt)
unfolding migrate needed_changes require_current
require_current-stamp str_of read_snapshot migrations history d d' sound e =
    let none_pending = pending-stamp read_snapshot migrations history d d' sound e in
    (rw none_pending, rw none_pending)
