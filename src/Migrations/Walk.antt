-- ===== src/Migrations/Walk.antt =====
-- A change of every section's configuration, made a second time.
use lab_in_a_box.Prelude.{String, List, [], ◌∷◌, ◌≡◌, refl, ap, inl, inr, Dict, str_eq, Bool-cases}
use lab_in_a_box.Migrations.{
  Config, Section, object, other, Addon, plain, override, Owner, Definition, Changing, then_also,
  each, on_section, on_entry, on_addon, on_owner, section_configs,
}

-- Made on what `g` leaves, `f` changes nothing.
abbrev pub Settles {ℓ} : {A : Type ℓ} → Changing A → Changing A → Type ℓ
Settles {A} f g = (a : A) → f (g a).0 ≡ ((g a).0, [])

pub each-Settles {ℓ} : {A : Type ℓ} (f g : Changing A) → Settles f g → Settles (each f) (each g)
each-Settles f g s [] = refl
each-Settles f g s (a ∷ list) = rw (s a, each-Settles f g s list)

pub each-then_also {ℓ} :
    {A : Type ℓ} (f g : Changing A) (list : List A)
    → (then_also (each f) (each g) list).0 ≡ (each (then_also f g) list).0
each-then_also f g [] = refl
each-then_also f g (a ∷ list) = ap (λ bs. (then_also f g a).0 ∷ bs) (each-then_also f g list)

on_section-Settles : (f g : Changing Config) → Settles f g → Settles (on_section f) (on_section g)
on_section-Settles f g s (other v) = refl
on_section-Settles f g s (object c) = rw s

pub on_entry-Settles :
    (name : String) (f g : Changing Config)
    → Settles f g
    → Settles (on_entry name f) (on_entry name g)
on_entry-Settles name f g s [] = refl
on_entry-Settles name f g s ((k, x) ∷ d) = elim (Bool-cases (str_eq k name)) [
  | inl e ↦ rw (e, e, on_section-Settles f g s x)
  | inr e ↦ rw (e, e, on_entry-Settles name f g s d)
]

on_addon-Settles :
    (name : String) (f g : Changing Config)
    → Settles f g
    → Settles (on_addon name f) (on_addon name g)
on_addon-Settles name f g s (plain n) = refl
on_addon-Settles name f g s (override d) = rw (on_entry-Settles name f g s d)

pub on_owner-Settles :
    (name : String) (f g : Changing Config)
    → Settles f g
    → Settles (on_owner name f) (on_owner name g)
on_owner-Settles name f g s (k, o) =
    rw (each-Settles (on_addon name f) (on_addon name g) (on_addon-Settles name f g s) o.addons)

pub section_configs-Settles :
    (name : String) (f g : Changing Config)
    → Settles f g
    → Settles (section_configs name f) (section_configs name g)
unfolding section_configs
section_configs-Settles name f g s d = rw (
  on_entry-Settles name f g s d.sections,
  each-Settles (on_owner name f) (on_owner name g) (on_owner-Settles name f g s) d.kclusters,
  each-Settles (on_owner name f) (on_owner name g) (on_owner-Settles name f g s) d.nodes,
)

on_section-then_also :
    (f g : Changing Config) (s : Section)
    → (on_section g (on_section f s).0).0 ≡ (on_section (then_also f g) s).0
on_section-then_also f g (other v) = refl
on_section-then_also f g (object c) = refl

on_entry-then_also :
    (name : String) (f g : Changing Config) (d : Dict Section)
    → (on_entry name g (on_entry name f d).0).0 ≡ (on_entry name (then_also f g) d).0
on_entry-then_also name f g [] = refl
on_entry-then_also name f g ((k, s) ∷ d) = elim (Bool-cases (str_eq k name)) [
  | inl e ↦ rw (e, e, on_section-then_also f g s)
  | inr e ↦ rw (e, e, on_entry-then_also name f g d)
]

on_addon-then_also :
    (name : String) (f g : Changing Config) (a : Addon)
    → (on_addon name g (on_addon name f a).0).0 ≡ (on_addon name (then_also f g) a).0
on_addon-then_also name f g (plain n) = refl
on_addon-then_also name f g (override d) = ap override (on_entry-then_also name f g d)

-- Two changes of each element, where their composition is a third one.
each-fused {ℓ} :
    {A : Type ℓ} (f g h : Changing A)
    → ((a : A) → (g (f a).0).0 ≡ (h a).0)
    → (list : List A) → (each g (each f list).0).0 ≡ (each h list).0
each-fused f g h e [] = refl
each-fused f g h e (a ∷ list) = rw (e a, each-fused f g h e list)

on_owner-then_also :
    (name : String) (f g : Changing Config) (o : String × Owner)
    → (on_owner name g (on_owner name f o).0).0 ≡ (on_owner name (then_also f g) o).0
on_owner-then_also name f g (k, o) =
    ap (λ list. (k, record { fields = o.fields; addons = list }))
      (each-fused (on_addon name f) (on_addon name g) (on_addon name (then_also f g))
        (on_addon-then_also name f g) o.addons)

section_configs-then_also :
    (name : String) (f g : Changing Config) (d : Definition)
    → (section_configs name g (section_configs name f d).0).0
      ≡ (section_configs name (then_also f g) d).0
unfolding section_configs
section_configs-then_also name f g d =
    let fused =
      each-fused (on_owner name f) (on_owner name g) (on_owner name (then_also f g))
        (on_owner-then_also name f g) in
    rw (on_entry-then_also name f g d.sections, fused d.kclusters, fused d.nodes)

-- Two walks, one after the other, where neither change finds anything once both are made.
pub walks-Settles :
    (name : String) (f g : Changing Config)
    → Settles f (then_also f g)
    → Settles g (then_also f g)
    → Settles
        (then_also (section_configs name f) (section_configs name g))
        (then_also (section_configs name f) (section_configs name g))
walks-Settles name f g sf sg d = rw (again f sf, again g sg)
  where
    after : Definition
    after = (then_also (section_configs name f) (section_configs name g) d).0

    again :
        (h : Changing Config)
        → Settles h (then_also f g)
        → section_configs name h (section_configs name g (section_configs name f d).0).0
          ≡ ((section_configs name g (section_configs name f d).0).0, [])
    again h s =
        rw (section_configs-then_also name f g d)
          (section_configs-Settles name h (then_also f g) s d)
