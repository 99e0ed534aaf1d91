-- ===== src/Migrations/Rules.antt =====
-- Removing keys by rules, made a second time.
use lab_in_a_box.Prelude.{
  String, Bool, true, false, none, List, [], ◌∷◌, ◌≡◌, refl, ap, ◌∙◌, inl, inr, get, del, get-del,
  str_eq, eq_refl, Bool-cases, if◌then◌else◌,
}
use lab_in_a_box.Migrations.{Config, Rule, is_hit, hits, drop_if, drop_by, then_also}
use lab_in_a_box.Migrations.Walk.{Settles}

drop_if-still : (r : Rule) (c : Config) → hits r c ≡ false → drop_if r c ≡ (c, [])
drop_if-still r c e = rw e

-- What a rule removes, no rule misses.
hits-del : (r : Rule) (k : String) (c : Config) → hits r c ≡ false → hits r (del k c) ≡ false
hits-del r k c e = ap (is_hit r.1) (get-del k r.0 c) ∙ still (str_eq k r.0)
  where
    still : (b : Bool) → is_hit r.1 (if b then none else get r.0 c) ≡ false
    still true = refl
    still false = e

drop_if-hits : (r : Rule) (c : Config) → hits r (drop_if r c).0 ≡ false
drop_if-hits r c = elim (Bool-cases (hits r c)) [
  | inl e ↦ rw e (ap (is_hit r.1) (get-del r.0 r.0 c) ∙ rw eq_refl)
  | inr e ↦ rw e e
]

hits-drop_if : (q r : Rule) (c : Config) → hits q c ≡ false → hits q (drop_if r c).0 ≡ false
hits-drop_if q r c h = elim (Bool-cases (hits r c)) [
  | inl e ↦ rw e (hits-del q r.0 c h)
  | inr e ↦ rw e h
]

hits-drop_by :
    (q : Rule) (rs : List Rule) (c : Config) → hits q c ≡ false → hits q (drop_by rs c).0 ≡ false
hits-drop_by q [] c h = h
hits-drop_by q (r ∷ rs) c h = hits-drop_by q rs (drop_if r c).0 (hits-drop_if q r c h)

abbrev pub Free : List Rule → Config → Type 0
Free [] c = Unit
Free (r ∷ rs) c = (hits r c ≡ false) × Free rs c

pub drop_by-Free : (rs : List Rule) (c : Config) → Free rs (drop_by rs c).0
drop_by-Free [] c = tt
drop_by-Free (r ∷ rs) c =
    (hits-drop_by r rs (drop_if r c).0 (drop_if-hits r c), drop_by-Free rs (drop_if r c).0)

drop_by-still : (rs : List Rule) (c : Config) → Free rs c → drop_by rs c ≡ (c, [])
drop_by-still [] c h = refl
drop_by-still (r ∷ rs) c h = rw (drop_if-still r c h.0, drop_by-still rs c h.1)

Free-drop_by : (qs rs : List Rule) (c : Config) → Free qs c → Free qs (drop_by rs c).0
Free-drop_by [] rs c h = tt
Free-drop_by (q ∷ qs) rs c h = (hits-drop_by q rs c h.0, Free-drop_by qs rs c h.1)

pub drop_by-Settles : (rs : List Rule) → Settles (drop_by rs) (drop_by rs)
drop_by-Settles rs c = drop_by-still rs (drop_by rs c).0 (drop_by-Free rs c)

-- What the first rules leave is still left when the second ones are applied.
pub drop_by-Settles_before :
    (qs rs : List Rule) → Settles (drop_by qs) (then_also (drop_by qs) (drop_by rs))
drop_by-Settles_before qs rs c =
    drop_by-still qs (drop_by rs (drop_by qs c).0).0 (Free-drop_by qs rs _ (drop_by-Free qs c))

pub drop_by-Settles_after :
    (qs rs : List Rule) → Settles (drop_by rs) (then_also (drop_by qs) (drop_by rs))
drop_by-Settles_after qs rs c = drop_by-Settles rs (drop_by qs c).0
