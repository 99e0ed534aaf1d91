-- ===== src/Versions/Prefix.antt =====
-- What it means that a version is a release of a declared one.
use mathlib.Core.Bool.{false≢true}
use text.Mathlib.TextEquality.{Char-path}
use text.Mathlib.TextLemmas.{cons-ne-nil, head-eq_of_cons-eq, tail-eq_of_cons-eq}
use lab_in_a_box.Prelude.{
  ℕ, Char, code, String, Bool, true, false, ◌&&◌, ◌||◌, List, [], ◌∷◌, ◌≡◌, refl, sym, ◌∙◌, inl,
  inr, eqb, str_eq, eq_refl, eq_iff, eqb_refl, Bool-cases, arith,
}
use lab_in_a_box.Text.{◌<>◌, starts_with, span_on, split_on}
use lab_in_a_box.Text.Words.{cons-ne-empty}
use lab_in_a_box.Versions.{normalize, is_release, matches}

-- The one list begins with the other.
abbrev pub begins : List String → List String → Bool
begins [] ws = true
begins (v ∷ vs) [] = false
begins (v ∷ vs) (w ∷ ws) = str_eq w v && begins vs ws

abbrev parts_begin : String × List String → String × List String → Bool
parts_begin d v = str_eq v.0 d.0 && begins d.1 v.1

eqb-eq : (a b : ℕ) → eqb a b ≡ true → a ≡ b
eqb-eq a b e = ground arith

str_eq-cons :
    (c x : Char) (s d : String)
    → str_eq (String.◌∷◌ c s) (String.◌∷◌ x d) ≡ (eqb (code c) (code x) && str_eq s d)
str_eq-cons c x s d = elim (Bool-cases (eqb (code c) (code x))) [
  | inl e ↦ rw (e, Char-path c x (eqb-eq _ _ e)) (same_head x)
  | inr e ↦ rw e (not_equal (str_eq (String.◌∷◌ c s) (String.◌∷◌ x d)) refl e)
]
  where
    by_tail :
        (y : Char) (a b : Bool)
        → str_eq s d ≡ a
        → str_eq (String.◌∷◌ y s) (String.◌∷◌ y d) ≡ b
        → b ≡ a
    by_tail y true true p q = refl
    by_tail y false false p q = refl
    by_tail y true false p q =
        absurd (false≢true (sym q ∙ rw ((eq_iff s d).0 p) (eq_refl (String.◌∷◌ y d))))
    by_tail y false true p q =
        absurd (false≢true (sym p ∙ (eq_iff s d).1 (tail-eq_of_cons-eq ((eq_iff _ _).0 q))))

    same_head : (y : Char) → str_eq (String.◌∷◌ y s) (String.◌∷◌ y d) ≡ str_eq s d
    same_head y = by_tail y (str_eq s d) (str_eq (String.◌∷◌ y s) (String.◌∷◌ y d)) refl refl

    not_equal :
        (b : Bool)
        → str_eq (String.◌∷◌ c s) (String.◌∷◌ x d) ≡ b
        → eqb (code c) (code x) ≡ false
        → b ≡ false
    not_equal false p e = refl
    not_equal true p e =
        absurd (false≢true (sym e ∙ rw (head-eq_of_cons-eq ((eq_iff _ _).0 p)) (eqb_refl (code x))))

nil-ne-cons : (c : Char) (s : String) → str_eq "" (String.◌∷◌ c s) ≡ false
nil-ne-cons c s = elim (Bool-cases (str_eq "" (String.◌∷◌ c s))) [
  | inl e ↦ absurd (cons-ne-nil c s (sym ((eq_iff "" (String.◌∷◌ c s)).0 e)))
  | inr e ↦ e
]

equal_codes : (x c n : ℕ) → eqb x n ≡ true → eqb c n ≡ true → eqb c x ≡ true
equal_codes x c n h k = ground arith

other_codes : (x c n : ℕ) → eqb x n ≡ true → eqb c n ≡ false → eqb c x ≡ false
other_codes x c n h k = ground arith

other_codes_too : (x c n : ℕ) → eqb x n ≡ false → eqb c n ≡ true → eqb c x ≡ false
other_codes_too x c n h k = ground arith

share : (k a b p q : Bool) → (a || b) ≡ (p && q) → (k && a || k && b) ≡ ((k && p) && q)
share true a b p q e = e
share false a b p q e = refl

-- Whether a text is the declared one or goes on behind it with a dot, by the parts between the dots.
release-parts : (d v : String) → is_release d v ≡ parts_begin (span_on 46 d) (span_on 46 v)
unfolding starts_with span_on
release-parts String.[] String.[] = refl
release-parts String.[] (String.◌∷◌ c s) = elim (Bool-cases (eqb (code c) 46)) [
  | inl e ↦ rw (cons-ne-empty, e)
  | inr e ↦ rw (cons-ne-empty, e) (sym (rw cons-ne-empty))
]
release-parts (String.◌∷◌ x d) String.[] = elim (Bool-cases (eqb (code x) 46)) [
  | inl e ↦ rw (nil-ne-cons, e)
  | inr e ↦ rw (nil-ne-cons, e) (sym (rw nil-ne-cons))
]
release-parts (String.◌∷◌ x d) (String.◌∷◌ c s) = elim (Bool-cases (eqb (code x) 46)) [
  | inl e ↦ elim (Bool-cases (eqb (code c) 46)) [
    | inl f ↦ rw (str_eq-cons, equal_codes (code x) (code c) 46 e f, e, f) (release-parts d s)
    | inr f ↦ rw (str_eq-cons, other_codes (code x) (code c) 46 e f, e, f) (sym (rw cons-ne-empty))
  ]
  | inr e ↦ elim (Bool-cases (eqb (code c) 46)) [
    | inl f ↦
        rw (str_eq-cons, other_codes_too (code x) (code c) 46 e f, e, f) (sym (rw nil-ne-cons))
    | inr f ↦
        rw (str_eq-cons, e, f)
          (share (eqb (code c) (code x)) (str_eq s d) (starts_with s (d <> "."))
              (str_eq (span_on 46 s).0 (span_on 46 d).0) _ (release-parts d s)
            ∙ sym (rw str_eq-cons))
  ]
]

-- A version field names a release of a declared version that is not empty exactly when its parts between
-- the dots begin with those of the declared version, both without flag and "v".
pub matches-parts :
    (declared value : String)
    → str_eq (normalize declared) "" ≡ false
    → matches declared value
      ≡ begins (split_on 46 (normalize declared)) (split_on 46 (normalize value))
unfolding matches split_on
matches-parts declared value h = rw h (release-parts (normalize declared) (normalize value))
