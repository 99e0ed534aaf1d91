-- ===== src/DnsZone/Step.antt =====
-- What comparing and synchronising servers show and do.
use lab_in_a_box.Prelude.{
  some, String, true, ◌||◌, List, [], ◌∷◌, map, mem, All, str_eq, eq_iff, ◌≡◌, ◌≢◌, ◌⊎◌, inl, inr,
  refl, sym, ap, ◌∙◌, arith, Bool-cases,
}
use lab_in_a_box.DnsZone.{
  records, Held, Row, union, union_with, add_record, without, compare_row, compare_zone,
}

pub mem-add_record :
    (r x : String) (out : List String) → mem r (add_record (some x) out) ≡ (str_eq x r || mem r out)
mem-add_record r x out = elim (Bool-cases (mem x out)) [
  | inl i ↦ rw (i) (elim (Bool-cases (str_eq x r)) [
    | inl p ↦ rw (p) (ap (λ z. mem z out) (sym ((eq_iff x r).0 p)) ∙ i)
    | inr p ↦ rw (p) refl
  ])
  | inr i ↦ rw (i) refl
]

-- No master is missing a record.
abbrev pub NoneMissing : List Row → Type 0
NoneMissing rows = All (λ row. row.1.0 ≡ []) rows

abbrev pub Among : String × List String → Held → Type 0
Among x [] = ⊥
Among x (h ∷ held) = (h ≡ x) ⊎ Among x held

mem-union_with-left :
    (r : String) (xs ys : List String) → mem r xs ≡ true → mem r (union_with xs ys) ≡ true
mem-union_with-left r [] ys m = cc
mem-union_with-left r (x ∷ xs) ys m =
    ground (arith, mem-add_record r x (union_with xs ys), mem-union_with-left r xs ys)

mem-union_with-right :
    (r : String) (xs ys : List String) → mem r ys ≡ true → mem r (union_with xs ys) ≡ true
mem-union_with-right r [] ys m = m
mem-union_with-right r (x ∷ xs) ys m =
    ground (arith, mem-add_record r x (union_with xs ys), mem-union_with-right r xs ys)

mem-union :
    (r : String) (x : String × List String) (held : Held)
    → Among x held
    → mem r (records x.1) ≡ true
    → mem r (union held) ≡ true
mem-union r x [] among m = absurd among
mem-union r x (h ∷ held) (inl e) m =
    mem-union_with-left r (records h.1) (union held) (ap (λ y. mem r (records y.1)) e ∙ m)
mem-union r x (h ∷ held) (inr later) m =
    mem-union_with-right r (records h.1) (union held) (mem-union r x held later m)

cons-ne-nil_list : (x : String) (xs : List String) → (x ∷ xs) ≢ []
cons-ne-nil_list x xs e = cc

without-nil :
    (r : String) (xs ys : List String) → without xs ys ≡ [] → mem r xs ≡ true → mem r ys ≡ true
without-nil r [] ys e m = cc
without-nil r (x ∷ xs) ys e m = elim (Bool-cases (mem x ys)) [
  | inl i ↦ elim (Bool-cases (str_eq x r)) [
    | inl p ↦ ap (λ z. mem z ys) (sym ((eq_iff x r).0 p)) ∙ i
    | inr p ↦ without-nil r xs ys (rw (i) at e) (rw (p) at m)
  ]
  | inr i ↦ absurd (cons-ne-nil_list x (without xs ys) (rw (i) at e))
]

rows_missing :
    (x : String × List String) (all held : Held)
    → Among x held
    → NoneMissing (map (compare_row all) held)
    → without (union all) (records x.1) ≡ []
rows_missing x all [] among none_missing = absurd among
rows_missing x all (h ∷ held) (inl e) none_missing =
    ap (λ y. without (union all) (records y.1)) (sym e) ∙ none_missing.0
rows_missing x all (h ∷ held) (inr later) none_missing =
    rows_missing x all held later none_missing.1

-- Where the comparison finds nothing missing on any server, every two servers have the same records.
pub compare_zone-agree :
    (held : Held) (x y : String × List String) (r : String)
    → NoneMissing (compare_zone held)
    → Among x held
    → Among y held
    → mem r (records x.1) ≡ true
    → mem r (records y.1) ≡ true
unfolding compare_zone
compare_zone-agree held x y r none_missing at_x at_y m =
    without-nil r (union held) (records y.1) (rows_missing y held held at_y none_missing)
      (mem-union r x held at_x m)
