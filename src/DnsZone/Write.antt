-- ===== src/DnsZone/Write.antt =====
-- What writing the missing records does to a file.
use lab_in_a_box.Prelude.{
  mem_here, String, Bool, true, false, ◌||◌, List, [], ◌∷◌, ◌++◌, append_assoc, append-nil, map,
  any, mem, mem-later, str_eq, eq_iff, ◌≡◌, inl, inr, refl, sym, ap, ◌∙◌, arith, eqb_refl, code,
  Bool-cases,
}
use lab_in_a_box.Text.{contains, starts_with}
use lab_in_a_box.DnsZone.{Held, without, insert, sorted, add_line, write_records}
use lab_in_a_box.DnsZone.Step.{Among}

starts_with_refl : (s : String) → starts_with s s ≡ true
unfolding starts_with
starts_with_refl String.[] = refl
starts_with_refl (String.◌∷◌ c s) = rw (eqb_refl (code c)) (starts_with_refl s)

contains_refl : (s : String) → contains s s ≡ true
unfolding contains
contains_refl String.[] = starts_with_refl ""
contains_refl (String.◌∷◌ c s) = rw (starts_with_refl (String.◌∷◌ c s)) refl

any-append : (f : String → Bool) (xs ys : List String) → any f (xs ++ ys) ≡ (any f xs || any f ys)
any-append f [] ys = refl
any-append f (x ∷ xs) ys = ground (arith, any-append f xs ys)

any_last :
    (f : String → Bool) (xs : List String) (y : String) → f y ≡ true → any f (xs ++ y ∷ []) ≡ true
any_last f xs y e = ground (arith, any-append f xs (y ∷ []), e)

any_kept : (f : String → Bool) (xs ys : List String) → any f xs ≡ true → any f (xs ++ ys) ≡ true
any_kept f xs ys e = rw (any-append f xs ys, e) refl

add_line-held :
    (server r : String) (lines : List String) → any (contains r) (add_line server r lines) ≡ true
add_line-held server r lines = elim (Bool-cases (str_eq server "")) [
  | inl p ↦ rw (p) (any_last (contains r) lines r (contains_refl r))
  | inr p ↦ elim (Bool-cases (any (contains r) lines)) [
    | inl q ↦ rw (p, q) q
    | inr q ↦ rw (p, q) (any_last (contains r) lines r (contains_refl r))
  ]
]

add_line-append :
    (server r : String) (lines : List String)
    → (extra : List String) × (add_line server r lines ≡ lines ++ extra)
add_line-append server r lines = elim (Bool-cases (str_eq server "")) [
  | inl p ↦ (r ∷ [], rw (p) refl)
  | inr p ↦ elim (Bool-cases (any (contains r) lines)) [
    | inl q ↦ ([], rw (p, q) (sym (append-nil lines)))
    | inr q ↦ (r ∷ [], rw (p, q) refl)
  ]
]

pub write_records-append :
    (server : String) (rs lines : List String)
    → (extra : List String) × (write_records server rs lines ≡ lines ++ extra)
unfolding write_records
write_records-append server [] lines = ([], sym (append-nil lines))
write_records-append server (r ∷ rs) lines =
    let (first, e) = add_line-append server r lines in
    let (later, f) = write_records-append server rs (add_line server r lines) in
    (first ++ later, f ∙ ap (λ l. l ++ later) e ∙ append_assoc lines first later)

pub write_records-held :
    (server r : String) (rs lines : List String)
    → mem r rs ≡ true
    → any (contains r) (write_records server rs lines) ≡ true
unfolding write_records
write_records-held server r [] lines m = cc
write_records-held server r (x ∷ rs) lines m = elim (Bool-cases (str_eq x r)) [
  | inl p ↦
      let (extra, e) = write_records-append server rs (add_line server x lines) in
      ap (any (contains r)) e
      ∙ any_kept (contains r) (add_line server x lines) extra (
          ap (λ z. any (contains r) (add_line server z lines)) ((eq_iff x r).0 p)
          ∙ add_line-held server r lines)
  | inr p ↦ write_records-held server r rs (add_line server x lines) (rw (p) at m)
]

mem-insert : (r x : String) (xs : List String) → mem r (insert x xs) ≡ (str_eq x r || mem r xs)
mem-insert r x [] = refl
mem-insert r x (y ∷ ys) = ground (arith, mem-insert r x ys)

pub mem-sorted : (r : String) (xs : List String) → mem r (sorted xs) ≡ mem r xs
mem-sorted r [] = refl
mem-sorted r (x ∷ xs) = mem-insert r x (sorted xs) ∙ ap (λ b. str_eq x r || b) (mem-sorted r xs)

pub mem-without :
    (r : String) (xs ys : List String)
    → mem r xs ≡ true
    → mem r ys ≡ false
    → mem r (without xs ys) ≡ true
mem-without r [] ys m n = m
mem-without r (x ∷ xs) ys m n = elim (Bool-cases (str_eq x r)) [
  | inl p ↦
      rw (ap (λ z. mem z ys) ((eq_iff x r).0 p) ∙ n)
        (ap (λ z. mem r (z ∷ without xs ys)) ((eq_iff x r).0 p) ∙ mem_here r (without xs ys))
  | inr p ↦ elim (Bool-cases (mem x ys)) [
    | inl i ↦ rw (i) (mem-without r xs ys (rw (p) at m) n)
    | inr i ↦ rw (i) (mem-later r x (without xs ys) (mem-without r xs ys (rw (p) at m) n))
  ]
]

pub Among-map :
    (f : String × List String → String × List String) (x : String × List String) (held : Held)
    → Among x held
    → Among (f x) (map f held)
Among-map f x [] among = absurd among
Among-map f x (h ∷ held) (inl e) = inl (ap f e)
Among-map f x (h ∷ held) (inr later) = inr (Among-map f x held later)
