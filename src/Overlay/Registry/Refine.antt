-- ===== src/Overlay/Registry/Refine.antt =====
-- The registry of sites as a table, over any sequence of registrations.
use lab_in_a_box.Prelude.{
  String, true, not, Option, none, some, List, [], ◌∷◌, ◌≡◌, refl, ap, ◌∙◌, keep, All, arith,
  str_eq, eq_refl, eq_iff, get, Dict, if◌then◌else◌, Bool-cases, inl, inr, text-ne,
}
use lab_in_a_box.Result.{ok}
use lab_in_a_box.Text.Words.{is_word}
use lab_in_a_box.Remote.{World, Env}
use lab_in_a_box.Remote.Up.{Up}
use lab_in_a_box.Overlay.Registry.{is_excluded, register_site, list_other_sites}
use lab_in_a_box.Overlay.Registry.Sites.{
  sites, list_other_sites_lem, sites-register_site, get-entries, get-register_site,
}

-- What a table of sites promises: the subnet of a name, or nothing.
abbrev pub Table : Type 0
Table = String → Option String

abbrev pub put_site : String × String → Table → Table
put_site s t name = if str_eq s.0 name then some s.1 else t name

abbrev pub put_sites : List (String × String) → Table → Table
put_sites [] t = t
put_sites (s ∷ ss) t = put_sites ss (put_site s t)

abbrev pub hide : Option String → Table → Table
hide exclude t name = if is_excluded exclude name then none else t name

-- The table that the hub's registry stands for.
abbrev pub table_of : World → String → Table
table_of w hub name = get name (sites w hub)

abbrev pub Words : String × String → Type 0
Words s = (is_word s.0 ≡ true) × (is_word s.1 ≡ true)

get-hidden :
    (exclude : Option String) (name : String) (d : Dict String)
    → get name (keep (λ s. not (is_excluded exclude s.0)) d)
      ≡ (if is_excluded exclude name then none else get name d)
get-hidden exclude name [] = ground arith
get-hidden none name ((k, v) ∷ d) = ground (arith, get-hidden none name d)
get-hidden (some x) name ((k, v) ∷ d) =
    ground (arith, eq_iff k name, eq_iff k x, eq_iff name x, get-hidden (some x) name d)

put_sites-eq :
    (ss : List (String × String)) (t u : Table)
    → ((n : String) → t n ≡ u n)
    → (n : String) → put_sites ss t n ≡ put_sites ss u n
put_sites-eq [] t u e n = e n
put_sites-eq (s ∷ ss) t u e n =
    put_sites-eq ss (put_site s t) (put_site s u)
      (λ k. ap (λ x. if str_eq s.0 k then some s.1 else x) (e k)) n

module _ (env : Env) (up : Up env) (hub : String) where
  -- One registration after the other.
  abbrev pub register_all : List (String × String) → World → World
  register_all [] w = w
  register_all (s ∷ ss) w = register_all ss (register_site env hub s.0 s.1 w).1

  table_of-register_site :
      (w : World) (s : String × String)
      → Words s
      → (n : String)
      → table_of (register_site env hub s.0 s.1 w).1 hub n ≡ put_site s (table_of w hub) n
  table_of-register_site w s (hs, hc) n = elim (Bool-cases (str_eq s.0 n)) [
    | inl p ↦
        ap (λ d. get n d) (sites-register_site env up hub w s.0 s.1 hs hc).1
        ∙ rw (← (eq_iff s.0 n).0 p, eq_refl s.0) (get-entries s.0 s.1 (sites w hub))
    | inr p ↦ rw (p) ((get-register_site env up hub w s.0 s.1 n hs hc (text-ne s.0 n p)).1)
  ]

  table_of-register_all :
      (ss : List (String × String)) (w : World)
      → All Words ss
      → (n : String) → table_of (register_all ss w) hub n ≡ put_sites ss (table_of w hub) n
  table_of-register_all [] w h n = refl
  table_of-register_all (s ∷ ss) w h n =
      table_of-register_all ss (register_site env hub s.0 s.1 w).1 h.1 n
      ∙ put_sites-eq ss _ _ (table_of-register_site w s h.0) n

  -- While every host answers, and the texts are words: after any sequence of registrations, the listing
  -- that leaves a site out is the table that the registry stood for before, in which each registration put
  -- its subnet under its name, without that site.
  pub list_other_sites-register_all :
      (ss : List (String × String)) (w : World) (exclude : Option String)
      → All Words ss
      → (d : Dict String) × ((list_other_sites env hub exclude (register_all ss w)).0 ≡ ok d)
        × ((n : String) → get n d ≡ hide exclude (put_sites ss (table_of w hub)) n)
  list_other_sites-register_all ss w exclude h = (
    keep (λ s. not (is_excluded exclude s.0)) (sites (register_all ss w) hub),
    list_other_sites_lem env up hub (register_all ss w) exclude,
    λ n.
        get-hidden exclude n (sites (register_all ss w) hub)
        ∙ ap (λ x. if is_excluded exclude n then none else x) (table_of-register_all ss w h n),
  )
