-- ===== src/Overlay/Registry/Sites.antt =====
-- The registry of sites is a table from site names to subnets.
use lab_in_a_box.Prelude.{
  String, Bool, true, not, Option, none, some, List, [], ◌∷◌, ◌++◌, ◌≡◌, refl, ap, sym, ◌∙◌, keep,
  arith, str_eq, eq_refl, eq_iff, get, Dict, keep-append, keep-keep, append-nil, ◌≢◌,
}
use lab_in_a_box.Result.{ok}
use lab_in_a_box.Text.{◌<>◌, words}
use lab_in_a_box.Text.Words.{is_word, words_two}
use lab_in_a_box.Text.Lines.{rows, rows-strip_text}
use lab_in_a_box.Remote.{site_registry, World, Env}
use lab_in_a_box.Remote.Up.{Up, lines, after_read, read_registry-eq, ssh_run-write}
use lab_in_a_box.Overlay.Registry.{
  first_is, filter_map, site_row, is_excluded, register_site, list_other_sites,
}
use lab_in_a_box.Overlay.Registry.Rows.{rewritten, entries-rewritten, Agree-words}

-- The entries of the registry, in the order of its lines.
abbrev pub sites : World → String → List (String × String)
sites w hub = filter_map (site_row none) (rows (lines w hub site_registry))

abbrev is_other : String → String × String → Bool
is_other name s = not (str_eq s.0 name)

module _ (env : Env) (up : Up env) (hub : String) (w : World) where
  -- While every host answers: the listing is the registry's entries without those of the excluded site.
  pub list_other_sites_lem :
      (exclude : Option String)
      → (list_other_sites env hub exclude w).0
        ≡ ok (keep (λ s. not (is_excluded exclude s.0)) (sites w hub))
  unfolding list_other_sites
  list_other_sites_lem exclude =
      rw (read_registry-eq env up w hub site_registry, rows-strip_text)
        (ap ok (excluded exclude (rows (lines w hub site_registry))))
    where
      excluded :
          (x : Option String) (rs : List (List String))
          → filter_map (site_row x) rs
            ≡ keep (λ s. not (is_excluded x s.0)) (filter_map (site_row none) rs)
      excluded x [] = refl
      excluded x ((n ∷ c ∷ []) ∷ rs) = ground (arith, excluded x rs)
      excluded x ([] ∷ rs) = excluded x rs
      excluded x ((n ∷ []) ∷ rs) = excluded x rs
      excluded x ((n ∷ c ∷ d ∷ ds) ∷ rs) = excluded x rs

  register_site-eq :
      (site cidr : String)
      → register_site env hub site cidr w ≡ (
        ok tt,
        rewritten hub site_registry (λ l. not (first_is site (words l))) (site <> " " <> cidr) w,
      )
  unfolding register_site
  register_site-eq site cidr = rw (
    read_registry-eq env up w hub site_registry,
    ssh_run-write env up (after_read hub site_registry w) hub site_registry,
  )

  -- While every host answers: registering a site replaces its entries by the one that is given, and
  -- keeps those of the other sites in their order.
  pub sites-register_site :
      (site cidr : String)
      → is_word site ≡ true
      → is_word cidr ≡ true
      → ((register_site env hub site cidr w).0 ≡ ok tt)
        × (sites (register_site env hub site cidr w).1 hub
            ≡ keep (is_other site) (sites w hub) ++ (site, cidr) ∷ [])
  sites-register_site site cidr hs hc = rw (register_site-eq site cidr) (
    refl,
    entries-rewritten (site_row none) hub site_registry (λ l. not (first_is site (words l)))
        (λ r. not (first_is site r)) (site <> " " <> cidr) w (is_other site) ((site, cidr) ∷ [])
        (Agree-words (λ r. not (first_is site r))) by_name new_entry,
  )
    where
      by_name :
          (r : List String) (a : String × String)
          → site_row none r ≡ some a
          → not (first_is site r) ≡ is_other site a
      by_name (n ∷ c ∷ []) a e = ground arith
      by_name _ a e = cc

      new_entry : filter_map (site_row none) (rows ((site <> " " <> cidr) ∷ [])) ≡ (site, cidr) ∷ []
      new_entry = unfold rows in rw (words_two site cidr hs hc)

pub get-entries :
    (k : String) (c : String) (d : Dict String)
    → get k (keep (is_other k) d ++ (k, c) ∷ []) ≡ some c
get-entries k c [] = rw eq_refl
get-entries k c ((j, x) ∷ d) = ground (arith, eq_iff j k, get-entries k c d)

get-entries_ne :
    (k j : String) (c : String) (d : Dict String)
    → k ≢ j
    → get j (keep (is_other k) d ++ (k, c) ∷ []) ≡ get j d
get-entries_ne k j c [] h = ground (arith, eq_iff k j)
get-entries_ne k j c ((i, x) ∷ d) h =
    ground (arith, eq_iff i k, eq_iff i j, eq_iff k j, get-entries_ne k j c d)

keep-entries :
    (k c : String) (d : Dict String)
    → keep (is_other k) (keep (is_other k) d ++ (k, c) ∷ []) ≡ keep (is_other k) d
keep-entries k c d =
    keep-append (is_other k) (keep (is_other k) d) ((k, c) ∷ [])
    ∙ cc (keep-keep (is_other k) d, gone k c, append-nil (keep (is_other k) d))
  where
    gone : (n : String) (x : String) → keep (is_other n) ((n, x) ∷ []) ≡ []
    gone n x = rw eq_refl

module _ (env : Env) (up : Up env) (hub : String) (w : World) (site cidr : String) where
  abbrev registered : World
  registered = (register_site env hub site cidr w).1

  -- While every host answers, and the two texts are words: the site is then listed with its subnet,
  -- and every other name as before.
  pub get-register_site :
      (other : String)
      → is_word site ≡ true
      → is_word cidr ≡ true
      → site ≢ other
      → (get site (sites registered hub) ≡ some cidr)
        × (get other (sites registered hub) ≡ get other (sites w hub))
  get-register_site other hs hc ne =
      rw ((sites-register_site env up hub w site cidr hs hc).1)
        (get-entries site cidr (sites w hub), get-entries_ne site other cidr (sites w hub) ne)

  -- While every host answers, and the two texts are words: registering a site again changes nothing
  -- that is listed.
  pub register_site_twice :
      is_word site ≡ true
      → is_word cidr ≡ true
      → sites (register_site env hub site cidr registered).1 hub ≡ sites registered hub
  register_site_twice hs hc =
      (sites-register_site env up hub registered site cidr hs hc).1
      ∙ ap (λ d. keep (is_other site) d ++ (site, cidr) ∷ []) first
      ∙ ap (λ d. d ++ (site, cidr) ∷ []) (keep-entries site cidr (sites w hub))
      ∙ sym first
    where
      first : sites registered hub ≡ keep (is_other site) (sites w hub) ++ (site, cidr) ∷ []
      first = (sites-register_site env up hub w site cidr hs hc).1
