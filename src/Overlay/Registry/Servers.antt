-- ===== src/Overlay/Registry/Servers.antt =====
-- The registry of DNS servers: which server serves a site, and the zone that it is a master of.
use lab_in_a_box.Prelude.{
  String, Bool, true, not, ◌&&◌, Option, none, some, List, [], ◌∷◌, ◌++◌, ◌≡◌, refl, ap, ◌⊎◌, inl,
  inr, keep, map, Bool-cases, arith, str_eq,
}
use lab_in_a_box.Result.{ok}
use lab_in_a_box.Text.{words, is_blank, join}
use lab_in_a_box.Text.Words.{is_word, word-ne-empty, words_two, words_three}
use lab_in_a_box.Text.Lines.{rows, rows-strip_text}
use lab_in_a_box.Remote.{dns_registry, World, Env}
use lab_in_a_box.Remote.Up.{Up, lines, after_read, read_registry-eq, ssh_run-write}
use lab_in_a_box.Overlay.Registry.{
  first_is, filter_map, dns_row, is_excluded, same_domain, non_empty, register_dns_server,
  list_dns_servers,
}
use lab_in_a_box.Overlay.Registry.Rows.{rewritten, entries-rewritten, Agree-not_blank}

abbrev pub Server : Type 0
Server = String × String × String

abbrev pub server_row : List String → Option Server
server_row (site ∷ ip ∷ []) = some (site, ip, "")
server_row (site ∷ ip ∷ domain ∷ _) = some (site, ip, domain)
server_row _ = none

-- The entries of the registry: site, address of the server, and the domain or "".
abbrev pub servers : World → String → List Server
servers w hub = filter_map server_row (rows (lines w hub dns_registry))

-- The server is of another site than the excluded one, and of no domain but `mydomain`.
abbrev pub serves : Option String → String → Server → Bool
serves exclude mydomain s = not (is_excluded exclude s.0) && same_domain s.2 mydomain

abbrev pub address : Server → String × String
address s = (s.0, s.1)

abbrev pub other_site : String → Server → Bool
other_site site s = not (str_eq s.0 site)

module _ (env : Env) (up : Up env) (hub : String) (w : World) where
  -- While every host answers: the servers that this lab's records belong on are those of the other
  -- sites that registered this lab's domain or none, or, where the lab has no domain, those of all other
  -- sites.
  pub list_dns_servers_lem :
      (exclude : Option String) (mydomain : String)
      → (list_dns_servers env hub exclude mydomain w).0
        ≡ ok (map address (keep (serves exclude mydomain) (servers w hub)))
  unfolding list_dns_servers
  list_dns_servers_lem exclude mydomain =
      rw (read_registry-eq env up w hub dns_registry, rows-strip_text)
        (ap ok (all_rows (rows (lines w hub dns_registry))))
    where
      all_rows :
          (rs : List (List String))
          → filter_map (dns_row exclude mydomain) rs
            ≡ map address (keep (serves exclude mydomain) (filter_map server_row rs))
      all_rows [] = refl
      all_rows ([] ∷ rs) = all_rows rs
      all_rows ((n ∷ []) ∷ rs) = all_rows rs
      all_rows ((n ∷ i ∷ []) ∷ rs) = elim (Bool-cases (is_excluded exclude n)) [
        | inl e ↦ rw e (all_rows rs)
        | inr e ↦ rw e (ap (λ l. (n, i) ∷ l) (all_rows rs))
      ]
      all_rows ((n ∷ i ∷ d ∷ ds) ∷ rs) = elim (Bool-cases (is_excluded exclude n)) [
        | inl e ↦ rw e (all_rows rs)
        | inr e ↦ elim (Bool-cases (same_domain d mydomain)) [
          | inl f ↦ rw (e, f) (ap (λ l. (n, i) ∷ l) (all_rows rs))
          | inr f ↦ rw (e, f) (all_rows rs)
        ]
      ]

  abbrev kept : String → String → Bool
  kept site l = not (first_is site (words l)) && not (is_blank l)

  register_dns_server-eq :
      (site ip mydomain : String)
      → register_dns_server env hub site ip mydomain w ≡ (
        ok tt,
        rewritten hub dns_registry (kept site) (join " " (non_empty (site ∷ ip ∷ mydomain ∷ []))) w,
      )
  unfolding register_dns_server
  register_dns_server-eq site ip mydomain = rw (
    read_registry-eq env up w hub dns_registry,
    ssh_run-write env up (after_read hub dns_registry w) hub dns_registry,
  )

  -- While every host answers, site and address are words, and the domain is a word or empty:
  -- registering a site's server replaces the entries of the site, and keeps the others in their order.
  pub servers-register_dns_server :
      (site ip mydomain : String)
      → is_word site ≡ true
      → is_word ip ≡ true
      → (mydomain ≡ "") ⊎ (is_word mydomain ≡ true)
      → ((register_dns_server env hub site ip mydomain w).0 ≡ ok tt)
        × (servers (register_dns_server env hub site ip mydomain w).1 hub
            ≡ keep (other_site site) (servers w hub) ++ (site, ip, mydomain) ∷ [])
  servers-register_dns_server site ip mydomain hs hi hd =
      rw (register_dns_server-eq site ip mydomain) (
        refl,
        entries-rewritten server_row hub dns_registry (kept site) (λ r. not (first_is site r))
            (join " " (non_empty (site ∷ ip ∷ mydomain ∷ []))) w (other_site site)
            ((site, ip, mydomain) ∷ []) (Agree-not_blank (λ r. not (first_is site r))) by_site
            (new_entry hd),
      )
    where
      by_site :
          (r : List String) (a : Server)
          → server_row r ≡ some a
          → not (first_is site r) ≡ other_site site a
      by_site (n ∷ i ∷ []) a e = ground arith
      by_site (n ∷ i ∷ d ∷ ds) a e = ground arith
      by_site _ a e = cc

      new_entry :
          (mydomain ≡ "") ⊎ (is_word mydomain ≡ true)
          → filter_map server_row (rows (join " " (non_empty (site ∷ ip ∷ mydomain ∷ [])) ∷ []))
            ≡ (site, ip, mydomain) ∷ []
      new_entry (inl e) =
          unfold rows join in
          rw (word-ne-empty site hs, word-ne-empty ip hi, e, words_two site ip hs hi)
      new_entry (inr e) =
          unfold rows join in
          rw (
            word-ne-empty site hs,
            word-ne-empty ip hi,
            word-ne-empty mydomain e,
            words_three site ip mydomain hs hi e,
          )
