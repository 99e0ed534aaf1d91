-- ===== src/Overlay/Registry.antt =====
-- libs/overlay.py: the hub's registries of sites, nodes and DNS servers, one line for each entry.
pub mod Rows
pub mod Sites
pub mod Refine
pub mod Nodes
pub mod Servers
use lab_in_a_box.Prelude.{
  String, Bool, true, false, not, ◌&&◌, ◌||◌, Option, none, some, List, [], ◌∷◌, ◌++◌, keep, mem,
  if◌then◌else◌, str_eq,
}
use lab_in_a_box.Text.{◌<>◌, words, is_blank, join}
use lab_in_a_box.Text.Lines.{rows}
use lab_in_a_box.Remote.{
  site_registry, node_registry, dns_registry, write, Env, M, ◌>>=◌, ◌>>◌, pure, ssh_run,
  read_registry,
}

-- line.split()[:1] == [name]
abbrev pub first_is : String → List String → Bool
first_is name [] = false
first_is name (w ∷ ws) = str_eq w name

-- line.split()[1:2] == [name]
abbrev pub second_is : String → List String → Bool
second_is name (v ∷ w ∷ ws) = str_eq w name
second_is name _ = false

abbrev pub cons_some {ℓ} : {A : Type ℓ} → Option A → List A → List A
cons_some none rest = rest
cons_some (some a) rest = a ∷ rest

-- [f(row) for row in table if f gives something]
abbrev pub filter_map {ℓ} : {A : Type ℓ} → (List String → Option A) → List (List String) → List A
filter_map f [] = []
filter_map f (r ∷ rs) = cons_some (f r) (filter_map f rs)

abbrev pub is_excluded : Option String → String → Bool
is_excluded none name = false
is_excluded (some x) name = str_eq name x

abbrev pub site_row : Option String → List String → Option (String × String)
site_row exclude (name ∷ cidr ∷ []) = if is_excluded exclude name then none else some (name, cidr)
site_row exclude _ = none

abbrev pub is_wanted : Option String → String → Bool
is_wanted none name = true
is_wanted (some x) name = str_eq name x

abbrev pub node_row : Option String → List String → Option (String × String × String)
node_row site (name ∷ host ∷ gateway ∷ []) =
    if is_wanted site name then some (name, host, gateway) else none
node_row site _ = none

-- Whether a server that is registered for `domain` is one for `mydomain`; "" names no domain.
abbrev pub same_domain : String → String → Bool
same_domain domain mydomain = str_eq domain "" || str_eq mydomain "" || str_eq domain mydomain

abbrev pub dns_row : Option String → String → List String → Option (String × String)
dns_row exclude mydomain (site ∷ ip ∷ []) =
    if is_excluded exclude site then none else some (site, ip)
dns_row exclude mydomain (site ∷ ip ∷ domain ∷ _) =
    if is_excluded exclude site
    then none
    else if same_domain domain mydomain
    then some (site, ip)
    else none
dns_row exclude mydomain _ = none

-- [part for part in (site_name, dns_ip, mydomain) if part]
abbrev non_empty : List String → List String
non_empty = keep (λ s. not (str_eq s ""))

module _ (env : Env) where
  -- _register_site
  unfoldable pub register_site : String → String → String → M (Unit {0})
  register_site hub site cidr = do
    existing ← read_registry env hub site_registry
    let kept = keep (λ l. not (first_is site (words l))) existing
    ssh_run env hub (write site_registry (kept ++ (site <> " " <> cidr) ∷ []))

  unfoldable pub list_other_sites : String → Option String → M (List (String × String))
  list_other_sites hub exclude = do
    raw ← read_registry env hub site_registry
    pure (filter_map (site_row exclude) (rows raw))

  unfoldable pub register_node : String → String → String → String → M (Unit {0})
  register_node hub site host gateway = do
    existing ← read_registry env hub node_registry
    let kept = keep (λ l. not (second_is host (words l)) && not (is_blank l)) existing
    ssh_run env hub (write node_registry (kept ++ (site <> " " <> host <> " " <> gateway) ∷ []))

  unfoldable pub list_nodes : String → Option String → M (List (String × String × String))
  list_nodes hub site = do
    raw ← read_registry env hub node_registry
    pure (filter_map (node_row site) (rows raw))

  unfoldable pub register_dns_server : String → String → String → String → M (Unit {0})
  unfolding join
  register_dns_server hub site ip mydomain = do
    existing ← read_registry env hub dns_registry
    let kept = keep (λ l. not (first_is site (words l)) && not (is_blank l)) existing
    let line = join " " (non_empty (site ∷ ip ∷ mydomain ∷ []))
    ssh_run env hub (write dns_registry (kept ++ line ∷ []))

  unfoldable pub list_dns_servers : String → Option String → String → M (List (String × String))
  list_dns_servers hub exclude mydomain = do
    raw ← read_registry env hub dns_registry
    pure (filter_map (dns_row exclude mydomain) (rows raw))

  -- The other masters of the zone; `own` are this node's addresses, ipalloc.local_ips().
  unfoldable pub dns_servers : List String → String → String → M (List (String × String))
  unfolding list_dns_servers
  dns_servers own hub mydomain = do
    found ← list_dns_servers hub none mydomain
    pure (keep (λ s. not (mem s.1 own)) found)
