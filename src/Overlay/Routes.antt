-- ===== src/Overlay/Routes.antt =====
-- libs/overlay.py: the routes that the nodes of a site hold toward the other sites, and taking a site out
-- of the overlay.
pub mod Refresh
use Prim.Native.String
use lab_in_a_box.Prelude.{
  ℕ, ◌+◌, Char, code, String, Bool, true, false, not, ◌&&◌, ◌||◌, Option, none, some, List, [], ◌∷◌,
  map, Dict, get, put, keep, eqb, str_eq, if◌then◌else◌,
}
use lab_in_a_box.Text.{◌<>◌, is_space}
use lab_in_a_box.Remote.{
  File, alloc, site_registry, node_registry, dns_registry, routes_script, routes_unit, write,
  delete_lines, remove_routes, probe, routes_service_enable, route_del, Env, M, ◌>>=◌, ◌>>◌, pure,
  ssh_test, ssh_run, ssh_try,
}
use lab_in_a_box.Overlay.Registry.{list_other_sites, list_nodes}
use lab_in_a_box.Overlay.Peers.{remove_peer_from_hub}

abbrev pub script_lines : String → List String → List String
script_lines gateway cidrs =
    "#!/bin/sh" ∷ map (λ cidr. "ip route replace " <> cidr <> " via " <> gateway) cidrs

abbrev unit_lines : List String
unit_lines =
    "[Unit]" ∷ "Description=lab-in-a-box overlay routes" ∷ "After=network-online.target"
    ∷ "Wants=network-online.target" ∷ "" ∷ "[Service]" ∷ "Type=oneshot"
    ∷ "ExecStart=/etc/lab-overlay-routes.sh" ∷ "RemainAfterExit=yes" ∷ "" ∷ "[Install]"
    ∷ "WantedBy=multi-user.target" ∷ []

-- dict(pairs)
abbrev pub dict_of : List (String × String) → Dict String → Dict String
dict_of [] d = d
dict_of ((k, v) ∷ ps) d = dict_of ps (put k v d)

-- The subnets of the other sites.
abbrev pub remote_cidrs : String → Dict String → List String
remote_cidrs site [] = []
remote_cidrs site ((name, cidr) ∷ sites) =
    let rest = remote_cidrs site sites in if str_eq name site then rest else cidr ∷ rest

-- sed's "^<pattern>": a dot of the pattern stands for any character.
abbrev pub begins_with_pattern : String → String → Bool
begins_with_pattern String.[] s = true
begins_with_pattern (String.◌∷◌ p ps) String.[] = false
begins_with_pattern (String.◌∷◌ p ps) (String.◌∷◌ c s) =
    (eqb (code p) 46 || eqb (code p) (code c)) && begins_with_pattern ps s

-- The text goes on with `host` and white space.
abbrev goes_on : String → String → Bool
goes_on String.[] String.[] = false
goes_on String.[] (String.◌∷◌ c s) = is_space c
goes_on (String.◌∷◌ h hs) String.[] = false
goes_on (String.◌∷◌ h hs) (String.◌∷◌ c s) = eqb (code h) (code c) && goes_on hs s

-- sed's "[[:space:]]<host>[[:space:]]"
abbrev pub holds_spaced : String → String → Bool
holds_spaced host String.[] = false
holds_spaced host (String.◌∷◌ c s) = (is_space c && goes_on host s) || holds_spaced host s

module _ (env : Env) where
  unfoldable pub ensure_route_via_site_gateway :
      (node gateway : String) → List String → M (Unit {0})
  ensure_route_via_site_gateway node gateway [] = pure tt
  ensure_route_via_site_gateway node gateway (cidr ∷ cidrs) = do
    ssh_run env node (write routes_script (script_lines gateway (cidr ∷ cidrs)))
    ssh_run env node (write routes_unit unit_lines)
    ssh_run env node routes_service_enable

  -- What a node that answers is given; with no other site left it keeps no overlay route.
  abbrev pub refresh_node : (node gateway : String) → List String → M (Unit {0})
  refresh_node node gateway [] = ssh_try env node remove_routes
  refresh_node node gateway (cidr ∷ cidrs) =
      ensure_route_via_site_gateway node gateway (cidr ∷ cidrs)

  abbrev pub Counts : Type 0
  Counts = ℕ × ℕ

  abbrev pub count_node : Bool → (node gateway : String) → List String → Counts → M Counts
  count_node false node gateway cidrs counts = pure (counts.0, counts.1 + 1)
  count_node true node gateway cidrs counts = do
    refresh_node node gateway cidrs
    pure (counts.0 + 1, counts.1)

  -- The loop of refresh_routes: the numbers of refreshed and of unreachable nodes.
  unfoldable pub refresh_loop : Dict String → List (String × String × String) → Counts → M Counts
  refresh_loop sites [] counts = pure counts
  refresh_loop sites ((site, node, gateway) ∷ nodes) counts = do
    answers ← ssh_test env node probe
    counts' ← count_node answers node gateway (remote_cidrs site sites) counts
    refresh_loop sites nodes counts'

  abbrev refresh_nodes : String → List (String × String × String) → M Counts
  refresh_nodes hub [] = pure (0, 0)
  refresh_nodes hub (n ∷ nodes) = do
    sites ← list_other_sites env hub none
    refresh_loop (dict_of sites []) (n ∷ nodes) (0, 0)

  unfoldable pub refresh_routes : String → Option String → M Counts
  refresh_routes hub only_site = do nodes ← list_nodes env hub only_site; refresh_nodes hub nodes

  unfoldable pub forget_node : (hub node : String) → M (Unit {0})
  forget_node hub node = ssh_try env hub (delete_lines (holds_spaced node) node_registry)

  -- for path, pattern in ...: sed -i "/^<site> /d"
  abbrev forget_site_in : (hub site : String) → File → M (Unit {0})
  forget_site_in hub site f = ssh_try env hub (delete_lines (begins_with_pattern (site <> " ")) f)

  abbrev retire_known : (hub site : String) → String → M String
  retire_known hub site cidr = do
    remove_peer_from_hub env hub site
    ssh_try env hub (route_del cidr)
    forget_site_in hub site site_registry
    forget_site_in hub site alloc
    forget_site_in hub site node_registry
    forget_site_in hub site dns_registry
    _ ← refresh_routes hub none
    pure cidr

  abbrev retire_found : (hub site : String) → Option String → M String
  retire_found hub site none = pure ""
  retire_found hub site (some cidr) = if str_eq cidr "" then pure "" else retire_known hub site cidr

  -- The subnet of the retired site, or "".
  unfoldable pub retire_site : (hub site : String) → M String
  unfolding refresh_routes
  retire_site hub site = do
    sites ← list_other_sites env hub none
    retire_found hub site (get site (dict_of sites []))
