-- ===== src/Samples/Overlay.antt =====
-- Sites, nodes, DNS servers and peers of a hub.
use lab_in_a_box.Prelude.{not, ◌&&◌, [], ◌∷◌, ◌++◌, ◌≡◌, refl, str_eq, if◌then◌else◌, keep}
use lab_in_a_box.Result.{ok}
use lab_in_a_box.Text.{◌<>◌, join}
use lab_in_a_box.Remote.{
  site_registry, node_registry, dns_registry, wg_conf, World, Env, drop_block,
}
use lab_in_a_box.Remote.Up.{lines}
use lab_in_a_box.Overlay.Registry.{register_site}
use lab_in_a_box.Overlay.Registry.Sites.{sites, sites-register_site}
use lab_in_a_box.Overlay.Peers.{add_peer_to_hub, peer_block, marker}
use lab_in_a_box.Overlay.Peers.Blocks.{has_peer, add_peer_to_hub_conf, drop_block-peer_block}
use lab_in_a_box.Overlay.Routes.{refresh_loop}
use lab_in_a_box.Overlay.Routes.Refresh.{is_probe, Steady, refresh_loop_counts}
use lab_in_a_box.Samples.Alloc.{answering, answering-Up, holding}

abbrev two_sites : World
two_sites = holding site_registry ("paris 10.1.0.0/16" ∷ "rome 10.2.0.0/16" ∷ [])

sites-register_site_example :
    ((register_site answering "hub" "paris" "10.3.0.0/16" two_sites).0 ≡ ok tt)
    × (sites (register_site answering "hub" "paris" "10.3.0.0/16" two_sites).1 "hub"
        ≡ keep (λ s. not (str_eq s.0 "paris")) (sites two_sites "hub")
          ++ ("paris", "10.3.0.0/16") ∷ [])
unfolding lab_in_a_box.Text.is_space
sites-register_site_example =
    sites-register_site answering answering-Up "hub" two_sites "paris" "10.3.0.0/16" refl refl

abbrev two_nodes : World
two_nodes = holding node_registry ("paris node-1 10.1.0.1" ∷ "rome node-2 10.2.0.1" ∷ [])

abbrev two_servers : World
two_servers = holding dns_registry ("paris 10.1.0.53 lab.example" ∷ "rome 10.2.0.53" ∷ [])

abbrev with_paris : World
with_paris = holding wg_conf ("[Interface]" ∷ peer_block "paris" "key-1" "10.1.0.0/16")

add_peer_to_hub_conf_example :
    ((add_peer_to_hub answering "hub" "rome" "key-2" ("10.2.0.0/16" ∷ []) with_paris).0 ≡ ok tt)
    × (lines
          (add_peer_to_hub answering "hub" "rome" "key-2" ("10.2.0.0/16" ∷ []) with_paris).1
          "hub"
          wg_conf
        ≡ (if has_peer with_paris "hub" "rome"
            then lines with_paris "hub" wg_conf
            else lines with_paris "hub" wg_conf
              ++ peer_block "rome" "key-2" (join "," ("10.2.0.0/16" ∷ []))))
add_peer_to_hub_conf_example =
    add_peer_to_hub_conf answering answering-Up "hub" "rome" "key-2" ("10.2.0.0/16" ∷ []) with_paris

drop_block-peer_block_example :
    drop_block (marker "paris") (
      ("[Interface]" ∷ "" ∷ [])
      ++ (peer_block "paris" "key-1" "10.1.0.0/16"
          ++ (peer_block "rome" "key-2" "10.2.0.0/16" ++ [])))
    ≡ ("[Interface]" ∷ "" ∷ []) ++ (peer_block "rome" "key-2" "10.2.0.0/16" ++ [])
drop_block-peer_block_example =
    drop_block-peer_block "paris" "key-1" "10.1.0.0/16" "rome" "key-2" "10.2.0.0/16"
      ("[Interface]" ∷ "" ∷ []) [] refl

-- Every host answers but node-2.
abbrev without_node_2 : Env
without_node_2 = record {
  succeeds = λ past h c. not (is_probe c && str_eq h "node-2");
  genkey = λ past h. "key";
  pubkey_of = λ k. k;
}

without_node_2-Steady : Steady without_node_2
without_node_2-Steady past h c e = rw e

refresh_loop_counts_example :
    (refresh_loop without_node_2
      (("paris", "10.1.0.0/16") ∷ ("rome", "10.2.0.0/16") ∷ [])
      (("paris", "node-1", "10.1.0.1")
        ∷ ("rome", "node-2", "10.2.0.1")
        ∷ ("paris", "node-3", "10.1.0.1")
        ∷ [])
      (0, 0)
      two_nodes).0
    ≡ ok (2, 1)
refresh_loop_counts_example =
    refresh_loop_counts without_node_2 without_node_2-Steady (λ h. not (str_eq h "node-2"))
      (λ past h. refl) (("paris", "10.1.0.0/16") ∷ ("rome", "10.2.0.0/16") ∷ [])
      (("paris", "node-1", "10.1.0.1")
        ∷ ("rome", "node-2", "10.2.0.1")
        ∷ ("paris", "node-3", "10.1.0.1")
        ∷ [])
      0 0 two_nodes
