-- ===== src/Overlay/Peers.antt =====
-- libs/overlay.py: the keys of the gateways, the WireGuard configurations, and the hub's peers.
pub mod Blocks
use lab_in_a_box.Prelude.{ℕ, String, Bool, true, false, List, [], ◌∷◌}
use lab_in_a_box.Result.{Result, ok, ◌>>=◌}
use lab_in_a_box.Result
use lab_in_a_box.Text.{◌<>◌, join, show}
use lab_in_a_box.Ip.{parse_network}
use lab_in_a_box.Remote
use lab_in_a_box.Remote.{
  wg_privkey, wg_pubkey, wg_conf, exists, append, has_line, delete_block, generate_key,
  install_wireguard, wg_set_peer, route_replace, Env, M, ◌>>◌, pure, unless, ssh_test, ssh_run,
  ssh_try, ssh_output,
}

-- _render_hub_config
unfoldable pub render_hub_config : String → ℕ → String → String → Result (List String)
render_hub_config key port ip cidr = do
  net ← parse_network true cidr
  ok (
      "[Interface]"
      ∷ ("PrivateKey = " <> key)
      ∷ ("Address = " <> ip <> "/" <> show net.prefix)
      ∷ ("ListenPort = " <> show port)
      ∷ [])

-- _render_spoke_config
unfoldable pub render_spoke_config :
    (key ip cidr allowed hub_key hub : String) → ℕ → Result (List String)
render_spoke_config key ip cidr allowed hub_key hub port = do
  net ← parse_network true cidr
  ok (
      "[Interface]"
      ∷ ("PrivateKey = " <> key)
      ∷ ("Address = " <> ip <> "/" <> show net.prefix)
      ∷ ""
      ∷ "[Peer]"
      ∷ ("PublicKey = " <> hub_key)
      ∷ ("Endpoint = " <> hub <> ":" <> show port)
      ∷ ("AllowedIPs = " <> allowed)
      ∷ "PersistentKeepalive = 25"
      ∷ [])

abbrev pub marker : String → String
marker peer = "# peer: " <> peer

-- What is written behind the hub's configuration for a peer.
abbrev pub peer_block : String → String → String → List String
peer_block peer key allowed =
    "" ∷ marker peer ∷ "[Peer]" ∷ ("PublicKey = " <> key) ∷ ("AllowedIPs = " <> allowed) ∷ []

module _ (env : Env) where
  unfoldable pub ensure_wg_installed : String → M (Unit {0})
  ensure_wg_installed host = ssh_run env host install_wireguard

  -- generate_wg_keypair
  unfoldable pub generate_wg_keypair : String → M (String × String)
  unfolding join
  generate_wg_keypair host = Remote.◌>>=◌ (ssh_test env host (exists wg_privkey)) λ exists_already.
      unless exists_already (ssh_run env host generate_key)
      >> Remote.◌>>=◌ (ssh_output env host wg_privkey) λ privkey.
        Remote.◌>>=◌ (ssh_output env host wg_pubkey)
          λ pubkey. pure (join "\n" privkey, join "\n" pubkey)

  -- for cidr in allowed_cidrs: ip route replace
  unfoldable pub replace_routes : String → List String → M (Unit {0})
  replace_routes hub [] = pure tt
  replace_routes hub (cidr ∷ cidrs) =
      ssh_run env hub (route_replace cidr) >> replace_routes hub cidrs

  unfoldable pub add_peer_to_hub : (hub peer key : String) → List String → M (Unit {0})
  unfolding replace_routes join
  add_peer_to_hub hub peer key cidrs =
      let allowed = join "," cidrs in
      Remote.◌>>=◌ (ssh_test env hub (has_line wg_conf (marker peer))) λ already.
        unless already (ssh_run env hub (append wg_conf (peer_block peer key allowed)))
        >> (ssh_run env hub (wg_set_peer key allowed) >> replace_routes hub cidrs)

  unfoldable pub remove_peer_from_hub : (hub peer : String) → M (Unit {0})
  remove_peer_from_hub hub peer = ssh_try env hub (delete_block wg_conf (marker peer))
