-- ===== src/Overlay/Gateway.antt =====
-- libs/overlay.py: setting up the hub, and joining the gateway of a site.
use lab_in_a_box.Prelude.{ℕ, String, Bool, true, false, ◌||◌, Option, some, [], ◌∷◌, map, str_eq}
use lab_in_a_box.Text.{◌<>◌, join}
use lab_in_a_box.Ip.{ip_text, parse_network, second_address}
use lab_in_a_box.Remote.{
  wg_conf, wg_pubkey, exists, write, ip_forward, ip_forward_persist, wg_up, wg_show, wg_reload, Env,
  M, ◌>>=◌, ◌>>◌, pure, unless, lift, ssh_test, ssh_run, ssh_output,
}
use lab_in_a_box.Overlay.Alloc.{allocate_overlay_ip}
use lab_in_a_box.Overlay.Registry.{register_site, list_other_sites}
use lab_in_a_box.Overlay.Peers.{
  render_hub_config, render_spoke_config, ensure_wg_installed, generate_wg_keypair, add_peer_to_hub,
}

module _ (env : Env) where
  -- The branch of a hub without a configuration.
  unfoldable pub initialize_hub : (hub hub_ip : String) → ℕ → String → M (Unit {0})
  initialize_hub hub hub_ip port cidr = do
    keys ← generate_wg_keypair env hub
    conf ← lift (render_hub_config keys.0 port hub_ip cidr)
    ssh_run env hub (write wg_conf conf)
    ssh_run env hub ip_forward
    ssh_run env hub ip_forward_persist
    ssh_run env hub wg_up

  -- The branch of a hub that is configured: wg0 is brought up if it is down.
  unfoldable pub wake_hub : String → M (Unit {0})
  wake_hub hub = do already_up ← ssh_test env hub wg_show; unless already_up (ssh_run env hub wg_up)

  abbrev start_hub : Bool → (hub hub_ip : String) → ℕ → String → M (Unit {0})
  start_hub true hub hub_ip port cidr = wake_hub hub
  start_hub false hub hub_ip port cidr = initialize_hub hub hub_ip port cidr

  -- if site_name and site_cidr: the hub's own site is registered
  abbrev register_own : String → Option String → Option String → M (Unit {0})
  register_own hub (some site) (some cidr) =
      unless (str_eq site "" || str_eq cidr "") (register_site env hub site cidr)
  register_own hub _ _ = pure tt

  -- The hub's overlay address and its public key.
  unfoldable pub ensure_overlay_hub_ready :
      (hub : String) → ℕ → (cidr : String) → (site site_cidr : Option String) → M (String × String)
  unfolding initialize_hub wake_hub join
  ensure_overlay_hub_ready hub port cidr site site_cidr = do
    ensure_wg_installed env hub
    net ← lift (parse_network true cidr)
    hub_ip ← lift (second_address net)
    conf_exists ← ssh_test env hub (exists wg_conf)
    start_hub conf_exists hub (ip_text hub_ip) port cidr
    pubkey ← ssh_output env hub wg_pubkey
    register_own hub site site_cidr
    pure (ip_text hub_ip, join "\n" pubkey)

  abbrev reload_or_start : String → Bool → M (Unit {0})
  reload_or_start gateway true = ssh_run env gateway wg_reload
  reload_or_start gateway false = ssh_run env gateway wg_up

  -- The gateway's overlay address.
  unfoldable pub ensure_overlay_site_gateway :
      (site gateway hub hub_key : String) → ℕ → (site_cidr cidr : String) → M String
  unfolding join
  ensure_overlay_site_gateway site gateway hub hub_key hub_port site_cidr cidr = do
    ensure_wg_installed env gateway
    keys ← generate_wg_keypair env gateway
    overlay_ip ← allocate_overlay_ip env hub site cidr
    register_site env hub site site_cidr
    other_sites ← list_other_sites env hub (some site)
    let allowed = join "," (cidr ∷ map (λ s. s.1) other_sites)
    conf ← lift (render_spoke_config keys.0 overlay_ip cidr allowed hub_key hub hub_port)
    ssh_run env gateway (write wg_conf conf)
    already_up ← ssh_test env gateway wg_show
    reload_or_start gateway already_up
    ssh_run env gateway ip_forward
    ssh_run env gateway ip_forward_persist
    add_peer_to_hub env hub site keys.1 ((overlay_ip <> "/32") ∷ site_cidr ∷ [])
    pure overlay_ip
