-- ===== src/Overlay/Peers/Blocks.antt =====
-- What adding and removing a peer does to the hub's configuration.
use lab_in_a_box.Prelude.{
  String, Bool, true, false, ◌||◌, Option, List, [], ◌∷◌, ◌++◌, ◌≡◌, refl, ap, sym, ◌∙◌, inl, inr,
  any, Bool-cases, arith, if◌then◌else◌, str_eq, eq_refl, eq_iff,
}
use text.Mathlib.TextLemmas.{cons-ne-nil}
use lab_in_a_box.Result.{ok}
use lab_in_a_box.Text.{◌<>◌, join}
use lab_in_a_box.Text.Words.{cons-ne-empty}
use lab_in_a_box.Remote.{
  File, lines_of, append, has_line, wg_conf, route_replace, World, Env, drop_block, after_blank,
}
use lab_in_a_box.Remote.Up.{
  Up, lines, noted, lines-set_self, ssh_run-append, ssh_test-has_line, ssh_run-wg_set_peer,
  ssh_run-route_replace,
}
use lab_in_a_box.Overlay.Peers.{marker, peer_block, replace_routes, add_peer_to_hub}

abbrev pub has_peer : World → String → String → Bool
has_peer w hub peer = any (λ l. str_eq l (marker peer)) (lines w hub wg_conf)

module _ (env : Env) (up : Up env) (hub : String) where
  replace_routes-files :
      (cidrs : List String) (w : World)
      → ((replace_routes env hub cidrs w).0 ≡ ok tt)
        × ((replace_routes env hub cidrs w).1.files ≡ w.files)
  unfolding replace_routes
  replace_routes-files [] w = (refl, refl)
  replace_routes-files (cidr ∷ cidrs) w =
      rw (ssh_run-route_replace env up w hub cidr)
        (replace_routes-files cidrs (noted hub (route_replace cidr) w))

  routed :
      (cidrs : List String) (w : World) (ls : List String)
      → lines w hub wg_conf ≡ ls
      → ((replace_routes env hub cidrs w).0 ≡ ok tt)
        × (lines (replace_routes env hub cidrs w).1 hub wg_conf ≡ ls)
  routed cidrs w ls e =
      let done = replace_routes-files cidrs w in
      (
        done.0,
        ap (λ (fs : String → File → Option (List String)). lines_of (fs hub wg_conf)) done.1 ∙ e,
      )

  -- While every host answers: a peer that the configuration names is left there as it is, whatever key
  -- and subnets come with it, and one that it does not name is written behind the rest.
  pub add_peer_to_hub_conf :
      (peer key : String) (cidrs : List String) (w : World)
      → ((add_peer_to_hub env hub peer key cidrs w).0 ≡ ok tt)
        × (lines (add_peer_to_hub env hub peer key cidrs w).1 hub wg_conf ≡ (
            if has_peer w hub peer
            then lines w hub wg_conf
            else lines w hub wg_conf ++ peer_block peer key (join "," cidrs)))
  unfolding add_peer_to_hub
  add_peer_to_hub_conf peer key cidrs w =
      let block = peer_block peer key (join "," cidrs) in
      elim (Bool-cases (has_peer w hub peer)) [
        | inl e ↦
            rw (ssh_test-has_line env up w hub wg_conf (marker peer), e, ssh_run-wg_set_peer env up)
              (routed cidrs _ (lines w hub wg_conf) refl)
        | inr e ↦
            rw
              (
                ssh_test-has_line env up w hub wg_conf (marker peer),
                e,
                ssh_run-append env up,
                ssh_run-wg_set_peer env up,
              )
              (routed cidrs _ _ (
                lines-set_self
                  (noted hub (append wg_conf block) (noted hub (has_line wg_conf (marker peer)) w))
                  hub wg_conf (lines w hub wg_conf ++ block)))
      ]

or_false_left : (a b : Bool) → (a || b) ≡ false → a ≡ false
or_false_left a b h = ground arith

or_false_right : (a b : Bool) → (a || b) ≡ false → b ≡ false
or_false_right a b h = ground arith

any-append :
    (test : String → Bool) (ls ks : List String)
    → any test (ls ++ ks) ≡ (any test ls || any test ks)
any-append test [] ks = refl
any-append test (l ∷ ls) ks = ground (arith, any-append test ls ks)

or_true : (b : Bool) → (b || true) ≡ true
or_true true = refl
or_true false = refl

has_block :
    (peer key allowed : String) (ls : List String)
    → any (λ l. str_eq l (marker peer)) (ls ++ peer_block peer key allowed) ≡ true
has_block peer key allowed ls = rw (
  any-append (λ l. str_eq l (marker peer)) ls (peer_block peer key allowed),
  eq_refl (marker peer),
  or_true (str_eq "" (marker peer)),
  or_true,
)

module _ (env : Env) (up : Up env) (hub : String) where
  -- While every host answers: adding a peer once more, with whatever key and subnets, leaves the
  -- configuration as the first time wrote it.
  pub add_peer_to_hub_twice :
      (peer key key' : String) (cidrs cidrs' : List String) (w : World)
      → lines
          (add_peer_to_hub env hub peer key' cidrs' (add_peer_to_hub env hub peer key cidrs w).1).1
          hub
          wg_conf
        ≡ lines (add_peer_to_hub env hub peer key cidrs w).1 hub wg_conf
  add_peer_to_hub_twice peer key key' cidrs cidrs' w =
      (add_peer_to_hub_conf env up hub peer key' cidrs'
        (add_peer_to_hub env hub peer key cidrs w).1).1
      ∙ rw known
    where
      w' : World
      w' = (add_peer_to_hub env hub peer key cidrs w).1

      named : has_peer w hub peer ≡ true → has_peer w' hub peer ≡ true
      named e = rw (rw e at ((add_peer_to_hub_conf env up hub peer key cidrs w).1)) e

      known : has_peer w' hub peer ≡ true
      known = elim (Bool-cases (has_peer w hub peer)) [
        | inl e ↦ named e
        | inr e ↦
            rw (rw e at ((add_peer_to_hub_conf env up hub peer key cidrs w).1))
              (has_block peer key (join "," cidrs) (lines w hub wg_conf))
      ]

after_block :
    (key allowed : String) (rest : List String)
    → after_blank
        (("[Peer]" ∷ ("PublicKey = " <> key) ∷ ("AllowedIPs = " <> allowed) ∷ []) ++ "" ∷ rest)
      ≡ rest
after_block key allowed rest = rw (cons-ne-empty, cons-ne-empty)

-- In a configuration that does not name the peer yet, followed by the peer's block and that of another
-- peer, sed removes the peer's block, after the empty line that stands before it, and nothing else.
pub drop_block-peer_block :
    (peer key allowed other key' allowed' : String) (conf more : List String)
    → any (λ l. str_eq l (marker peer)) conf ≡ false
    → drop_block
        (marker peer)
        (conf ++ (peer_block peer key allowed ++ (peer_block other key' allowed' ++ more)))
      ≡ conf ++ (peer_block other key' allowed' ++ more)
unfolding drop_block
drop_block-peer_block peer key allowed other key' allowed' [] more h =
    rw (empty_ne, eq_refl (marker peer))
      (ap (λ l. "" ∷ l)
        (after_block key allowed (
          marker other
          ∷ "[Peer]"
          ∷ ("PublicKey = " <> key')
          ∷ ("AllowedIPs = " <> allowed')
          ∷ more)))
  where
    empty_ne : str_eq "" (marker peer) ≡ false
    empty_ne = elim (Bool-cases (str_eq "" (marker peer))) [
      | inl e ↦ absurd (cons-ne-nil _ _ (sym ((eq_iff "" (marker peer)).0 e)))
      | inr e ↦ e
    ]
drop_block-peer_block peer key allowed other key' allowed' (l ∷ conf) more h =
    rw (or_false_left (str_eq l (marker peer)) _ h) (
      ap (λ ls. l ∷ ls)
        (drop_block-peer_block peer key allowed other key' allowed' conf more
          (or_false_right (str_eq l (marker peer)) _ h)))
