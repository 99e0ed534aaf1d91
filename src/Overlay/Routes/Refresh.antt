-- ===== src/Overlay/Routes/Refresh.antt =====
-- What refreshing the routes of the nodes counts, and what it writes on a node.
use lab_in_a_box.Prelude.{
  ℕ, ◌+◌, String, Bool, true, false, not, List, [], ◌∷◌, ◌≡◌, refl, ap, ◌∙◌, inl, inr, length, keep,
  Dict, Bool-cases, arith,
}
use lab_in_a_box.Result.{ok}
use lab_in_a_box.Remote.{
  Command, probe, write, remove_routes, routes_script, routes_unit, routes_service_enable, File,
  World, Env, ssh_test, ssh_run, ssh_try,
}
use lab_in_a_box.Overlay.Routes.{
  remote_cidrs, refresh_node, refresh_loop, ensure_route_via_site_gateway,
}

abbrev pub is_probe : Command → Bool
is_probe probe = true
is_probe _ = false

-- A host may fail to answer the probe; every other command succeeds.
abbrev pub Steady : Env → Type 0
Steady env =
    (past : List (String × Command)) (h : String) (c : Command)
    → is_probe c ≡ false
    → env.succeeds past h c ≡ true

-- Whether a host answers the probe does not depend on what ran before.
abbrev pub Answers : (String → Bool) → Env → Type 0
Answers answers env =
    (past : List (String × Command)) (h : String) → env.succeeds past h probe ≡ answers h

abbrev pub Nodes : Type 0
Nodes = List (String × String × String)

-- The number of the nodes whose host passes a test.
abbrev pub number_of : (String → Bool) → Nodes → ℕ
number_of test nodes = length (keep (λ n. test n.1) nodes)

pair_path : {r r' u u' : ℕ} → r ≡ r' → u ≡ u' → ◌≡◌ {A = ℕ × ℕ} (r, u) (r', u')
pair_path p q = λ i. (p i, q i)

module _ (env : Env) (steady : Steady env) (answers : String → Bool)
    (told : Answers answers env) where
  run_ok :
      (h : String) (f : File) (ls : List String) (w : World)
      → (ssh_run env h (write f ls) w).0 ≡ ok tt
  unfolding ssh_run ssh_test
  run_ok h f ls w = rw (steady w.issued h (write f ls) refl)

  enable_ok : (h : String) (w : World) → (ssh_run env h routes_service_enable w).0 ≡ ok tt
  unfolding ssh_run ssh_test
  enable_ok h w = rw (steady w.issued h routes_service_enable refl)

  drop_ok : (h : String) (w : World) → (ssh_try env h remove_routes w).0 ≡ ok tt
  unfolding ssh_try ssh_test
  drop_ok h w = rw (steady w.issued h remove_routes refl)

  refresh_node_ok :
      (node gateway : String) (cidrs : List String) (w : World)
      → (refresh_node env node gateway cidrs w).0 ≡ ok tt
  unfolding ensure_route_via_site_gateway
  refresh_node_ok node gateway [] w = drop_ok node w
  refresh_node_ok node gateway (cidr ∷ cidrs) w =
      rw (run_ok node routes_script _ w, run_ok node routes_unit) (enable_ok node _)

  probe_ok : (h : String) (w : World) → (ssh_test env h probe w).0 ≡ ok (answers h)
  unfolding ssh_test
  probe_ok h w = elim (Bool-cases (answers h)) [
    | inl e ↦ rw (told w.issued h, e) refl
    | inr e ↦ rw (told w.issued h, e) refl
  ]

  -- Where a host may fail to answer the probe, always or never, and no other command fails: refreshing ends
  -- without an error, has counted every node whose host answers as refreshed, and every other node as
  -- unreachable.
  pub refresh_loop_counts :
      (sites : Dict String) (nodes : Nodes) (r u : ℕ) (w : World)
      → (refresh_loop env sites nodes (r, u) w).0
        ≡ ok (r + number_of answers nodes, u + number_of (λ h. not (answers h)) nodes)
  unfolding refresh_loop
  refresh_loop_counts sites [] r u w = ap ok (pair_path (omega arith) (omega arith))
  refresh_loop_counts sites ((site, node, gateway) ∷ nodes) r u w =
      let w' = (ssh_test env node probe w).1 in
      let cidrs = remote_cidrs site sites in
      rw (probe_ok node w) (elim (Bool-cases (answers node)) [
        | inr e ↦ rw (e) (
            refresh_loop_counts sites nodes r (u + 1) w'
            ∙ ap ok (pair_path (omega arith) (omega arith)))
        | inl e ↦
            rw (e, refresh_node_ok node gateway cidrs w')
              (refresh_loop_counts sites nodes (r + 1) u (refresh_node env node gateway cidrs w').1
                ∙ ap ok (pair_path (omega arith) (omega arith)))
      ])
