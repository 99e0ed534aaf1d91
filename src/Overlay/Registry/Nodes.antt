-- ===== src/Overlay/Registry/Nodes.antt =====
-- The registry of nodes is a table from hosts to their sites and gateways.
use lab_in_a_box.Prelude.{
  String, Bool, true, not, ◌&&◌, Option, none, some, List, [], ◌∷◌, ◌++◌, ◌≡◌, refl, ap, keep,
  arith, str_eq,
}
use lab_in_a_box.Result.{ok}
use lab_in_a_box.Text.{◌<>◌, words, is_blank}
use lab_in_a_box.Text.Words.{is_word, words_three}
use lab_in_a_box.Text.Lines.{rows, rows-strip_text}
use lab_in_a_box.Remote.{node_registry, World, Env}
use lab_in_a_box.Remote.Up.{Up, lines, after_read, read_registry-eq, ssh_run-write}
use lab_in_a_box.Overlay.Registry.{
  second_is, filter_map, node_row, is_wanted, register_node, list_nodes,
}
use lab_in_a_box.Overlay.Registry.Rows.{rewritten, entries-rewritten, Agree-not_blank}

abbrev pub Node : Type 0
Node = String × String × String

-- The entries of the registry: site, host, address of the gateway.
abbrev pub nodes : World → String → List Node
nodes w hub = filter_map (node_row none) (rows (lines w hub node_registry))

abbrev pub other_host : String → Node → Bool
other_host host n = not (str_eq n.1 host)

module _ (env : Env) (up : Up env) (hub : String) (w : World) where
  -- While every host answers: the listing is the registry's entries, those of one site where it is given.
  pub list_nodes_lem :
      (site : Option String)
      → (list_nodes env hub site w).0 ≡ ok (keep (λ n. is_wanted site n.0) (nodes w hub))
  unfolding list_nodes
  list_nodes_lem site =
      rw (read_registry-eq env up w hub node_registry, rows-strip_text)
        (ap ok (wanted site (rows (lines w hub node_registry))))
    where
      wanted :
          (x : Option String) (rs : List (List String))
          → filter_map (node_row x) rs ≡ keep (λ n. is_wanted x n.0) (filter_map (node_row none) rs)
      wanted x [] = refl
      wanted x ((n ∷ h ∷ g ∷ []) ∷ rs) = ground (arith, wanted x rs)
      wanted x ([] ∷ rs) = wanted x rs
      wanted x ((n ∷ []) ∷ rs) = wanted x rs
      wanted x ((n ∷ h ∷ []) ∷ rs) = wanted x rs
      wanted x ((n ∷ h ∷ g ∷ d ∷ ds) ∷ rs) = wanted x rs

  abbrev kept : String → String → Bool
  kept host l = not (second_is host (words l)) && not (is_blank l)

  register_node-eq :
      (site host gateway : String)
      → register_node env hub site host gateway w
        ≡ (ok tt, rewritten hub node_registry (kept host) (site <> " " <> host <> " " <> gateway) w)
  unfolding register_node
  register_node-eq site host gateway = rw (
    read_registry-eq env up w hub node_registry,
    ssh_run-write env up (after_read hub node_registry w) hub node_registry,
  )

  -- While every host answers, and the three texts are words: registering a node replaces the entries of
  -- its host by the one that is given, whatever site they were of, and keeps the others in their order.
  pub nodes-register_node :
      (site host gateway : String)
      → is_word site ≡ true
      → is_word host ≡ true
      → is_word gateway ≡ true
      → ((register_node env hub site host gateway w).0 ≡ ok tt)
        × (nodes (register_node env hub site host gateway w).1 hub
            ≡ keep (other_host host) (nodes w hub) ++ (site, host, gateway) ∷ [])
  nodes-register_node site host gateway hs hh hg = rw (register_node-eq site host gateway) (
    refl,
    entries-rewritten (node_row none) hub node_registry (kept host) (λ r. not (second_is host r))
        (site <> " " <> host <> " " <> gateway) w (other_host host) ((site, host, gateway) ∷ [])
        (Agree-not_blank (λ r. not (second_is host r))) by_host new_entry,
  )
    where
      by_host :
          (r : List String) (a : Node)
          → node_row none r ≡ some a
          → not (second_is host r) ≡ other_host host a
      by_host (n ∷ h ∷ g ∷ []) a e = ground arith
      by_host _ a e = cc

      new_entry :
          filter_map (node_row none) (rows ((site <> " " <> host <> " " <> gateway) ∷ []))
          ≡ (site, host, gateway) ∷ []
      new_entry = unfold rows in rw (words_three site host gateway hs hh hg)
