-- ===== src/Kubernetes/Nodes/Members.antt =====
-- The node that answers for a cluster, and what a node's override leaves of an add-on's configuration.
use mathlib.Core.Path.{subst}
use lab_in_a_box.Prelude.{
  String, Bool, true, false, ◌&&◌, [], ◌∷◌, keep, All, Dict, if◌then◌else◌, ◌≡◌, ◌∙◌, ◌⊎◌, inl, inr,
  refl, sym, ap, Bool-cases,
}
use lab_in_a_box.Migrations.{Value, Owner, Definition}
use lab_in_a_box.Kubernetes.{clu_section}
use lab_in_a_box.Kubernetes.Nodes.{
  in_cluster, is_server, first_name, server_or, stripped, kcluster_node,
}

-- Among the nodes there is one of the name for which the test holds.
abbrev pub HasNode : (String × Owner → Bool) → String → Dict Owner → Type 0
HasNode test name [] = ⊥
HasNode test name (node ∷ nodes) = ((node.0 ≡ name) × (test node ≡ true)) ⊎ HasNode test name nodes

-- No node passes the test.
abbrev pub NoNode : (String × Owner → Bool) → Dict Owner → Type 0
NoNode test nodes = All (λ node. test node ≡ false) nodes

abbrev pub both : (String × Owner → Bool) → (String × Owner → Bool) → String × Owner → Bool
both f g node = f node && g node

server_or-next :
    (default : String) (node : String × Owner) (members : Dict Owner)
    → is_server node ≡ false
    → server_or default (node ∷ members) ≡ server_or default members
server_or-next default node members s = ap (λ b. if b then node.0 else server_or default members) s

keep-next :
    (test : String × Owner → Bool) (node : String × Owner) (nodes : Dict Owner)
    → test node ≡ false
    → keep test (node ∷ nodes) ≡ keep test nodes
keep-next test node nodes t = ap (λ b. if b then node ∷ keep test nodes else keep test nodes) t

keep-here :
    (test : String × Owner → Bool) (node : String × Owner) (nodes : Dict Owner)
    → test node ≡ true
    → keep test (node ∷ nodes) ≡ node ∷ keep test nodes
keep-here test node nodes t = ap (λ b. if b then node ∷ keep test nodes else keep test nodes) t

server_or-cases :
    (default : String) (members : Dict Owner)
    → HasNode is_server (server_or default members) members
      ⊎ (NoNode is_server members × (server_or default members ≡ default))
server_or-cases default [] = inr (tt, refl)
server_or-cases default (node ∷ members) = elim (Bool-cases (is_server node)) [
  | inl s ↦ inl (inl (sym (ap (λ b. if b then node.0 else server_or default members) s), s))
  | inr s ↦ elim (server_or-cases default members) [
    | inl h ↦ inl (
        inr (
          subst (λ n. HasNode is_server n members) (sym (server_or-next default node members s)) h))
    | inr (lacks, e) ↦ inr ((s, lacks), server_or-next default node members s ∙ e)
  ]
]

HasNode-keep :
    (f g : String × Owner → Bool) (name : String) (nodes : Dict Owner)
    → HasNode f name (keep g nodes)
    → HasNode (both g f) name nodes
HasNode-keep f g name [] h = h
HasNode-keep f g name (node ∷ nodes) h = elim (Bool-cases (g node)) [
  | inl t ↦ elim (subst (λ l. HasNode f name l) (keep-here g node nodes t) h) [
    | inl (e, s) ↦ inl (e, rw (t) s)
    | inr later ↦ inr (HasNode-keep f g name nodes later)
  ]
  | inr t ↦
      inr (HasNode-keep f g name nodes (subst (λ l. HasNode f name l) (keep-next g node nodes t) h))
]

NoNode-keep :
    (f g : String × Owner → Bool) (nodes : Dict Owner)
    → NoNode f (keep g nodes)
    → NoNode (both g f) nodes
NoNode-keep f g [] h = tt
NoNode-keep f g (node ∷ nodes) h = elim (Bool-cases (g node)) [
  | inl t ↦
      let k : NoNode f (node ∷ keep g nodes) =
        subst (λ l. NoNode f l) (keep-here g node nodes t) h in
      (rw (t) k.0, NoNode-keep f g nodes k.1)
  | inr t ↦
      (rw (t) refl, NoNode-keep f g nodes (subst (λ l. NoNode f l) (keep-next g node nodes t) h))
]

first_name-cases :
    (test : String × Owner → Bool) (nodes : Dict Owner)
    → HasNode test (first_name (keep test nodes)) nodes
      ⊎ (NoNode test nodes × (first_name (keep test nodes) ≡ ""))
first_name-cases test [] = inr (tt, refl)
first_name-cases test (node ∷ nodes) = elim (Bool-cases (test node)) [
  | inl t ↦ inl (inl (sym (ap first_name (keep-here test node nodes t)), t))
  | inr t ↦ elim (first_name-cases test nodes) [
    | inl h ↦
        inl (
          inr
            (subst (λ l. HasNode test (first_name l) nodes) (sym (keep-next test node nodes t)) h))
    | inr (lacks, e) ↦ inr ((t, lacks), ap first_name (keep-next test node nodes t) ∙ e)
  ]
]

module _ (str_of : Value → String) where
  -- A cluster whose mgm_node is missing or blank is answered for by a server among its nodes; or it has no
  -- server and is answered for by one of its nodes; or it has no node, and the answer is "".
  pub kcluster_node-cases :
      (d : Definition) (clu : String)
      → stripped str_of "mgm_node" (clu_section d clu).fields ≡ ""
      → HasNode (both (in_cluster clu) is_server) (kcluster_node str_of d clu) d.nodes
        ⊎ ((NoNode (both (in_cluster clu) is_server) d.nodes
              × HasNode (in_cluster clu) (kcluster_node str_of d clu) d.nodes)
            ⊎ (NoNode (in_cluster clu) d.nodes × (kcluster_node str_of d clu ≡ "")))
  unfolding kcluster_node
  kcluster_node-cases d clu blank =
      rw (blank) (of_members (server_or-cases _ (keep (in_cluster clu) d.nodes)))
    where
      answer : String
      answer =
          server_or (first_name (keep (in_cluster clu) d.nodes)) (keep (in_cluster clu) d.nodes)

      of_members :
          HasNode is_server answer (keep (in_cluster clu) d.nodes)
            ⊎ (NoNode is_server (keep (in_cluster clu) d.nodes)
                × (answer ≡ first_name (keep (in_cluster clu) d.nodes)))
          → HasNode (both (in_cluster clu) is_server) answer d.nodes
            ⊎ ((NoNode (both (in_cluster clu) is_server) d.nodes
                  × HasNode (in_cluster clu) answer d.nodes)
                ⊎ (NoNode (in_cluster clu) d.nodes × (answer ≡ "")))
      of_members (inl h) = inl (HasNode-keep is_server (in_cluster clu) answer d.nodes h)
      of_members (inr (lacks, e)) = elim (first_name-cases (in_cluster clu) d.nodes) [
        | inl h ↦ inr (inl (NoNode-keep is_server (in_cluster clu) d.nodes lacks, rw (e) h))
        | inr (none_there, z) ↦ inr (inr (none_there, e ∙ z))
      ]
