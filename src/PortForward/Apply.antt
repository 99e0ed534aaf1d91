-- ===== src/PortForward/Apply.antt =====
-- What the two chains hold once the ports are applied.
use lab_in_a_box.Prelude.{Bool, true, false, not, ◌||◌, List, [], ◌∷◌, ◌++◌, ◌≡◌, if◌then◌else◌}
use lab_in_a_box.PortForward.{
  Chain, dnat, fwd, Rule, to_destination, accept, Command, list_chain, new_chain, check_hook,
  insert_hook, flush, append, Iptables,
}

abbrev pub same_chain : Chain → Chain → Bool
same_chain dnat dnat = true
same_chain fwd fwd = true
same_chain _ _ = false

abbrev pub chain_of : Rule → Chain
chain_of (to_destination _ _ _ _) = dnat
chain_of (accept _ _ _) = fwd

-- What a command asks of the chains that are there and of those that are hooked.
abbrev pub allowed : Command → (present hooked : Chain → Bool) → Bool
allowed (list_chain c) present hooked = present c
allowed (new_chain c) present hooked = not (present c)
allowed (check_hook c) present hooked = hooked c
allowed (insert_hook c) present hooked = present c
allowed (flush c) present hooked = present c
allowed (append r) present hooked = present (chain_of r)

abbrev pub creates : Command → Chain → Bool
creates (new_chain c) k = same_chain c k
creates _ k = false

abbrev pub hooks : Command → Chain → Bool
hooks (insert_hook c) k = same_chain c k
hooks _ k = false

-- The rules of a chain behind a command that succeeded.
abbrev pub rules_after : Command → Chain → List Rule → List Rule
rules_after (new_chain c) k rs = if same_chain c k then [] else rs
rules_after (flush c) k rs = if same_chain c k then [] else rs
rules_after (append r) k rs = if same_chain (chain_of r) k then rs ++ r ∷ [] else rs
rules_after _ k rs = rs

-- What iptables documents of the commands: of two chains, whether each is there, whether its hook jumps to
-- it, and its rules. -N fails on a chain that is there, and -L, -I, -F and -A on one that is not; -C asks
-- for the jump; a command that fails changes nothing.
pub record Documented {S : Type 0} (run : Iptables S) (present hooked : S → Chain → Bool)
    (rules : S → Chain → List Rule) : Type 0 where
  pub succeeds : (c : Command) (s : S) → (run c s).0 ≡ allowed c (present s) (hooked s)
  pub failed :
      (c : Command) (k : Chain) (s : S)
      → (run c s).0 ≡ false
      → (present (run c s).1 k ≡ present s k)
        × (hooked (run c s).1 k ≡ hooked s k)
        × (rules (run c s).1 k ≡ rules s k)
  pub done :
      (c : Command) (k : Chain) (s : S)
      → (run c s).0 ≡ true
      → (present (run c s).1 k ≡ (creates c k || present s k))
        × (hooked (run c s).1 k ≡ (hooks c k || hooked s k))
        × (rules (run c s).1 k ≡ rules_after c k (rules s k))

module _ {S : Type 0} (run : Iptables S) (present hooked : S → Chain → Bool)
    (rules : S → Chain → List Rule) (doc : Documented run present hooked rules) where
  abbrev IsThere : Chain → S → Type 0
  IsThere k s = (present s k ≡ true) × (hooked s k ≡ true)

  -- No chain and no hook is lost.
  abbrev Keeps : S → S → Type 0
  Keeps s t =
      (k : Chain)
      → (present s k ≡ true → present t k ≡ true) × (hooked s k ≡ true → hooked t k ≡ true)

  -- Both chains are there, with their hooks.
  abbrev Ready : S → Type 0
  Ready s = (k : Chain) → IsThere k s
