-- ===== src/Samples/Ports.antt =====
-- An iptables of its own, which holds the rules of the two chains, and two ports of a machine.
use lab_in_a_box.Prelude.{String, Bool, true, false, ◌||◌, List, [], ◌∷◌, Dict, if◌then◌else◌}
use lab_in_a_box.PortForward.{Chain, dnat, Rule, to_destination, accept, Iptables}
use lab_in_a_box.PortForward.Apply.{same_chain, allowed, creates, hooks, rules_after}

record Tables : Type 0 where
  there : Chain → Bool
  jumps : Chain → Bool
  held : Chain → List Rule

abbrev tables : Iptables Tables
tables c s =
    if allowed c s.there s.jumps
    then (
      true,
      record {
        there = λ k. creates c k || s.there k;
        jumps = λ k. hooks c k || s.jumps k;
        held = λ k. rules_after c k (s.held k);
      },
    )
    else (false, s)

abbrev rules : Tables → Chain → List Rule
rules s = s.held

abbrev ports : Dict (List String)
ports = ("10.0.0.5", "8080:80/TCP" ∷ " 53:53/udp" ∷ []) ∷ []

abbrev built : List Rule
built =
    to_destination "tcp" 8080 "10.0.0.5" 80
    ∷ accept "tcp" "10.0.0.5" 80
    ∷ to_destination "udp" 53 "10.0.0.5" 53
    ∷ accept "udp" "10.0.0.5" 53
    ∷ []

-- One chain is there, with a rule and without its hook; the other one is not.
abbrev old_tables : Tables
old_tables = record {
  there = λ k. same_chain dnat k;
  jumps = λ k. false;
  held = λ k. if same_chain dnat k then to_destination "tcp" 22 "10.0.0.9" 22 ∷ [] else [];
}
