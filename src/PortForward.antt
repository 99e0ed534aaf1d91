-- ===== src/PortForward.antt =====
-- libs/portforward.py: the two iptables chains that forward ports to machines behind a hypervisor.
-- iptables is a parameter: a state of its own, and what a command does to it and whether it succeeds.
pub mod Apply
use Prim.Native.String
use lab_in_a_box.Prelude.{
  ℕ, code, String, Bool, true, false, not, ◌&&◌, ◌||◌, Option, none, some, List, [], ◌∷◌, ◌++◌,
  Dict, leb, str_eq, if◌then◌else◌,
}
use lab_in_a_box.Result.{Result, ok, raise, died, ◌>>=◌}
use lab_in_a_box.Text.{
  ◌<>◌, lstrip, rstrip, is_digit, all_chars, text_length, split_on, parse_nat, show,
}

-- External port, internal port, and protocol: "tcp" or "udp".
abbrev pub Port : Type 0
Port = ℕ × ℕ × String

-- The protocol in small letters, if it is one.
abbrev protocol : String → Option String
protocol (String.◌∷◌ a (String.◌∷◌ b (String.◌∷◌ c String.[]))) =
    let is_letter = λ (x y z : ℕ). (lab_in_a_box.Prelude.eqb x y || lab_in_a_box.Prelude.eqb x z) in
    if is_letter (code a) 84 116 && (is_letter (code b) 67 99 && is_letter (code c) 80 112)
    then some "tcp"
    else if is_letter (code a) 85 117 && (is_letter (code b) 68 100 && is_letter (code c) 80 112)
    then some "udp"
    else none
protocol _ = none

-- \d{1,5}
abbrev port_digits : String → Option ℕ
port_digits s = if leb (text_length s) 5 && all_chars is_digit s then parse_nat s else none

abbrev three_parts : Option ℕ → Option ℕ → Option String → Option Port
three_parts (some external) (some internal) (some proto) = some (external, internal, proto)
three_parts _ _ _ = none

abbrev behind_colon : Option ℕ → List String → Option Port
behind_colon external (internal ∷ proto ∷ []) =
    three_parts external (port_digits internal) (protocol proto)
behind_colon external _ = none

abbrev spec_parts : List String → Option Port
spec_parts (external ∷ rest ∷ []) = behind_colon (port_digits external) (split_on 47 rest)
spec_parts _ = none

abbrev or_die : Option Port → Result Port
or_die none = raise (died "invalid forwarded-port entry")
or_die (some p) = ok p

unfoldable pub parse_port_spec : String → Result Port
parse_port_spec spec = or_die (spec_parts (split_on 58 (rstrip (lstrip spec))))

-- LAB_PORTFWD in PREROUTING of the nat table, and LAB_PORTFWD_FWD in FORWARD of the filter table
pub data Chain : Type 0 where
  dnat fwd : Chain

pub data Rule : Type 0 where
  to_destination : (proto : String) (external : ℕ) (target : String) (internal : ℕ) → Rule
  accept : (proto target : String) (internal : ℕ) → Rule

pub data Command : Type 0 where
  list_chain new_chain check_hook insert_hook flush : Chain → Command
  append : Rule → Command

abbrev table_of : Chain → String
table_of dnat = "nat"
table_of fwd = "filter"

abbrev chain_name : Chain → String
chain_name dnat = "LAB_PORTFWD"
chain_name fwd = "LAB_PORTFWD_FWD"

abbrev hook_name : Chain → String
hook_name dnat = "PREROUTING"
hook_name fwd = "FORWARD"

-- What stands behind "iptables" on the command line.
unfoldable pub arguments : Command → List String
unfolding show
arguments (list_chain c) = "-t" ∷ table_of c ∷ "-L" ∷ chain_name c ∷ []
arguments (new_chain c) = "-t" ∷ table_of c ∷ "-N" ∷ chain_name c ∷ []
arguments (check_hook c) = "-t" ∷ table_of c ∷ "-C" ∷ hook_name c ∷ "-j" ∷ chain_name c ∷ []
arguments (insert_hook c) = "-t" ∷ table_of c ∷ "-I" ∷ hook_name c ∷ "-j" ∷ chain_name c ∷ []
arguments (flush c) = "-t" ∷ table_of c ∷ "-F" ∷ chain_name c ∷ []
arguments (append (to_destination proto external target internal)) =
    "-t"
    ∷ "nat"
    ∷ "-A"
    ∷ chain_name dnat
    ∷ "-p"
    ∷ proto
    ∷ "--dport"
    ∷ show external
    ∷ "-j"
    ∷ "DNAT"
    ∷ "--to-destination"
    ∷ (target <> ":" <> show internal)
    ∷ []
arguments (append (accept proto target internal)) =
    "-A"
    ∷ chain_name fwd
    ∷ "-p"
    ∷ proto
    ∷ "-d"
    ∷ target
    ∷ "--dport"
    ∷ show internal
    ∷ "-j"
    ∷ "ACCEPT"
    ∷ []

abbrev pub port_rules : String → Port → List Rule
port_rules target (external, internal, proto) =
    to_destination proto external target internal ∷ accept proto target internal ∷ []

-- The two rules of each port.
abbrev pub spec_rules : String → List String → Result (List Rule)
spec_rules target [] = ok []
spec_rules target (spec ∷ specs) = do
  port ← parse_port_spec spec
  rest ← spec_rules target specs
  ok (port_rules target port ++ rest)

unfoldable pub build_dnat_rules : Dict (List String) → Result (List Rule)
unfolding parse_port_spec
build_dnat_rules [] = ok []
build_dnat_rules ((target, specs) ∷ port_map) = do
  first ← spec_rules target specs
  rest ← build_dnat_rules port_map
  ok (first ++ rest)

-- run(args).returncode == 0, and the state it leaves
abbrev pub Iptables {ℓ} : Type ℓ → Type ℓ
Iptables S = Command → S → Bool × S

module _ {S : Type 0} (run : Iptables S) where
  abbrev pub Act : Type 0
  Act = S → Result (Unit {0}) × S

  abbrev pub after : Result (Unit {0}) × S → Act → Result (Unit {0}) × S
  after (ok u, s) next = next s
  after (raise e, s) next = (raise e, s)

  abbrev succeed : Bool × S → Result (Unit {0}) × S
  succeed (true, s) = (ok tt, s)
  succeed (false, s) = (raise (died "iptables failed"), s)

  -- A command that has to succeed.
  abbrev pub must : Command → Act
  must c s = succeed (run c s)

  -- The second command where the first one fails.
  abbrev pub unless_done : Bool × S → Command → Result (Unit {0}) × S
  unless_done (true, s) c = (ok tt, s)
  unless_done (false, s) c = must c s

  -- _ensure_chain
  unfoldable pub ensure_chain : Chain → Act
  ensure_chain c s =
      after (unless_done (run (list_chain c) s) (new_chain c))
        (λ t. unless_done (run (check_hook c) t) (insert_hook c))

  abbrev pub append_all : List Rule → Act
  append_all [] s = (ok tt, s)
  append_all (r ∷ rs) s = after (must (append r) s) (append_all rs)

  abbrev append_built : Result (List Rule) → Act
  append_built (raise e) s = (raise e, s)
  append_built (ok rules) s = append_all rules s

  unfoldable pub apply_forwarded_ports : Dict (List String) → Act
  unfolding ensure_chain build_dnat_rules
  apply_forwarded_ports port_map s = after (ensure_chain dnat s) λ s₁.
      after (ensure_chain fwd s₁) λ s₂.
        after (must (flush dnat) s₂)
          λ s₃. after (must (flush fwd) s₃) (append_built (build_dnat_rules port_map))
