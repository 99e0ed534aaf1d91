-- ===== src/IpAlloc.antt =====
-- libs/ipalloc.py: picking the address of a node whose definition gives none. The lab definition is
-- given by its parts that are read here; what the zone file, the resolver, the backend and the hosts on
-- the network say is given as values, and the digest of a text is a parameter.
pub mod Choice
use Prim.Native.String
use lab_in_a_box.Prelude.{
  ℕ, zero, suc, ◌+◌, ◌%◌, Char, code, String, Bool, true, false, not, ◌&&◌, ◌||◌, Option, none,
  some, List, [], ◌∷◌, ◌++◌, map, length, keep, mem, Dict, get, leb, ltb, eqb, str_eq,
  if◌then◌else◌,
}
use lab_in_a_box.Result.{Result, ok, raise, value_error, ◌>>=◌}
use lab_in_a_box.Text.{
  ◌<>◌, is_digit, is_blank, lstrip, rstrip, words, split_on, all_chars, text_length,
}
use lab_in_a_box.Ip.{Network, ip_text, parse_ip, parse_network, network_text, in_network, hosts}

-- A node's entry: its "myip", where it has one.
pub record Node : Type 0 where
  pub myip : Option String

-- The parts of a lab definition that are read here.
pub record Definition : Type 0 where
  pub mygw : Option String
  pub mydns : Option String
  pub mymask : Option String
  pub mydomain : Option String
  pub nodes : Dict Node

-- str(value or "").strip()
abbrev pub stripped : Option String → String
stripped none = ""
stripped (some s) = rstrip (lstrip s)

-- lab_network
unfoldable pub lab_network : Definition → Option Network
lab_network d =
    let gateway = stripped d.mygw in
    let mask = stripped d.mymask in
    if str_eq gateway "" || str_eq mask ""
    then none
    else elim (parse_network false (gateway <> "/" <> mask)) [ ok net ↦ some net | raise e ↦ none ]

abbrev octet_digits : String → Bool
octet_digits s = leb 1 (text_length s) && leb (text_length s) 3 && all_chars is_digit s

abbrev four_parts : List String → Bool
four_parts (a ∷ b ∷ c ∷ d ∷ []) =
    octet_digits a && octet_digits b && octet_digits c && octet_digits d
four_parts _ = false

-- _IPV4.fullmatch(s): four groups of one to three digits
unfoldable pub is_ipv4_text : String → Bool
is_ipv4_text s = four_parts (split_on 46 s)

-- s.replace(",", " ")
abbrev spaced : String → String
spaced String.[] = String.[]
spaced (String.◌∷◌ c s) = if eqb (code c) 44 then " " <> spaced s else String.◌∷◌ c (spaced s)

abbrev texts_of : Option String → List String
texts_of none = []
texts_of (some s) = words (spaced s)

abbrev node_ips : Dict Node → List String
node_ips [] = []
node_ips ((name, n) ∷ nodes) =
    let ip = stripped n.myip in
    let rest = node_ips nodes in if str_eq ip "" then rest else ip ∷ rest

-- definition_ips, as the list of its elements
unfoldable pub definition_ips : Definition → List String
unfolding is_ipv4_text
definition_ips d = keep is_ipv4_text (texts_of d.mygw ++ (texts_of d.mydns ++ node_ips d.nodes))

-- What is known outside of the definition.
pub record Surroundings : Type 0 where
  -- the address that the lab DNS has for the name, or "": dns_address
  pub registered : String
  -- the addresses of the zone, of the backend and of this automation node
  pub zone_ips : List String
  pub used : List String
  pub own_ips : List String
  pub answers_ping : String → Bool

-- str((definition.get("nodes") or {}).get(vm_name, {}).get("myip") or "")
abbrev own_ip : Option Node → String
own_ip none = ""
own_ip (some n) = elim n.myip [ none ↦ "" | some ip ↦ ip ]

abbrev pub drop_first : ℕ → List ℕ → List ℕ
drop_first zero ns = ns
drop_first (suc k) [] = []
drop_first (suc k) (n ∷ ns) = drop_first k ns

abbrev pub take_first : ℕ → List ℕ → List ℕ
take_first zero ns = []
take_first (suc k) [] = []
take_first (suc k) (n ∷ ns) = n ∷ take_first k ns

-- for candidate in candidates(...): the first that is not taken and does not answer
abbrev pub pick : List String → Bool → (String → Bool) → List ℕ → Option String
pick taken probe answers [] = none
pick taken probe answers (n ∷ ns) =
    let rest = pick taken probe answers ns in
    let candidate = ip_text n in
    if mem candidate taken
    then rest
    else if probe && answers candidate
    then rest
    else some candidate

-- What is taken, without the node's own address.
abbrev pub taken_by_others : String → Definition → Surroundings → List String
taken_by_others name d s =
    let own = own_ip (get name d.nodes) in
    keep (λ ip. not (str_eq ip own)) (s.used ++ (definition_ips d ++ (s.zone_ips ++ s.own_ips)))

module _ (digest : String → ℕ) where
  -- candidates, before their texts are taken
  abbrev pub rotated : String → Network → List ℕ
  rotated name net =
      let all_hosts = hosts net in
      let start = digest (name <> "@" <> network_text net) % length all_hosts in
      drop_first start all_hosts ++ take_first start all_hosts

  abbrev pub search_network : String → Definition → Surroundings → Bool → Network → Option String
  search_network name d s probe net =
      pick (taken_by_others name d s) probe s.answers_ping (rotated name net)

  -- Once the registered address is read: it is the answer if it lies in the network.
  abbrev keep_registered :
      String → Definition → Surroundings → Bool → Network → Option ℕ → Result (Option String)
  keep_registered name d s probe net none = raise value_error
  keep_registered name d s probe net (some n) =
      if in_network n net then ok (some s.registered) else ok (search_network name d s probe net)

  abbrev allocate_in :
      String → Definition → Surroundings → Bool → Option Network → Result (Option String)
  allocate_in name d s probe none = ok none
  allocate_in name d s probe (some net) =
      if str_eq s.registered ""
      then ok (search_network name d s probe net)
      else keep_registered name d s probe net (parse_ip s.registered)

  unfoldable pub allocate : String → Definition → Surroundings → Bool → Result (Option String)
  allocate name d s probe = allocate_in name d s probe (lab_network d)
