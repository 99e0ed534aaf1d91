-- ===== src/Ip.antt =====
-- What the code uses of Python's ipaddress module: IPv4 addresses as numbers below 2 ^ 32, their texts,
-- and networks with their host addresses.
pub mod RoundTrip
pub mod Bounds
use lab_in_a_box.Prelude.{
  ℕ, zero, suc, ◌+◌, ◌-◌, ◌*◌, ◌/◌, ◌%◌, ◌^◌, String, Bool, true, false, not, ◌&&◌, ◌||◌, Option,
  none, some, List, [], ◌∷◌, ltb, leb, eqb, if◌then◌else◌,
}
use lab_in_a_box.Result.{Result, ok, raise, value_error, index_error, ◌>>=◌, of_option}
use lab_in_a_box.Text.{◌<>◌, show, split_on, parse_nat, starts_with, text_length}

-- str(ipaddress.ip_address(n))
unfoldable pub ip_text : ℕ → String
ip_text n =
    show (n / 2 ^ 24)
    <> "."
    <> show (n / 2 ^ 16 % 256)
    <> "."
    <> show (n / 2 ^ 8 % 256)
    <> "."
    <> show (n % 256)

-- One part of a dotted quad: at most three digits, no leading zero, at most 255.
unfoldable pub parse_octet : String → Option ℕ
unfolding parse_nat starts_with
parse_octet s =
    if ltb 3 (text_length s) || (ltb 1 (text_length s) && starts_with s "0")
    then none
    else elim (parse_nat s) [ none ↦ none | some n ↦ if leb n 255 then some n else none ]

abbrev quad : Option ℕ → Option ℕ → Option ℕ → Option ℕ → Option ℕ
quad (some a) (some b) (some c) (some d) = some (a * 2 ^ 24 + b * 2 ^ 16 + c * 2 ^ 8 + d)
quad _ _ _ _ = none

abbrev from_parts : List String → Option ℕ
from_parts (a ∷ b ∷ c ∷ d ∷ []) =
    quad (parse_octet a) (parse_octet b) (parse_octet c) (parse_octet d)
from_parts _ = none

-- ipaddress.ip_address(s)
unfoldable pub parse_ip : String → Option ℕ
parse_ip s = from_parts (split_on 46 s)

pub record Network : Type 0 where
  pub base : ℕ
  pub prefix : ℕ

abbrev pub num_addresses : Network → ℕ
num_addresses net = 2 ^ (32 - net.prefix)

-- ip in net
abbrev pub in_network : ℕ → Network → Bool
in_network ip net = leb net.base ip && ltb ip (net.base + num_addresses net)

-- n in ns
abbrev pub mem_ℕ : ℕ → List ℕ → Bool
mem_ℕ n [] = false
mem_ℕ n (m ∷ ms) = eqb m n || mem_ℕ n ms

abbrev pub range : ℕ → ℕ → List ℕ
range start zero = []
range start (suc n) = start ∷ range (start + 1) n

-- net.hosts(): without the network and broadcast addresses, but for networks too small to have them
unfoldable pub hosts : Network → List ℕ
hosts net =
    if eqb net.prefix 32
    then net.base ∷ []
    else if eqb net.prefix 31
    then range net.base 2
    else range (net.base + 1) (num_addresses net - 2)

-- net[1]
unfoldable pub second_address : Network → Result ℕ
second_address net = if ltb 1 (num_addresses net) then ok (net.base + 1) else raise index_error

-- The prefix length whose netmask is `mask`, among those up to `p`.
prefix_of_mask : ℕ → ℕ → Option ℕ
prefix_of_mask zero mask = if eqb mask 0 then some 0 else none
prefix_of_mask (suc p) mask =
    let rest = prefix_of_mask p mask in
    if eqb mask (2 ^ 32 - 2 ^ (32 - suc p)) then some (suc p) else rest

abbrev or_else : Option ℕ → Option ℕ → Option ℕ
or_else none b = b
or_else (some a) b = some a

abbrev from_mask : Option ℕ → Option ℕ
from_mask none = none
from_mask (some m) = or_else (prefix_of_mask 32 m) (prefix_of_mask 32 (2 ^ 32 - 1 - m))

abbrev prefix_or_mask : Option ℕ → Option ℕ → Option ℕ
prefix_or_mask mask (some p) = if leb p 32 then some p else none
prefix_or_mask mask none = from_mask mask

-- A prefix length in digits, else a netmask, else a host mask.
parse_prefix : String → Option ℕ
parse_prefix s = prefix_or_mask (parse_ip s) (parse_nat s)

abbrev network_of : Bool → ℕ → ℕ → Result Network
network_of strict addr prefix =
    let size = 2 ^ (32 - prefix) in
    if strict && not (eqb (addr % size) 0)
    then raise value_error
    else ok (record { base = addr - addr % size; prefix = prefix })

abbrev network_parts : Bool → List String → Result Network
network_parts strict (a ∷ []) = do addr ← of_option (parse_ip a); network_of strict addr 32
network_parts strict (a ∷ m ∷ []) = do
  addr ← of_option (parse_ip a)
  prefix ← of_option (parse_prefix m)
  network_of strict addr prefix
network_parts strict _ = raise value_error

-- ipaddress.ip_network(s, strict)
unfoldable pub parse_network : Bool → String → Result Network
unfolding parse_prefix prefix_of_mask parse_ip parse_octet parse_nat split_on
parse_network strict s = network_parts strict (split_on 47 s)

-- str(net)
unfoldable pub network_text : Network → String
unfolding ip_text show
network_text net = ip_text net.base <> "/" <> show net.prefix
