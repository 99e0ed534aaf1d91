-- ===== src/Ip/Bounds.antt =====
-- The addresses of a network that was read are 32-bit numbers, and its hosts lie in it.
use lab_in_a_box.Prelude.{
  ℕ, zero, suc, ◌+◌, ◌*◌, ◌^◌, ◌-◌, ◌/◌, ◌%◌, ◌<◌, ◌≤◌, String, Bool, true, false, Option, none,
  some, List, [], ◌∷◌, ◌≡◌, refl, eqb, arith,
}
use lab_in_a_box.Result.{ok, of_option, ◌>>=◌}
use lab_in_a_box.Text.{parse_nat, split_on}
use lab_in_a_box.Ip.RoundTrip.{all_below, all_below_sound}
use native.Mathlib.Nat.{div-add-mod, pow-suc}
use native.Mathlib.Decide.{dec_lt}
use lab_in_a_box.Ip.{
  from_mask, prefix_or_mask, mem_ℕ, Network, parse_octet, quad, from_parts, parse_ip, parse_network,
  network_of, network_parts, parse_prefix, prefix_of_mask, or_else, hosts, num_addresses, range,
}

parse_octet-le : (s : String) (n : ℕ) → parse_octet s ≡ some n → n ≤ 255
unfolding parse_octet
parse_octet-le s n h = ground arith

quad-lt :
    (a b c d : Option ℕ) (n : ℕ)
    → ((m : ℕ) → a ≡ some m → m ≤ 255)
    → ((m : ℕ) → b ≡ some m → m ≤ 255)
    → ((m : ℕ) → c ≡ some m → m ≤ 255)
    → ((m : ℕ) → d ≡ some m → m ≤ 255)
    → quad a b c d ≡ some n
    → n < 2 ^ 32
quad-lt (some a) (some b) (some c) (some d) n ha hb hc hd h = ground (arith, ha a, hb b, hc c, hd d)
quad-lt _ _ _ _ n ha hb hc hd h = ground arith

from_parts-lt : (ps : List String) (n : ℕ) → from_parts ps ≡ some n → n < 2 ^ 32
from_parts-lt (a ∷ b ∷ c ∷ d ∷ []) n h =
    quad-lt (parse_octet a) (parse_octet b) (parse_octet c) (parse_octet d) n (parse_octet-le a)
      (parse_octet-le b) (parse_octet-le c) (parse_octet-le d) h
from_parts-lt _ n h = ground arith

-- An address that was read is a 32-bit number.
pub parse_ip-lt : (s : String) (n : ℕ) → parse_ip s ≡ some n → n < 2 ^ 32
unfolding parse_ip
parse_ip-lt s n h = from_parts-lt (split_on 46 s) n h

-- The network's addresses are 32-bit numbers.
abbrev pub Fits : Network → Type 0
Fits net = (net.base + num_addresses net ≤ 2 ^ 32) × (net.prefix ≤ 32)

power_split : (p : ℕ) → p ≤ 32 → 2 ^ p * 2 ^ (32 - p) ≡ 2 ^ 32
unfolding all_below
power_split p h =
    eqb-eq _ _ (all_below_sound 33 (λ q. eqb (2 ^ q * 2 ^ (32 - q)) (2 ^ 32)) p refl (omega arith))
  where
    eqb-eq : (a b : ℕ) → eqb a b ≡ true → a ≡ b
    eqb-eq a b e = ground arith

power_pos : (k : ℕ) → 0 < 2 ^ k
power_pos zero = omega arith
power_pos (suc k) = rw pow-suc (omega (arith, power_pos k))

aligned : (n s t : ℕ) → n < s * t → 0 < t → n - n % t + t ≤ s * t
aligned n s t h pos =
    let e : t * (n / t) + n % t ≡ n = div-add-mod n t in
    elim (dec_lt (n / t) s) [ yes q ↦ grind arith | no q ↦ grind arith ]

prefix_of_mask-le : (p m q : ℕ) → prefix_of_mask p m ≡ some q → q ≤ p
unfolding prefix_of_mask
prefix_of_mask-le zero m q h = ground arith
prefix_of_mask-le (suc p) m q h = ground (arith, prefix_of_mask-le p m q)

mask_prefix-le :
    (m q : ℕ) → or_else (prefix_of_mask 32 m) (prefix_of_mask 32 (2 ^ 32 - 1 - m)) ≡ some q → q ≤ 32
mask_prefix-le m q h =
    ground (arith, prefix_of_mask-le 32 m q, prefix_of_mask-le 32 (2 ^ 32 - 1 - m) q)

from_mask-le : (o : Option ℕ) (q : ℕ) → from_mask o ≡ some q → q ≤ 32
from_mask-le none q h = ground arith
from_mask-le (some m) q h = mask_prefix-le m q h

parse_prefix-le : (s : String) (q : ℕ) → parse_prefix s ≡ some q → q ≤ 32
unfolding parse_prefix
parse_prefix-le s q h = pick (parse_nat s) h
  where
    pick : (o : Option ℕ) → prefix_or_mask (parse_ip s) o ≡ some q → q ≤ 32
    pick none e = from_mask-le (parse_ip s) q e
    pick (some p) e = ground arith

network_of-Fits :
    (strict : Bool) (n p : ℕ) (net : Network)
    → n < 2 ^ 32
    → p ≤ 32
    → network_of strict n p ≡ ok net
    → Fits net
network_of-Fits strict n p net hn hp h =
    let e : 2 ^ p * 2 ^ (32 - p) ≡ 2 ^ 32 = power_split p hp in
    let a : n - n % 2 ^ (32 - p) + 2 ^ (32 - p) ≤ 2 ^ p * 2 ^ (32 - p) =
      aligned n (2 ^ p) (2 ^ (32 - p)) (rw e hn) (power_pos (32 - p)) in
    let b : n - n % 2 ^ (32 - p) + 2 ^ (32 - p) ≤ 2 ^ 32 = rw e at a in ground arith

network_parts-Fits :
    (strict : Bool) (ps : List String) (net : Network) → network_parts strict ps ≡ ok net → Fits net
network_parts-Fits strict (a ∷ []) net h = alone (parse_ip a) (parse_ip-lt a) h
  where
    alone :
        (o : Option ℕ)
        → ((n : ℕ) → o ≡ some n → n < 2 ^ 32)
        → (of_option o >>= λ n. network_of strict n 32) ≡ ok net
        → Fits net
    alone none k e = cc
    alone (some n) k e = network_of-Fits strict n 32 net (k n refl) (omega arith) e
network_parts-Fits strict (a ∷ m ∷ []) net h =
    both (parse_ip a) (parse_prefix m) (parse_ip-lt a) (parse_prefix-le m) h
  where
    both :
        (o q : Option ℕ)
        → ((n : ℕ) → o ≡ some n → n < 2 ^ 32)
        → ((n : ℕ) → q ≡ some n → n ≤ 32)
        → (of_option o >>= λ n. of_option q >>= network_of strict n) ≡ ok net
        → Fits net
    both none q k l e = cc
    both (some n) none k l e = cc
    both (some n) (some p) k l e = network_of-Fits strict n p net (k n refl) (l p refl) e
network_parts-Fits strict _ net h = cc

-- A network that was read lies within the 32-bit numbers.
pub parse_network-Fits :
    (strict : Bool) (s : String) (net : Network) → parse_network strict s ≡ ok net → Fits net
unfolding parse_network
parse_network-Fits strict s net h = network_parts-Fits strict (split_on 47 s) net h

mem-range : (n start k : ℕ) → mem_ℕ n (range start k) ≡ true → (start ≤ n) × (n < start + k)
mem-range n start zero h = ground arith
mem-range n start (suc k) h = ground (arith, mem-range n (start + 1) k)

-- Each host address lies in its network.
pub hosts-in_network :
    (net : Network) (n : ℕ)
    → net.prefix ≤ 32
    → mem_ℕ n (hosts net) ≡ true
    → (net.base ≤ n) × (n < net.base + num_addresses net)
unfolding hosts
hosts-in_network net n hp h = elim (dec_lt net.prefix 31) [
  | yes small ↦
      let a : eqb net.prefix 32 ≡ false = ground arith in
      let b : eqb net.prefix 31 ≡ false = ground arith in
      let k : mem_ℕ n (range (net.base + 1) (num_addresses net - 2)) ≡ true = rw (a, b) at h in
      omega (arith, mem-range n (net.base + 1) (num_addresses net - 2) k)
  | no large ↦ elim (dec_lt net.prefix 32) [
    | yes middle ↦
        let e : net.prefix ≡ 31 = omega arith in
        rw e (omega (arith, mem-range n net.base 2 (rw e at h)))
    | no last ↦ let e : net.prefix ≡ 32 = omega arith in rw e (one_host (rw e at h))
  ]
]
  where
    one_host : mem_ℕ n (net.base ∷ []) ≡ true → (net.base ≤ n) × (n < net.base + 1)
    one_host m = ground arith
