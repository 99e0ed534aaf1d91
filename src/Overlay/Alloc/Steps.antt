-- ===== src/Overlay/Alloc/Steps.antt =====
-- The steps of allocate_overlay_ip while every host answers, and what the read allocations hold.
use lab_in_a_box.Prelude.{
  ℕ, ◌+◌, ◌^◌, ◌<◌, ◌≤◌, String, Bool, true, false, ◌||◌, none, some, List, [], ◌∷◌, ◌++◌, ◌≡◌,
  refl, sym, ◌∙◌, inl, inr, get, put, eqb, eqb_refl, Bool-cases, arith,
}
use mathlib.Core.Bool.{false≢true}
use lab_in_a_box.Text.Words.{is_word, words_two}
use lab_in_a_box.Ip.Bounds.{Fits, parse_network-Fits, hosts-in_network}
use lab_in_a_box.Ip.RoundTrip.{parse_ip-ip_text, ip_text-is_word}
use lab_in_a_box.Result.{Result, ok, raise, died, of_option}
use lab_in_a_box.Result
use lab_in_a_box.Text.{◌<>◌}
use lab_in_a_box.Text.Lines.{rows, rows-strip_text, rows-append}
use lab_in_a_box.Ip.{Network, ip_text, parse_network, second_address, mem_ℕ, hosts, num_addresses}
use lab_in_a_box.Remote.{alloc, World, Env}
use lab_in_a_box.Remote.Up.{
  Up, lines, after_read, after_append, lines-after_read, lines-after_append, read_registry-eq,
  ssh_run-append,
}
use lab_in_a_box.Overlay.Alloc.{
  Allocations, allocation_row, read_allocations, first_free, hand_out, allocate_overlay_ip,
}

-- Nothing read yet: the hub's own address is in use.
abbrev pub reserved : ℕ → Allocations
reserved hub_ip = record { by_name = []; used = hub_ip ∷ [] }

-- The allocations recorded on the hub for a network.
pub record Recorded (w : World) (hub cidr : String) : Type 0 where
  pub net : Network
  pub parsed : parse_network true cidr ≡ ok net
  pub hub_ip : ℕ
  pub second : second_address net ≡ ok hub_ip
  pub found : Allocations
  pub reading : read_allocations (rows (lines w hub alloc)) (reserved hub_ip) ≡ ok found

pub read_allocations-append :
    (rs qs : List (List String)) (a : Allocations)
    → read_allocations (rs ++ qs) a ≡ Result.◌>>=◌ (read_allocations rs a) (read_allocations qs)
unfolding read_allocations
read_allocations-append [] qs a = refl
read_allocations-append (r ∷ rs) qs a =
    step (λ b. read_allocations-append rs qs b) (allocation_row r a)
  where
    step :
        ((b : Allocations)
          → read_allocations (rs ++ qs) b
            ≡ Result.◌>>=◌ (read_allocations rs b) (read_allocations qs))
        → (x : Result Allocations)
        → Result.◌>>=◌ x (read_allocations (rs ++ qs))
          ≡ Result.◌>>=◌ (Result.◌>>=◌ x (read_allocations rs)) (read_allocations qs)
    step ih (ok b) = ih b
    step ih (raise e) = refl

module _ (env : Env) (up : Up env) (hub cidr : String) (w : World) (r : Recorded w hub cidr) where
  -- With what is recorded read back, the answer is that of the last step.
  pub allocate-eq :
      (name : String)
      → allocate_overlay_ip env hub name cidr w
        ≡ hand_out env hub name r.net r.found (after_read hub alloc w)
  unfolding allocate_overlay_ip
  allocate-eq name =
      rw (read_registry-eq env up w hub alloc, r.parsed, r.second, rows-strip_text, r.reading)

  -- A name that is recorded keeps its address.
  pub allocate_known :
      (name ip : String)
      → get name r.found.by_name ≡ some ip
      → allocate_overlay_ip env hub name cidr w ≡ (ok ip, after_read hub alloc w)
  allocate_known name ip e = rw (allocate-eq name, e)

  pub allocate_new :
      (name : String) (c : ℕ)
      → get name r.found.by_name ≡ none
      → first_free r.found.used (hosts r.net) ≡ some c
      → allocate_overlay_ip env hub name cidr w ≡ (
        ok (ip_text c),
        after_append hub alloc ((name <> " " <> ip_text c) ∷ []) (after_read hub alloc w),
      )
  allocate_new name c e f = rw (allocate-eq name, e, f, ssh_run-append env up)

  pub allocate_full :
      (name : String)
      → get name r.found.by_name ≡ none
      → first_free r.found.used (hosts r.net) ≡ none
      → allocate_overlay_ip env hub name cidr w
        ≡ (raise (died "overlay CIDR is exhausted"), after_read hub alloc w)
  allocate_full name e f = rw (allocate-eq name, e, f)

eqb-eq : (a b : ℕ) → eqb a b ≡ true → a ≡ b
eqb-eq a b e = ground arith

some_inj : (a b : ℕ) → some a ≡ some b → a ≡ b
some_inj a b e = ground arith

or-right : (a : Bool) {b : Bool} → b ≡ true → (a || b) ≡ true
or-right true h = refl
or-right false h = h

pub first_free-mem : (used cs : List ℕ) (c : ℕ) → first_free used cs ≡ some c → mem_ℕ c cs ≡ true
unfolding first_free
first_free-mem used [] c h = cc
first_free-mem used (d ∷ cs) c h = ground (arith, first_free-mem used cs c)

pub first_free-unused :
    (used cs : List ℕ) (c : ℕ) → first_free used cs ≡ some c → mem_ℕ c used ≡ false
unfolding first_free
first_free-unused used [] c h = cc
first_free-unused used (d ∷ cs) c h = elim (Bool-cases (mem_ℕ d used)) [
  | inl e ↦ first_free-unused used cs c (rw e at h)
  | inr e ↦ let same : d ≡ c = some_inj d c (rw e at h) in rw same at e
]

pub first_free-none :
    (used cs : List ℕ)
    → ((c : ℕ) → mem_ℕ c cs ≡ true → mem_ℕ c used ≡ true)
    → first_free used cs ≡ none
unfolding first_free
first_free-none used [] all_used = refl
first_free-none used (d ∷ cs) all_used =
    rw (all_used d (rw eqb_refl))
      (first_free-none used cs (λ c m. all_used c (or-right (eqb d c) m)))

pub first_free-some :
    (used cs : List ℕ) (c : ℕ)
    → mem_ℕ c cs ≡ true
    → mem_ℕ c used ≡ false
    → (d : ℕ) × (first_free used cs ≡ some d)
unfolding first_free
first_free-some used [] c m u = cc
first_free-some used (d ∷ cs) c m u = elim (Bool-cases (mem_ℕ d used)) [
  | inl e ↦ rw e (first_free-some used cs c (later e) u)
  | inr e ↦ (d, rw e)
]
  where
    later : mem_ℕ d used ≡ true → mem_ℕ c cs ≡ true
    later e = elim (Bool-cases (eqb d c)) [
      | inl same ↦ absurd (false≢true (sym u ∙ rw (eqb-eq d c same) at e))
      | inr other ↦ rw other at m
    ]

-- The address that is handed out next lies in the network and is a 32-bit number.
pub first_free-bounds :
    {w : World} {hub cidr : String} (r : Recorded w hub cidr) (c : ℕ)
    → first_free r.found.used (hosts r.net) ≡ some c
    → (r.net.base ≤ c) × (c < r.net.base + num_addresses r.net) × (c < 2 ^ 32)
first_free-bounds r c h =
    let fits : Fits r.net = parse_network-Fits true _ r.net r.parsed in
    let inside : (r.net.base ≤ c) × (c < r.net.base + num_addresses r.net) =
      hosts-in_network r.net c fits.1 (first_free-mem r.found.used (hosts r.net) c h) in
    (inside.0, inside.1, omega arith)

-- Once an address was handed out, it is recorded for its name.
pub Recorded-new :
    {w : World} {hub cidr : String} (r : Recorded w hub cidr) (w' : World) (name : String) (c : ℕ)
    → is_word name ≡ true
    → c < 2 ^ 32
    → lines w' hub alloc ≡ lines w hub alloc ++ (name <> " " <> ip_text c) ∷ []
    → read_allocations (rows (lines w' hub alloc)) (reserved r.hub_ip)
      ≡ ok (record { by_name = put name (ip_text c) r.found.by_name; used = c ∷ r.found.used })
Recorded-new {w} {hub} r w' name c hn hc e =
    rw
      (
        e,
        rows-append (lines w hub alloc) _,
        read_allocations-append (rows (lines w hub alloc)) _ _,
        r.reading,
      )
      (unfold rows read_allocations in
        rw (words_two name (ip_text c) hn (ip_text-is_word c hc), parse_ip-ip_text c hc))

unfoldable pub Recorded-after_read :
    {w : World} {hub cidr : String}
    → Recorded w hub cidr
    → Recorded (after_read hub alloc w) hub cidr
Recorded-after_read {w} {hub} r = record {
  net = r.net;
  parsed = r.parsed;
  hub_ip = r.hub_ip;
  second = r.second;
  found = r.found;
  reading = rw (lines-after_read w hub hub alloc alloc) r.reading;
}

-- The world once an address was handed out.
abbrev pub handed_out : String → String → ℕ → World → World
handed_out hub name c w =
    after_append hub alloc ((name <> " " <> ip_text c) ∷ []) (after_read hub alloc w)

unfoldable pub Recorded-handed_out :
    {w : World} {hub cidr : String} (r : Recorded w hub cidr) (name : String) (c : ℕ)
    → is_word name ≡ true
    → c < 2 ^ 32
    → Recorded (handed_out hub name c w) hub cidr
Recorded-handed_out {w} {hub} r name c hn hc = record {
  net = r.net;
  parsed = r.parsed;
  hub_ip = r.hub_ip;
  second = r.second;
  found = record { by_name = put name (ip_text c) r.found.by_name; used = c ∷ r.found.used };
  reading =
      Recorded-new r (handed_out hub name c w) name c hn hc (lines-after_append w hub alloc _);
}
