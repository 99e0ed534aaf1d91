-- ===== src/IpAlloc/Choice.antt =====
-- The address that is chosen is free, and one is chosen where a free one is left.
use lab_in_a_box.Prelude.{
  ℕ, zero, suc, ◌+◌, ◌%◌, ◌<◌, ◌≤◌, ◌^◌, String, Bool, true, false, not, ◌&&◌, ◌||◌, Option, none,
  some, List, [], ◌∷◌, ◌++◌, append-nil, ◌≡◌, refl, sym, ap, ◌∙◌, inl, inr, mem, any, length, eqb,
  eqb_refl, str_eq, Bool-cases, arith, if◌then◌else◌,
}
use lab_in_a_box.Result.{Result, ok, raise}
use lab_in_a_box.Ip.{
  network_text, in_network, Network, ip_text, parse_network, hosts, mem_ℕ, num_addresses,
}
use lab_in_a_box.Text.{◌<>◌}
use lab_in_a_box.Ip.RoundTrip.{parse_ip-ip_text, ip_text-is_word}
use lab_in_a_box.Text.Words.{word-ne-empty}
use lab_in_a_box.Ip.Bounds.{Fits, parse_network-Fits, hosts-in_network}
use lab_in_a_box.IpAlloc.{
  stripped, Definition, Surroundings, lab_network, drop_first, take_first, rotated, pick,
  taken_by_others, search_network, allocate,
}

mem-middle : (n m : ℕ) (xs ys : List ℕ) → mem_ℕ n (xs ++ m ∷ ys) ≡ (eqb m n || mem_ℕ n (xs ++ ys))
mem-middle n m [] ys = refl
mem-middle n m (x ∷ xs) ys = ground (arith, mem-middle n m xs ys)

lab_network-Fits : (d : Definition) (net : Network) → lab_network d ≡ some net → Fits net
unfolding lab_network
lab_network-Fits d net e =
    split (str_eq (stripped d.mygw) "" || str_eq (stripped d.mymask) "")
      (parse_network false (stripped d.mygw <> "/" <> stripped d.mymask)) refl e
  where
    split :
        (b : Bool) (x : Result Network)
        → parse_network false (stripped d.mygw <> "/" <> stripped d.mymask) ≡ x
        → (if b then none else elim x [ ok n ↦ some n | raise _ ↦ none ]) ≡ some net
        → Fits net
    split true x p q = cc
    split false (ok n) p q = parse_network-Fits false _ net (p ∙ cc)
    split false (raise _) p q = cc

-- Going round the list loses no address and adds none.
rotate-mem :
    (k : ℕ) (ns : List ℕ) (n : ℕ) → mem_ℕ n (drop_first k ns ++ take_first k ns) ≡ mem_ℕ n ns
rotate-mem zero ns n = rw append-nil
rotate-mem (suc k) [] n = refl
rotate-mem (suc k) (m ∷ ns) n =
    mem-middle n m (drop_first k ns) (take_first k ns) ∙ ap (λ b. eqb m n || b) (rotate-mem k ns n)

or_true : (b : Bool) → (b || true) ≡ true
or_true true = refl
or_true false = refl

-- An address that may be handed out.
abbrev pub is_free : List String → Bool → (String → Bool) → ℕ → Bool
is_free taken probe answers n = not (mem (ip_text n) taken) && not (probe && answers (ip_text n))

module _ (taken : List String) (probe : Bool) (answers : String → Bool) where
  -- What is to hold of a search among the addresses: it finds a free one, or there is none.
  abbrev pub Picked : List ℕ → Option String → Type 0
  Picked ns none = (n : ℕ) → mem_ℕ n ns ≡ true → is_free taken probe answers n ≡ false
  Picked ns (some ip) =
      (n : ℕ) × (ip ≡ ip_text n) × (mem_ℕ n ns ≡ true) × (is_free taken probe answers n ≡ true)

  -- What a search among the addresses gives: a free one of them, or nothing where none is free.
  abbrev pub Chosen : List ℕ → Option String → Type 0
  Chosen ns none = any (is_free taken probe answers) ns ≡ false
  Chosen ns (some ip) = Picked ns (some ip)

  none_free :
      (ns : List ℕ)
      → ((n : ℕ) → mem_ℕ n ns ≡ true → is_free taken probe answers n ≡ false)
      → any (is_free taken probe answers) ns ≡ false
  none_free [] h = refl
  none_free (m ∷ ns) h =
      rw (h m (rw eqb_refl), none_free ns (λ n e. h n (rw e (or_true (eqb m n)))))

  Picked-Chosen : (ns : List ℕ) (o : Option String) → Picked ns o → Chosen ns o
  Picked-Chosen ns none h = none_free ns h
  Picked-Chosen ns (some ip) h = h

  eqb-eq : (a b : ℕ) → eqb a b ≡ true → a ≡ b
  eqb-eq a b e = ground arith

  later :
      (n : ℕ) (ns : List ℕ) (o : Option String)
      → is_free taken probe answers n ≡ false
      → Picked ns o
      → Picked (n ∷ ns) o
  later n ns none f h = λ m e. elim (Bool-cases (eqb n m)) [
    | inl s ↦ rw (eqb-eq n m s) at f
    | inr s ↦ h m (rw s at e)
  ]
  later n ns (some ip) f (m, e, i, g) = (m, e, rw i (or_true (eqb n m)), g)

  pick_lem : (ns : List ℕ) → Picked ns (pick taken probe answers ns)
  pick_lem [] = λ n m. cc
  pick_lem (n ∷ ns) = elim (Bool-cases (mem (ip_text n) taken)) [
    | inl e ↦ rw e (later n ns (pick taken probe answers ns) (rw e) (pick_lem ns))
    | inr e ↦ elim (Bool-cases (probe && answers (ip_text n))) [
      | inl f ↦ rw (e, f) (later n ns (pick taken probe answers ns) (rw (e, f)) (pick_lem ns))
      | inr f ↦ rw (e, f) (n, refl, rw eqb_refl, rw (e, f))
    ]
  ]

Picked-same :
    (taken : List String) (probe : Bool) (answers : String → Bool) (ns ms : List ℕ)
    (o : Option String)
    → ((n : ℕ) → mem_ℕ n ns ≡ mem_ℕ n ms)
    → Picked taken probe answers ns o
    → Picked taken probe answers ms o
Picked-same taken probe answers ns ms none same h = λ n m. h n (same n ∙ m)
Picked-same taken probe answers ns ms (some ip) same (n, e, m, f) = (n, e, sym (same n) ∙ m, f)

module _ (digest : String → ℕ) (name : String) (d : Definition) (s : Surroundings) (probe : Bool)
    (net : Network) where
  search_network_lem :
      Picked
        (taken_by_others name d s)
        probe
        s.answers_ping
        (hosts net)
        (search_network digest name d s probe net)
  search_network_lem =
      Picked-same (taken_by_others name d s) probe s.answers_ping (rotated digest name net)
        (hosts net) (search_network digest name d s probe net)
        (rotate-mem (digest (name <> "@" <> network_text net) % length (hosts net)) (hosts net))
        (pick_lem (taken_by_others name d s) probe s.answers_ping (rotated digest name net))

  -- In a lab with a network, for a node that the lab DNS has no record of: the answer is a host address
  -- of the network that nobody else has and that, where it is probed, does not answer; or every host
  -- address is taken or answers, and the answer is none. So it is wherever the digest makes the search start.
  pub allocate_unregistered :
      lab_network d ≡ some net
      → s.registered ≡ ""
      → (o : Option String) × (allocate digest name d s probe ≡ ok o)
        × Chosen (taken_by_others name d s) probe s.answers_ping (hosts net) o
  unfolding allocate
  allocate_unregistered e r = (
    search_network digest name d s probe net,
    rw (e, r),
    Picked-Chosen (taken_by_others name d s) probe s.answers_ping (hosts net) _ search_network_lem,
  )

  in_hosts :
      (n : ℕ)
      → lab_network d ≡ some net
      → mem_ℕ n (hosts net) ≡ true
      → (in_network n net ≡ true) × (n < 2 ^ 32)
  in_hosts n e m =
      let fits : Fits net = lab_network-Fits d net e in
      let inside : (net.base ≤ n) × (n < net.base + num_addresses net) =
        hosts-in_network net n fits.1 m in
      (in_bounds n inside.0 inside.1, omega arith)
    where
      in_bounds :
          (n : ℕ) → net.base ≤ n → n < net.base + num_addresses net → in_network n net ≡ true
      in_bounds k lo hi = ground arith

registered_again :
    (digest : String → ℕ) (name ip : String) (d : Definition) (s : Surroundings) (probe : Bool)
    (net : Network) (n : ℕ)
    → lab_network d ≡ some net
    → in_network n net ≡ true
    → n < 2 ^ 32
    → s.registered ≡ ip_text n
    → ip ≡ ip_text n
    → allocate digest name d s probe ≡ ok (some ip)
unfolding allocate
registered_again digest name ip d s probe net n e inside small r same =
    rw (e, r, word-ne-empty (ip_text n) (ip_text-is_word n small), parse_ip-ip_text n small, inside)
      (ap (λ t. ok (some t)) (sym same))

-- In a lab with a network, for a node that the lab DNS had no record of when it was given an address: once
-- the record is there, every later run on the same definition gives the same address, with or without
-- probing, and whatever the zone, the backend and the hosts on the network say by then.
pub allocate_again :
    (digest : String → ℕ) (name ip : String) (d : Definition) (s s' : Surroundings)
    (probe probe' : Bool) (net : Network)
    → lab_network d ≡ some net
    → s.registered ≡ ""
    → allocate digest name d s probe ≡ ok (some ip)
    → s'.registered ≡ ip
    → allocate digest name d s' probe' ≡ ok (some ip)
allocate_again digest name ip d s s' probe probe' net e r first r' =
    let (o, answer, picked) = allocate_unregistered digest name d s probe net e r in
    by_answer o picked (sym answer ∙ first)
  where
    by_answer :
        (o : Option String)
        → Chosen (taken_by_others name d s) probe s.answers_ping (hosts net) o
        → ok o ≡ ok (some ip)
        → allocate digest name d s' probe' ≡ ok (some ip)
    by_answer none picked q = cc
    by_answer (some x) (n, text, m, free) q =
        let (inside, small) = in_hosts digest name d s probe net n e m in
        let named : s'.registered ≡ ip_text n = r' ∙ cc (q, text) in
        registered_again digest name ip d s' probe' net n e inside small named (sym r' ∙ named)
