-- ===== src/Hosts/Choice.antt =====
-- The host that select_kvm_host picks.
use mathlib.Core.Path.{subst}
use lab_in_a_box.Prelude.{
  ℕ, ◌*◌, ◌≤◌, String, Bool, true, false, Option, none, some, List, [], ◌∷◌, All, mem, mem_here,
  mem-later, str_eq, ◌≡◌, ◌⊎◌, inl, inr, refl, sym, ap, ◌∙◌, eq_iff, arith, Bool-cases,
}
use lab_in_a_box.Result.{ok, raise, died, ok-eq}
use lab_in_a_box.Hosts.{
  Free, Wanted, has_enough, comes_before, cons_if, add_candidate, insert, sort_reverse, first_host,
  host_resources, candidates, select_kvm_host,
}

-- The host has what the machine wants.
abbrev pub Enough : Wanted → Free → Type 0
Enough w f = (w.vm_cpu ≤ f.cpu) × (w.vm_mem ≤ f.mem) × (w.vm_dsk * 1024 ≤ f.disk)

abbrev In : ℕ × String → List (ℕ × String) → Type 0
In x [] = ⊥
In x (y ∷ ys) = (y ≡ x) ⊎ In x ys

abbrev Below : ℕ → List (ℕ × String) → Type 0
Below m xs = All (λ y. y.0 ≤ m) xs

-- The first of the sorted candidates is one of them, with the most memory.
abbrev Best : List (ℕ × String) → List (ℕ × String) → Type 0
Best xs [] = xs ≡ []
Best xs (y ∷ ys) = In y xs × Below y.0 xs

Below-trans : (m n : ℕ) (xs : List (ℕ × String)) → m ≤ n → Below m xs → Below n xs
Below-trans m n [] h b = tt
Below-trans m n (x ∷ xs) h b = (omega (arith, b.0), Below-trans m n xs h b.1)

before-≤ : (x y : ℕ × String) → comes_before y x ≡ true → x.0 ≤ y.0
before-≤ x y e = ground arith

not_before-≤ : (x y : ℕ × String) → comes_before y x ≡ false → y.0 ≤ x.0
not_before-≤ x y e = ground arith

insert-Best : (x : ℕ × String) (xs l : List (ℕ × String)) → Best xs l → Best (x ∷ xs) (insert x l)
insert-Best x xs [] b = (inl refl, (omega arith, rw (b) tt))
insert-Best x xs (y ∷ ys) (here, below) = elim (Bool-cases (comes_before y x)) [
  | inl p ↦ rw (p) (inr here, (before-≤ x y p, below))
  | inr p ↦ rw (p) (inl refl, (omega arith, Below-trans y.0 x.0 xs (not_before-≤ x y p) below))
]

sort_reverse-Best : (xs : List (ℕ × String)) → Best xs (sort_reverse xs)
sort_reverse-Best [] = refl
sort_reverse-Best (x ∷ xs) = insert-Best x xs (sort_reverse xs) (sort_reverse-Best xs)

Enough-has_enough : (w : Wanted) (f : Free) → has_enough w f ≡ true → Enough w f
Enough-has_enough w f e = (ground arith, ground arith, ground arith)

has_enough-Enough : (w : Wanted) (f : Free) → Enough w f → has_enough w f ≡ true
has_enough-Enough w f (c, m, d) = ground arith

In-cons_if :
    (b : Bool) (x y : ℕ × String) (rest : List (ℕ × String))
    → In x (cons_if b y rest)
    → ((b ≡ true) × (y ≡ x)) ⊎ In x rest
In-cons_if true x y rest (inl e) = inl (refl, e)
In-cons_if true x y rest (inr i) = inr i
In-cons_if false x y rest i = inr i

In-add_candidate :
    (w : Wanted) (host : String) (o : Option Free) (x : ℕ × String) (rest : List (ℕ × String))
    → In x (add_candidate w host o rest)
    → ((f : Free) × (o ≡ some f) × (has_enough w f ≡ true) × ((f.mem, host) ≡ x)) ⊎ In x rest
In-add_candidate w host none x rest i = inr i
In-add_candidate w host (some f) x rest i =
    elim (In-cons_if (has_enough w f) x (f.mem, host) rest i) [
      | inl (p, e) ↦ inl (f, refl, p, e)
      | inr j ↦ inr j
    ]

cons_if-later :
    (b : Bool) (x y : ℕ × String) (rest : List (ℕ × String)) → In x rest → In x (cons_if b y rest)
cons_if-later true x y rest i = inr i
cons_if-later false x y rest i = i

add_candidate-later :
    (w : Wanted) (host : String) (o : Option Free) (x : ℕ × String) (rest : List (ℕ × String))
    → In x rest
    → In x (add_candidate w host o rest)
add_candidate-later w host none x rest i = i
add_candidate-later w host (some f) x rest i = cons_if-later (has_enough w f) x (f.mem, host) rest i

add_candidate-here :
    (w : Wanted) (host : String) (o : Option Free) (f : Free) (rest : List (ℕ × String))
    → o ≡ some f
    → has_enough w f ≡ true
    → In (f.mem, host) (add_candidate w host o rest)
add_candidate-here w host o f rest e p =
    subst (λ z. In (f.mem, host) (add_candidate w host z rest)) (sym e)
      (subst (λ b. In (f.mem, host) (cons_if b (f.mem, host) rest)) (sym p) (inl refl))

module _ (ssh_output : (host command : String) → Option String) (w : Wanted)
    (vm_img_loc : String) where
  -- The host is listed, answered, and has enough.
  abbrev pub Qualifies : List String → String → Free → Type 0
  Qualifies hosts host f =
      (mem host hosts ≡ true) × (host_resources ssh_output host vm_img_loc ≡ some f) × Enough w f

  Qualifies-later :
      (host name : String) (hosts : List String) (f : Free)
      → Qualifies hosts name f
      → Qualifies (host ∷ hosts) name f
  Qualifies-later host name hosts f (listed, r, enough) =
      (mem-later name host hosts listed, r, enough)

  candidates_sound :
      (hosts : List String) (x : ℕ × String)
      → In x (candidates ssh_output hosts w vm_img_loc)
      → (f : Free) × (f.mem ≡ x.0) × Qualifies hosts x.1 f
  candidates_sound [] x i = absurd i
  candidates_sound (host ∷ hosts) x i =
      elim (In-add_candidate w host (host_resources ssh_output host vm_img_loc) x
        (candidates ssh_output hosts w vm_img_loc) i) [
          | inl (g, e, p, same) ↦
              let named : host ≡ x.1 = ap (λ y. y.1) same in
              (
                g,
                ap (λ y. y.0) same,
                (
                  ap (λ h. mem x.1 (h ∷ hosts)) named ∙ mem_here x.1 hosts,
                  sym (ap (λ h. host_resources ssh_output h vm_img_loc) named) ∙ e,
                  Enough-has_enough w g p,
                ),
              )
          | inr j ↦
              let (f, m, q) = candidates_sound hosts x j in
              (f, m, Qualifies-later host x.1 hosts f q)
        ]

  candidates_complete :
      (hosts : List String) (host : String) (f : Free)
      → Qualifies hosts host f
      → In (f.mem, host) (candidates ssh_output hosts w vm_img_loc)
  candidates_complete [] host f (listed, r, enough) = cc
  candidates_complete (h ∷ hosts) host f (listed, r, enough) = elim (Bool-cases (str_eq h host)) [
    | inl p ↦
        subst (λ n. In (f.mem, n) (candidates ssh_output (h ∷ hosts) w vm_img_loc))
          ((eq_iff h host).0 p)
          (add_candidate-here w h (host_resources ssh_output h vm_img_loc) f
            (candidates ssh_output hosts w vm_img_loc)
            (ap (λ n. host_resources ssh_output n vm_img_loc) ((eq_iff h host).0 p) ∙ r)
            (has_enough-Enough w f enough))
    | inr p ↦
        add_candidate-later w h (host_resources ssh_output h vm_img_loc) (f.mem, host)
          (candidates ssh_output hosts w vm_img_loc)
          (candidates_complete hosts host f (rw (p) at listed, r, enough))
  ]

  Below-In : (m : ℕ) (x : ℕ × String) (xs : List (ℕ × String)) → Below m xs → In x xs → x.0 ≤ m
  Below-In m x [] b i = absurd i
  Below-In m x (y ∷ ys) b (inl e) = rw (← e) b.0
  Below-In m x (y ∷ ys) b (inr i) = Below-In m x ys b.1 i

  -- Whatever the hosts answer: either the choice is a listed host that answered and has enough processors,
  -- memory and disk, and no listed host that has enough of the three has more free memory; or no listed
  -- host has enough, and the program ends.
  pub select_kvm_host-cases :
      (hosts : List String)
      → ((host : String) × (f : Free) × (select_kvm_host ssh_output hosts w vm_img_loc ≡ ok host)
          × Qualifies hosts host f
          × ((h : String) (g : Free) → Qualifies hosts h g → g.mem ≤ f.mem))
        ⊎ ((select_kvm_host ssh_output hosts w vm_img_loc
              ≡ raise (died "No KVM host has enough free resources for this VM"))
            × ((h : String) (g : Free) → ¬ Qualifies hosts h g))
  unfolding select_kvm_host
  select_kvm_host-cases hosts =
      by_sorted (sort_reverse (candidates ssh_output hosts w vm_img_loc)) refl
        (sort_reverse-Best (candidates ssh_output hosts w vm_img_loc))
    where
      by_sorted :
          (l : List (ℕ × String))
          → sort_reverse (candidates ssh_output hosts w vm_img_loc) ≡ l
          → Best (candidates ssh_output hosts w vm_img_loc) l
          → ((host : String) × (f : Free) × (first_host
                  (sort_reverse (candidates ssh_output hosts w vm_img_loc))
                ≡ ok host)
              × Qualifies hosts host f
              × ((h : String) (g : Free) → Qualifies hosts h g → g.mem ≤ f.mem))
            ⊎ ((first_host (sort_reverse (candidates ssh_output hosts w vm_img_loc))
                  ≡ raise (died "No KVM host has enough free resources for this VM"))
                × ((h : String) (g : Free) → ¬ Qualifies hosts h g))
      by_sorted [] e b = inr (
        ap first_host e,
        λ h g q. subst (λ l. In (g.mem, h) l) b (candidates_complete hosts h g q),
      )
      by_sorted (y ∷ ys) e (here, below) =
          let (f, m, q) = candidates_sound hosts y here in
          inl (
            y.1,
            f,
            ap first_host e,
            q,
            λ h g p. rw (m) (Below-In y.0 (g.mem, h) _ below (candidates_complete hosts h g p)),
          )

  pub select_kvm_host-mem :
      (hosts : List String) (host : String)
      → select_kvm_host ssh_output hosts w vm_img_loc ≡ ok host
      → mem host hosts ≡ true
  select_kvm_host-mem hosts host e = elim (select_kvm_host-cases hosts) [
    | inl (h, f, p, q, best) ↦ subst (λ n. mem n hosts ≡ true) (ok-eq (sym p ∙ e)) q.0
    | inr (p, q) ↦
        (let f : ok host ≡ raise (died "No KVM host has enough free resources for this VM") =
            sym e ∙ p in
          cc)
  ]
