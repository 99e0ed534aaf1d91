-- ===== src/DnsZone/Sync.antt =====
-- What synchronising servers does to their files.
use mathlib.Core.Path.{subst}
use lab_in_a_box.Prelude.{
  text-ne, Option, none, some, mem-append, mem_here, eq_refl, String, Bool, true, false, ◌||◌, List,
  [], ◌∷◌, ◌++◌, any, mem, mem-later, str_eq, eq_iff, ◌≡◌, ◌≢◌, ◌⊎◌, inl, inr, refl, sym, ap, ◌∙◌,
  arith, Bool-cases,
}
use lab_in_a_box.Text.{contains}
use lab_in_a_box.DnsZone.Normal.{record_of-record_of}
use lab_in_a_box.DnsZone.{
  record_of, records, Held, union, union_with, add_record, without, sorted, write_records,
  sync_zone,
}
use lab_in_a_box.DnsZone.Write.{
  write_records-append, write_records-held, mem-sorted, mem-without, Among-map,
}
use lab_in_a_box.DnsZone.Step.{mem-add_record, Among}

-- A record of a file is that of one of its lines.
line_of :
    (r : String) (lines : List String)
    → mem r (records lines) ≡ true
    → (l : String) × (mem l lines ≡ true) × (record_of l ≡ some r)
unfolding records
line_of r [] m = cc
line_of r (l ∷ lines) m =
    by_record (λ n. let (k, at, e) = line_of r lines n in (k, mem-later k l lines at, e))
      (record_of l) refl m
  where
    by_record :
        (mem r (records lines) ≡ true
          → (k : String) × (mem k (l ∷ lines) ≡ true) × (record_of k ≡ some r))
        → (o : Option String) → record_of l ≡ o
        → mem r (add_record o (records lines)) ≡ true
        → (k : String) × (mem k (l ∷ lines) ≡ true) × (record_of k ≡ some r)
    by_record again none e n = again n
    by_record again (some x) e n = elim (Bool-cases (str_eq x r)) [
      | inl p ↦ (l, mem_here l lines, e ∙ ap some ((eq_iff x r).0 p))
      | inr p ↦ again (sym (mem-add_record r x (records lines) ∙ rw (p) refl) ∙ n)
    ]

mem-records :
    (r l : String) (lines : List String)
    → mem l lines ≡ true
    → record_of l ≡ some r
    → mem r (records lines) ≡ true
unfolding records
mem-records r l [] m e = cc
mem-records r l (k ∷ lines) m e = elim (Bool-cases (str_eq k l)) [
  | inl p ↦
      ap (λ o. mem r (add_record o (records lines))) (ap record_of ((eq_iff k l).0 p) ∙ e)
      ∙ mem-add_record r r (records lines)
      ∙ rw (eq_refl r) refl
  | inr p ↦ mem-add_record_later (record_of k) (mem-records r l lines (rw (p) at m) e)
]
  where
    mem-add_record_later :
        (o : Option String)
        → mem r (records lines) ≡ true
        → mem r (add_record o (records lines)) ≡ true
    mem-add_record_later none n = n
    mem-add_record_later (some x) n = mem-add_record r x (records lines) ∙ ground (arith, n)

record_of-union_with :
    (r : String) (xs ys : List String)
    → (mem r xs ≡ true → record_of r ≡ some r)
    → (mem r ys ≡ true → record_of r ≡ some r)
    → mem r (union_with xs ys) ≡ true
    → record_of r ≡ some r
record_of-union_with r [] ys f g m = g m
record_of-union_with r (x ∷ xs) ys f g m = elim (Bool-cases (str_eq x r)) [
  | inl p ↦ f (rw (p) refl)
  | inr p ↦
      record_of-union_with r xs ys (λ n. f (mem-later r x xs n)) g
        (sym (mem-add_record r x (union_with xs ys) ∙ rw (p) refl) ∙ m)
]

-- What any server has is a record.
record_of-union : (r : String) (held : Held) → mem r (union held) ≡ true → record_of r ≡ some r
record_of-union r [] m = cc
record_of-union r (h ∷ held) m =
    record_of-union_with r (records h.1) (union held)
      (λ n. let (l, at, e) = line_of r h.1 n in record_of-record_of l r e) (record_of-union r held)
      m

mem-write_records_here :
    (r : String) (rs lines : List String)
    → mem r rs ≡ true
    → mem r (write_records "" rs lines) ≡ true
unfolding write_records
mem-write_records_here r [] lines m = cc
mem-write_records_here r (x ∷ rs) lines m = elim (Bool-cases (str_eq x r)) [
  | inl p ↦
      let (extra, e) = write_records-append "" rs (lines ++ x ∷ []) in
      ap (mem r) e
      ∙ mem-append r (lines ++ x ∷ []) extra
      ∙ ap (λ b. b || mem r extra)
          (mem-append r lines (x ∷ [])
            ∙ ap (λ z. mem r lines || (z || false)) p
            ∙ or_true (mem r lines))
  | inr p ↦ mem-write_records_here r rs (lines ++ x ∷ []) (rw (p) at m)
]
  where
    or_true : (b : Bool) → (b || true) ≡ true
    or_true true = refl
    or_true false = refl

mem-records_kept :
    (r : String) (lines extra : List String)
    → mem r (records lines) ≡ true
    → mem r (records (lines ++ extra)) ≡ true
mem-records_kept r lines extra m =
    let (l, at, e) = line_of r lines m in
    mem-records r l (lines ++ extra) (mem-append l lines extra ∙ ap (λ b. b || mem l extra) at) e

-- After a synchronisation each server's file is what it was, with lines behind it. Each record that any
-- server had is then among the records of this host; and on another server it is among the records, or is
-- contained in a line of the file.
pub sync_zone_lem :
    (held : Held) (x : String × List String)
    → Among x held
    → (extra : List String) × Among (x.0, x.1 ++ extra) (sync_zone held)
      × ((r : String)
          → mem r (union held) ≡ true
          → (mem r (records (x.1 ++ extra)) ≡ true)
            ⊎ ((x.0 ≢ "") × (any (contains r) (x.1 ++ extra) ≡ true)))
unfolding sync_zone
sync_zone_lem held x among =
    let missing : List String = sorted (without (union held) (records x.1)) in
    let (extra, e) = write_records-append x.0 missing x.1 in
    (
      extra,
      subst (λ l. Among (x.0, l) (sync_zone held)) e
          (Among-map
            (λ h. (h.0, write_records h.0 (sorted (without (union held) (records h.1))) h.1)) x held
            among),
      λ r m. elim (Bool-cases (mem r (records x.1))) [
        | inl i ↦ inl (mem-records_kept r x.1 extra i)
        | inr i ↦
            let wanted : mem r missing ≡ true =
              mem-sorted r (without (union held) (records x.1))
              ∙ mem-without r (union held) (records x.1) m i in
            elim (Bool-cases (str_eq x.0 "")) [
              | inl p ↦ inl (
                  mem-records r r (x.1 ++ extra)
                    (ap (mem r) (sym e)
                      ∙ ap (λ n. mem r (write_records n missing x.1)) ((eq_iff x.0 "").0 p)
                      ∙ mem-write_records_here r missing x.1 wanted)
                    (record_of-union r held m))
              | inr p ↦ inr (
                text-ne x.0 "" p,
                ap (any (contains r)) (sym e) ∙ write_records-held x.0 r missing x.1 wanted,
              )
            ]
      ],
    )
