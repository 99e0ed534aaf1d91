-- ===== src/DnsZone/Local/Gone.antt =====
-- What adding and then removing a machine leaves.
use lab_in_a_box.Prelude.{
  String, Bool, true, false, not, Option, none, some, List, [], ◌∷◌, ◌++◌, append-nil, keep,
  keep-append, keep-keep, mem, str_eq, eq_iff, eq_refl, ◌≡◌, inl, inr, refl, sym, ap, ◌∙◌, arith,
  Bool-cases,
}
use lab_in_a_box.Text.{◌<>◌, words}
use lab_in_a_box.Text.Words.{is_word, words-cons}
use lab_in_a_box.Migrations.Steps.{ends_with}
use lab_in_a_box.DnsZone.Local.{
  Files, joined_lines, dns_add_line, dns_remove_line, dns_remove_service_lines,
  dns_remove_ptr_for_octet, first_is, octet_of, a_record, ptr_record, hosts_suffix,
  update_hosts_file, if_reverse, add_to_dns, del_from_dns,
}

-- A line that was added is gone once it is removed.
dns_remove_line-dns_add_line :
    (r : String) (lines : List String)
    → dns_remove_line r (dns_add_line r lines) ≡ dns_remove_line r lines
unfolding dns_remove_line dns_add_line
dns_remove_line-dns_add_line r lines = elim (Bool-cases (mem r lines)) [
  | inl i ↦ rw (i) refl
  | inr i ↦ rw (i) (
      ap joined_lines (
        keep-append (λ l. not (str_eq l r)) lines (r ∷ [])
        ∙ rw (eq_refl r) (append-nil (keep (λ l. not (str_eq l r)) lines))))
]

-- Removing lines of which none is left changes nothing.
keep_none :
    (test other : String → Bool) (lines : List String)
    → ((l : String) → other l ≡ true → test l ≡ true)
    → keep test (keep other lines) ≡ keep other lines
keep_none test other [] h = refl
keep_none test other (l ∷ lines) h = elim (Bool-cases (other l)) [
  | inl o ↦ rw (o, h l o) (ap (λ ls. l ∷ ls) (keep_none test other lines h))
  | inr o ↦ rw (o) (keep_none test other lines h)
]

-- Nor does it where the file that is left holds an empty line, which is kept.
joined_lines-keep :
    (test : String → Bool) (lines : List String)
    → test "" ≡ true
    → keep test lines ≡ lines
    → joined_lines (keep test (joined_lines lines)) ≡ joined_lines lines
joined_lines-keep test [] h e = rw (h) refl
joined_lines-keep test (l ∷ lines) h e = ap joined_lines e

ends_with-append : (s t : String) → ends_with (s <> t) t ≡ true
ends_with-append String.[] String.[] = refl
ends_with-append String.[] (String.◌∷◌ c t) = rw (eq_refl (String.◌∷◌ c t)) refl
ends_with-append (String.◌∷◌ c s) t = ground (arith, ends_with-append s t)

-- The line that is put behind the kept ones is dropped with the others.
keep-keep_last :
    (test : String → Bool) (lines : List String) (l : String)
    → test l ≡ false
    → keep test (keep test lines ++ l ∷ []) ≡ keep test lines
keep-keep_last test lines l e =
    keep-append test (keep test lines) (l ∷ []) ∙ rw (e, append-nil) (keep-keep test lines)

first_is-ptr_record :
    (vm_name myip : String)
    → is_word (octet_of myip) ≡ true
    → first_is (octet_of myip) (words (ptr_record vm_name myip)) ≡ true
first_is-ptr_record vm_name myip h =
    ap (first_is (octet_of myip))
      (words-cons (octet_of myip) ("     IN  PTR     " <> vm_name <> ".") h)
    ∙ eq_refl (octet_of myip)

-- Without the lines of the octet there is none of the machine's.
dns_remove_line-dns_remove_ptr_for_octet :
    (vm_name myip : String) (lines : List String)
    → is_word (octet_of myip) ≡ true
    → dns_remove_line (ptr_record vm_name myip) (dns_remove_ptr_for_octet (octet_of myip) lines)
      ≡ dns_remove_ptr_for_octet (octet_of myip) lines
unfolding dns_remove_line dns_remove_ptr_for_octet words lab_in_a_box.Text.span
dns_remove_line-dns_remove_ptr_for_octet vm_name myip lines h =
    joined_lines-keep (λ l. not (str_eq l (ptr_record vm_name myip)))
      (keep (λ l. not (first_is (octet_of myip) (words l))) lines) (differs "" refl)
      (keep_none (λ l. not (str_eq l (ptr_record vm_name myip)))
        (λ l. not (first_is (octet_of myip) (words l))) lines differs)
  where
    differs :
        (l : String)
        → not (first_is (octet_of myip) (words l)) ≡ true
        → not (str_eq l (ptr_record vm_name myip)) ≡ true
    differs l e = elim (Bool-cases (str_eq l (ptr_record vm_name myip))) [
      | inr p ↦ rw (p) refl
      | inl p ↦
          let same : first_is (octet_of myip) (words l) ≡ true =
            ap (λ z. first_is (octet_of myip) (words z)) ((eq_iff l (ptr_record vm_name myip)).0 p)
            ∙ first_is-ptr_record vm_name myip h in
          (let f : false ≡ true = sym (ap not same) ∙ e in cc)
    ]

update_hosts_file_twice :
    (vm_name myip : String) (hosts : Option (List String))
    → update_hosts_file vm_name none (update_hosts_file vm_name (some myip) hosts)
      ≡ update_hosts_file vm_name none hosts
unfolding update_hosts_file
update_hosts_file_twice vm_name myip none = refl
update_hosts_file_twice vm_name myip (some lines) = elim (Bool-cases (str_eq myip "")) [
  | inl p ↦ rw (p) (ap some (keep-keep (λ l. not (ends_with l (hosts_suffix vm_name))) lines))
  | inr p ↦ rw (p) (
      ap some (
        keep-keep_last (λ l. not (ends_with l (hosts_suffix vm_name))) lines
          (myip <> hosts_suffix vm_name) (ap not (ends_with-append myip (hosts_suffix vm_name)))))
]

-- For an address whose part behind the last dot is a word: a machine that is added and then removed leaves
-- the forward zone and the hosts file as its removal alone would, and, where a reverse zone is given, that
-- zone as it was without the lines of the address.
pub del_from_dns-add_to_dns :
    (vm_name myip mynet_reverse : String) (f : Files)
    → is_word (octet_of myip) ≡ true
    → ((del_from_dns vm_name myip mynet_reverse (add_to_dns vm_name myip mynet_reverse f)).lan
        ≡ (del_from_dns vm_name myip mynet_reverse f).lan)
      × ((del_from_dns vm_name myip mynet_reverse (add_to_dns vm_name myip mynet_reverse f)).hosts
          ≡ (del_from_dns vm_name myip mynet_reverse f).hosts)
      × ((del_from_dns vm_name myip mynet_reverse (add_to_dns vm_name myip mynet_reverse f)).rev
          ≡ if_reverse mynet_reverse (dns_remove_ptr_for_octet (octet_of myip)) f.rev)
unfolding del_from_dns add_to_dns
del_from_dns-add_to_dns vm_name myip mynet_reverse f h = (
  ap (dns_remove_service_lines myip) (dns_remove_line-dns_add_line (a_record vm_name myip) f.lan),
  update_hosts_file_twice vm_name myip f.hosts,
  elim (Bool-cases (str_eq mynet_reverse "")) [
    | inl p ↦ rw (p) refl
    | inr p ↦ rw (p) (
        dns_remove_line-dns_add_line (ptr_record vm_name myip)
          (dns_remove_ptr_for_octet (octet_of myip) f.rev)
        ∙ dns_remove_line-dns_remove_ptr_for_octet vm_name myip f.rev h)
  ],
)
