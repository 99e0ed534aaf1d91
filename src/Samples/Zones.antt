-- ===== src/Samples/Zones.antt =====
-- Zone files of this host and of a second server.
use lab_in_a_box.Prelude.{
  ◌≢◌, String, true, some, List, [], ◌∷◌, any, mem, ◌≡◌, ◌⊎◌, refl, inl, inr,
}
use lab_in_a_box.Text.{contains}
use lab_in_a_box.DnsZone.{records, Held, union, sync_zone}
use lab_in_a_box.DnsZone.Local.{
  Files, add_to_dns, del_from_dns, if_reverse, dns_remove_ptr_for_octet,
}
use lab_in_a_box.DnsZone.Local.Gone.{del_from_dns-add_to_dns}
use lab_in_a_box.DnsZone.Step.{Among}
use lab_in_a_box.DnsZone.Sync.{sync_zone_lem}

abbrev here : String × List String
here = ("", "web  IN A 10.0.0.1" ∷ [])

abbrev second : String × List String
second = ("ns2", "@ IN NS ns." ∷ "web IN A   10.0.0.1 ; the site" ∷ [])

abbrev held : Held
held = here ∷ second ∷ []

abbrev third : String × List String
third = ("ns3", "db IN A 10.0.0.2" ∷ [])

sync_zone_lem_example :
    (extra : List String) × Among
      ("ns3", "db IN A 10.0.0.2" ∷ extra)
      (sync_zone (here ∷ third ∷ []))
    × ((r : String)
        → mem r (union (here ∷ third ∷ [])) ≡ true
        → (mem r (records ("db IN A 10.0.0.2" ∷ extra)) ≡ true)
          ⊎ ((◌≢◌ {A = String} "ns3" "") × (any (contains r) ("db IN A 10.0.0.2" ∷ extra) ≡ true)))
sync_zone_lem_example = sync_zone_lem (here ∷ third ∷ []) third (inr (inl refl))

abbrev files : Files
files = record {
  lan = "dns         IN  A       10.0.0.2" ∷ "app\tIN A  10.0.0.7" ∷ [];
  rev = "7      IN  PTR     old.lab.test." ∷ [];
  hosts = some ("10.0.0.2  dns.lab.test dns  # lab-in-a-box" ∷ []);
}

abbrev gone : Files
gone =
    del_from_dns "web.lab.test" "10.0.0.7" "0.0.10"
      (add_to_dns "web.lab.test" "10.0.0.7" "0.0.10" files)

del_from_dns-add_to_dns_example :
    (gone.lan ≡ (del_from_dns "web.lab.test" "10.0.0.7" "0.0.10" files).lan)
    × (gone.hosts ≡ (del_from_dns "web.lab.test" "10.0.0.7" "0.0.10" files).hosts)
    × (gone.rev ≡ if_reverse "0.0.10" (dns_remove_ptr_for_octet "7") files.rev)
unfolding lab_in_a_box.Text.split_on lab_in_a_box.Text.span_on lab_in_a_box.Text.is_space
del_from_dns-add_to_dns_example =
    del_from_dns-add_to_dns "web.lab.test" "10.0.0.7" "0.0.10" files refl
