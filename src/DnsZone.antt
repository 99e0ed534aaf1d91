-- ===== src/DnsZone.antt =====
-- libs/dns_zone.py and libs/services.py: the text of a zone, its comparable records, and bringing the zone
-- files of several servers into step. A file is the list of its lines.
pub mod Step
pub mod Write
pub mod Sync
pub mod Header
pub mod Normal
pub mod Local
use Prim.Native.String.{compare}
use Prim.Native.Nat.{Ordering}
use lab_in_a_box.Prelude.{
  ℕ, Char, code, String, Bool, true, false, not, ◌&&◌, ◌||◌, Option, none, some, List, [], ◌∷◌,
  ◌++◌, map, any, keep, mem, length, eqb, ltb, Dict, str_eq, if◌then◌else◌,
}
use lab_in_a_box.Text.{
  ◌<>◌, words, join, lower, contains, starts_with, lstrip, rstrip, is_digit, is_empty, all_chars,
  show,
}

abbrev debian_ids : List String
debian_ids = "debian" ∷ "ubuntu" ∷ "raspbian" ∷ "linuxmint" ∷ "devuan" ∷ "pop" ∷ []

-- Whether os-release names the Debian family.
abbrev pub is_debian : (os_id os_like : String) → Bool
is_debian os_id os_like =
    mem (lower os_id) debian_ids
    || (contains "debian" (lower os_like) || contains "ubuntu" (lower os_like))

unfoldable pub zone_dir : (os_id os_like : String) → String
unfolding lower
zone_dir os_id os_like = if is_debian os_id os_like then "/etc/bind" else "/var/lib/named"

abbrev pub forward_file : String → String
forward_file mydomain = mydomain <> ".lan"

abbrev pub reverse_file : String → String
reverse_file mynet_reverse = mynet_reverse <> ".db"

abbrev pub reverse_zone : String → String
reverse_zone mynet_reverse = mynet_reverse <> ".in-addr.arpa"

abbrev pub soa_line : String → String
soa_line d = "@ IN SOA ns." <> d <> ". admin." <> d <> ". ( 1 3600 900 604800 300 )"

abbrev pub forward_header : String → ℕ → List String
forward_header d ttl =
    ("$TTL " <> show ttl) ∷ soa_line d ∷ ("@ IN NS ns." <> d <> ".") ∷ "ns IN A 127.0.0.1" ∷ []

abbrev pub reverse_header : (mydomain mynet_reverse : String) → ℕ → List String
reverse_header d net ttl = ("$TTL " <> show ttl) ∷ soa_line d ∷ ("@ IN NS ns." <> d <> ".") ∷ []

unfoldable pub local_named_conf : (os_id os_like : String) → String
unfolding zone_dir
local_named_conf os_id os_like =
    if str_eq (zone_dir os_id os_like) "/etc/bind"
    then "/etc/bind/named.conf.local"
    else "/etc/named.conf"

unfoldable pub remote_named_conf : (os_id os_like : String) → String
unfolding zone_dir
remote_named_conf os_id os_like =
    if str_eq (zone_dir os_id os_like) "/etc/bind"
    then "/etc/bind/named.conf.local"
    else "/etc/named.lab.conf"

unfoldable pub main_named_conf : (os_id os_like : String) → String
unfolding zone_dir
main_named_conf os_id os_like =
    if str_eq (zone_dir os_id os_like) "/etc/bind"
    then "/etc/bind/named.conf"
    else "/etc/named.conf"

unfoldable pub include_needed : (os_id os_like : String) → Bool
unfolding remote_named_conf
include_needed os_id os_like =
    not (str_eq (remote_named_conf os_id os_like) "/etc/bind/named.conf.local")

unfoldable pub zone_path : (file_name os_id os_like : String) → String
unfolding zone_dir
zone_path file_name os_id os_like = zone_dir os_id os_like <> "/" <> file_name

abbrev pub stanza : (zone zone_file : String) → String
stanza zone zone_file =
    "zone \"" <> zone <> "\" { type master; file \"" <> zone_file
    <> "\"; allow-update { none; }; };"

-- line.split(";")[0]
unfoldable pub before_comment : String → String
before_comment String.[] = String.[]
before_comment (String.◌∷◌ c s) =
    let rest = before_comment s in if eqb (code c) 59 then String.[] else String.◌∷◌ c rest

-- fields[0].isdigit() and len(fields) < 3
abbrev is_continuation : String → List String → Bool
is_continuation first fields =
    (all_chars is_digit first && not (is_empty first)) && ltb (length fields) 3

abbrev pub record_of_fields : List String → Option String
record_of_fields [] = none
record_of_fields (f ∷ fs) =
    if mem f ("IN" ∷ "SOA" ∷ "NS" ∷ "MX" ∷ "ns" ∷ [])
    then none
    else if is_continuation f (f ∷ fs)
    then none
    else some (join " " (f ∷ fs))

-- The record of a line that is stripped of its comment.
abbrev pub record_of_stripped : String → Option String
record_of_stripped line =
    if is_empty line || (starts_with line "$" || (starts_with line "@" || starts_with line ")"))
    then none
    else record_of_fields (words line)

unfoldable pub record_of : String → Option String
unfolding before_comment lstrip rstrip starts_with words join is_digit
record_of line = record_of_stripped (rstrip (lstrip (before_comment line)))

-- out.add(record)
abbrev pub add_record : Option String → List String → List String
add_record none out = out
add_record (some r) out = if mem r out then out else r ∷ out

-- A set, as the list of its elements.
unfoldable pub records : List String → List String
unfolding record_of
records [] = []
records (line ∷ lines) = add_record (record_of line) (records lines)

-- A file of each server; this host is "".
abbrev pub Held : Type 0
Held = Dict (List String)

abbrev pub union_with : List String → List String → List String
union_with [] ys = ys
union_with (x ∷ xs) ys = add_record (some x) (union_with xs ys)

abbrev pub union : Held → List String
union [] = []
union ((server, lines) ∷ held) = union_with (records lines) (union held)

-- xs - ys
abbrev pub without : List String → List String → List String
without xs ys = keep (λ x. not (mem x ys)) xs

abbrev text_leb : String → String → Bool
text_leb a b = elim (compare a b) [ Ordering.gt ↦ false | _ ↦ true ]

abbrev pub insert : String → List String → List String
insert x [] = x ∷ []
insert x (y ∷ ys) = let rest = insert x ys in if text_leb x y then x ∷ y ∷ ys else y ∷ rest

abbrev pub sorted : List String → List String
sorted [] = []
sorted (x ∷ xs) = insert x (sorted xs)

-- A row of _compare_zone: the server, what its file is missing, and what it alone holds.
abbrev pub Row : Type 0
Row = String × (List String × List String)

abbrev pub others_of : String → Held → List String
others_of server held = union (keep (λ h. not (str_eq h.0 server)) held)

abbrev pub compare_row : Held → String × List String → Row
compare_row held (server, lines) =
    let alone : List String =
      if ltb 1 (length held) then without (records lines) (others_of server held) else [] in
    (server, (without (union held) (records lines), alone))

unfoldable pub compare_zone : Held → List Row
unfolding records
compare_zone held = map (compare_row held) held

-- _dns_append_line for this host; elsewhere _remote_dns_add, whose grep -qF finds the record in any part of
-- a line.
abbrev pub add_line : String → String → List String → List String
add_line server r lines =
    if str_eq server ""
    then lines ++ r ∷ []
    else if any (contains r) lines
    then lines
    else lines ++ r ∷ []

unfoldable pub write_records : String → List String → List String → List String
write_records server [] lines = lines
write_records server (r ∷ rs) lines = write_records server rs (add_line server r lines)

-- What sync_zone leaves in a zone file of each server.
unfoldable pub sync_zone : Held → Held
unfolding records write_records
sync_zone held =
    map (λ h. (h.0, write_records h.0 (sorted (without (union held) (records h.1))) h.1)) held

-- field.replace("\\", "\\\\").replace(".", "\\.")
abbrev pub escaped : String → String
escaped String.[] = String.[]
escaped (String.◌∷◌ c s) =
    if eqb (code c) 92
    then "\\\\" <> escaped s
    else if eqb (code c) 46
    then "\\." <> escaped s
    else String.◌∷◌ c (escaped s)

unfoldable pub pattern_of : String → String
unfolding words join
pattern_of r = "^[[:space:]]*" <> join "[[:space:]]+" (map escaped (words r)) <> "[[:space:]]*$"
