-- ===== src/DnsZone/Local.antt =====
-- libs/services.py: this host's zone files and hosts file when a machine comes and goes (add_to_dns without
-- replace, del_from_dns), where its zones are declared already, their files exist, and no other server is to
-- be written.
pub mod Gone
use lab_in_a_box.Prelude.{
  String, Bool, true, false, not, ◌&&◌, ◌||◌, Option, none, some, List, [], ◌∷◌, ◌++◌, keep, mem,
  str_eq, if◌then◌else◌,
}
use lab_in_a_box.Text.{◌<>◌, words, split_on}
use lab_in_a_box.Migrations.Steps.{ends_with}

pub record Files : Type 0 where
  pub lan : List String
  pub rev : List String
  -- where LAB_HOSTS_FILE is set
  pub hosts : Option (List String)

-- _dns_add_line
unfoldable pub dns_add_line : String → List String → List String
dns_add_line r lines = if mem r lines then lines else lines ++ r ∷ []

-- The lines of "\n".join(lines) + "\n": a file of which no line is left holds an empty one.
abbrev pub joined_lines : List String → List String
joined_lines [] = "" ∷ []
joined_lines (l ∷ lines) = l ∷ lines

-- _dns_remove_line
unfoldable pub dns_remove_line : String → List String → List String
dns_remove_line r lines = joined_lines (keep (λ l. not (str_eq l r)) lines)

abbrev pub service_suffix : String → String
service_suffix ip = "\tIN A  " <> ip

-- _dns_remove_service_lines
unfoldable pub dns_remove_service_lines : String → List String → List String
dns_remove_service_lines ip lines =
    if str_eq ip ""
    then lines
    else joined_lines (keep (λ l. not (ends_with l (service_suffix ip))) lines)

-- l.split()[:1] == [octet]
abbrev pub first_is : String → List String → Bool
first_is octet [] = false
first_is octet (w ∷ ws) = str_eq w octet

-- _dns_remove_ptr_for_octet
unfoldable pub dns_remove_ptr_for_octet : String → List String → List String
dns_remove_ptr_for_octet octet lines =
    joined_lines (keep (λ l. not (first_is octet (words l))) lines)

abbrev pub first_part : List String → String
first_part [] = ""
first_part (p ∷ ps) = p

abbrev pub last_part : List String → String
last_part [] = ""
last_part (p ∷ []) = p
last_part (p ∷ q ∷ ps) = last_part (q ∷ ps)

abbrev pub short_of : String → String
short_of vm_name = first_part (split_on 46 vm_name)

abbrev pub octet_of : String → String
octet_of myip = last_part (split_on 46 myip)

abbrev pub a_record : (vm_name myip : String) → String
a_record vm_name myip = short_of vm_name <> "         IN  A       " <> myip

abbrev pub ptr_record : (vm_name myip : String) → String
ptr_record vm_name myip = octet_of myip <> "      IN  PTR     " <> vm_name <> "."

abbrev pub hosts_suffix : String → String
hosts_suffix vm_name = "  " <> vm_name <> " " <> short_of vm_name <> "  # lab-in-a-box"

-- _update_hosts_file, with an address or with none
unfoldable pub update_hosts_file :
    (vm_name : String) → (myip : Option String) → Option (List String) → Option (List String)
update_hosts_file vm_name myip none = none
update_hosts_file vm_name none (some lines) =
    some (keep (λ l. not (ends_with l (hosts_suffix vm_name))) lines)
update_hosts_file vm_name (some myip) (some lines) =
    let kept = keep (λ l. not (ends_with l (hosts_suffix vm_name))) lines in
    some (if str_eq myip "" then kept else kept ++ (myip <> hosts_suffix vm_name) ∷ [])

abbrev pub if_reverse : String → (List String → List String) → List String → List String
if_reverse mynet_reverse f lines = if str_eq mynet_reverse "" then lines else f lines

unfoldable pub add_to_dns : (vm_name myip mynet_reverse : String) → Files → Files
unfolding dns_add_line dns_remove_ptr_for_octet update_hosts_file
add_to_dns vm_name myip mynet_reverse f = record {
  lan = dns_add_line (a_record vm_name myip) f.lan;
  rev =
      if_reverse mynet_reverse (dns_add_line (ptr_record vm_name myip))
        (if_reverse mynet_reverse (dns_remove_ptr_for_octet (octet_of myip)) f.rev);
  hosts = update_hosts_file vm_name (some myip) f.hosts;
}

unfoldable pub del_from_dns : (vm_name myip mynet_reverse : String) → Files → Files
unfolding dns_remove_line dns_remove_service_lines update_hosts_file
del_from_dns vm_name myip mynet_reverse f = record {
  lan = dns_remove_service_lines myip (dns_remove_line (a_record vm_name myip) f.lan);
  rev = if_reverse mynet_reverse (dns_remove_line (ptr_record vm_name myip)) f.rev;
  hosts = update_hosts_file vm_name none f.hosts;
}
