-- ===== src/Hosts.antt =====
-- libs/lab_creation.py: the hypervisor of a machine. What commands print over SSH, and which host has a
-- machine, are parameters. A domain's name is a word, and what a machine wants is read before the hosts
-- are asked.
pub mod Totals
pub mod Choice
pub mod Location
pub mod Images
use Prim.Native.String.{compare}
use Prim.Native.Nat.{Ordering}
use lab_in_a_box.Prelude.{
  ℕ, zero, suc, ◌+◌, ◌-◌, ◌*◌, String, Bool, true, false, not, ◌&&◌, ◌||◌, Option, none, some, List,
  [], ◌∷◌, ◌++◌, keep, Dict, get, put, str_eq, eqb, ltb, leb, if◌then◌else◌,
}
use lab_in_a_box.Result.{Result, ok, raise, died, value_error, type_error, ◌>>=◌}
use lab_in_a_box.Text.{◌<>◌, words, lstrip, rstrip, parse_nat, is_digit, is_blank}
use lab_in_a_box.Migrations.{
  Value, null, flag, number, text, items, Config, Section, object, other, Owner, Definition, truthy,
}

-- int(s), for texts that are no negative numbers
abbrev pub int_of_text : String → Option ℕ
int_of_text s = parse_nat (rstrip (lstrip s))

abbrev pub bind {ℓ κ} : {A : Type ℓ} {B : Type κ} → Option A → (A → Option B) → Option B
bind none f = none
bind (some a) f = f a

-- re.sub(r"[^0-9]", "", s)
abbrev only_digits : String → String
only_digits String.[] = String.[]
only_digits (String.◌∷◌ c s) =
    let rest = only_digits s in if is_digit c then String.◌∷◌ c rest else rest

-- What a host has free: virtual processors, and MiB of memory and disk.
pub record Free : Type 0 where
  pub cpu : ℕ
  pub mem : ℕ
  pub disk : ℕ

-- int(value)
abbrev pub int_value : Value → Result ℕ
int_value null = raise type_error
int_value (flag true) = ok 1
int_value (flag false) = ok 0
int_value (number n) = ok n
int_value (text s) = elim (int_of_text s) [ none ↦ raise value_error | some n ↦ ok n ]
int_value (items xs) = raise type_error

-- definition.get("common", {}) or {}, where that is a mapping
abbrev pub common_of : Definition → Config
common_of d = elim (get "common" d.sections) [ some (object c) ↦ c | _ ↦ [] ]

abbrev pub node_of : Definition → String → Config
node_of d vm = elim (get vm d.nodes) [ none ↦ [] | some o ↦ o.fields ]

-- node.get(key, common.get(key))
abbrev pub node_or_common : Config → Config → String → Option Value
node_or_common node common key = elim (get key node) [ none ↦ get key common | some v ↦ some v ]

-- What a machine asks for, in GiB of disk.
pub record Wanted : Type 0 where
  pub vm_cpu : ℕ
  pub vm_mem : ℕ
  pub vm_dsk : ℕ

abbrev pub has_enough : Wanted → Free → Bool
has_enough w f =
    not (ltb f.cpu w.vm_cpu) && not (ltb f.mem w.vm_mem) && not (ltb f.disk (w.vm_dsk * 1024))

abbrev pub cons_if : Bool → ℕ × String → List (ℕ × String) → List (ℕ × String)
cons_if true x xs = x ∷ xs
cons_if false x xs = xs

-- A candidate, if the host answered and has enough.
abbrev pub add_candidate : Wanted → String → Option Free → List (ℕ × String) → List (ℕ × String)
add_candidate w host none rest = rest
add_candidate w host (some f) rest = cons_if (has_enough w f) (f.mem, host) rest

-- (m, h) > (n, g)
abbrev pub comes_before : ℕ × String → ℕ × String → Bool
comes_before (m, h) (n, g) =
    if ltb n m
    then true
    else if ltb m n
    then false
    else elim (compare h g) [ Ordering.gt ↦ true | _ ↦ false ]

-- candidates.sort(reverse=True)
abbrev pub insert : ℕ × String → List (ℕ × String) → List (ℕ × String)
insert x [] = x ∷ []
insert x (y ∷ ys) = let rest = insert x ys in if comes_before y x then y ∷ rest else x ∷ y ∷ ys

abbrev pub sort_reverse : List (ℕ × String) → List (ℕ × String)
sort_reverse [] = []
sort_reverse (x ∷ xs) = insert x (sort_reverse xs)

abbrev pub first_host : List (ℕ × String) → Result String
first_host [] = raise (died "No KVM host has enough free resources for this VM")
first_host ((mem, host) ∷ rest) = ok host

-- LibvirtBackend.host_resources, from what each command prints; none where it raises.
module _ (ssh_output : (host command : String) → Option String) where
  abbrev pub int_output : String → String → Option ℕ
  int_output host command = bind (ssh_output host command) int_of_text

  abbrev pub used_cpus : String → List String → Option ℕ
  used_cpus host [] = some 0
  used_cpus host (dom ∷ running) =
      bind (int_output host ("virsh --connect qemu:///system vcpucount --current " <> dom))
        (λ n. bind (used_cpus host running) (λ m. some (n + m)))

  unfoldable pub host_resources : (host vm_img_loc : String) → Option Free
  host_resources host vm_img_loc = bind (int_output host "nproc") (λ total.
      bind (ssh_output host "virsh --connect qemu:///system list --name") (λ names.
        bind (used_cpus host (words names)) (λ used.
          bind (int_output host "free -m | awk '/^Mem:/{print $7}'") (λ mem.
            bind (ssh_output host ("df -BM --output=avail " <> vm_img_loc <> " | tail -1")) (λ out.
              bind (int_of_text (only_digits out))
                (λ disk. some (record { cpu = total - used; mem = mem; disk = disk })))))))

  abbrev pub candidates : List String → Wanted → String → List (ℕ × String)
  candidates [] w vm_img_loc = []
  candidates (host ∷ hosts) w vm_img_loc =
      let rest = candidates hosts w vm_img_loc in
      add_candidate w host (host_resources host vm_img_loc) rest

  unfoldable pub select_kvm_host : List String → Wanted → String → Result String
  unfolding host_resources
  select_kvm_host hosts w vm_img_loc = first_host (sort_reverse (candidates hosts w vm_img_loc))

-- A configuration file's values.
abbrev pub Settings : Type 0
Settings = Dict String

-- config.get(key) or default
abbrev pub setting_or : String → String → Settings → String
setting_or key default config = elim (get key config) [
  | none ↦ default
  | some s ↦ if str_eq s "" then default else s
]

unfoldable pub configured_hosts : Settings → List String × String
configured_hosts config =
    let default_host : String = elim (get "REMOTE_HOST" config) [ none ↦ "" | some s ↦ s ] in
    (words (setting_or "KVM_HOSTS" default_host config), default_host)

abbrev uri_of : String → String
uri_of host = "qemu+ssh://root@" <> host <> "/system?keyfile=.ssh/id_rsa"

unfoldable pub virt_srv_for_host : (host default_host : String) → Settings → String
virt_srv_for_host host default_host config =
    if str_eq host default_host then setting_or "VIRT_SRV" (uri_of host) config else uri_of host

-- The kvm_host of a node, a text.
abbrev pub explicit_host : Definition → String → String
explicit_host d vm = elim (get "kvm_host" (node_of d vm)) [ some (text s) ↦ s | _ ↦ "" ]

-- node_cfg.get(key, common_cfg.get(key, 0)), read by int() in select_kvm_host
abbrev wanted_value : Definition → String → String → Result ℕ
wanted_value d vm key = elim (node_or_common (node_of d vm) (common_of d) key) [
  | none ↦ ok 0
  | some v ↦ int_value v
]

abbrev pub wanted : Definition → String → Result Wanted
wanted d vm = do
  cpu ← wanted_value d vm "VM_CPU"
  mem ← wanted_value d vm "VM_MEM"
  disk ← wanted_value d vm "VM_DSK"
  ok (record { vm_cpu = cpu; vm_mem = mem; vm_dsk = disk })

-- host, _virt_srv_for_host(host, ...)
abbrev pub with_uri : Settings → String → String → String × String
with_uri config default_host host = (host, virt_srv_for_host host default_host config)

module _ (ssh_output : (host command : String) → Option String) where
  abbrev pub chosen_among :
      Definition → String → Settings → String → List String → String → Result (String × String)
  chosen_among d vm config vm_img_loc [] default_host =
      ok (with_uri config default_host default_host)
  chosen_among d vm config vm_img_loc (h ∷ []) default_host = ok (with_uri config default_host h)
  chosen_among d vm config vm_img_loc (h ∷ g ∷ hosts) default_host = do
    w ← wanted d vm
    host ← select_kvm_host ssh_output (h ∷ g ∷ hosts) w vm_img_loc
    ok (with_uri config default_host host)

  -- resolve_kvm_host, with the image location of the configuration or its default
  unfoldable pub resolve_kvm_host :
      Definition → String → Settings → String → Result (String × String)
  unfolding configured_hosts virt_srv_for_host
  resolve_kvm_host d vm config vm_img_loc =
      let (hosts, default_host) = configured_hosts config in
      let explicit = explicit_host d vm in
      if str_eq explicit ""
      then chosen_among d vm config
          (if str_eq vm_img_loc "" then "/var/lib/libvirt/images/" else vm_img_loc) hosts
          default_host
      else ok (with_uri config default_host explicit)

-- `virsh dominfo` of the machine on each host in turn.
module _ (has_domain : (host virt_srv vm : String) → Bool) where
  abbrev pub first_having : String → Settings → String → List String → Result (String × String)
  first_having vm config default_host [] = raise (died "VM not found on any configured KVM host")
  first_having vm config default_host (h ∷ hosts) =
      let rest = first_having vm config default_host hosts in
      let found = with_uri config default_host h in
      if has_domain found.0 found.1 vm then ok found else rest

  abbrev pub located_among : String → Settings → String → List String → Result (String × String)
  located_among vm config default_host [] = ok (with_uri config default_host default_host)
  located_among vm config default_host (h ∷ []) = ok (with_uri config default_host h)
  located_among vm config default_host (h ∷ g ∷ hosts) =
      first_having vm config default_host (h ∷ g ∷ hosts)

  unfoldable pub locate_kvm_host : Definition → String → Settings → Result (String × String)
  unfolding configured_hosts virt_srv_for_host
  locate_kvm_host d vm config =
      let (hosts, default_host) = configured_hosts config in
      let explicit = explicit_host d vm in
      if str_eq explicit ""
      then located_among vm config default_host hosts
      else ok (with_uri config default_host explicit)

-- list(hosts) or ([default_host] if default_host else [])
abbrev pub or_default_host : List String → String → List String
or_default_host [] default_host = if str_eq default_host "" then [] else default_host ∷ []
or_default_host (h ∷ hosts) default_host = h ∷ hosts

-- Every host that the machine may be created on.
unfoldable pub image_source_hosts : Definition → String → Settings → List String
unfolding configured_hosts
image_source_hosts d vm config =
    let (hosts, default_host) = configured_hosts config in
    let explicit = explicit_host d vm in
    if str_eq explicit "" then or_default_host hosts default_host else explicit ∷ []
