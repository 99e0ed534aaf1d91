-- ===== src/Samples/Machines.antt =====
-- Three hypervisors, of which one does not answer, and a machine that wants 4 processors.
use lab_in_a_box.Prelude.{
  some, mem, ◌≤◌, String, Bool, Option, none, List, [], ◌∷◌, Dict, get, str_eq, if◌then◌else◌, ◌≡◌,
  ◌⊎◌, refl,
}
use lab_in_a_box.Result.{ok, raise, died}
use lab_in_a_box.Migrations.{text, number, object, Definition}
use lab_in_a_box.Hosts.{
  Settings, Free, Wanted, host_resources, select_kvm_host, configured_hosts, virt_srv_for_host,
  resolve_kvm_host, locate_kvm_host,
}
use lab_in_a_box.Hosts.Choice.{Qualifies, select_kvm_host-cases}
use lab_in_a_box.Yaml.{text as scalar_text, yaml_scalar}
use lab_in_a_box.Yaml.Quoted.{read_scalar, read_scalar-yaml_scalar}
use lab_in_a_box.Hosts.Location.{locate_kvm_host-resolve_kvm_host}

-- A host's memory, and what its other commands print.
abbrev outputs : String → Dict String
outputs mem =
    ("nproc", "16")
    ∷ ("virsh --connect qemu:///system list --name", "dns web")
    ∷ ("virsh --connect qemu:///system vcpucount --current dns", "2")
    ∷ ("virsh --connect qemu:///system vcpucount --current web", "4")
    ∷ ("free -m | awk '/^Mem:/{print $7}'", mem)
    ∷ ("df -BM --output=avail /images | tail -1", " 90000M")
    ∷ []

abbrev printed : String → String → Option String
printed host command =
    if str_eq host "k1"
    then get command (outputs "8000")
    else if str_eq host "k2"
    then get command (outputs "9000")
    else none

abbrev hosts : List String
hosts = "k1" ∷ "k2" ∷ "k3" ∷ []

abbrev machine : Wanted
machine = record { vm_cpu = 4; vm_mem = 4096; vm_dsk = 40 }

select_kvm_host-cases_example :
    ((host : String) × (f : Free) × (select_kvm_host printed hosts machine "/images" ≡ ok host)
      × Qualifies printed machine "/images" hosts host f
      × ((h : String) (g : Free) → Qualifies printed machine "/images" hosts h g → g.mem ≤ f.mem))
    ⊎ ((select_kvm_host printed hosts machine "/images"
          ≡ raise (died "No KVM host has enough free resources for this VM"))
        × ((h : String) (g : Free) → ¬ Qualifies printed machine "/images" hosts h g))
select_kvm_host-cases_example = select_kvm_host-cases printed machine "/images" hosts

abbrev settings : Settings
settings = ("REMOTE_HOST", "k1") ∷ ("KVM_HOSTS", "k1 k2 k3") ∷ []

abbrev lab : Definition
lab = record {
  sections = ("common", object (("VM_CPU", text "4") ∷ ("VM_MEM", number 4096) ∷ [])) ∷ [];
  kclusters = [];
  nodes = ("n1", record { fields = ("VM_DSK", text "40") ∷ []; addons = [] }) ∷ [];
  schema_versions = [];
}

abbrev on_k2 : String → String → String → Bool
on_k2 host virt_srv vm = str_eq host "k2"

abbrev uri : String
uri = "qemu+ssh://root@k2/system?keyfile=.ssh/id_rsa"

select_kvm_host_picks : select_kvm_host printed hosts machine "/images" ≡ ok "k2"
unfolding select_kvm_host host_resources lab_in_a_box.Text.parse_nat lab_in_a_box.Text.digits_value
    lab_in_a_box.Text.is_digit lab_in_a_box.Text.words lab_in_a_box.Text.span
    lab_in_a_box.Text.is_space lab_in_a_box.Text.lstrip lab_in_a_box.Text.rstrip
select_kvm_host_picks = refl

locate_kvm_host-resolve_kvm_host_example : locate_kvm_host on_k2 lab "n1" settings ≡ ok ("k2", uri)
unfolding resolve_kvm_host configured_hosts virt_srv_for_host select_kvm_host host_resources
    lab_in_a_box.Text.parse_nat lab_in_a_box.Text.digits_value lab_in_a_box.Text.is_digit
    lab_in_a_box.Text.words lab_in_a_box.Text.span lab_in_a_box.Text.is_space
    lab_in_a_box.Text.lstrip lab_in_a_box.Text.rstrip
locate_kvm_host-resolve_kvm_host_example =
    locate_kvm_host-resolve_kvm_host printed on_k2 lab "n1" settings "/images" ("k2", uri) refl
      (λ h. refl)

read_scalar-yaml_scalar_example :
    read_scalar (yaml_scalar (scalar_text "a\"b\\: c\n")) ≡ some "a\"b\\: c\n"
unfolding lab_in_a_box.Yaml.Quoted.is_plain
read_scalar-yaml_scalar_example = read_scalar-yaml_scalar "a\"b\\: c\n" refl
