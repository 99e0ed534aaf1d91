-- ===== src/Hosts/Location.antt =====
-- A machine is found where it was created.
use mathlib.Core.Path.{subst}
use lab_in_a_box.Prelude.{
  String, Bool, true, Option, List, [], ◌∷◌, mem, str_eq, if◌then◌else◌, ◌≡◌, inl, inr, sym, ap,
  ◌∙◌, eq_iff, Bool-cases,
}
use lab_in_a_box.Result.{ok, ok-eq, bind-ok, ◌>>=◌}
use lab_in_a_box.Migrations.{Definition}
use lab_in_a_box.Hosts.{
  Settings, wanted, with_uri, configured_hosts, virt_srv_for_host, explicit_host, select_kvm_host,
  chosen_among, resolve_kvm_host, first_having, located_among, locate_kvm_host,
}
use lab_in_a_box.Hosts.Choice.{select_kvm_host-mem}

module _ (ssh_output : (host command : String) → Option String)
    (has_domain : (host virt_srv vm : String) → Bool) where
  -- Only the host of the name has the machine.
  abbrev pub OnlyOn : String → Settings → String → String → Type 0
  OnlyOn vm config default_host host =
      (h : String) → has_domain h (virt_srv_for_host h default_host config) vm ≡ str_eq h host

  first_having-OnlyOn :
      (vm : String) (config : Settings) (default_host host : String) (hosts : List String)
      → OnlyOn vm config default_host host
      → mem host hosts ≡ true
      → first_having has_domain vm config default_host hosts
        ≡ ok (with_uri config default_host host)
  first_having-OnlyOn vm config default_host host [] only m = cc
  first_having-OnlyOn vm config default_host host (h ∷ hosts) only m =
      elim (Bool-cases (str_eq h host)) [
        | inl p ↦
            rw (only h, p) (ap (λ n. ok (with_uri config default_host n)) ((eq_iff h host).0 p))
        | inr p ↦
            rw (only h, p)
              (first_having-OnlyOn vm config default_host host hosts only (rw (p) at m))
      ]

  located_among-chosen :
      (d : Definition) (vm : String) (config : Settings) (vm_img_loc default_host : String)
      (hosts : List String) (found : String × String)
      → chosen_among ssh_output d vm config vm_img_loc hosts default_host ≡ ok found
      → OnlyOn vm config default_host found.0
      → located_among has_domain vm config default_host hosts ≡ ok found
  located_among-chosen d vm config vm_img_loc default_host [] found e only = e
  located_among-chosen d vm config vm_img_loc default_host (h ∷ []) found e only = e
  located_among-chosen d vm config vm_img_loc default_host (h ∷ g ∷ hosts) found e only =
      let (w, p, f) =
        bind-ok (wanted d vm)
          (λ w. select_kvm_host ssh_output (h ∷ g ∷ hosts) w vm_img_loc >>= λ host.
            ok (with_uri config default_host host))
          found e in
      let (host, q, r) =
        bind-ok (select_kvm_host ssh_output (h ∷ g ∷ hosts) w vm_img_loc)
          (λ host. ok (with_uri config default_host host)) found f in
      let same : with_uri config default_host host ≡ found = ok-eq r in
      first_having-OnlyOn vm config default_host host (h ∷ g ∷ hosts)
        (subst (λ x. OnlyOn vm config default_host x.0) (sym same) only)
        (select_kvm_host-mem ssh_output w vm_img_loc (h ∷ g ∷ hosts) host q)
      ∙ ap ok same

  -- A machine that was created where resolve_kvm_host says, and is on no other host, is found there by
  -- locate_kvm_host with the same URI, whatever the hosts have free by then.
  pub locate_kvm_host-resolve_kvm_host :
      (d : Definition) (vm : String) (config : Settings) (vm_img_loc : String)
      (found : String × String)
      → resolve_kvm_host ssh_output d vm config vm_img_loc ≡ ok found
      → OnlyOn vm config (configured_hosts config).1 found.0
      → locate_kvm_host has_domain d vm config ≡ ok found
  unfolding resolve_kvm_host locate_kvm_host
  locate_kvm_host-resolve_kvm_host d vm config vm_img_loc found e only =
      elim (Bool-cases (str_eq (explicit_host d vm) "")) [
        | inl p ↦ rw (p) (
            located_among-chosen d vm config
              (if str_eq vm_img_loc "" then "/var/lib/libvirt/images/" else vm_img_loc)
              (configured_hosts config).1 (configured_hosts config).0 found (rw (p) at e) only)
        | inr p ↦ rw (p) (rw (p) at e)
      ]
