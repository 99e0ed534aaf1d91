-- ===== src/Hosts/Images.antt =====
-- The base image is where a machine may be created.
use lab_in_a_box.Prelude.{
  String, true, Option, List, [], ◌∷◌, mem, mem_here, str_eq, if◌then◌else◌, ◌≡◌, ◌⊎◌, inl, inr,
  sym, ap, ◌∙◌, eq_iff, Bool-cases,
}
use lab_in_a_box.Result.{ok, ok-eq, bind-ok, ◌>>=◌}
use lab_in_a_box.Migrations.{Definition}
use lab_in_a_box.Hosts.{
  Settings, wanted, with_uri, configured_hosts, explicit_host, select_kvm_host, chosen_among,
  resolve_kvm_host, or_default_host, image_source_hosts,
}
use lab_in_a_box.Hosts.Choice.{select_kvm_host-mem}

module _ (ssh_output : (host command : String) → Option String) where
  chosen_among-mem :
      (d : Definition) (vm : String) (config : Settings) (vm_img_loc default_host : String)
      (hosts : List String) (found : String × String)
      → chosen_among ssh_output d vm config vm_img_loc hosts default_host ≡ ok found
      → (mem found.0 (or_default_host hosts default_host) ≡ true) ⊎ (found.0 ≡ "")
  chosen_among-mem d vm config vm_img_loc default_host [] found e =
      elim (Bool-cases (str_eq default_host "")) [
        | inl p ↦ inr (sym (ap (λ x. x.0) (ok-eq e)) ∙ (eq_iff default_host "").0 p)
        | inr p ↦ inl (
            ap (λ x. mem x.0 (or_default_host [] default_host)) (sym (ok-eq e))
            ∙ rw (p) (mem_here default_host []))
      ]
  chosen_among-mem d vm config vm_img_loc default_host (h ∷ []) found e =
      inl (ap (λ x. mem x.0 (h ∷ [])) (sym (ok-eq e)) ∙ mem_here h [])
  chosen_among-mem d vm config vm_img_loc default_host (h ∷ g ∷ hosts) found e =
      let (w, p, f) =
        bind-ok (wanted d vm)
          (λ w. select_kvm_host ssh_output (h ∷ g ∷ hosts) w vm_img_loc >>= λ host.
            ok (with_uri config default_host host))
          found e in
      let (host, q, r) =
        bind-ok (select_kvm_host ssh_output (h ∷ g ∷ hosts) w vm_img_loc)
          (λ host. ok (with_uri config default_host host)) found f in
      inl (
        ap (λ x. mem x.0 (h ∷ g ∷ hosts)) (sym (ok-eq r))
        ∙ select_kvm_host-mem ssh_output w vm_img_loc (h ∷ g ∷ hosts) host q)

  -- The host that resolve_kvm_host gives a machine is among those that its base image is fetched to, unless
  -- no host is configured and the name that it gives is empty.
  pub resolve_kvm_host-image_source_hosts :
      (d : Definition) (vm : String) (config : Settings) (vm_img_loc : String)
      (found : String × String)
      → resolve_kvm_host ssh_output d vm config vm_img_loc ≡ ok found
      → (mem found.0 (image_source_hosts d vm config) ≡ true) ⊎ (found.0 ≡ "")
  unfolding resolve_kvm_host image_source_hosts
  resolve_kvm_host-image_source_hosts d vm config vm_img_loc found e =
      elim (Bool-cases (str_eq (explicit_host d vm) "")) [
        | inl p ↦ rw (p) (
            chosen_among-mem d vm config
              (if str_eq vm_img_loc "" then "/var/lib/libvirt/images/" else vm_img_loc)
              (configured_hosts config).1 (configured_hosts config).0 found (rw (p) at e))
        | inr p ↦ rw (p) (
            inl (
              ap (λ x. mem x.0 (explicit_host d vm ∷ [])) (sym (ok-eq (rw (p) at e)))
              ∙ mem_here (explicit_host d vm) []))
      ]
