-- ===== src/Images/Fetched.antt =====
-- libs/lab_creation.py and scripts/setup_lab.py: a base image is where a machine that boots it is created,
-- and no image is downloaded without a checksum.
use lab_in_a_box.Prelude.{
  String, Bool, true, false, ◌&&◌, ◌||◌, Option, List, [], ◌∷◌, any, any-append, All, mem, ◌≡◌, ◌≢◌,
  ◌⊎◌, inl, inr, refl, sym, ap, arith, Bool-cases, str_eq, eq_iff,
}
use mathlib.Core.Path.{subst}
use lab_in_a_box.Result.{Result, ok, raise}
use lab_in_a_box.Text.{starts_with, lower}
use lab_in_a_box.Migrations.{Definition}
use lab_in_a_box.Hosts.{Settings, image_source_hosts, resolve_kvm_host}
use lab_in_a_box.Hosts.Images.{resolve_kvm_host-image_source_hosts}
use lab_in_a_box.Images.{Source, image_download_requests}
use lab_in_a_box.Images.Downloads.{
  Fetch, Issue, same_target, host_fetches, all_fetches, new_fetches, is_sha256, image_source_issues,
  when_clean, after_script, fetch_all, fetch_requests, phase_fetch_images,
}

-- The image goes to the host.
abbrev pub goes_to : String → String → Fetch → Bool
goes_to host image f = str_eq host f.host && str_eq image f.source.image

known_target :
    (host image : String) (f : Fetch) (done : List Fetch)
    → goes_to host image f ≡ true
    → any (same_target f) done ≡ true
    → any (goes_to host image) done ≡ true
known_target host image f done e h =
    let same_host : host ≡ f.host = (eq_iff host f.host).0 (ground arith) in
    let same_image : image ≡ f.source.image = (eq_iff image f.source.image).0 (ground arith) in
    subst (λ x. any (goes_to x image) done ≡ true) (sym same_host)
      (subst (λ y. any (goes_to f.host y) done ≡ true) (sym same_image) h)

new_fetches-goes_to :
    (host image : String) (done fetches : List Fetch)
    → any (goes_to host image) fetches ≡ true
    → (any (goes_to host image) (new_fetches done fetches) || any (goes_to host image) done) ≡ true
unfolding new_fetches
new_fetches-goes_to host image done [] e = cc
new_fetches-goes_to host image done (f ∷ fetches) e = elim (Bool-cases (any (same_target f) done)) [
  | inl p ↦ elim (Bool-cases (goes_to host image f)) [
    | inl q ↦ rw (known_target host image f done q p) (ground arith)
    | inr q ↦ rw (p) (new_fetches-goes_to host image done fetches (rw (q) at e))
  ]
  | inr p ↦ elim (Bool-cases (goes_to host image f)) [
    | inl q ↦ rw (p) (rw (q) refl)
    | inr q ↦ rw (p) (
        rw (q) (
          let ih = new_fetches-goes_to host image (f ∷ done) fetches (rw (q) at e) in rw (q) at ih))
  ]
]

host_fetches-goes_to :
    (host : String) (s : Source) (hosts : List String)
    → mem host hosts ≡ true
    → any (goes_to host s.image) (host_fetches s hosts) ≡ true
host_fetches-goes_to host s [] m = cc
host_fetches-goes_to host s (h ∷ hosts) m = elim (Bool-cases (str_eq h host)) [
  | inl p ↦
      (let same : h ≡ host = (eq_iff h host).0 p in
        rw (same) (ground (arith, eq_iff host host, eq_iff s.image s.image)))
  | inr p ↦ ground (arith, host_fetches-goes_to host s hosts (rw (p) at m))
]

-- The script of each download has run.
fetch_all-ran :
    {W : Type 0} (run_script : Fetch → W → Bool × W) (fetches : List Fetch) (w : W)
    → (fetch_all run_script fetches w).0 ≡ ok tt
    → (fetch_all run_script fetches w).1 ≡ fetches
unfolding fetch_all
fetch_all-ran run_script [] w e = refl
fetch_all-ran {W} run_script (f ∷ fetches) w e =
    by_issues (fetch_all-ran run_script fetches) (image_source_issues f.source) e
  where
    by_script :
        ((v : W)
          → (fetch_all run_script fetches v).0 ≡ ok tt
          → (fetch_all run_script fetches v).1 ≡ fetches)
        → (r : Bool × W) → (after_script run_script f r (fetch_all run_script fetches)).0 ≡ ok tt
        → (after_script run_script f r (fetch_all run_script fetches)).1 ≡ f ∷ fetches
    by_script later (false, v) e = cc
    by_script later (true, v) e = ap (λ l. f ∷ l) (later v e)

    by_issues :
        ((v : W)
          → (fetch_all run_script fetches v).0 ≡ ok tt
          → (fetch_all run_script fetches v).1 ≡ fetches)
        → (issues : List Issue)
        → (when_clean run_script issues
            (after_script run_script f (run_script f w) (fetch_all run_script fetches))
            w).0
          ≡ ok tt
        → (when_clean run_script issues
            (after_script run_script f (run_script f w) (fetch_all run_script fetches))
            w).1
          ≡ f ∷ fetches
    by_issues later [] e = by_script later (run_script f w) e
    by_issues later (i ∷ issues) e = cc

-- The image of each request is among the downloads, on every host that the machine may be created on.
all_fetches-goes_to :
    (d : Definition) (config : Settings) (host : String) (requests : List (String × Source))
    → All
        (λ r.
          mem host (image_source_hosts d r.0 config) ≡ true
          → any (goes_to host r.1.image) (all_fetches d config requests) ≡ true)
        requests
all_fetches-goes_to d config host [] = tt
all_fetches-goes_to d config host (r ∷ rest) = (
  (λ m.
      rw
        (any-append (goes_to host r.1.image) (host_fetches r.1 (image_source_hosts d r.0 config))
          (all_fetches d config rest))
        (rw (host_fetches-goes_to host r.1 (image_source_hosts d r.0 config) m) refl)),
  later rest (all_fetches-goes_to d config host rest),
)
  where
    later :
        (rs : List (String × Source))
        → All
            (λ q.
              mem host (image_source_hosts d q.0 config) ≡ true
              → any (goes_to host q.1.image) (all_fetches d config rest) ≡ true)
            rs
        → All
            (λ q.
              mem host (image_source_hosts d q.0 config) ≡ true
              → any (goes_to host q.1.image) (all_fetches d config (r ∷ rest)) ≡ true)
            rs
    later [] h = tt
    later (q ∷ rs) h = (
      (λ m.
          rw
            (any-append (goes_to host q.1.image)
              (host_fetches r.1 (image_source_hosts d r.0 config)) (all_fetches d config rest))
            (rw (h.0 m) (ground arith))),
      later rs h.1,
    )

module _ {W : Type 0} (run_script : Fetch → W → Bool × W) (read_text : String → Option String)
    (ssh_output : (host command : String) → Option String) where
  -- Where the phase ends without an exception: the script that downloads the image of a machine's request
  -- has run on the host that resolve_kvm_host gives the machine, if that name is not empty.
  pub phase_fetch_images-ran :
      (d : Definition) (config : Settings) (vm_img_loc : String) (w : W)
      (requests : List (String × Source))
      → image_download_requests read_text d ≡ ok requests
      → (phase_fetch_images run_script read_text d config w).0 ≡ ok tt
      → All
          (λ r.
            (found : String × String)
            → resolve_kvm_host ssh_output d r.0 config vm_img_loc ≡ ok found
            → found.0 ≢ ""
            → any (goes_to found.0 r.1.image) (phase_fetch_images run_script read_text d config w).1
              ≡ true)
          requests
  unfolding phase_fetch_images
  phase_fetch_images-ran d config vm_img_loc w requests q e = rw (q) (
      rw (fetch_all-ran run_script (new_fetches [] (all_fetches d config requests)) w (rw (q) at e))
        (each requests (λ host. all_fetches-goes_to d config host requests)))
    where
      planned : String → String → Bool
      planned host image = any (goes_to host image) (new_fetches [] (all_fetches d config requests))

      is_planned :
          (host image : String)
          → any (goes_to host image) (all_fetches d config requests) ≡ true
          → planned host image ≡ true
      is_planned host image h =
          ground (arith, new_fetches-goes_to host image [] (all_fetches d config requests) h)

      each :
          (rs : List (String × Source))
          → ((host : String)
              → All
                  (λ r.
                    mem host (image_source_hosts d r.0 config) ≡ true
                    → any (goes_to host r.1.image) (all_fetches d config requests) ≡ true)
                  rs)
          → All
              (λ r.
                (found : String × String)
                → resolve_kvm_host ssh_output d r.0 config vm_img_loc ≡ ok found
                → found.0 ≢ ""
                → planned found.0 r.1.image ≡ true)
              rs
      each [] h = tt
      each (r ∷ rs) h = (
        (λ found here ne.
            elim (resolve_kvm_host-image_source_hosts ssh_output d r.0 config vm_img_loc found
              here) [
                | inl m ↦ is_planned found.0 r.1.image ((h found.0).0 m)
                | inr empty ↦ absurd (ne empty)
              ]),
        each rs (λ host. (h host).1),
      )

-- The checksum is a SHA-256 digest, or is published under https.
abbrev pub HasChecksum : Source → Type 0
HasChecksum s =
    (is_sha256 (lower s.sha256) ≡ true)
    ⊎ ((s.sha256 ≡ "") × (starts_with s.sha256_url "https://" ≡ true))

no_issues-HasChecksum : (s : Source) → image_source_issues s ≡ [] → HasChecksum s
unfolding image_source_issues
no_issues-HasChecksum s e = elim (Bool-cases (str_eq s.sha256 "")) [
  | inl p ↦ inr ((eq_iff s.sha256 "").0 p, ground arith)
  | inr p ↦ inl (ground arith)
]

fetch_all-HasChecksum :
    {W : Type 0} (run_script : Fetch → W → Bool × W) (fetches : List Fetch) (w : W)
    → All (λ f. HasChecksum f.source) (fetch_all run_script fetches w).1
unfolding fetch_all
fetch_all-HasChecksum run_script [] w = tt
fetch_all-HasChecksum {W} run_script (f ∷ fetches) w =
    by_issues (fetch_all-HasChecksum run_script fetches) (image_source_issues f.source) refl
  where
    by_script :
        ((v : W) → All (λ f. HasChecksum f.source) (fetch_all run_script fetches v).1)
        → HasChecksum f.source
        → (r : Bool × W)
        → All
            (λ f. HasChecksum f.source)
            (after_script run_script f r (fetch_all run_script fetches)).1
    by_script later h (false, v) = (h, tt)
    by_script later h (true, v) = (h, later v)

    by_issues :
        ((v : W) → All (λ f. HasChecksum f.source) (fetch_all run_script fetches v).1)
        → (issues : List Issue) → image_source_issues f.source ≡ issues
        → All
            (λ f. HasChecksum f.source)
            (when_clean run_script issues
              (after_script run_script f (run_script f w) (fetch_all run_script fetches))
              w).1
    by_issues later [] e = by_script later (no_issues-HasChecksum f.source e) (run_script f w)
    by_issues later (i ∷ issues) e = tt

-- However the phase ends: each download that it runs has a checksum, a SHA-256 digest or an https URL
-- that publishes it.
pub phase_fetch_images-HasChecksum :
    {W : Type 0} (run_script : Fetch → W → Bool × W) (read_text : String → Option String)
    (d : Definition) (config : Settings) (w : W)
    → All (λ f. HasChecksum f.source) (phase_fetch_images run_script read_text d config w).1
unfolding phase_fetch_images
phase_fetch_images-HasChecksum {W} run_script read_text d config w =
    by_requests (image_download_requests read_text d)
  where
    by_requests :
        (requests : Result (List (String × Source)))
        → All (λ f. HasChecksum f.source) (fetch_requests run_script d config requests w).1
    by_requests (ok requests) =
        fetch_all-HasChecksum run_script (new_fetches [] (all_fetches d config requests)) w
    by_requests (raise e) = tt
