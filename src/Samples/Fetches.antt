-- ===== src/Samples/Fetches.antt =====
-- A lab of two machines on two hypervisors, with an image that is downloaded.
use lab_in_a_box.Prelude.{String, Bool, true, Option, none, [], ◌∷◌, ◌≡◌, ◌≢◌, refl, All, any}
use lab_in_a_box.Result.{ok}
use lab_in_a_box.Migrations.{text, object, Definition}
use lab_in_a_box.Hosts.{Settings, resolve_kvm_host}
use lab_in_a_box.Images.{Source, image_download_requests}
use lab_in_a_box.Images.Downloads.{
  Fetch, phase_fetch_images, image_source_issues, new_fetches, fetch_all,
}
use lab_in_a_box.Images.Fetched.{
  goes_to, HasChecksum, phase_fetch_images-ran, phase_fetch_images-HasChecksum,
}

abbrev url : String
url = "https://example.org/images/leap.qcow2?mirror=1"

abbrev lab : Definition
lab = record {
  sections =
      (
        "common",
        object (
            ("SOURCE_IMAGE", text url)
            ∷ ("ISO_SHA256_URL", text "https://example.org/leap.sha256")
            ∷ []),
      )
      ∷ [];
  kclusters = [];
  nodes =
      ("n1", record { fields = ("kvm_host", text "k1") ∷ []; addons = [] })
      ∷ ("n2", record { fields = ("backend", text "aws") ∷ []; addons = [] })
      ∷ [];
  schema_versions = [];
}

abbrev settings : Settings
settings = ("KVM_HOSTS", "k1 k2") ∷ []

abbrev fetched : Fetch → Unit {0} → Bool × Unit {0}
fetched f w = (true, w)

abbrev no_file : String → Option String
no_file path = none

abbrev silent : String → String → Option String
silent host command = none

abbrev leap : Source
leap = record {
  image = "leap.qcow2";
  url = url;
  sha256 = "";
  sha256_url = "https://example.org/leap.sha256";
}

phase_fetch_images-ran_example :
    All
      (λ (r : String × Source).
        (found : String × String)
        → resolve_kvm_host silent lab r.0 settings "" ≡ ok found
        → found.0 ≢ ""
        → any (goes_to found.0 r.1.image) (phase_fetch_images fetched no_file lab settings tt).1
          ≡ true)
      (("n1", leap) ∷ [])
unfolding phase_fetch_images image_download_requests image_source_issues fetch_all
    lab_in_a_box.Hosts.image_source_hosts lab_in_a_box.Hosts.configured_hosts
    lab_in_a_box.Images.image_source lab_in_a_box.Images.image_name lab_in_a_box.Images.is_url
    lab_in_a_box.Images.image_file_name lab_in_a_box.Images.source_checksum
    lab_in_a_box.Images.Downloads.is_file_name lab_in_a_box.Images.Downloads.is_sha256
    lab_in_a_box.Images.Downloads.new_fetches lab_in_a_box.Text.starts_with
    lab_in_a_box.Text.split_on lab_in_a_box.Text.span_on lab_in_a_box.Text.words
    lab_in_a_box.Text.span lab_in_a_box.Text.is_space lab_in_a_box.Text.is_digit
    lab_in_a_box.Text.lstrip lab_in_a_box.Text.rstrip lab_in_a_box.Text.lower
phase_fetch_images-ran_example =
    phase_fetch_images-ran fetched no_file silent lab settings "" tt (("n1", leap) ∷ []) refl refl

phase_fetch_images-HasChecksum_example :
    All (λ f. HasChecksum f.source) (phase_fetch_images fetched no_file lab settings tt).1
phase_fetch_images-HasChecksum_example =
    phase_fetch_images-HasChecksum fetched no_file lab settings tt
