-- ===== src/Images/Downloads.antt =====
-- libs/lab_creation.py: what is wrong with the download of a base image, and fetch_source_image; and
-- scripts/setup_lab.py's phase_fetch_images. Running the download script on a host is a parameter. An issue
-- is a value without the label and the texts that it shows.
use lab_in_a_box.Prelude.{
  Char, code, String, Bool, true, false, not, ◌&&◌, ◌||◌, Option, List, [], ◌∷◌, ◌++◌, any, all,
  map, leb, eqb, str_eq, if◌then◌else◌,
}
use lab_in_a_box.Result.{Result, ok, raise, died}
use lab_in_a_box.Text.{text_length, all_chars, is_digit, starts_with, words, lower, is_empty}
use lab_in_a_box.Migrations.{Definition}
use lab_in_a_box.Hosts.{Settings, image_source_hosts}
use lab_in_a_box.Images.{Source, is_hex, image_download_requests}

pub data Issue : Type 0 where
  no_file_name no_url bad_checksum no_checksum : Issue

abbrev is_letter : Char → Bool
is_letter c = (leb 65 (code c) && leb (code c) 90) || (leb 97 (code c) && leb (code c) 122)

abbrev name_char : Char → Bool
name_char c =
    is_letter c
    || is_digit c
    || eqb (code c) b'.'
    || eqb (code c) b'_'
    || eqb (code c) b'+'
    || eqb (code c) b'-'

-- What a pattern's $ looks behind: the text without a newline at its end.
abbrev pub before_newline : String → String
before_newline String.[] = String.[]
before_newline (String.◌∷◌ c s) =
    if eqb (code c) 10 && is_empty s then String.[] else String.◌∷◌ c (before_newline s)

abbrev begins_well : String → Bool
begins_well String.[] = false
begins_well (String.◌∷◌ c s) = is_letter c || is_digit c

-- _IMAGE_FILE_RE.match
unfoldable pub is_file_name : String → Bool
is_file_name s = begins_well s && all_chars name_char (before_newline s)

-- _SHA256_RE.match
unfoldable pub is_sha256 : String → Bool
is_sha256 s = eqb (text_length (before_newline s)) 64 && all_chars is_hex (before_newline s)

abbrev issue_if : Bool → Issue → List Issue
issue_if true i = i ∷ []
issue_if false i = []

abbrev pub is_download_url : String → Bool
is_download_url u = any (starts_with u) ("http://" ∷ "https://" ∷ "ftp://" ∷ "file://" ∷ [])

abbrev is_nil : List String → Bool
is_nil [] = true
is_nil (x ∷ xs) = false

unfoldable pub image_source_issues : Source → List Issue
unfolding is_file_name is_sha256
image_source_issues s =
    issue_if (not (is_file_name s.image)) no_file_name
    ++ (issue_if (is_nil (words s.url) || not (all is_download_url (words s.url))) no_url
        ++ (issue_if (not (str_eq s.sha256 "") && not (is_sha256 (lower s.sha256))) bad_checksum
            ++ issue_if (str_eq s.sha256 "" && not (starts_with s.sha256_url "https://"))
                no_checksum))

-- A download onto a host.
pub record Fetch : Type 0 where
  pub host : String
  pub source : Source

abbrev pub same_target : Fetch → Fetch → Bool
same_target f g = str_eq f.host g.host && str_eq f.source.image g.source.image

abbrev pub host_fetches : Source → List String → List Fetch
host_fetches s hosts = map (λ h. record { host = h; source = s }) hosts

abbrev pub all_fetches : Definition → Settings → List (String × Source) → List Fetch
all_fetches d config [] = []
all_fetches d config ((vm, s) ∷ requests) =
    host_fetches s (image_source_hosts d vm config) ++ all_fetches d config requests

-- if (host, image) in done: continue
unfoldable pub new_fetches : List Fetch → List Fetch → List Fetch
new_fetches done [] = []
new_fetches done (f ∷ fetches) =
    let skipped = new_fetches done fetches in
    let taken = new_fetches (f ∷ done) fetches in
    if any (same_target f) done then skipped else f ∷ taken

module _ {W : Type 0} (run_script : Fetch → W → Bool × W) where
  abbrev pub when_clean :
      List Issue → Result (Unit {0}) × List Fetch × W → W → Result (Unit {0}) × List Fetch × W
  when_clean [] run w = run
  when_clean (i ∷ issues) run w = (raise (died "image"), [], w)

  abbrev pub after_script :
      Fetch
      → Bool × W
      → (W → Result (Unit {0}) × List Fetch × W)
      → Result (Unit {0}) × List Fetch × W
  after_script f (false, w) rest = (raise (died "could not fetch base image"), f ∷ [], w)
  after_script f (true, w) rest = let (r, scripts, v) = rest w in (r, f ∷ scripts, v)

  -- fetch_source_image for one download after the other: the result, and those whose script was run.
  unfoldable pub fetch_all : List Fetch → W → Result (Unit {0}) × List Fetch × W
  unfolding image_source_issues
  fetch_all [] w = (ok tt, [], w)
  fetch_all (f ∷ fetches) w =
      let rest = after_script f (run_script f w) (fetch_all fetches) in
      when_clean (image_source_issues f.source) rest w

  abbrev pub fetch_requests :
      Definition
      → Settings
      → Result (List (String × Source))
      → W
      → Result (Unit {0}) × List Fetch × W
  fetch_requests d config (raise e) w = (raise e, [], w)
  fetch_requests d config (ok requests) w =
      fetch_all (new_fetches [] (all_fetches d config requests)) w

  unfoldable pub phase_fetch_images :
      (read_text : String → Option String)
      → Definition
      → Settings
      → W
      → Result (Unit {0}) × List Fetch × W
  unfolding image_download_requests new_fetches fetch_all
  phase_fetch_images read_text d config w =
      fetch_requests d config (image_download_requests read_text d) w
