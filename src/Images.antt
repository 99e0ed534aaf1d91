-- ===== src/Images.antt =====
-- libs/lab_creation.py and libs/source_utils.py: the base images that a lab downloads. Reading a local file
-- is a parameter; a field that should be a text, and is a value of another kind that is not false, raises
-- AttributeError when it is read.
pub mod Downloads
pub mod Fetched
use Prim.Native.String
use lab_in_a_box.Prelude.{
  ℕ, Char, code, String, Bool, true, false, not, ◌&&◌, ◌||◌, Option, none, some, List, [], ◌∷◌,
  ◌++◌, any, all, map, Dict, get, ltb, leb, eqb, str_eq, if◌then◌else◌,
}
use lab_in_a_box.Result.{Result, ok, raise, died, attribute_error, ◌>>=◌}
use lab_in_a_box.Text.{
  text_length, all_chars, is_digit, starts_with, split_on, words, lstrip, rstrip, lower, is_empty,
}
use lab_in_a_box.Migrations.{
  Value, null, flag, number, text, items, Config, Owner, Definition, truthy,
}
use lab_in_a_box.Hosts.{Settings, common_of, image_source_hosts}

-- get_source_type(value) == "url"
unfoldable pub is_url : String → Bool
is_url s =
    any (starts_with (rstrip (lstrip s)))
      ("http://" ∷ "https://" ∷ "ftp://" ∷ "file://" ∷ "nfs://" ∷ [])

-- _jq_or(cfg.get(key)), as a text
abbrev pub text_field : Option Value → Result String
text_field none = ok ""
text_field (some (text s)) = ok s
text_field (some v) = if truthy v then raise attribute_error else ok ""

abbrev pub field : String → Config → Result String
field key cfg = text_field (get key cfg)

-- a or b, where b is read just if a is empty
abbrev pub or_read : String → Result String → Result String
or_read a b = if str_eq a "" then b else ok a

-- parts[-1]
abbrev last_of : List String → String → String
last_of [] default = default
last_of (p ∷ parts) default = last_of parts p

abbrev first_of : List String → String
first_of [] = ""
first_of (p ∷ parts) = p

-- s.rstrip("/")
abbrev rstrip_slashes : String → String
rstrip_slashes String.[] = String.[]
rstrip_slashes (String.◌∷◌ c s) =
    let rest = rstrip_slashes s in
    if is_empty rest && eqb (code c) b'/' then String.[] else String.◌∷◌ c rest

unfoldable pub image_file_name : String → String
image_file_name url =
    last_of
      (split_on b'/' (
        rstrip_slashes
          (first_of (split_on b'#' (first_of (split_on b'?' (first_of (words url))))))))
      ""

unfoldable pub image_name : Config → Result String
unfolding is_url image_file_name
image_name cfg = do
  source ← field "SOURCE_IMAGE" cfg
  image ← or_read source (field "ISO_IMAGE" cfg)
  ok (if is_url image then image_file_name image else image)

abbrev pub is_hex : Char → Bool
is_hex c = is_digit c || (leb 97 (code c) && leb (code c) 102)

-- An image, its URLs, its checksum, and the URL of its checksum.
pub record Source : Type 0 where
  pub image : String
  pub url : String
  pub sha256 : String
  pub sha256_url : String

module _ (read_text : String → Option String) where
  abbrev of_file : String → Option String → String × String
  of_file value none = (value, "")
  of_file value (some content) = (lower (first_of (words content)), "")

  unfoldable pub source_checksum : String → String × String
  unfolding is_url
  source_checksum given =
      let value = rstrip (lstrip given) in
      if is_url value
      then ("", value)
      else if not (str_eq value "") && not (all_chars is_hex (lower value))
      then of_file value (read_text value)
      else (lower value, "")

  unfoldable pub image_source : Config → Result (Option Source)
  unfolding is_url source_checksum image_name
  image_source cfg = do
    source ← field "SOURCE_IMAGE" cfg
    url ← (if is_url source then ok source else field "ISO_URL" cfg)
    (if str_eq url "" then ok none else (do
      sha ← field "SOURCE_SHA256" cfg
      given ← or_read sha (field "ISO_SHA256" cfg)
      name ← image_name cfg
      published ← or_read (source_checksum given).1 (field "ISO_SHA256_URL" cfg)
      ok (
          some (record {
            image = name;
            url = url;
            sha256 = (source_checksum given).0;
            sha256_url = published;
          }))))

  abbrev either : Option Value → Option Value → Option Value
  either none v = v
  either (some u) v = if truthy u then some u else v

  abbrev is_set : Option Value → Bool
  is_set none = false
  is_set (some v) = truthy v

  abbrev is_text : String → Option Value → Bool
  is_text s (some (text t)) = str_eq t s
  is_text s _ = false

  -- A cloud machine boots an image of its provider.
  abbrev boots_provider_image : Config → Config → Bool
  boots_provider_image node common =
      let backend = either (get "backend" node) (get "backend" common) in
      is_set (either (get "cloud_account" node) (get "cloud_account" common))
      || (is_set backend && not (is_text "libvirt" backend))

  abbrev own_or_common : Config → Config → Option Source → Result (Option Source)
  own_or_common node common (some s) = ok (some s)
  own_or_common node common none = do
    own ← image_name node
    (if str_eq own "" then image_source common else ok none)

  abbrev named : Config → Option Source → Result (Option Source)
  named common none = ok none
  named common (some s) =
      if str_eq s.image ""
      then (do name ← image_name common; ok (some (record s { image = name })))
      else ok (some s)

  abbrev request : Config → Config → Result (Option Source)
  request node common =
      if boots_provider_image node common
      then ok none
      else (do own ← image_source node; source ← own_or_common node common own; named common source)

  abbrev add_request : String → Option Source → List (String × Source) → List (String × Source)
  add_request vm none requests = requests
  add_request vm (some s) requests = (vm, s) ∷ requests

  abbrev requests_among : Config → Dict Owner → Result (List (String × Source))
  requests_among common [] = ok []
  requests_among common ((vm, o) ∷ nodes) = do
    here ← request o.fields common
    rest ← requests_among common nodes
    ok (add_request vm here rest)

  unfoldable pub image_download_requests : Definition → Result (List (String × Source))
  unfolding image_source image_name
  image_download_requests d = requests_among (common_of d) d.nodes
