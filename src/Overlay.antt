-- ===== src/Overlay.antt =====
-- libs/overlay.py: the names of sites and gateways. What the hub keeps is in the modules below.
pub mod Alloc
pub mod Registry
pub mod Peers
pub mod Gateway
pub mod Routes
use lab_in_a_box.Prelude.{
  String, Bool, false, ◌||◌, Option, none, some, List, [], ◌∷◌, if◌then◌else◌, str_eq,
}
use lab_in_a_box.Text.{◌<>◌}

abbrev is_one_of : String → List String → Bool
is_one_of s [] = false
is_one_of s (t ∷ ts) = str_eq s t || is_one_of s ts

abbrev or_default : Option String → String
or_default none = "default"
or_default (some a) = if str_eq a "" then "default" else a

-- site_name_for
unfoldable pub site_name_for : Option String → Option String → String
site_name_for none account = "home"
site_name_for (some backend) account =
    if is_one_of backend ("libvirt" ∷ "harvester" ∷ "" ∷ [])
    then "home"
    else backend <> "-" <> or_default account

-- hub_vm_name
unfoldable pub hub_vm_name : String → Option String → String
hub_vm_name backend none = "lab-overlay-gw-" <> backend
hub_vm_name backend (some account) =
    if is_one_of account ("" ∷ "default" ∷ [])
    then "lab-overlay-gw-" <> backend
    else "lab-overlay-gw-" <> backend <> "-" <> account
