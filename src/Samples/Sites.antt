-- ===== src/Samples/Sites.antt =====
-- A sequence of registrations on a hub.
use lab_in_a_box.Prelude.{String, some, List, [], ◌∷◌, get, Dict, ◌≡◌, refl}
use lab_in_a_box.Result.{ok}
use lab_in_a_box.Remote.{World}
use lab_in_a_box.Overlay.Registry.{list_other_sites}
use lab_in_a_box.Overlay.Registry.Refine.{
  register_all, table_of, put_sites, hide, list_other_sites-register_all,
}
use lab_in_a_box.Samples.Alloc.{answering, answering-Up, holding}
use lab_in_a_box.Remote.{site_registry}

abbrev registered : World
registered = holding site_registry ("paris 10.1.0.0/16" ∷ "rome 10.2.0.0/16" ∷ [])

abbrev moves : List (String × String)
moves = ("paris", "10.3.0.0/16") ∷ ("oslo", "10.4.0.0/16") ∷ []

list_other_sites-register_all_example :
    (d : Dict String) × ((list_other_sites answering "hub"
        (some "rome")
        (register_all answering answering-Up "hub" moves registered)).0
      ≡ ok d)
    × ((n : String) → get n d ≡ hide (some "rome") (put_sites moves (table_of registered "hub")) n)
unfolding lab_in_a_box.Text.is_space
list_other_sites-register_all_example =
    list_other_sites-register_all answering answering-Up "hub" moves registered (some "rome")
      ((refl, refl), ((refl, refl), tt))
