-- ===== src/Samples/Alloc.antt =====
-- A hub that has given addresses to sites of a /29, and one whose /30 is full.
use lab_in_a_box.Prelude.{
  ℕ, ◌+◌, ◌<◌, ◌≤◌, String, true, false, ◌&&◌, none, some, List, [], ◌∷◌, ◌≡◌, refl, str_eq,
  if◌then◌else◌, arith,
}
use lab_in_a_box.Result.{ok, raise, died}
use lab_in_a_box.Text.{◌<>◌}
use lab_in_a_box.Ip.{ip_text, mem_ℕ, hosts, num_addresses}
use lab_in_a_box.Remote.{File, alloc, same_file, World, Env}
use lab_in_a_box.Remote.Up.{Up, lines}
use lab_in_a_box.Overlay.Alloc.{allocate_overlay_ip}
use lab_in_a_box.Overlay.Alloc.Steps.{Recorded}
use lab_in_a_box.Overlay.Alloc.Fresh.{IsSound, allocate-IsSound, allocate_fresh, allocate_exhausted}
use lab_in_a_box.Overlay.Alloc.Stable.{allocate_twice}

abbrev pub answering : Env
answering = record {
  succeeds = λ past h c. true;
  genkey = λ past h. "key";
  pubkey_of = λ k. "pub" <> k;
}

pub answering-Up : Up answering
answering-Up past h c = refl

-- A world in which the hub has one file.
abbrev pub holding : File → List String → World
holding f ls = record {
  files = λ h k. if str_eq h "hub" && same_file f k then some ls else none;
  issued = [];
}

abbrev given : World
given = holding alloc ("paris 10.9.0.2" ∷ [])

given-Recorded : Recorded given "hub" "10.9.0.0/29"
unfolding lab_in_a_box.Ip.parse_network lab_in_a_box.Ip.second_address
    lab_in_a_box.Overlay.Alloc.read_allocations lab_in_a_box.Text.Lines.rows lab_in_a_box.Text.words
    lab_in_a_box.Text.span lab_in_a_box.Text.is_space lab_in_a_box.Text.is_blank
given-Recorded = record {
  net = record { base = 168361984; prefix = 29 };
  parsed = refl;
  hub_ip = 168361985;
  second = refl;
  found = record { by_name = ("paris", "10.9.0.2") ∷ []; used = 168361986 ∷ 168361985 ∷ [] };
  reading = refl;
}

allocate-IsSound_example :
    IsSound (allocate_overlay_ip answering "hub" "rome" "10.9.0.0/29" given).1 "hub" "10.9.0.0/29"
unfolding lab_in_a_box.Text.is_space given-Recorded
allocate-IsSound_example =
    allocate-IsSound answering answering-Up "hub" "10.9.0.0/29" "rome" given
      (record { recorded = given-Recorded; distinct = (refl, (refl, tt)) }) refl

allocate_fresh_example :
    (n : ℕ) × ((allocate_overlay_ip answering "hub" "rome" "10.9.0.0/29" given).0 ≡ ok (ip_text n))
    × (mem_ℕ n (hosts given-Recorded.net) ≡ true)
    × (mem_ℕ n given-Recorded.found.used ≡ false)
    × (given-Recorded.net.base ≤ n)
    × (n < given-Recorded.net.base + num_addresses given-Recorded.net)
unfolding given-Recorded hosts
allocate_fresh_example =
    allocate_fresh answering answering-Up "hub" "10.9.0.0/29" "rome" given given-Recorded 168361990
      refl refl refl

abbrev full : World
full = holding alloc ("paris 10.9.0.2" ∷ [])

full-Recorded : Recorded full "hub" "10.9.0.0/30"
unfolding lab_in_a_box.Ip.parse_network lab_in_a_box.Ip.second_address
    lab_in_a_box.Overlay.Alloc.read_allocations lab_in_a_box.Text.Lines.rows lab_in_a_box.Text.words
    lab_in_a_box.Text.span lab_in_a_box.Text.is_space lab_in_a_box.Text.is_blank
full-Recorded = record {
  net = record { base = 168361984; prefix = 30 };
  parsed = refl;
  hub_ip = 168361985;
  second = refl;
  found = record { by_name = ("paris", "10.9.0.2") ∷ []; used = 168361986 ∷ 168361985 ∷ [] };
  reading = refl;
}

allocate_exhausted_example :
    ((allocate_overlay_ip answering "hub" "rome" "10.9.0.0/30" full).0
      ≡ raise (died "overlay CIDR is exhausted"))
    × (lines (allocate_overlay_ip answering "hub" "rome" "10.9.0.0/30" full).1 "hub" alloc
        ≡ lines full "hub" alloc)
unfolding full-Recorded hosts
allocate_exhausted_example =
    allocate_exhausted answering answering-Up "hub" "10.9.0.0/30" "rome" full full-Recorded refl
      (λ c m. ground arith)

allocate_twice_example :
    ((allocate_overlay_ip answering "hub" "rome" "10.9.0.0/29"
        (allocate_overlay_ip answering "hub" "rome" "10.9.0.0/29" given).1).0
      ≡ ok "10.9.0.3")
    × (lines
          (allocate_overlay_ip answering "hub" "rome" "10.9.0.0/29"
            (allocate_overlay_ip answering "hub" "rome" "10.9.0.0/29" given).1).1
          "hub"
          alloc
        ≡ lines (allocate_overlay_ip answering "hub" "rome" "10.9.0.0/29" given).1 "hub" alloc)
unfolding allocate_overlay_ip lab_in_a_box.Text.is_space lab_in_a_box.Ip.parse_network
    lab_in_a_box.Ip.second_address lab_in_a_box.Overlay.Alloc.read_allocations
    lab_in_a_box.Text.Lines.rows lab_in_a_box.Text.Lines.strip_text lab_in_a_box.Text.is_blank
    lab_in_a_box.Text.lstrip lab_in_a_box.Text.words lab_in_a_box.Text.span lab_in_a_box.Text.rstrip
    lab_in_a_box.Overlay.Alloc.first_free hosts ip_text lab_in_a_box.Text.show
allocate_twice_example =
    allocate_twice answering answering-Up "hub" "10.9.0.0/29" "rome" given "10.9.0.3" given-Recorded
      refl refl
