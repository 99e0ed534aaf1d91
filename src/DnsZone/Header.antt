-- ===== src/DnsZone/Header.antt =====
-- A zone that was just created has nothing that servers are compared by.
use Prim.Native.String.{◌∷◌}
use lab_in_a_box.Prelude.{ℕ, String, Bool, true, false, ◌&&◌, none, List, ◌≡◌, refl, ap, ◌∙◌}
use lab_in_a_box.Text.{show, rstrip, is_empty, starts_with, is_space, ◌<>◌}
use lab_in_a_box.DnsZone.{
  records, record_of, record_of_stripped, before_comment, forward_header, reverse_header,
}

and_false : (b : Bool) → (b && false) ≡ false
and_false true = refl
and_false false = refl

rstrip-at : (s : String) → rstrip ("@" ∷ s) ≡ "@" ∷ rstrip s
unfolding rstrip is_space
rstrip-at s = rw (and_false (is_empty (rstrip s))) refl

rstrip-dollar : (s : String) → rstrip ("$" ∷ s) ≡ "$" ∷ rstrip s
unfolding rstrip is_space
rstrip-dollar s = rw (and_false (is_empty (rstrip s))) refl

record_of_stripped-at : (s : String) → record_of_stripped ("@" ∷ s) ≡ none
unfolding starts_with
record_of_stripped-at s = refl

record_of_stripped-dollar : (s : String) → record_of_stripped ("$" ∷ s) ≡ none
unfolding starts_with
record_of_stripped-dollar s = refl

-- A line of the header is no record.
record_of-at : (s : String) → record_of ("@" ∷ s) ≡ none
unfolding record_of before_comment lab_in_a_box.Text.lstrip is_space
record_of-at s =
    ap record_of_stripped (rstrip-at (before_comment s))
    ∙ record_of_stripped-at (rstrip (before_comment s))

record_of-dollar : (s : String) → record_of ("$" ∷ s) ≡ none
unfolding record_of before_comment lab_in_a_box.Text.lstrip is_space
record_of-dollar s =
    ap record_of_stripped (rstrip-dollar (before_comment s))
    ∙ record_of_stripped-dollar (rstrip (before_comment s))

record_of-ns : record_of "ns IN A 127.0.0.1" ≡ none
unfolding record_of before_comment rstrip is_space starts_with lab_in_a_box.Text.lstrip
    lab_in_a_box.Text.words lab_in_a_box.Text.span
record_of-ns = refl

-- The header of a new forward zone, and that of a new reverse zone, have no comparable record, whatever the
-- domain, the network and the time to live.
pub records-forward_header :
    (mydomain mynet_reverse : String) (ttl : ℕ)
    → (records (forward_header mydomain ttl) ≡ List.[])
      × (records (reverse_header mydomain mynet_reverse ttl) ≡ List.[])
unfolding records
records-forward_header mydomain mynet_reverse ttl = (
  rw (record_of-dollar, record_of-at, record_of-at, record_of-ns) refl,
  rw (record_of-dollar, record_of-at, record_of-at) refl,
)
