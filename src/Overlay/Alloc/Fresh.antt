-- ===== src/Overlay/Alloc/Fresh.antt =====
-- The overlay addresses of the sites differ from one another and from the hub's.
use lab_in_a_box.Prelude.{
  ℕ, ◌+◌, ◌<◌, ◌≤◌, String, true, false, none, List, [], ◌∷◌, ◌≡◌, inl, inr, refl, ap, get,
  Option-cases,
}
use lab_in_a_box.Result.{ok, raise, died}
use lab_in_a_box.Text.Words.{is_word}
use lab_in_a_box.Ip.{ip_text, hosts, mem_ℕ, num_addresses}
use lab_in_a_box.Remote.{alloc, World, Env}
use lab_in_a_box.Remote.Up.{Up, lines, lines-after_read}
use lab_in_a_box.Overlay.Alloc.{first_free, allocate_overlay_ip}
use lab_in_a_box.Overlay.Alloc.Steps.{
  Recorded, allocate_known, allocate_new, allocate_full, Recorded-after_read, Recorded-handed_out,
  first_free-mem, first_free-unused, first_free-bounds, first_free-none, first_free-some,
}

abbrev pub Distinct : List ℕ → Type 0
Distinct [] = Unit
Distinct (n ∷ ns) = (mem_ℕ n ns ≡ false) × Distinct ns

-- What the hub has recorded can be read, and no address stands there twice, the hub's own included.
pub record IsSound (w : World) (hub cidr : String) : Type 0 where
  pub recorded : Recorded w hub cidr
  pub distinct : Distinct recorded.found.used

module _ (env : Env) (up : Up env) (hub cidr name : String) (w : World) where
  -- While every host answers, and the site's name is a word: whatever a request for an address ends
  -- with, the recorded addresses stay pairwise distinct and different from the hub's own.
  pub allocate-IsSound :
      IsSound w hub cidr
      → is_word name ≡ true
      → IsSound (allocate_overlay_ip env hub name cidr w).1 hub cidr
  unfolding Recorded-after_read Recorded-handed_out
  allocate-IsSound sound hn = elim (Option-cases (get name r.found.by_name)) [
    | inr (old, e) ↦ rw (allocate_known env up hub cidr w r name old e) unchanged
    | inl e ↦ elim (Option-cases (first_free r.found.used (hosts r.net))) [
      | inr (c, f) ↦ rw (allocate_new env up hub cidr w r name c e f) (record {
        recorded = Recorded-handed_out r name c hn (first_free-bounds r c f).2;
        distinct = (first_free-unused r.found.used (hosts r.net) c f, sound.distinct);
      })
      | inl f ↦ rw (allocate_full env up hub cidr w r name e f) unchanged
    ]
  ]
    where
      r : Recorded w hub cidr
      r = sound.recorded

      unchanged : IsSound (lab_in_a_box.Remote.Up.after_read hub alloc w) hub cidr
      unchanged = record { recorded = Recorded-after_read r; distinct = sound.distinct }

  -- While every host answers, and there is a host address that nobody has: a site with no address yet
  -- gets a host address of the network that neither the hub nor another site has.
  pub allocate_fresh :
      (r : Recorded w hub cidr) (c : ℕ)
      → get name r.found.by_name ≡ none
      → mem_ℕ c (hosts r.net) ≡ true
      → mem_ℕ c r.found.used ≡ false
      → (n : ℕ) × ((allocate_overlay_ip env hub name cidr w).0 ≡ ok (ip_text n))
        × (mem_ℕ n (hosts r.net) ≡ true)
        × (mem_ℕ n r.found.used ≡ false)
        × (r.net.base ≤ n)
        × (n < r.net.base + num_addresses r.net)
  allocate_fresh r c e m u =
      let (n, f) = first_free-some r.found.used (hosts r.net) c m u in
      let bounds = first_free-bounds r n f in
      (
        n,
        ap (λ x. x.0) (allocate_new env up hub cidr w r name n e f),
        first_free-mem r.found.used (hosts r.net) n f,
        first_free-unused r.found.used (hosts r.net) n f,
        bounds.0,
        bounds.1,
      )

  -- While every host answers, and every host address is in use: a site with no address yet ends the
  -- program, and what the hub has recorded stays.
  pub allocate_exhausted :
      (r : Recorded w hub cidr)
      → get name r.found.by_name ≡ none
      → ((c : ℕ) → mem_ℕ c (hosts r.net) ≡ true → mem_ℕ c r.found.used ≡ true)
      → ((allocate_overlay_ip env hub name cidr w).0 ≡ raise (died "overlay CIDR is exhausted"))
        × (lines (allocate_overlay_ip env hub name cidr w).1 hub alloc ≡ lines w hub alloc)
  allocate_exhausted r e all_used =
      rw (allocate_full env up hub cidr w r name e (first_free-none _ _ all_used))
        (refl, lines-after_read w hub hub alloc alloc)
