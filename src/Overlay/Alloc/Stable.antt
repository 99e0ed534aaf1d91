-- ===== src/Overlay/Alloc/Stable.antt =====
-- A site keeps the overlay address that it was given.
use lab_in_a_box.Prelude.{
  ℕ, ◌^◌, ◌<◌, String, true, some, ◌≡◌, refl, inl, inr, get, get-put, eq_refl, Option-cases,
}
use lab_in_a_box.Result.{Error, ok, raise}
use lab_in_a_box.Text.Words.{is_word}
use lab_in_a_box.Ip.{ip_text, hosts}
use lab_in_a_box.Remote.{alloc, World, Env}
use lab_in_a_box.Remote.Up.{Up, lines, after_read, lines-after_read}
use lab_in_a_box.Overlay.Alloc.{first_free, allocate_overlay_ip}
use lab_in_a_box.Overlay.Alloc.Steps.{
  Recorded, allocate_known, allocate_new, allocate_full, Recorded-after_read, Recorded-handed_out,
  handed_out, first_free-bounds,
}

ok_inj : {a b : String} → ok a ≡ ok b → a ≡ b
ok_inj e = cc

raise-ne-ok : {x : Error} {a : String} → raise x ≡ ok a → ⊥
raise-ne-ok e = cc

abbrev KeepsAddress : Env → String → String → String → String → World → Type 0
KeepsAddress env hub cidr name ip w =
    ((allocate_overlay_ip env hub name cidr w).0 ≡ ok ip)
    × (lines (allocate_overlay_ip env hub name cidr w).1 hub alloc ≡ lines w hub alloc)

module _ (env : Env) (up : Up env) (hub cidr name : String) where
  again_known :
      (ip : String) (w : World) (r : Recorded w hub cidr)
      → get name r.found.by_name ≡ some ip
      → KeepsAddress env hub cidr name ip w
  again_known ip w r e =
      rw (allocate_known env up hub cidr w r name ip e)
        (refl, lines-after_read w hub hub alloc alloc)

  -- The second run, by what the first one found.
  after_known :
      (ip : String) (w : World) (r : Recorded w hub cidr)
      → get name r.found.by_name ≡ some ip
      → KeepsAddress env hub cidr name ip (after_read hub alloc w)
  unfolding Recorded-after_read
  after_known ip w r e = again_known ip (after_read hub alloc w) (Recorded-after_read r) e

  after_new :
      (c : ℕ) (w : World) (r : Recorded w hub cidr)
      → is_word name ≡ true
      → c < 2 ^ 32
      → KeepsAddress env hub cidr name (ip_text c) (handed_out hub name c w)
  unfolding Recorded-handed_out ip_text
  after_new c w r hn hc =
      again_known (ip_text c) (handed_out hub name c w) (Recorded-handed_out r name c hn hc)
        (rw (get-put, eq_refl))

  -- While every host answers: a site that asks again gets the address that it was given, and the
  -- record on the hub stays as it is.
  pub allocate_twice :
      (w : World) (ip : String)
      → Recorded w hub cidr
      → is_word name ≡ true
      → (allocate_overlay_ip env hub name cidr w).0 ≡ ok ip
      → KeepsAddress env hub cidr name ip (allocate_overlay_ip env hub name cidr w).1
  allocate_twice w ip r hn first = elim (Option-cases (get name r.found.by_name)) [
    | inr (old, e) ↦
        let step = allocate_known env up hub cidr w r name old e in
        let same : old ≡ ip = ok_inj (rw step at first) in rw (step, ← same) (after_known old w r e)
    | inl e ↦ elim (Option-cases (first_free r.found.used (hosts r.net))) [
      | inr (c, f) ↦
          let step = allocate_new env up hub cidr w r name c e f in
          let same : ip_text c ≡ ip = ok_inj (rw step at first) in
          rw (step, ← same) (after_new c w r hn (first_free-bounds r c f).2)
      | inl f ↦ absurd (raise-ne-ok (rw (allocate_full env up hub cidr w r name e f) at first))
    ]
  ]
