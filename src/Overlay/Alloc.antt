-- ===== src/Overlay/Alloc.antt =====
-- libs/overlay.py: the addresses that the hub hands out to the sites, _allocate_overlay_ip.
pub mod Steps
pub mod Fresh
pub mod Stable
use lab_in_a_box.Prelude.{
  ℕ, String, Bool, true, false, ◌||◌, Option, none, some, List, [], ◌∷◌, Dict, get, put, eqb,
  if◌then◌else◌,
}
use lab_in_a_box.Result.{Result, ok, died, of_option}
use lab_in_a_box.Result
use lab_in_a_box.Text.{◌<>◌}
use lab_in_a_box.Text.Lines.{rows}
use lab_in_a_box.Ip.{Network, ip_text, parse_ip, parse_network, second_address, mem_ℕ, hosts}
use lab_in_a_box.Remote.{
  alloc, append, Env, M, ◌>>=◌, ◌>>◌, pure, throw, lift, ssh_run, read_registry,
}

-- What _allocate_overlay_ip reads from the allocations: the address of each name, and those in use.
pub record Allocations : Type 0 where
  pub by_name : Dict String
  pub used : List ℕ

-- One line of the allocations; other lines than those of two words say nothing.
abbrev allocation_row : List String → Allocations → Result Allocations
allocation_row (name ∷ ip ∷ []) a =
    Result.◌>>=◌ (of_option (parse_ip ip))
      λ n. ok (record { by_name = put name ip a.by_name; used = n ∷ a.used })
allocation_row _ a = ok a

unfoldable pub read_allocations : List (List String) → Allocations → Result Allocations
read_allocations [] a = ok a
read_allocations (r ∷ rs) a =
    let rest = read_allocations rs in Result.◌>>=◌ (allocation_row r a) rest

-- The first host address that is not in use.
unfoldable pub first_free : List ℕ → List ℕ → Option ℕ
first_free used [] = none
first_free used (c ∷ cs) = let rest = first_free used cs in if mem_ℕ c used then rest else some c

module _ (env : Env) where
  -- Given the address recorded for the name, and the first free one.
  abbrev settle : String → String → Option String → Option ℕ → M String
  settle hub name (some ip) free = pure ip
  settle hub name none (some c) = do
    ssh_run env hub (append alloc ((name <> " " <> ip_text c) ∷ []))
    pure (ip_text c)
  settle hub name none none = throw (died "overlay CIDR is exhausted")

  abbrev hand_out : String → String → Network → Allocations → M String
  hand_out hub name net a = settle hub name (get name a.by_name) (first_free a.used (hosts net))

  -- _allocate_overlay_ip
  unfoldable pub allocate_overlay_ip : String → String → String → M String
  unfolding read_registry
  allocate_overlay_ip hub name cidr = do
    existing ← read_registry env hub alloc
    net ← lift (parse_network true cidr)
    hub_ip ← lift (second_address net)
    a ← lift (read_allocations (rows existing) (record { by_name = []; used = hub_ip ∷ [] }))
    hand_out hub name net a
