-- ===== src/Prelude/Dicts.antt =====
-- Python's dict with text keys, as an association list in insertion order: an assignment to a key
-- that is present replaces the value where it stands, and a new key goes to the end.
use Prim.Native.String.{String}
use mathlib.Core.Path.{◌≡◌, refl}
use mathlib.Core.Bool.{Bool, false, ◌||◌}
use mathlib.Core.Option.{Option, none, some}
use mathlib.Core.List.{List, [], ◌∷◌}
use native.Mathlib.Omega.{arith}
use text.Mathlib.TextEquality.{eq_iff}
use lab_in_a_box.Prelude.Tests.{if◌then◌else◌, str_eq}

abbrev pub Dict {ℓ} : Type ℓ → Type ℓ
Dict V = List (String × V)

module _ {ℓ} {V : Type ℓ} where
  -- d.get(k)
  abbrev pub get : String → Dict V → Option V
  get k [] = none
  get k ((j, v) ∷ d) = if str_eq j k then some v else get k d

  -- d[k] = v
  abbrev pub put : String → V → Dict V → Dict V
  put k v [] = (k, v) ∷ []
  put k v ((j, w) ∷ d) = if str_eq j k then (j, v) ∷ d else (j, w) ∷ put k v d

  -- d.pop(k, None), del d[k]
  abbrev pub del : String → Dict V → Dict V
  del k [] = []
  del k ((j, w) ∷ d) = let rest = del k d in if str_eq j k then rest else (j, w) ∷ rest

  -- k in d
  abbrev pub has : String → Dict V → Bool
  has k [] = false
  has k ((j, w) ∷ d) = str_eq j k || has k d

  abbrev pub keys : Dict V → List String
  keys [] = []
  keys ((j, w) ∷ d) = j ∷ keys d

  pub get-put :
      (k j : String) (v : V) (d : Dict V)
      → get j (put k v d) ≡ (if str_eq k j then some v else get j d)
  get-put k j v [] = refl
  get-put k j v ((i, w) ∷ d) = ground (arith, eq_iff i k, eq_iff i j, eq_iff k j, get-put k j v d)

  pub get-del :
      (k j : String) (d : Dict V) → get j (del k d) ≡ (if str_eq k j then none else get j d)
  get-del k j [] = ground arith
  get-del k j ((i, w) ∷ d) = ground (arith, eq_iff i k, eq_iff i j, eq_iff k j, get-del k j d)

  pub del-del : (k : String) (d : Dict V) → del k (del k d) ≡ del k d
  del-del k [] = refl
  del-del k ((i, w) ∷ d) = ground (arith, del-del k d)

  pub has-del_self : (k : String) (d : Dict V) → has k (del k d) ≡ false
  has-del_self k [] = refl
  has-del_self k ((i, w) ∷ d) = ground (arith, has-del_self k d)
