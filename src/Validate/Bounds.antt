-- ===== src/Validate/Bounds.antt =====
-- The values that a port field takes.
use mathlib.Core.Logic.{◌↔◌}
use lab_in_a_box.Prelude.{
  ◌≤◌, String, Bool, false, Option, none, some, ◌≡◌, arith, if◌then◌else◌, str_eq,
}
use lab_in_a_box.Validate.{
  ℤ, pos, negsuc, Value, Field, is_absent, is_placeholder, as_int, number_finding, value_finding,
  int_finding,
}

-- A number of a port.
abbrev pub IsPort : Option ℤ → Type 0
IsPort none = ⊥
IsPort (some (pos n)) = (1 ≤ n) × (n ≤ 65535)
IsPort (some (negsuc n)) = ⊥

IsPort-finding :
    (f : Field) (v : Value) (place : String) (n : Option ℤ)
    → f.low ≡ none
    → f.high ≡ none
    → (int_finding f v place "port" n ≡ none) ↔ IsPort n
IsPort-finding f v place none low high = (λ e. cc, λ x. absurd x)
IsPort-finding f v place (some (pos n)) low high = (λ e. ground arith, λ p. ground arith)
IsPort-finding f v place (some (negsuc n)) low high = (λ e. ground arith, λ x. absurd x)

module _ (str_of : Value → String) (same : Value → Value → Bool)
    (re_match : (pattern subject : String) → Bool) where
  pub value_finding-IsPort :
      (f : Field) (v : Value) (place : String)
      → f.kind ≡ "port"
      → f.low ≡ none
      → f.high ≡ none
      → is_absent v ≡ false
      → is_placeholder v ≡ false
      → (value_finding str_of same re_match f v place ≡ none) ↔ IsPort (as_int v)
  unfolding value_finding number_finding
  value_finding-IsPort f v place kind low high here literal =
      rw (here, literal, kind)
        (IsPort-finding f v (if str_eq place "" then f.name else place) (as_int v) low high)
