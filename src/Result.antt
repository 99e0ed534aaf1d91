-- ===== src/Result.antt =====
-- Exceptions as values, and the programs that act on a state and may raise: what was written before a
-- raise stays written, so the state comes back beside the exception too.
use lab_in_a_box.Prelude.{String, Option, none, some, ◌≡◌, refl}

-- `died` is lab_creation.die(), which ends the program with its message.
pub data Error : Type 0 where
  value_error index_error key_error type_error attribute_error remote_error runtime_error
        decryption_error :
      Error
  died : String → Error

pub data Result {ℓ} (A : Type ℓ) : Type ℓ where
  ok : A → Result A
  raise : Error → Result A

infixl 5 ◌>>=◌
abbrev pub ◌>>=◌ {ℓ κ} : {A : Type ℓ} {B : Type κ} → Result A → (A → Result B) → Result B
ok a >>= f = f a
raise e >>= f = raise e

-- A library call that raises ValueError where it has no value.
abbrev pub of_option {ℓ} : {A : Type ℓ} → Option A → Result A
of_option none = raise value_error
of_option (some a) = ok a

pub ok-eq : {A : Type 0} {a b : A} → ok a ≡ ok b → a ≡ b
ok-eq e = cc

-- A chain that succeeds has a first part that does.
pub bind-ok :
    {A B : Type 0} (r : Result A) (f : A → Result B) (b : B)
    → (r >>= f) ≡ ok b
    → (a : A) × (r ≡ ok a) × (f a ≡ ok b)
bind-ok (ok a) f b e = (a, refl, e)
bind-ok (raise x) f b e = cc
