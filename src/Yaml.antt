-- ===== src/Yaml.antt =====
-- libs/lab_creation.py: yaml_scalar, the YAML text of a value in a configuration that is written by hand.
pub mod Quoted
use Prim.Native.String.{[], ◌∷◌}
use lab_in_a_box.Prelude.{ℕ, code, Char, String, Bool, true, false, eqb, if◌then◌else◌}
use lab_in_a_box.Text.{◌<>◌, show}

-- A value; `real` is the text that str() gives of a number that is no natural one, and `text` that of any
-- other value.
pub data Scalar : Type 0 where
  flag : Bool → Scalar
  number : ℕ → Scalar
  real : String → Scalar
  text : String → Scalar

-- s.replace(c, t), for a character of the given code
unfoldable pub replace : ℕ → String → String → String
replace n t [] = []
replace n t (c ∷ s) = if eqb (code c) n then t <> replace n t s else c ∷ replace n t s

unfoldable pub escape : String → String
unfolding replace
escape s = replace 13 "\\r" (replace 10 "\\n" (replace 34 "\\\"" (replace 92 "\\\\" s)))

unfoldable pub yaml_scalar : Scalar → String
unfolding escape
yaml_scalar (flag true) = "true"
yaml_scalar (flag false) = "false"
yaml_scalar (number n) = show n
yaml_scalar (real s) = s
yaml_scalar (text s) = "\"" <> escape s <> "\""
