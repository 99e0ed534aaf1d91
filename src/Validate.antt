-- ===== src/Validate.antt =====
-- libs/schema_validate.py: the values of a lab definition against the schema fields that declare them.
-- Python's str(), its == of two values and re.match are parameters; a message is a value with the data
-- that its sentence shows.
pub mod Bounds
pub mod Clean
pub mod Sections
use Prim.Native.String
use lab_in_a_box.Prelude.{
  ℕ, zero, suc, ◌+◌, ◌-◌, ◌*◌, code, String, Bool, true, false, not, ◌&&◌, ◌||◌, Option, none, some,
  List, [], ◌∷◌, ◌++◌, any, map, mem, Dict, get, put, has, eqb, leb, ltb, str_eq, if◌then◌else◌,
}
use lab_in_a_box.Text.{◌<>◌, is_blank, is_digit, lower, lstrip, rstrip, starts_with}

-- An integer: n, or -(n + 1).
pub data ℤ : Type 0 where
  pos negsuc : ℕ → ℤ

-- A JSON value; of a number that is no integer, its text.
mutual
  pub data Value : Type 0 where
    null : Value
    flag : Bool → Value
    number : ℤ → Value
    real : String → Value
    text : String → Value
    array : Values → Value
    object : Fields → Value

  pub data Values : Type 0 where
    no_values : Values
    value_then : Value → Values → Values

  pub data Fields : Type 0 where
    no_fields : Fields
    field_then : String → Value → Fields → Fields

abbrev pub Config : Type 0
Config = Dict Value

-- An entry of "enum": the value itself, or the "value" of a labelled one.
pub data Choice : Type 0 where
  plain : Value → Choice
  labelled : Option Value → Choice

-- A schema field; of "min" and "max", null is told from absent.
pub record Field : Type 0 where
  pub name : String
  pub kind : String
  pub choices : List Choice
  pub pattern_text : String
  pub low : Option (Option ℤ)
  pub high : Option (Option ℤ)

pub data Message : Type 0 where
  not_a_choice : Value → List Value → Message
  not_a_number : (kind : String) → Value → Message
  below_minimum above_maximum : (n bound : ℤ) → Message
  quoted_true quoted_false not_boolean not_list not_mapping : Value → Message
  not_of_form : Value → String → Message

pub data Severity : Type 0 where
  error warning : Severity

pub record Finding : Type 0 where
  pub severity : Severity
  pub place : String
  pub message : Message

abbrev pub lt_int : ℤ → ℤ → Bool
lt_int (pos m) (pos n) = ltb m n
lt_int (pos m) (negsuc n) = false
lt_int (negsuc m) (pos n) = true
lt_int (negsuc m) (negsuc n) = ltb n m

-- _absent
unfoldable pub is_absent : Value → Bool
is_absent null = true
is_absent (text s) = is_blank s
is_absent (array no_values) = true
is_absent (object no_fields) = true
is_absent _ = false

unfoldable pub is_placeholder : Value → Bool
is_placeholder (text s) = starts_with (rstrip (lstrip s)) "??"
is_placeholder _ = false

-- The digits of int(): an underscore may stand between two of them.
abbrev pub int_digits : Bool → ℕ → String → Option ℕ
int_digits after acc String.[] = if after then some acc else none
int_digits after acc (String.◌∷◌ c s) =
    let longer = int_digits true (acc * 10 + (code c - 48)) s in
    let gap = int_digits false acc s in
    if is_digit c then longer else if eqb (code c) 95 && after then gap else none

abbrev positive : Option ℕ → Option ℤ
positive none = none
positive (some n) = some (pos n)

abbrev negative : Option ℕ → Option ℤ
negative none = none
negative (some zero) = some (pos zero)
negative (some (suc n)) = some (negsuc n)

-- int(s), for an ASCII text that is stripped
abbrev pub int_text : String → Option ℤ
int_text String.[] = none
int_text (String.◌∷◌ c s) =
    if eqb (code c) 45
    then negative (int_digits false 0 s)
    else if eqb (code c) 43
    then positive (int_digits false 0 s)
    else positive (int_digits false 0 (String.◌∷◌ c s))

-- _as_int
unfoldable pub as_int : Value → Option ℤ
as_int (number n) = some n
as_int (text s) = int_text (rstrip (lstrip s))
as_int _ = none

abbrev value_of : Choice → Value
value_of (plain v) = v
value_of (labelled none) = null
value_of (labelled (some v)) = v

abbrev pub enum_values : Field → List Value
enum_values f = map value_of f.choices

-- field.get("min", 1 if kind == "port" else None)
abbrev pub bound : Option (Option ℤ) → Bool → ℕ → Option ℤ
bound (some b) is_port default = b
bound none true default = some (pos default)
bound none false default = none

abbrev pub too_low : ℤ → Option ℤ → Bool
too_low n none = false
too_low n (some low) = lt_int n low

abbrev pub too_high : ℤ → Option ℤ → Bool
too_high n none = false
too_high n (some high) = lt_int high n

abbrev pub fault : String → Message → Option Finding
fault place m = some (record { severity = error; place = place; message = m })

abbrev caution : String → Message → Option Finding
caution place m = some (record { severity = warning; place = place; message = m })

abbrev pub above_finding : String → ℤ → Option ℤ → Option Finding
above_finding place n none = none
above_finding place n (some high) =
    if lt_int high n then fault place (above_maximum n high) else none

abbrev pub bounds_finding : String → ℤ → (low high : Option ℤ) → Option Finding
bounds_finding place n none high = above_finding place n high
bounds_finding place n (some low) high =
    if lt_int n low then fault place (below_minimum n low) else above_finding place n high

abbrev pub int_finding : Field → Value → String → String → Option ℤ → Option Finding
int_finding f v place kind none = fault place (not_a_number kind v)
int_finding f v place kind (some n) =
    bounds_finding place n (bound f.low (str_eq kind "port") 1)
      (bound f.high (str_eq kind "port") 65535)

-- _number_finding
unfoldable pub number_finding : Field → Value → String → String → Option Finding
unfolding as_int
number_finding f v place kind = int_finding f v place kind (as_int v)

abbrev pub is_array : Value → Bool
is_array (array vs) = true
is_array _ = false

abbrev pub is_object : Value → Bool
is_object (object fs) = true
is_object _ = false

-- The kinds that are no texts; every other kind is one.
pub data Kind : Type 0 where
  numeric boolean list mapping textual : Kind

abbrev pub kind_of : String → Kind
kind_of k =
    if str_eq k "integer" || str_eq k "port"
    then numeric
    else if str_eq k "boolean"
    then boolean
    else if str_eq k "array"
    then list
    else if str_eq k "object"
    then mapping
    else textual

abbrev pub or_string : String → String
or_string k = if str_eq k "" then "string" else k

-- {f["name"]: f for f in fields}, fields without a name left out
abbrev pub by_name : List Field → Dict Field → Dict Field
by_name [] d = d
by_name (f ∷ fs) d = by_name fs (if str_eq f.name "" then d else put f.name f d)

abbrev pub place_of : String → String → String
place_of place name = if str_eq place "" then name else place <> "." <> name

abbrev pub cons_finding : Option Finding → List Finding → List Finding
cons_finding none rest = rest
cons_finding (some x) rest = x ∷ rest

module _ (str_of : Value → String) (same : Value → Value → Bool)
    (re_match : (pattern subject : String) → Bool) where
  abbrev pub shown : Value → String
  shown (text s) = s
  shown v = str_of v

  -- _enum_finding
  abbrev pub enum_finding : Field → Value → String → Option Finding
  enum_finding f v place =
      let values = enum_values f in
      elim values [
        | [] ↦ none
        | w ∷ ws ↦
            if any (same v) (w ∷ ws) || any (λ x. str_eq (shown x) (shown v)) (w ∷ ws)
            then none
            else fault place (not_a_choice v (w ∷ ws))
      ]

  -- _boolean_finding
  abbrev pub boolean_text : Value → String → Option Finding
  boolean_text v place =
      let s = lower (rstrip (lstrip (shown v))) in
      if mem s ("1" ∷ "true" ∷ "yes" ∷ [])
      then caution place (quoted_true v)
      else if mem s ("0" ∷ "false" ∷ "no" ∷ [])
      then caution place (quoted_false v)
      else fault place (not_boolean v)

  abbrev pub boolean_finding : Value → String → Option Finding
  boolean_finding (flag b) place = none
  boolean_finding v place = boolean_text v place

  abbrev pattern_finding : Field → Value → String → Option Finding
  pattern_finding f v place =
      if str_eq f.pattern_text "" || re_match f.pattern_text (shown v)
      then none
      else fault place (not_of_form v f.pattern_text)

  abbrev or_else : Option Finding → Option Finding → Option Finding
  or_else none next = next
  or_else (some x) next = some x

  abbrev pub kind_finding : Kind → Field → Value → String → Option Finding
  kind_finding numeric f v place = number_finding f v place (or_string f.kind)
  kind_finding boolean f v place = boolean_finding v place
  kind_finding list f v place = if is_array v then none else fault place (not_list v)
  kind_finding mapping f v place = if is_object v then none else fault place (not_mapping v)
  kind_finding textual f v place = or_else (enum_finding f v place) (pattern_finding f v place)

  unfoldable pub value_finding : Field → Value → String → Option Finding
  unfolding is_absent is_placeholder number_finding
  value_finding f v place =
      if is_absent v || is_placeholder v
      then none
      else kind_finding (kind_of (or_string f.kind)) f v (if str_eq place "" then f.name else place)

  abbrev pub field_finding : Config → String → List String → String × Field → Option Finding
  field_finding cfg place skip (name, f) =
      if mem name skip
      then none
      else elim (get name cfg) [ none ↦ none | some v ↦ value_finding f v (place_of place name) ]

  abbrev pub fields_findings : Dict Field → Config → String → List String → List Finding
  fields_findings [] cfg place skip = []
  fields_findings (f ∷ fs) cfg place skip =
      cons_finding (field_finding cfg place skip f) (fields_findings fs cfg place skip)

  unfoldable pub section_findings : List Field → Config → String → List String → List Finding
  unfolding value_finding
  section_findings fields cfg place skip = fields_findings (by_name fields []) cfg place skip
