-- ===== src/Text.antt =====
-- Python's text operations: str.split(), str.split(sep), str.join, str.startswith, the `in` test,
-- str.strip(), str.lower() and the decimal texts that int() reads and str() writes. Texts are ASCII
-- here: lower(), isdigit() and white space are those of the ASCII characters.
pub mod Words
pub mod Lines
use Prim.Native.String.{[], ◌∷◌}
use lab_in_a_box.Prelude.{
  ℕ, zero, suc, ◌+◌, ◌-◌, ◌*◌, ◌/◌, ◌%◌, Char, code, String, Bool, true, false, ◌&&◌, ◌||◌, Option,
  none, some, List, ltb, leb, eqb, if◌then◌else◌, str_eq,
}

infixr 66 ◌<>◌
abbrev pub ◌<>◌ : String → String → String
[] <> t = t
(c ∷ s) <> t = c ∷ (s <> t)

unfoldable pub is_space : Char → Bool
is_space c = let n = code c in eqb n 32 || (leb 9 n && leb n 13) || (leb 28 n && leb n 31)

unfoldable pub is_digit : Char → Bool
is_digit c = leb 48 (code c) && leb (code c) 57

abbrev pub all_chars : (Char → Bool) → String → Bool
all_chars test [] = true
all_chars test (c ∷ s) = test c && all_chars test s

-- Puts a word before the others, unless it is empty.
abbrev pub cons_word : String → List String → List String
cons_word [] ws = ws
cons_word (c ∷ w) ws = List.◌∷◌ (c ∷ w) ws

-- The characters up to the first white space, and the words behind it.
unfoldable pub span : String → String × List String
span [] = ([], List.[])
span (c ∷ s) = let (w, ws) = span s in if is_space c then ([], cons_word w ws) else (c ∷ w, ws)

-- s.split()
unfoldable pub words : String → List String
words s = let (w, ws) = span s in cons_word w ws

-- The part before the first separator, and the parts behind it.
unfoldable pub span_on : ℕ → String → String × List String
span_on sep [] = ([], List.[])
span_on sep (c ∷ s) =
    let (w, ws) = span_on sep s in if eqb (code c) sep then ([], List.◌∷◌ w ws) else (c ∷ w, ws)

-- s.split(sep), for a separator of one character
unfoldable pub split_on : ℕ → String → List String
unfolding span_on
split_on sep s = let (w, ws) = span_on sep s in List.◌∷◌ w ws

-- sep.join(parts)
unfoldable pub join : String → List String → String
join sep List.[] = []
join sep (List.◌∷◌ w List.[]) = w
join sep (List.◌∷◌ w (List.◌∷◌ v ws)) = w <> sep <> join sep (List.◌∷◌ v ws)

-- s.startswith(t)
unfoldable pub starts_with : String → String → Bool
starts_with s [] = true
starts_with [] (d ∷ t) = false
starts_with (c ∷ s) (d ∷ t) = eqb (code c) (code d) && starts_with s t

-- t in s
unfoldable pub contains : String → String → Bool
unfolding starts_with
contains t [] = starts_with [] t
contains t (c ∷ s) = starts_with (c ∷ s) t || contains t s

abbrev pub text_length : String → ℕ
text_length [] = 0
text_length (c ∷ s) = suc (text_length s)

-- The value of a text of decimal digits, `acc` being what was read before it.
unfoldable pub digits_value : ℕ → String → Option ℕ
unfolding is_digit
digits_value acc [] = some acc
digits_value acc (c ∷ s) =
    let rest = digits_value (acc * 10 + (code c - 48)) s in if is_digit c then rest else none

-- int(s), for a text that holds digits only
unfoldable pub parse_nat : String → Option ℕ
unfolding digits_value
parse_nat [] = none
parse_nat (c ∷ s) = digits_value 0 (c ∷ s)

digit_text : ℕ → String
digit_text d =
    if eqb d 0
    then "0"
    else if eqb d 1
    then "1"
    else if eqb d 2
    then "2"
    else if eqb d 3
    then "3"
    else if eqb d 4
    then "4"
    else if eqb d 5
    then "5"
    else if eqb d 6
    then "6"
    else if eqb d 7
    then "7"
    else if eqb d 8
    then "8"
    else "9"

-- The decimal digits of `n` before `out`; a number below 10 ^ fuel is written whole.
show_from : ℕ → ℕ → String → String
unfolding digit_text
show_from zero n out = out
show_from (suc fuel) n out =
    let longer = digit_text (n % 10) <> out in
    let rest = show_from fuel (n / 10) longer in if ltb n 10 then longer else rest

-- str(n)
unfoldable pub show : ℕ → String
unfolding show_from
show n = show_from (suc n) n []

-- s.lstrip()
unfoldable pub lstrip : String → String
lstrip [] = []
lstrip (c ∷ s) = let rest = lstrip s in if is_space c then rest else c ∷ s

abbrev pub is_empty : String → Bool
is_empty [] = true
is_empty (c ∷ s) = false

-- s.rstrip()
unfoldable pub rstrip : String → String
rstrip [] = []
rstrip (c ∷ s) = let rest = rstrip s in if is_empty rest && is_space c then [] else c ∷ rest

-- not s.strip()
unfoldable pub is_blank : String → Bool
is_blank [] = true
is_blank (c ∷ s) = is_space c && is_blank s

abbrev nth_char : ℕ → String → Char → Char
nth_char i [] default = default
nth_char zero (c ∷ s) default = c
nth_char (suc i) (c ∷ s) default = nth_char i s default

abbrev lower_char : Char → Char
lower_char c =
    if leb 65 (code c) && leb (code c) 90
    then nth_char (code c - 65) "abcdefghijklmnopqrstuvwxyz" c
    else c

-- s.lower()
unfoldable pub lower : String → String
lower [] = []
lower (c ∷ s) = lower_char c ∷ lower s
