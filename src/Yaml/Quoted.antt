-- ===== src/Yaml/Quoted.antt =====
-- What YAML reads between double quotes.
use Prim.Native.String.{[], ◌∷◌}
use lab_in_a_box.Prelude.{
  ℕ, code, Char, String, Bool, true, false, ◌&&◌, ◌||◌, leb, Option, none, some, eqb, if◌then◌else◌,
  ◌≡◌, refl, ap, ◌∙◌, arith, Bool-cases, inl, inr,
}
use package.text.Mathlib.TextEquality.{Char-path}
use lab_in_a_box.Text.{◌<>◌, is_empty, all_chars}
use lab_in_a_box.Yaml.{replace, escape, yaml_scalar, text}

-- The character that an escape of YAML stands for, of those that are written.
abbrev pub unescaped : Char → Option Char
unescaped c =
    if eqb (code c) 92
    then some "\\"
    else if eqb (code c) 34
    then some "\""
    else if eqb (code c) 110
    then some "\n"
    else if eqb (code c) 114
    then some "\r"
    else none

abbrev cons_char : Option Char → Option String → Option String
cons_char (some c) (some s) = some (c ∷ s)
cons_char _ _ = none

abbrev between : ℕ → ℕ → ℕ → Bool
between low high n = leb low n && leb n high

-- The characters that may stand on a line as they are: those that YAML calls printable, without the breaks of
-- a line, to which YAML 1.1 counts U+0085, U+2028 and U+2029 too. No other control character is among them.
unfoldable pub is_plain : Char → Bool
is_plain c =
    eqb (code c) 9
    || (between 32 126 (code c)
        || (between 160 8231 (code c)
            || (between 8234 55295 (code c)
                || (between 57344 65533 (code c) || leb 65536 (code c)))))

-- Plain, or one of the two breaks that are written as escapes.
abbrev pub is_writable : Char → Bool
is_writable c = is_plain c || (eqb (code c) 10 || eqb (code c) 13)

-- A double-quoted scalar on one line behind its first quote, or behind a backslash: up to the closing quote,
-- which ends the text.
unfoldable pub read_quoted : (escaped : Bool) → String → Option String
unfolding is_plain
read_quoted escaped [] = none
read_quoted true (c ∷ s) = let rest = read_quoted false s in cons_char (unescaped c) rest
read_quoted false (c ∷ s) =
    let escape_next = read_quoted true s in
    let plain = cons_char (some c) (read_quoted false s) in
    if eqb (code c) 92
    then escape_next
    else if eqb (code c) 34
    then (if is_empty s then some [] else none)
    else if is_plain c
    then plain
    else none

-- A reader of YAML's double-quoted scalars.
unfoldable pub read_scalar : String → Option String
unfolding read_quoted
read_scalar [] = none
read_scalar (c ∷ s) = if eqb (code c) 34 then read_quoted false s else none

abbrev escape_char : Char → String
escape_char c =
    if eqb (code c) 92
    then "\\\\"
    else if eqb (code c) 34
    then "\\\""
    else if eqb (code c) 10
    then "\\n"
    else if eqb (code c) 13
    then "\\r"
    else c ∷ []

eqb-eq_codes : (m n : ℕ) → eqb m n ≡ true → m ≡ n
eqb-eq_codes m n e = ground arith

escape-cons : (c : Char) (s : String) → escape (c ∷ s) ≡ escape_char c <> escape s
unfolding escape replace
escape-cons c s = elim (Bool-cases (eqb (code c) 92)) [
  | inl p ↦ rw (p) refl
  | inr p ↦ elim (Bool-cases (eqb (code c) 34)) [
    | inl q ↦ rw (p, q) refl
    | inr q ↦ elim (Bool-cases (eqb (code c) 10)) [
      | inl r ↦ rw (p, q, r) refl
      | inr r ↦ elim (Bool-cases (eqb (code c) 13)) [
        | inl t ↦ rw (p, q, r, t) refl
        | inr t ↦ rw (p, q, r, t) refl
      ]
    ]
  ]
]

char_of : (c d : Char) → eqb (code c) (code d) ≡ true → c ≡ d
char_of c d e = Char-path c d (eqb-eq_codes (code c) (code d) e)

and-true : (a b : Bool) → (a && b) ≡ true → (a ≡ true) × (b ≡ true)
and-true a b h = ground arith

append_append : (s t u : String) → (s <> t) <> u ≡ s <> (t <> u)
append_append [] t u = refl
append_append (c ∷ s) t u = ap (λ x. c ∷ x) (append_append s t u)

plain_left : (a b c : Bool) → (a || (b || c)) ≡ true → b ≡ false → c ≡ false → a ≡ true
plain_left a b c h p q = ground arith

-- What was escaped is read back, before anything.
read_quoted-escape_char :
    (c : Char) (t s : String)
    → is_writable c ≡ true
    → read_quoted false t ≡ some s
    → read_quoted false (escape_char c <> t) ≡ some (c ∷ s)
unfolding read_quoted
read_quoted-escape_char c t s h e = elim (Bool-cases (eqb (code c) 92)) [
  | inl p ↦ rw (p, e, char_of c "\\" p) refl
  | inr p ↦ elim (Bool-cases (eqb (code c) 34)) [
    | inl q ↦ rw (p, q, e, char_of c "\"" q) refl
    | inr q ↦ elim (Bool-cases (eqb (code c) 10)) [
      | inl r ↦ rw (p, q, r, e, char_of c "\n" r) refl
      | inr r ↦ elim (Bool-cases (eqb (code c) 13)) [
        | inl z ↦ rw (p, q, r, z, e, char_of c "\r" z) refl
        | inr z ↦ rw (p, q, r, z, e) (rw (p, q, plain_left (is_plain c) _ _ h r z) refl)
      ]
    ]
  ]
]

read_quoted-escape :
    (s : String) → all_chars is_writable s ≡ true → read_quoted false (escape s <> "\"") ≡ some s
unfolding read_quoted escape
read_quoted-escape [] h = refl
read_quoted-escape (c ∷ s) h =
    let (here, later) = and-true (is_writable c) (all_chars is_writable s) h in
    ap (λ x. read_quoted false (x <> "\"")) (escape-cons c s)
    ∙ ap (read_quoted false) (append_append (escape_char c) (escape s) "\"")
    ∙ read_quoted-escape_char c (escape s <> "\"") s here (read_quoted-escape s later)

-- For a text of printable characters, line feeds and carriage returns, also one with quotes and backslashes:
-- a reader of YAML's double-quoted scalars, which accepts no other character, gets it back from what
-- yaml_scalar writes, and nothing stands behind it.
pub read_scalar-yaml_scalar :
    (s : String) → all_chars is_writable s ≡ true → read_scalar (yaml_scalar (text s)) ≡ some s
unfolding read_scalar yaml_scalar
read_scalar-yaml_scalar s h = read_quoted-escape s h
