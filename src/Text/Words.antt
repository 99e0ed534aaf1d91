-- ===== src/Text/Words.antt =====
-- How split() takes apart the lines that the code writes with a space between two words.
use Prim.Native.String.{[], ◌∷◌}
use mathlib.Core.Bool.{false≢true}
use text.Mathlib.TextLemmas.{cons-ne-nil}
use lab_in_a_box.Prelude.{
  String, Bool, true, false, inl, inr, Bool-cases, str_eq, eq_iff, ◌≡◌, refl, List, not, arith, eqb,
  ℕ, code, Char,
}
use lab_in_a_box.Text.{◌<>◌, is_space, all_chars, span, words, span_on}

-- A text without white space.
abbrev pub no_space : String → Bool
no_space = all_chars (λ c. not (is_space c))

-- A word as split() gives it: not empty, and without white space.
abbrev pub is_word : String → Bool
is_word [] = false
is_word (c ∷ s) = no_space (c ∷ s)

pub span-append : (w s : String) → no_space w ≡ true → span (w <> s) ≡ (w <> (span s).0, (span s).1)
unfolding span
span-append [] s h = refl
span-append (c ∷ w) s h = ground (arith, span-append w s)

append-empty : (w : String) → w <> [] ≡ w
append-empty [] = refl
append-empty (c ∷ w) = ground (arith, append-empty w)

pub is_word-no_space : (w : String) → is_word w ≡ true → no_space w ≡ true
is_word-no_space [] h = refl
is_word-no_space (c ∷ w) h = h

words-append :
    (w s : String) → is_word w ≡ true → (span s).0 ≡ [] → words (w <> s) ≡ List.◌∷◌ w (span s).1
unfolding words
words-append [] s h e = ground arith
words-append (c ∷ w) s h e = rw (span-append (c ∷ w) s h, e, append-empty w)

-- A lone word is what split() gives back.
pub words_last : (w : String) → is_word w ≡ true → words w ≡ List.◌∷◌ w List.[]
unfolding span
words_last w h = rw append-empty at (words-append w [] h refl)

-- The first word is read back from before a space.
pub words-cons : (w s : String) → is_word w ≡ true → words (w <> " " <> s) ≡ List.◌∷◌ w (words s)
unfolding span words is_space
words-cons w s h = words-append w (" " <> s) h refl

pub words_two :
    (w v : String)
    → is_word w ≡ true
    → is_word v ≡ true
    → words (w <> " " <> v) ≡ List.◌∷◌ w (List.◌∷◌ v List.[])
words_two w v h k = rw (words-cons w v h, words_last v k)

pub words_three :
    (w v u : String)
    → is_word w ≡ true
    → is_word v ≡ true
    → is_word u ≡ true
    → words (w <> " " <> v <> " " <> u) ≡ List.◌∷◌ w (List.◌∷◌ v (List.◌∷◌ u List.[]))
words_three w v u h k l = rw (words-cons w (v <> " " <> u) h, words_two v u k l)

-- A text without the separator is one part.
pub split_on_last :
    (sep : ℕ) (w : String)
    → all_chars (λ c. not (eqb (code c) sep)) w ≡ true
    → span_on sep w ≡ (w, List.[])
unfolding span_on
split_on_last sep [] h = refl
split_on_last sep (c ∷ w) h = ground (arith, split_on_last sep w)

-- A part is read back from before a separator.
pub span_on-append :
    (sep : ℕ) (w s : String)
    → all_chars (λ c. not (eqb (code c) sep)) w ≡ true
    → span_on sep (w <> s) ≡ (w <> (span_on sep s).0, (span_on sep s).1)
unfolding span_on
span_on-append sep [] s h = refl
span_on-append sep (c ∷ w) s h = ground (arith, span_on-append sep w s)

-- A word is not the empty text.
pub word-ne-empty : (s : String) → is_word s ≡ true → str_eq s "" ≡ false
word-ne-empty s h = elim (Bool-cases (str_eq s "")) [
  | inl e ↦ absurd (false≢true (rw ((eq_iff s "").0 e) at h))
  | inr e ↦ e
]

pub cons-ne-empty : (c : Char) (s : String) → str_eq (c ∷ s) "" ≡ false
cons-ne-empty c s = elim (Bool-cases (str_eq (c ∷ s) "")) [
  | inl e ↦ absurd (cons-ne-nil c s ((eq_iff (c ∷ s) "").0 e))
  | inr e ↦ e
]
