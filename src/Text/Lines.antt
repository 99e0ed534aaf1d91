-- ===== src/Text/Lines.antt =====
-- Texts of several lines, as lists of lines: strip() of such a text, and the words of its lines.
use Prim.Native.String.{[], ◌∷◌}
use mathlib.Core.List.{[] as nil, ◌∷◌ as cons}
use lab_in_a_box.Prelude.{
  Char, String, Bool, true, false, ◌&&◌, List, ◌++◌, ◌≡◌, refl, ◌∙◌, ◌⊎◌, inl, inr, arith,
  Bool-cases, if◌then◌else◌,
}
use mathlib.Core.Bool.{false≢true}
use lab_in_a_box.Text.{is_empty, is_space, is_blank, lstrip, rstrip, span, words, cons_word}

-- text.strip() on the lines of the text: the blank lines at both ends go, with the white space before
-- the first line left and behind the last one.
unfoldable pub strip_head : List String → List String
strip_head nil = nil
strip_head (cons l ls) = let rest = strip_head ls in if is_blank l then rest else cons (lstrip l) ls

abbrev last_line : String → List String
last_line l = if is_blank l then nil else cons (rstrip l) nil

abbrev before : String → List String → List String
before l nil = last_line l
before l (cons k ls) = cons l (cons k ls)

unfoldable pub strip_tail : List String → List String
strip_tail nil = nil
strip_tail (cons l ls) = before l (strip_tail ls)

unfoldable pub strip_text : List String → List String
unfolding strip_head strip_tail
strip_text ls = strip_tail (strip_head ls)

abbrev pub cons_row : List String → List (List String) → List (List String)
cons_row nil rs = rs
cons_row (cons w ws) rs = cons (cons w ws) rs

-- The words of each line that is not blank: all that the registries' readers look at.
unfoldable pub rows : List String → List (List String)
rows nil = nil
rows (cons l ls) = cons_row (words l) (rows ls)

span-space :
    (c : Char) (s : String)
    → is_space c ≡ true
    → span (c ∷ s) ≡ ([], cons_word (span s).0 (span s).1)
unfolding span
span-space c s e = rw e

span-char :
    (c : Char) (s : String) → is_space c ≡ false → span (c ∷ s) ≡ (c ∷ (span s).0, (span s).1)
unfolding span
span-char c s e = rw e

span_blank : (s : String) → is_blank s ≡ true → span s ≡ ([], nil)
unfolding is_blank
span_blank [] h = unfold span in refl
span_blank (c ∷ s) h = elim (Bool-cases (is_space c)) [
  | inl e ↦ rw (span-space c s e, span_blank s (rw e at h))
  | inr e ↦ absurd (false≢true (rw e at h))
]

span-rstrip : (s : String) → span (rstrip s) ≡ span s
unfolding rstrip
span-rstrip [] = refl
span-rstrip (c ∷ s) = elim (Bool-cases (is_space c)) [
  | inl e ↦ elim (empty_cases (rstrip s)) [
    | inl r ↦ rw (e, r, span-space c s e, ← span-rstrip s, r) (unfold span in refl)
    | inr r ↦ rw (r, span-space c _ e, span-space c s e, span-rstrip s)
  ]
  | inr e ↦
      rw (e, keeps_char (is_empty (rstrip s)), span-char c _ e, span-char c s e, span-rstrip s)
]
  where
    empty_cases : (t : String) → (t ≡ []) ⊎ (is_empty t ≡ false)
    empty_cases [] = inl refl
    empty_cases (d ∷ t) = inr refl

    keeps_char : (b : Bool) → (b && false) ≡ false
    keeps_char true = refl
    keeps_char false = refl

words-rstrip : (s : String) → words (rstrip s) ≡ words s
unfolding words
words-rstrip s = rw span-rstrip

words-lstrip : (s : String) → words (lstrip s) ≡ words s
unfolding words lstrip
words-lstrip [] = refl
words-lstrip (c ∷ s) = elim (Bool-cases (is_space c)) [
  | inl e ↦ rw (e, words-lstrip s, span-space c s e)
  | inr e ↦ rw e
]

pub words_blank : (s : String) → is_blank s ≡ true → words s ≡ nil
unfolding words
words_blank s h = rw (span_blank s h)

rows-strip_head : (ls : List String) → rows (strip_head ls) ≡ rows ls
unfolding rows strip_head
rows-strip_head nil = refl
rows-strip_head (cons l ls) = ground (arith, rows-strip_head ls, words_blank l, words-lstrip l)

rows-before : (l : String) (ls : List String) → rows (before l ls) ≡ cons_row (words l) (rows ls)
unfolding rows
rows-before l nil = ground (arith, words_blank l, words-rstrip l)
rows-before l (cons k ls) = refl

rows-strip_tail : (ls : List String) → rows (strip_tail ls) ≡ rows ls
unfolding strip_tail
rows-strip_tail nil = refl
rows-strip_tail (cons l ls) =
    rw (rows-before l (strip_tail ls), rows-strip_tail ls) (unfold rows in refl)

-- Stripping a text keeps the words of its lines.
pub rows-strip_text : (ls : List String) → rows (strip_text ls) ≡ rows ls
unfolding strip_text
rows-strip_text ls = rows-strip_tail (strip_head ls) ∙ rows-strip_head ls

pub rows-append : (ls ks : List String) → rows (ls ++ ks) ≡ rows ls ++ rows ks
unfolding rows
rows-append nil ks = refl
rows-append (cons l ls) ks = ground (arith, rows-append ls ks)
