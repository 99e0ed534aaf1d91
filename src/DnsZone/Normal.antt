-- ===== src/DnsZone/Normal.antt =====
-- A record is read back as itself.
use Prim.Native.String.{[], ◌∷◌}
use mathlib.Core.List.{[] as nil, ◌∷◌ as cons}
use lab_in_a_box.Prelude.{
  Char, code, String, Bool, true, false, not, ◌&&◌, Option, none, some, List, All, eqb,
  if◌then◌else◌, ◌≡◌, inl, inr, refl, sym, ap, ◌∙◌, arith, Bool-cases, some-eq,
}
use lab_in_a_box.Text.{
  ◌<>◌, words, span, cons_word, join, starts_with, lstrip, rstrip, is_space, is_empty, all_chars,
}
use lab_in_a_box.Text.Words.{is_word, no_space, is_word-no_space, words-cons, words_last}
use lab_in_a_box.DnsZone.{before_comment, record_of_fields, record_of_stripped, record_of}

and_false : (b : Bool) → (b && false) ≡ false
and_false true = refl
and_false false = refl

-- No character of the text begins a comment.
abbrev bare : String → Bool
bare s = all_chars (λ c. not (eqb (code c) 59)) s

bare-before_comment : (s : String) → bare (before_comment s) ≡ true
unfolding before_comment
bare-before_comment [] = refl
bare-before_comment (c ∷ s) = elim (Bool-cases (eqb (code c) 59)) [
  | inl p ↦ rw (p) refl
  | inr p ↦ rw (p) (rw (p) (bare-before_comment s))
]

before_comment-bare : (s : String) → bare s ≡ true → before_comment s ≡ s
unfolding before_comment
before_comment-bare [] e = refl
before_comment-bare (c ∷ s) e = ground (arith, before_comment-bare s)

bare-lstrip : (s : String) → bare s ≡ true → bare (lstrip s) ≡ true
unfolding lstrip
bare-lstrip [] e = refl
bare-lstrip (c ∷ s) e = ground (arith, bare-lstrip s)

bare-rstrip : (s : String) → bare s ≡ true → bare (rstrip s) ≡ true
unfolding rstrip
bare-rstrip [] e = refl
bare-rstrip (c ∷ s) e = ground (arith, bare-rstrip s)

-- A part of a line between white space, and one that is not empty.
abbrev Part : String → Type 0
Part w = (no_space w ≡ true) × (bare w ≡ true)

abbrev Plain : String → Type 0
Plain w = (is_word w ≡ true) × (bare w ≡ true)

Plain-cons_word :
    (w : String) (ws : List String) → Part w → All Plain ws → All Plain (cons_word w ws)
Plain-cons_word [] ws p a = a
Plain-cons_word (c ∷ w) ws p a = (p, a)

bare-tail : (c : Char) (s : String) → bare (c ∷ s) ≡ true → bare s ≡ true
bare-tail c s e = ground arith

bare-cons : (c : Char) (s w : String) → bare (c ∷ s) ≡ true → bare w ≡ true → bare (c ∷ w) ≡ true
bare-cons c s w e f = ground arith

Plain-span : (s : String) → bare s ≡ true → Part (span s).0 × All Plain (span s).1
unfolding span
Plain-span [] e = ((refl, refl), tt)
Plain-span (c ∷ s) e =
    let (p, a) = Plain-span s (bare-tail c s e) in
    elim (Bool-cases (is_space c)) [
      | inl q ↦ rw (q) ((refl, refl), Plain-cons_word (span s).0 (span s).1 p a)
      | inr q ↦ rw (q) ((rw (q) p.0, bare-cons c s (span s).0 e p.1), a)
    ]

Plain-words : (s : String) → bare s ≡ true → All Plain (words s)
unfolding words
Plain-words s e = let (p, a) = Plain-span s e in Plain-cons_word (span s).0 (span s).1 p a

words-join : (ws : List String) → All Plain ws → words (join " " ws) ≡ ws
unfolding words span join
words-join nil a = refl
words-join (cons w nil) a = words_last w a.0.0
words-join (cons w (cons v ws)) a =
    words-cons w (join " " (cons v ws)) a.0.0 ∙ ap (cons w) (words-join (cons v ws) a.1)

bare-append : (s t : String) → bare s ≡ true → bare t ≡ true → bare (s <> t) ≡ true
bare-append [] t e f = f
bare-append (c ∷ s) t e f = ground (arith, bare-append s t)

bare-join : (ws : List String) → All Plain ws → bare (join " " ws) ≡ true
unfolding join
bare-join nil a = refl
bare-join (cons w nil) a = a.0.1
bare-join (cons w (cons v ws)) a =
    bare-append w (" " <> join " " (cons v ws)) a.0.1 (bare-join (cons v ws) a.1)

is_empty-append : (s t : String) → is_empty t ≡ false → is_empty (s <> t) ≡ false
is_empty-append [] t e = e
is_empty-append (c ∷ s) t e = refl

is_empty-word : (w : String) → is_word w ≡ true → is_empty w ≡ false
is_empty-word [] e = cc
is_empty-word (c ∷ w) e = refl

is_empty-join :
    (w : String) (ws : List String) → is_word w ≡ true → is_empty (join " " (cons w ws)) ≡ false
unfolding join
is_empty-join [] ws h = cc
is_empty-join (c ∷ w) nil h = refl
is_empty-join (c ∷ w) (cons v ws) h = refl

rstrip-no_space : (w : String) → no_space w ≡ true → rstrip w ≡ w
unfolding rstrip
rstrip-no_space [] e = refl
rstrip-no_space (c ∷ w) e = ground (arith, rstrip-no_space w)

rstrip-append : (s t : String) → is_empty t ≡ false → rstrip t ≡ t → rstrip (s <> t) ≡ s <> t
unfolding rstrip
rstrip-append [] t e f = f
rstrip-append (c ∷ s) t e f = rw (rstrip-append s t e f, is_empty-append s t e) refl

rstrip-join : (ws : List String) → All Plain ws → rstrip (join " " ws) ≡ join " " ws
unfolding join rstrip
rstrip-join nil a = refl
rstrip-join (cons w nil) a = rstrip-no_space w (is_word-no_space w a.0.0)
rstrip-join (cons w (cons v ws)) a = rstrip-append w (" " <> join " " (cons v ws)) refl (
    rstrip-append " " (join " " (cons v ws)) (is_empty-join v ws a.1.0.0)
      (rstrip-join (cons v ws) a.1))

-- A text that is empty, or does not begin with white space.
abbrev Trimmed : String → Type 0
Trimmed [] = Unit
Trimmed (c ∷ s) = is_space c ≡ false

Trimmed-lstrip : (s : String) → Trimmed (lstrip s)
unfolding lstrip
Trimmed-lstrip [] = tt
Trimmed-lstrip (c ∷ s) = elim (Bool-cases (is_space c)) [
  | inl p ↦ rw (p) (Trimmed-lstrip s)
  | inr p ↦ rw (p) p
]

Trimmed-rstrip : (s : String) → Trimmed s → Trimmed (rstrip s)
unfolding rstrip
Trimmed-rstrip [] t = tt
Trimmed-rstrip (c ∷ s) t = rw (t, and_false (is_empty (rstrip s))) t

lstrip-Trimmed : (s : String) → Trimmed s → lstrip s ≡ s
unfolding lstrip
lstrip-Trimmed [] t = refl
lstrip-Trimmed (c ∷ s) t = rw (t) refl

first_no_space : (c : Char) (w : String) → is_word (c ∷ w) ≡ true → is_space c ≡ false
first_no_space c w e = ground arith

-- Texts that begin alike.
abbrev SameStart : String → String → Type 0
SameStart [] t = ⊥
SameStart (c ∷ s) [] = ⊥
SameStart (c ∷ s) (d ∷ t) = c ≡ d

SameStart-join :
    (c : Char) (w : String) (ws : List String) (s : String)
    → SameStart (join " " (cons (c ∷ w) ws)) (c ∷ s)
unfolding join
SameStart-join c w nil s = refl
SameStart-join c w (cons v ws) s = refl

-- With the same words, and beginning alike, lines are the same record.
record_of_stripped-SameStart :
    (s t : String) → SameStart s t → words s ≡ words t → record_of_stripped s ≡ record_of_stripped t
unfolding starts_with
record_of_stripped-SameStart [] t h e = absurd h
record_of_stripped-SameStart (c ∷ s) [] h e = absurd h
record_of_stripped-SameStart (c ∷ s) (d ∷ t) h e = rw (e, h) refl

past_test :
    (b : Bool) (o : Option String) (r : String) → (if b then none else o) ≡ some r → o ≡ some r
past_test true o r e = cc
past_test false o r e = e

record_of_fields-join :
    (fields : List String) (r : String) → record_of_fields fields ≡ some r → join " " fields ≡ r
record_of_fields-join nil r e = cc
record_of_fields-join (cons f fs) r e = some-eq (past_test _ _ r (past_test _ _ r e))

record_of_stripped-join : (s r : String) → record_of_stripped s ≡ some r → join " " (words s) ≡ r
record_of_stripped-join s r e = record_of_fields-join (words s) r (past_test _ _ r e)

Trimmed-join : (ws : List String) → All Plain ws → Trimmed (join " " ws)
unfolding join
Trimmed-join nil a = tt
Trimmed-join (cons [] ws) a = (let f : false ≡ true = a.0.0 in cc)
Trimmed-join (cons (c ∷ w) nil) a = first_no_space c w a.0.0
Trimmed-join (cons (c ∷ w) (cons v ws)) a = first_no_space c w a.0.0

SameStart-words :
    (c : Char) (s : String) → is_space c ≡ false → SameStart (join " " (words (c ∷ s))) (c ∷ s)
unfolding words span
SameStart-words c s e = rw (e) (SameStart-join c (span s).0 (span s).1 s)

-- The record of a trimmed text without comment is read back as itself.
record_of-join :
    (x r : String)
    → bare x ≡ true
    → Trimmed x
    → record_of_stripped x ≡ some r
    → record_of r ≡ some r
unfolding record_of
record_of-join [] r b t e = cc
record_of-join (c ∷ s) r b t e =
    let plain : All Plain (words (c ∷ s)) = Plain-words (c ∷ s) b in
    let read : String = join " " (words (c ∷ s)) in
    let same : read ≡ r = record_of_stripped-join (c ∷ s) r e in
    let cleaned : rstrip (lstrip (before_comment read)) ≡ read =
      ap (λ y. rstrip (lstrip y)) (before_comment-bare read (bare-join (words (c ∷ s)) plain))
      ∙ ap rstrip (lstrip-Trimmed read (Trimmed-join (words (c ∷ s)) plain))
      ∙ rstrip-join (words (c ∷ s)) plain in
    let kept : record_of_stripped (rstrip (lstrip (before_comment read))) ≡ some r =
      ap record_of_stripped cleaned
      ∙ record_of_stripped-SameStart read (c ∷ s) (SameStart-words c s t)
          (words-join (words (c ∷ s)) plain)
      ∙ e in
    ap (λ y. record_of_stripped (rstrip (lstrip (before_comment y)))) (sym same) ∙ kept

-- The record of a line is its own record.
pub record_of-record_of : (line r : String) → record_of line ≡ some r → record_of r ≡ some r
unfolding record_of
record_of-record_of line r e =
    record_of-join (rstrip (lstrip (before_comment line))) r
      (bare-rstrip (lstrip (before_comment line))
        (bare-lstrip (before_comment line) (bare-before_comment line)))
      (Trimmed-rstrip (lstrip (before_comment line)) (Trimmed-lstrip (before_comment line))) e
