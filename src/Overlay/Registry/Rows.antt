-- ===== src/Overlay/Registry/Rows.antt =====
-- Registries as tables of rows: what rewriting one keeps and adds.
use lab_in_a_box.Prelude.{
  String, Bool, true, false, not, ◌&&◌, Option, none, some, List, [], ◌∷◌, ◌++◌, ◌≡◌, refl, ap, ◌∙◌,
  ◌⊎◌, inl, inr, keep, Bool-cases, if◌then◌else◌,
}
use lab_in_a_box.Text.{words, is_blank}
use mathlib.Core.List.{cons≢nil}
use lab_in_a_box.Text.Lines.{rows, cons_row, words_blank, strip_text, rows-strip_text, rows-append}
use lab_in_a_box.Remote.{File, World}
use lab_in_a_box.Remote.Up.{lines, after_read, after_write, lines-after_write}
use lab_in_a_box.Overlay.Registry.{filter_map, cons_some}

abbrev Agree : (String → Bool) → (List String → Bool) → Type 0
Agree p test = (l : String) → (words l ≡ []) ⊎ (p l ≡ test (words l))

keep_row :
    (test : List String → Bool) (b : Bool) (ws : List String) (rs : List (List String)) (l : String)
    (ls : List String)
    → words l ≡ ws
    → (ws ≡ []) ⊎ (b ≡ test ws)
    → rows ls ≡ keep test rs
    → rows (if b then l ∷ ls else ls) ≡ keep test (cons_row ws rs)
unfolding rows
keep_row test true [] rs l ls e a ih = rw e ih
keep_row test false [] rs l ls e a ih = ih
keep_row test b (w ∷ ws) rs l ls e (inl x) ih = absurd (cons≢nil x)
keep_row test true (w ∷ ws) rs l ls e (inr x) ih = rw (e, ← x, ih)
keep_row test false (w ∷ ws) rs l ls e (inr x) ih = rw (← x, ih)

-- Dropping lines by a test on their words drops the rows with these words.
pub rows-keep :
    (p : String → Bool) (test : List String → Bool) (ls : List String)
    → Agree p test
    → rows (keep p ls) ≡ keep test (rows ls)
unfolding rows words
rows-keep p test [] agree = refl
rows-keep p test (l ∷ ls) agree =
    keep_row test (p l) (words l) (rows ls) l (keep p ls) refl (agree l) (rows-keep p test ls agree)

-- A test on the words alone.
pub Agree-words : (test : List String → Bool) → Agree (λ l. test (words l)) test
Agree-words test l = inr refl

-- A test on the words that drops the blank lines too.
pub Agree-not_blank :
    (test : List String → Bool) → Agree (λ l. test (words l) && not (is_blank l)) test
Agree-not_blank test l = elim (Bool-cases (is_blank l)) [
  | inl e ↦ inl (words_blank l e)
  | inr e ↦ inr (rw e (and_true (test (words l))))
]
  where
    and_true : (b : Bool) → (b && true) ≡ b
    and_true true = refl
    and_true false = refl

module _ {ℓ} {A : Type ℓ} (f : List String → Option A) where
  cons_some-append : (o : Option A) (xs ys : List A) → cons_some o (xs ++ ys) ≡ cons_some o xs ++ ys
  cons_some-append none xs ys = refl
  cons_some-append (some a) xs ys = refl

  pub filter_map-append :
      (rs qs : List (List String)) → filter_map f (rs ++ qs) ≡ filter_map f rs ++ filter_map f qs
  filter_map-append [] qs = refl
  filter_map-append (r ∷ rs) qs =
      ap (cons_some (f r)) (filter_map-append rs qs) ∙ cons_some-append (f r) _ _

  -- Dropping rows drops the entries made of them.
  pub filter_map-keep :
      (test : List String → Bool) (wanted : A → Bool)
      → ((r : List String) (a : A) → f r ≡ some a → test r ≡ wanted a)
      → (rs : List (List String)) → filter_map f (keep test rs) ≡ keep wanted (filter_map f rs)
  filter_map-keep test wanted agree [] = refl
  filter_map-keep test wanted agree (r ∷ rs) =
      step (test r) (f r) refl (agree r) (filter_map-keep test wanted agree rs)
    where
      step :
          (b : Bool) (o : Option A)
          → f r ≡ o
          → ((a : A) → o ≡ some a → b ≡ wanted a)
          → filter_map f (keep test rs) ≡ keep wanted (filter_map f rs)
          → filter_map f (if b then r ∷ keep test rs else keep test rs)
            ≡ keep wanted (cons_some o (filter_map f rs))
      step true none e h ih = rw e ih
      step false none e h ih = ih
      step true (some a) e h ih = rw (e, ← h a refl, ih)
      step false (some a) e h ih = rw (← h a refl, ih)

-- The world once a registry's kept lines and a new line were written back.
abbrev pub rewritten : String → File → (String → Bool) → String → World → World
rewritten hub f p line w =
    after_write hub f (keep p (strip_text (lines w hub f)) ++ line ∷ []) (after_read hub f w)

-- Rewriting keeps the rows that pass the test and puts the new row behind them.
pub rows-rewritten :
    (hub : String) (f : File) (p : String → Bool) (test : List String → Bool) (line : String)
    (w : World)
    → Agree p test
    → rows (lines (rewritten hub f p line w) hub f)
      ≡ keep test (rows (lines w hub f)) ++ rows (line ∷ [])
rows-rewritten hub f p test line w agree =
    ap rows (lines-after_write (after_read hub f w) hub f _)
    ∙ rows-append (keep p (strip_text (lines w hub f))) (line ∷ [])
    ∙ ap (λ rs. rs ++ rows (line ∷ []))
        (rows-keep p test _ agree ∙ ap (keep test) (rows-strip_text (lines w hub f)))

-- The entries of a rewritten registry: those that pass the test, and the new ones behind them.
pub entries-rewritten {ℓ} :
    {A : Type ℓ} (g : List String → Option A) (hub : String) (f : File) (p : String → Bool)
    (test : List String → Bool) (line : String) (w : World) (wanted : A → Bool) (new : List A)
    → Agree p test
    → ((r : List String) (a : A) → g r ≡ some a → test r ≡ wanted a)
    → filter_map g (rows (line ∷ [])) ≡ new
    → filter_map g (rows (lines (rewritten hub f p line w) hub f))
      ≡ keep wanted (filter_map g (rows (lines w hub f))) ++ new
entries-rewritten g hub f p test line w wanted new agree by_entry e =
    ap (filter_map g) (rows-rewritten hub f p test line w agree)
    ∙ filter_map-append g (keep test (rows (lines w hub f))) (rows (line ∷ []))
    ∙ ap (λ l. l ++ filter_map g (rows (line ∷ [])))
        (filter_map-keep g test wanted by_entry (rows (lines w hub f)))
    ∙ ap (λ l. keep wanted (filter_map g (rows (lines w hub f))) ++ l) e
