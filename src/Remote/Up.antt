-- ===== src/Remote/Up.antt =====
-- What the commands on files do while every host answers and every command succeeds.
use lab_in_a_box.Prelude.{
  String, Bool, true, ◌&&◌, some, List, ◌∷◌, ◌++◌, ◌≡◌, refl, ap, any, ◌∙◌, eq_refl, eq_iff, str_eq,
  Bool-cases, inl, inr, arith,
}
use lab_in_a_box.Result.{ok}
use lab_in_a_box.Text.Lines.{strip_text}
use lab_in_a_box.Remote.{
  File, wg_privkey, Command, touch, read, write, append, World, Env, set_file, same_file, lines_of,
  effect, has_line, wg_set_peer, route_replace, ssh_test, ssh_run, read_registry,
}

abbrev pub Up : Env → Type 0
Up env = (past : List (String × Command)) (h : String) (c : Command) → env.succeeds past h c ≡ true

abbrev pub lines : World → String → File → List String
lines w h f = lines_of (w.files h f)

abbrev pub noted : String → Command → World → World
noted h c w = record w { issued = (h, c) ∷ w.issued }

-- The world once the file is there and was read.
abbrev pub after_read : String → File → World → World
after_read h f w = noted h (read f) (set_file h f (some (lines w h f)) (noted h (touch f) w))

abbrev pub after_write : String → File → List String → World → World
after_write h f ls w = set_file h f (some ls) (noted h (write f ls) w)

abbrev pub after_append : String → File → List String → World → World
after_append h f ls w = set_file h f (some (lines w h f ++ ls)) (noted h (append f ls) w)

same_file_refl : (f : File) → same_file f f ≡ true
same_file_refl wg_privkey = refl
same_file_refl _ = refl

same_file-eq : (f k : File) → same_file f k ≡ true → f ≡ k
same_file-eq f k h = ground arith

&&-left : (a b : Bool) → (a && b) ≡ true → a ≡ true
&&-left a b h = ground arith

&&-right : (a b : Bool) → (a && b) ≡ true → b ≡ true
&&-right a b h = ground arith

pub lines-set_self :
    (w : World) (h : String) (f : File) (ls : List String)
    → lines (set_file h f (some ls) w) h f ≡ ls
lines-set_self w h f ls = rw (eq_refl h, same_file_refl f)

-- Reading a registry changes no file's lines.
pub lines-after_read :
    (w : World) (h g : String) (f k : File) → lines (after_read h f w) g k ≡ lines w g k
lines-after_read w h g f k = elim (Bool-cases (str_eq h g && same_file f k)) [
  | inl e ↦
      let p : h ≡ g = (eq_iff h g).0 (&&-left _ _ e) in
      let q : f ≡ k = same_file-eq f k (&&-right _ _ e) in rw (e, p, q)
  | inr e ↦ rw e
]

-- A line that is added after reading stands behind the others.
pub lines-after_append :
    (w : World) (h : String) (f : File) (ls : List String)
    → lines (after_append h f ls (after_read h f w)) h f ≡ lines w h f ++ ls
lines-after_append w h f ls =
    lines-set_self (noted h (append f ls) (after_read h f w)) h f _
    ∙ ap (λ ks. ks ++ ls) (lines-after_read w h h f f)

pub lines-after_write :
    (w : World) (h : String) (f : File) (ls : List String) → lines (after_write h f ls w) h f ≡ ls
lines-after_write w h f ls = lines-set_self (noted h (write f ls) w) h f ls

module _ (env : Env) (up : Up env) where
  pub read_registry-eq :
      (w : World) (h : String) (f : File)
      → read_registry env h f w ≡ (ok (strip_text (lines w h f)), after_read h f w)
  unfolding read_registry ssh_run ssh_test effect
  read_registry-eq w h f = simp (up, eq_refl, same_file_refl)

  pub ssh_run-write :
      (w : World) (h : String) (f : File) (ls : List String)
      → ssh_run env h (write f ls) w ≡ (ok tt, after_write h f ls w)
  unfolding ssh_run ssh_test effect
  ssh_run-write w h f ls = rw up

  pub ssh_run-append :
      (w : World) (h : String) (f : File) (ls : List String)
      → ssh_run env h (append f ls) w ≡ (ok tt, after_append h f ls w)
  unfolding ssh_run ssh_test effect
  ssh_run-append w h f ls = rw up

  pub ssh_test-has_line :
      (w : World) (h : String) (f : File) (l : String)
      → ssh_test env h (has_line f l) w
        ≡ (ok (any (λ k. str_eq k l) (lines w h f)), noted h (has_line f l) w)
  unfolding ssh_test effect
  ssh_test-has_line w h f l = rw up

  pub ssh_run-wg_set_peer :
      (w : World) (h key allowed : String)
      → ssh_run env h (wg_set_peer key allowed) w ≡ (ok tt, noted h (wg_set_peer key allowed) w)
  unfolding ssh_run ssh_test effect
  ssh_run-wg_set_peer w h key allowed = rw up

  pub ssh_run-route_replace :
      (w : World) (h cidr : String)
      → ssh_run env h (route_replace cidr) w ≡ (ok tt, noted h (route_replace cidr) w)
  unfolding ssh_run ssh_test effect
  ssh_run-route_replace w h cidr = rw up
