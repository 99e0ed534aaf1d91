-- ===== src/Ip/RoundTrip.antt =====
-- The texts of addresses are read back, and they are words: no separator and no white space in them.
use Prim.Native.String.{[], ◌∷◌}
use lab_in_a_box.Prelude.{
  ℕ, zero, suc, ◌+◌, ◌*◌, ◌/◌, ◌%◌, ◌^◌, ◌<◌, String, Bool, true, false, not, ◌&&◌, Option, none,
  some, ◌≡◌, refl, ap, List, code, eqb, arith,
}
use lab_in_a_box.Text.{◌<>◌, show, split_on, span_on, parse_nat, starts_with, all_chars, is_space}
use lab_in_a_box.Text.Words.{split_on_last, span_on-append, is_word, no_space, is_word-no_space}
use lab_in_a_box.Ip.{ip_text, parse_ip, parse_octet}

-- Over a small range every value is checked by evaluation.
unfoldable pub all_below : ℕ → (ℕ → Bool) → Bool
all_below zero test = true
all_below (suc n) test = test n && all_below n test

pub all_below_sound :
    (n : ℕ) (test : ℕ → Bool) (x : ℕ) → all_below n test ≡ true → x < n → test x ≡ true
unfolding all_below
all_below_sound zero test x h lt = absurd (omega arith)
all_below_sound (suc n) test x h lt = ground (arith, all_below_sound n test x)

abbrev is_some_of : ℕ → Option ℕ → Bool
is_some_of n none = false
is_some_of n (some m) = eqb m n

abbrev lacks_dot : String → Bool
lacks_dot = all_chars (λ c. not (eqb (code c) 46))

octets_read : all_below 256 (λ n. is_some_of n (parse_octet (show n))) ≡ true
unfolding all_below parse_octet show parse_nat starts_with
octets_read = refl

octets_lack_dot : all_below 256 (λ n. lacks_dot (show n)) ≡ true
unfolding all_below show
octets_lack_dot = refl

octets_word : all_below 256 (λ n. is_word (show n)) ≡ true
unfolding all_below show is_space
octets_word = refl

is_some_of-eq : (n : ℕ) (o : Option ℕ) → is_some_of n o ≡ true → o ≡ some n
is_some_of-eq n none h = ground arith
is_some_of-eq n (some m) h = ground arith

parse_octet-show : (n : ℕ) → n < 256 → parse_octet (show n) ≡ some n
parse_octet-show n h = is_some_of-eq n _ (all_below_sound 256 _ n octets_read h)

show-lacks_dot : (n : ℕ) → n < 256 → lacks_dot (show n) ≡ true
show-lacks_dot n h = all_below_sound 256 _ n octets_lack_dot h

octet_word : (n : ℕ) → n < 256 → is_word (show n) ≡ true
octet_word n h = all_below_sound 256 _ n octets_word h

append-nil : (s : String) → s <> [] ≡ s
append-nil [] = refl
append-nil (c ∷ s) = ap (λ t. c ∷ t) (append-nil s)

split_on_dot :
    (a b c d : String)
    → lacks_dot a ≡ true
    → lacks_dot b ≡ true
    → lacks_dot c ≡ true
    → lacks_dot d ≡ true
    → split_on 46 (a <> "." <> b <> "." <> c <> "." <> d)
      ≡ List.◌∷◌ a (List.◌∷◌ b (List.◌∷◌ c (List.◌∷◌ d List.[])))
unfolding split_on span_on
split_on_dot a b c d ha hb hc hd =
    rw
      (
        span_on-append 46 a _ ha,
        span_on-append 46 b _ hb,
        span_on-append 46 c _ hc,
        split_on_last 46 d hd,
      )
      (simp append-nil)

quad_value :
    (n : ℕ)
    → n / 2 ^ 24 * 2 ^ 24 + n / 2 ^ 16 % 256 * 2 ^ 16 + n / 2 ^ 8 % 256 * 2 ^ 8 + n % 256 ≡ n
quad_value n = omega arith

-- An address written out in dotted decimal is read back as the same address.
pub parse_ip-ip_text : (n : ℕ) → n < 2 ^ 32 → parse_ip (ip_text n) ≡ some n
unfolding parse_ip ip_text
parse_ip-ip_text n h =
    let a : n / 2 ^ 24 < 256 = omega arith in
    let b : n / 2 ^ 16 % 256 < 256 = omega arith in
    let c : n / 2 ^ 8 % 256 < 256 = omega arith in
    let d : n % 256 < 256 = omega arith in
    rw
      (
        split_on_dot _ _ _ _ (show-lacks_dot _ a) (show-lacks_dot _ b) (show-lacks_dot _ c)
            (show-lacks_dot _ d),
        parse_octet-show _ a,
        parse_octet-show _ b,
        parse_octet-show _ c,
        parse_octet-show _ d,
      )
      (ap some (quad_value n))

no_space-append : (s t : String) → no_space s ≡ true → no_space t ≡ true → no_space (s <> t) ≡ true
no_space-append [] t h k = k
no_space-append (c ∷ s) t h k = ground (arith, no_space-append s t)

is_word-append : (s t : String) → is_word s ≡ true → no_space t ≡ true → is_word (s <> t) ≡ true
is_word-append [] t h k = ground arith
is_word-append (c ∷ s) t h k = no_space-append (c ∷ s) t h k

dotted : (s t : String) → is_word s ≡ true → is_word t ≡ true → is_word (s <> "." <> t) ≡ true
unfolding is_space
dotted s t h k = is_word-append s ("." <> t) h (is_word-no_space t k)

-- The text of an address is a word.
pub ip_text-is_word : (n : ℕ) → n < 2 ^ 32 → is_word (ip_text n) ≡ true
unfolding ip_text
ip_text-is_word n h = dotted _ _ (octet_word (n / 2 ^ 24) (omega arith)) (
    dotted _ _ (octet_word (n / 2 ^ 16 % 256) (omega arith)) (
      dotted _ _ (octet_word (n / 2 ^ 8 % 256) (omega arith)) (octet_word (n % 256) (omega arith))))
