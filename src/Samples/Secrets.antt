-- ===== src/Samples/Secrets.antt =====
-- Ciphers that write the key before the text, each character behind a comma and a dot behind the last one,
-- and an envelope made with them.
use Prim.Native.String.{[], ◌∷◌}
use lab_in_a_box.Prelude.{
  String, ◌&&◌, some, str_eq, eq_iff, eq_refl, if◌then◌else◌, ◌≡◌, refl, inl, inr, Bool-cases,
  text-ne, Char, sym,
}
use lab_in_a_box.Text.{◌<>◌}
use lab_in_a_box.Result.{ok, raise, decryption_error}
use lab_in_a_box.Credentials.{
  Opened, opened, invalid_tag, Crypto, Envelope, derive_master_key, split_keys, seal, encrypt_with,
  decrypt_cascade, envelope_of,
}
use lab_in_a_box.Credentials.Cascade.{
  Inverts, Authentic, decrypt_cascade-encrypt_with, decrypt_cascade_wrong,
}

abbrev single : Char → String
single c = c ∷ []

abbrev lock : String → String → String
lock [] plain = "." <> plain
lock (c ∷ key) plain = "," <> (c ∷ lock key plain)

abbrev unlock : String → String → Opened String
unlock [] (m ∷ s) = if str_eq (single m) "." then opened s else invalid_tag
unlock (c ∷ key) (m ∷ d ∷ s) =
    let rest = unlock key s in
    if str_eq (single m) "," && str_eq (single c) (single d) then rest else invalid_tag
unlock _ _ = invalid_tag

unlock-lock : (key plain : String) → unlock key (lock key plain) ≡ opened plain
unlock-lock [] plain = refl
unlock-lock (c ∷ key) plain = rw (eq_refl (single c)) (unlock-lock key plain)

unlock_other :
    (key key' plain : String) → ¬ (key ≡ key') → unlock key' (lock key plain) ≡ invalid_tag
unlock_other [] [] plain ne = absurd (ne refl)
unlock_other [] (d ∷ key') [] ne = refl
unlock_other [] (d ∷ key') (x ∷ plain) ne = refl
unlock_other (c ∷ key) [] plain ne = refl
unlock_other (c ∷ key) (d ∷ key') plain ne = elim (Bool-cases (str_eq (single d) (single c))) [
  | inr p ↦ rw (p) refl
  | inl p ↦
      rw (p)
        (unlock_other key key' plain (λ e. ne (ap2 (sym ((eq_iff (single d) (single c)).0 p)) e)))
]
  where
    ap2 : single c ≡ single d → key ≡ key' → (c ∷ key) ≡ (d ∷ key')
    ap2 e f = cc

abbrev locks : Crypto
locks = record {
  Bytes = String;
  argon2id = some (λ passphrase salt time memory lanes. ok passphrase);
  hkdf = λ info salt key. key;
  aes_encrypt = λ key nonce plain. lock key plain;
  aes_decrypt = λ key nonce cipher. unlock key cipher;
  chacha_encrypt = λ key nonce plain. lock key plain;
  chacha_decrypt = λ key nonce cipher. unlock key cipher;
  b64 = λ b. b;
  unb64 = λ s. some s;
}

locks-Inverts : Inverts locks
locks-Inverts = record {
  encodes = λ b. refl;
  aes = λ k n p. unlock-lock k p;
  chacha = λ k n p. unlock-lock k p;
}

locks-Authentic : Authentic locks
locks-Authentic k k' n p ne = unlock_other k k' p ne

abbrev written : Envelope
written = envelope_of locks 3 64 4 "salt" "n1" "n2" (seal locks ("key", "key") "n1" "n2" "secret")

decrypt_cascade-encrypt_with_example : decrypt_cascade locks "key" written ≡ ok "secret"
unfolding derive_master_key split_keys encrypt_with
decrypt_cascade-encrypt_with_example =
    decrypt_cascade-encrypt_with locks locks-Inverts 3 64 4 "salt" "n1" "n2" "key" "secret" written
      refl

decrypt_cascade_wrong_example : decrypt_cascade locks "kex" written ≡ raise decryption_error
unfolding derive_master_key split_keys encrypt_with
decrypt_cascade_wrong_example =
    decrypt_cascade_wrong locks locks-Inverts 3 64 4 "salt" "n1" "n2" locks-Authentic "key" "kex"
      "secret" "key" "kex" written refl refl (text-ne "key" "kex" refl) refl
