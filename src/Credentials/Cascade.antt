-- ===== src/Credentials/Cascade.antt =====
-- What is encrypted is read back, and by no other key.
use lab_in_a_box.Prelude.{ℕ, String, some, ◌≡◌, refl}
use lab_in_a_box.Result.{Result, ok, raise, decryption_error, ◌>>=◌, ok-eq}
use lab_in_a_box.Credentials.{
  opened, invalid_tag, Envelope, Crypto, derive_master_key, split_keys, seal, envelope_of,
  encrypt_with, open_layers, decrypt_cascade,
}

-- What base64 and the ciphers document: what was encoded or encrypted is got back.
pub record Inverts (c : Crypto) : Type 0 where
  pub encodes : (b : c.Bytes) → c.unb64 (c.b64 b) ≡ some b
  pub aes : (k n p : c.Bytes) → c.aes_decrypt k n (c.aes_encrypt k n p) ≡ opened p
  pub chacha : (k n p : c.Bytes) → c.chacha_decrypt k n (c.chacha_encrypt k n p) ≡ opened p

-- An authenticated cipher: what one key encrypted, no other key opens.
abbrev pub Authentic : Crypto → Type 0
Authentic c =
    (k k' n p : c.Bytes) → ¬ (k ≡ k') → c.chacha_decrypt k' n (c.chacha_encrypt k n p) ≡ invalid_tag

module _ (c : Crypto) (inverts : Inverts c) (time memory lanes : ℕ)
    (salt nonce1 nonce2 : c.Bytes) where
  -- An envelope that was written is read with the costs that it records.
  decrypt-envelope_of :
      (passphrase : String) (cipher : c.Bytes)
      → decrypt_cascade c passphrase (envelope_of c time memory lanes salt nonce1 nonce2 cipher) ≡ (
          derive_master_key c passphrase salt time memory lanes >>= λ master.
          open_layers c (split_keys c master salt) nonce1 nonce2 cipher)
  unfolding decrypt_cascade
  decrypt-envelope_of passphrase cipher =
      rw (
        inverts.encodes salt,
        inverts.encodes nonce1,
        inverts.encodes nonce2,
        inverts.encodes cipher,
      )

  open_layers-seal :
      (keys : c.Bytes × c.Bytes) (plain : c.Bytes)
      → open_layers c keys nonce1 nonce2 (seal c keys nonce1 nonce2 plain) ≡ ok plain
  open_layers-seal keys plain = rw (inverts.chacha, inverts.aes)

  -- With ciphers and base64 that give back what they were given: whatever is encrypted, at any costs of the
  -- key derivation and with any random bytes, is decrypted by the same passphrase to what it was.
  pub decrypt_cascade-encrypt_with :
      (passphrase : String) (plain : c.Bytes) (envelope : Envelope)
      → encrypt_with c time memory lanes salt nonce1 nonce2 passphrase plain ≡ ok envelope
      → decrypt_cascade c passphrase envelope ≡ ok plain
  unfolding encrypt_with
  decrypt_cascade-encrypt_with passphrase plain envelope e =
      by_master (derive_master_key c passphrase salt time memory lanes) refl e
    where
      by_master :
          (r : Result c.Bytes)
          → derive_master_key c passphrase salt time memory lanes ≡ r
          → (r >>= λ master. ok (
              envelope_of c time memory lanes salt nonce1 nonce2
                (seal c (split_keys c master salt) nonce1 nonce2 plain)))
            ≡ ok envelope
          → decrypt_cascade c passphrase envelope ≡ ok plain
      by_master (raise x) p q = cc
      by_master (ok master) p q = rw (← ok-eq q) (
          rw
            (
              decrypt-envelope_of passphrase
                  (seal c (split_keys c master salt) nonce1 nonce2 plain),
              p,
            )
            (open_layers-seal (split_keys c master salt) plain))

  -- With such ciphers, of which the outer one is authenticated: a passphrase from which another key of the
  -- outer layer is derived gets a DecryptionError, and no text.
  pub decrypt_cascade_wrong :
      Authentic c
      → (passphrase other : String) (plain master master' : c.Bytes) (envelope : Envelope)
      → derive_master_key c passphrase salt time memory lanes ≡ ok master
      → derive_master_key c other salt time memory lanes ≡ ok master'
      → ¬ ((split_keys c master salt).1 ≡ (split_keys c master' salt).1)
      → encrypt_with c time memory lanes salt nonce1 nonce2 passphrase plain ≡ ok envelope
      → decrypt_cascade c other envelope ≡ raise decryption_error
  unfolding encrypt_with
  decrypt_cascade_wrong authentic passphrase other plain master master' envelope p q ne e =
      let sealed : c.Bytes = seal c (split_keys c master salt) nonce1 nonce2 plain in
      let same : envelope_of c time memory lanes salt nonce1 nonce2 sealed ≡ envelope =
        ok-eq (rw p at e) in
      rw (← same) (rw (decrypt-envelope_of other sealed, q, authentic _ _ _ _ ne))
