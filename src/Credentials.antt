-- ===== src/Credentials.antt =====
-- libs/crypto_store.py: the encryption of credential values by a passphrase. The ciphers, the key
-- derivations, base64 and the random bytes are parameters.
pub mod Cascade
use lab_in_a_box.Prelude.{
  ℕ, String, Bool, true, false, ◌&&◌, Option, none, some, List, [], ◌∷◌, Dict, get, str_eq,
  if◌then◌else◌,
}
use lab_in_a_box.Result.{Result, ok, raise, runtime_error, value_error, decryption_error, ◌>>=◌}
use lab_in_a_box.Text.{parse_nat, lstrip, rstrip}

-- A value of an envelope.
pub data Field : Type 0 where
  null : Field
  flag : Bool → Field
  number : ℕ → Field
  text : String → Field

abbrev pub Envelope : Type 0
Envelope = Dict Field

-- What a cipher's decryption ends with: what was not made with its key and nonce raises InvalidTag, and a
-- nonce of a length that the cipher has not raises ValueError.
pub data Opened (B : Type 0) : Type 0 where
  opened : B → Opened B
  invalid_tag bad_nonce : Opened B

-- What the cryptography package and base64 offer.
pub record Crypto : Type 1 where
  pub Bytes : Type 0
  -- absent in an older version of the package
  pub argon2id :
      Option ((passphrase : String) (salt : Bytes) (time memory lanes : ℕ) → Result Bytes)
  pub hkdf : (info : String) (salt key : Bytes) → Bytes
  pub aes_encrypt : (key nonce plain : Bytes) → Bytes
  pub aes_decrypt : (key nonce cipher : Bytes) → Opened Bytes
  pub chacha_encrypt : (key nonce plain : Bytes) → Bytes
  pub chacha_decrypt : (key nonce cipher : Bytes) → Opened Bytes
  pub b64 : Bytes → String
  pub unb64 : String → Option Bytes

abbrev pub time_cost : ℕ
time_cost = 3

abbrev pub memory_cost_kib : ℕ
memory_cost_kib = 262144

abbrev pub parallelism : ℕ
parallelism = 4

abbrev pub kdf_id : String
kdf_id = "argon2id"

abbrev pub cipher_id : String
cipher_id = "aes-256-gcm+chacha20-poly1305"

abbrev aes_info : String
aes_info = "lab-in-a-box:credentials:aes-layer"

abbrev chacha_info : String
chacha_info = "lab-in-a-box:credentials:chacha-layer"

-- envelope.get(key) == s
abbrev pub is_text : String → Option Field → Bool
is_text s (some (text t)) = str_eq t s
is_text s _ = false

-- A failure that is reported as DecryptionError.
abbrev pub or_decryption_error : {A : Type 0} → Option A → Result A
or_decryption_error none = raise decryption_error
or_decryption_error (some a) = ok a

-- except InvalidTag
abbrev pub or_invalid : {B : Type 0} → Opened B → Result B
or_invalid (opened b) = ok b
or_invalid invalid_tag = raise decryption_error
or_invalid bad_nonce = raise value_error

-- int(value); of texts, those of digits
abbrev int_of : Field → Option ℕ
int_of null = none
int_of (flag true) = some 1
int_of (flag false) = some 0
int_of (number n) = some n
int_of (text s) = parse_nat (rstrip (lstrip s))

-- int(envelope.get(key, default))
abbrev pub cost : Option Field → ℕ → Option ℕ
cost none default = some default
cost (some v) default = int_of v

module _ (c : Crypto) where
  open c use {Bytes}

  unfoldable pub derive_master_key : String → Bytes → (time memory lanes : ℕ) → Result Bytes
  derive_master_key passphrase salt time memory lanes = elim c.argon2id [
    | none ↦ raise runtime_error
    | some derive ↦ derive passphrase salt time memory lanes
  ]

  -- split_keys and derive_subkey: the keys of the AES and of the ChaCha layer
  unfoldable pub split_keys : Bytes → Bytes → Bytes × Bytes
  split_keys master salt = (c.hkdf aes_info salt master, c.hkdf chacha_info salt master)

  abbrev pub seal : (keys : Bytes × Bytes) (nonce1 nonce2 plain : Bytes) → Bytes
  seal keys nonce1 nonce2 plain = c.chacha_encrypt keys.1 nonce2 (c.aes_encrypt keys.0 nonce1 plain)

  abbrev pub envelope_of : (time memory lanes : ℕ) (salt nonce1 nonce2 cipher : Bytes) → Envelope
  envelope_of time memory lanes salt nonce1 nonce2 cipher =
      ("encrypted", flag true)
      ∷ ("kdf", text kdf_id)
      ∷ ("kdf_time_cost", number time)
      ∷ ("kdf_memory_cost_kib", number memory)
      ∷ ("kdf_parallelism", number lanes)
      ∷ ("cipher", text cipher_id)
      ∷ ("salt", text (c.b64 salt))
      ∷ ("nonce1", text (c.b64 nonce1))
      ∷ ("nonce2", text (c.b64 nonce2))
      ∷ ("ciphertext", text (c.b64 cipher))
      ∷ []

  -- encrypt_cascade at given costs, and with what os.urandom gives
  unfoldable pub encrypt_with :
      (time memory lanes : ℕ) (salt nonce1 nonce2 : Bytes) (passphrase : String) (plain : Bytes)
      → Result Envelope
  unfolding derive_master_key split_keys
  encrypt_with time memory lanes salt nonce1 nonce2 passphrase plain = do
    master ← derive_master_key passphrase salt time memory lanes
    ok (
        envelope_of time memory lanes salt nonce1 nonce2
          (seal (split_keys master salt) nonce1 nonce2 plain))

  unfoldable pub encrypt_cascade :
      (salt nonce1 nonce2 : Bytes) (passphrase : String) (plain : Bytes) → Result Envelope
  unfolding encrypt_with
  encrypt_cascade = encrypt_with time_cost memory_cost_kib parallelism

  -- _unb64(envelope[key])
  abbrev pub bytes_of : Option Field → Result Bytes
  bytes_of (some (text s)) = or_decryption_error (c.unb64 s)
  bytes_of _ = raise decryption_error

  -- Both layers, the outer one first.
  abbrev pub open_layers : (keys : Bytes × Bytes) (nonce1 nonce2 cipher : Bytes) → Result Bytes
  open_layers keys nonce1 nonce2 cipher = do
    intermediate ← or_invalid (c.chacha_decrypt keys.1 nonce2 cipher)
    or_invalid (c.aes_decrypt keys.0 nonce1 intermediate)

  abbrev pub read_envelope : String → Envelope → Result Bytes
  read_envelope passphrase envelope = do
    salt ← bytes_of (get "salt" envelope)
    nonce1 ← bytes_of (get "nonce1" envelope)
    nonce2 ← bytes_of (get "nonce2" envelope)
    cipher ← bytes_of (get "ciphertext" envelope)
    time ← or_decryption_error (cost (get "kdf_time_cost" envelope) time_cost)
    memory ← or_decryption_error (cost (get "kdf_memory_cost_kib" envelope) memory_cost_kib)
    lanes ← or_decryption_error (cost (get "kdf_parallelism" envelope) parallelism)
    master ← derive_master_key passphrase salt time memory lanes
    open_layers (split_keys master salt) nonce1 nonce2 cipher

  unfoldable pub decrypt_cascade : String → Envelope → Result Bytes
  unfolding derive_master_key split_keys
  decrypt_cascade passphrase envelope =
      if is_text kdf_id (get "kdf" envelope) && is_text cipher_id (get "cipher" envelope)
      then read_envelope passphrase envelope
      else raise decryption_error

-- PASSPHRASE_ENV's value; an empty one counts as unset
abbrev pub passphrase_from_env : Option String → Option String
passphrase_from_env none = none
passphrase_from_env (some s) = if str_eq s "" then none else some s

-- prompt_passphrase with confirm=True on what is typed; none where the typing ends before two agree
unfoldable pub prompt_twice : List String → Option String
prompt_twice [] = none
prompt_twice (a ∷ []) = none
prompt_twice (a ∷ b ∷ typed) = let rest = prompt_twice typed in if str_eq a b then some a else rest
