-- ===== src/Crypto.antt =====
-- crates/logos-messaging-a2a-crypto/src/lib.rs: identities, session keys and what they encrypt. X25519,
-- ChaCha20-Poly1305, hex and base64 are the parameter `CryptoApi`; random bytes are arguments. A key
-- is 32 bytes and a nonce 12, by their types in the source: here that is stated where it is used.
pub mod Roundtrip
use lmao.Prelude.{ℕ, String, Bool, Option, none, some, List, [], ◌∷◌, length, eqb, if◌then◌else◌}
use lmao.Prelude.Result.{Result, ok, err}
use lmao.Transport.{concat}
use lmao.Sds.Message.{Bytes}
use lmao.Node.Poll.{EncryptedPayload, IntroBundle}

pub record CryptoApi : Type 0 where
  pub public_of : Bytes → Bytes
  pub diffie_hellman : Bytes → Bytes → Bytes
  pub aead_encrypt : Bytes → Bytes → Bytes → Option Bytes
  pub aead_decrypt : Bytes → Bytes → Bytes → Option Bytes
  pub hex_encode : Bytes → String
  pub hex_decode : String → Result String Bytes
  pub base64_encode : Bytes → String
  pub base64_decode : String → Option Bytes

pub data CryptoError : Type 0 where
  bad_hex : String → CryptoError
  invalid_key_length : String → CryptoError
  cipher : String → CryptoError
  invalid_base64_nonce : CryptoError
  invalid_base64_ciphertext : CryptoError

-- `Display`
abbrev pub display : CryptoError → String
display (bad_hex e) = concat "invalid hex: " e
display (invalid_key_length message) = message
display (cipher message) = concat "cipher error: " message
display invalid_base64_nonce = "invalid base64 nonce"
display invalid_base64_ciphertext = "invalid base64 ciphertext"

-- A method that may panic.
pub data Outcome (A : Type 0) : Type 0 where
  returned : Result CryptoError A → Outcome A
  panicked : Outcome A

pub record AgentIdentity : Type 0 where
  pub secret : Bytes
  pub public : Bytes

abbrev pub key_length : ℕ
key_length = 32

abbrev pub nonce_length : ℕ
nonce_length = 12

abbrev pub intro_bundle : String → IntroBundle
intro_bundle agent_pubkey = record { agent_pubkey = agent_pubkey; version = "1.0" }

module _ (api : CryptoApi) where
  abbrev pub from_secret : Bytes → AgentIdentity
  from_secret secret = record { secret = secret; public = api.public_of secret }

  -- The random bytes of the secret are the argument.
  abbrev pub generate : Bytes → AgentIdentity
  generate random = from_secret random

  abbrev pub public_key_hex : AgentIdentity → String
  public_key_hex me = api.hex_encode me.public

  abbrev pub secret_hex : AgentIdentity → String
  secret_hex me = api.hex_encode me.secret

  abbrev key_of_hex : String → String → Result CryptoError Bytes
  key_of_hex message text = elim (api.hex_decode text) [
    | err e ↦ err (bad_hex e)
    | ok bytes ↦
        if eqb (length bytes) key_length then ok bytes else err (invalid_key_length message)
  ]

  unfoldable pub from_hex : String → Result CryptoError AgentIdentity
  from_hex text = elim (key_of_hex "secret key must be 32 bytes" text) [
    | err e ↦ err e
    | ok secret ↦ ok (from_secret secret)
  ]

  unfoldable pub parse_public_key : String → Result CryptoError Bytes
  parse_public_key text = key_of_hex "public key must be 32 bytes" text

  unfoldable pub shared_key : AgentIdentity → Bytes → Bytes
  shared_key me their_pubkey = api.diffie_hellman me.secret their_pubkey

  -- An error of the cipher, which says only that, after what was tried.
  abbrev or_cipher : String → Option Bytes → Result CryptoError Bytes
  or_cipher message none = err (cipher message)
  or_cipher message (some bytes) = ok bytes

  -- The nonce is random.
  unfoldable pub encrypt_raw : Bytes → Bytes → Bytes → Result CryptoError (Bytes × Bytes)
  encrypt_raw nonce key plaintext =
      elim (or_cipher "encrypt: aead::Error" (api.aead_encrypt key nonce plaintext)) [
        | err e ↦ err e
        | ok ciphertext ↦ ok (nonce, ciphertext)
      ]

  unfoldable pub decrypt_raw : Bytes → Bytes → Bytes → Result CryptoError Bytes
  decrypt_raw key nonce ciphertext =
      or_cipher "decrypt: aead::Error" (api.aead_decrypt key nonce ciphertext)

  unfoldable pub unseal : AgentIdentity → Bytes → Bytes → Bytes → Result CryptoError Bytes
  unseal me ephemeral_pub nonce ciphertext =
      decrypt_raw (shared_key me ephemeral_pub) nonce ciphertext

  -- The ephemeral secret and the nonce are random; the result is the ephemeral public key, the nonce
  -- and the ciphertext.
  unfoldable pub seal_for :
      Bytes → Bytes → Bytes → Bytes → Result CryptoError (Bytes × Bytes × Bytes)
  seal_for ephemeral_secret nonce recipient_pub plaintext =
      elim (encrypt_raw nonce (api.diffie_hellman ephemeral_secret recipient_pub) plaintext) [
        | err e ↦ err e
        | ok (nonce', ciphertext) ↦ ok (api.public_of ephemeral_secret, nonce', ciphertext)
      ]

  unfoldable pub encrypt : Bytes → Bytes → Bytes → Result CryptoError EncryptedPayload
  encrypt nonce key plaintext =
      elim (or_cipher "encrypt: aead::Error" (api.aead_encrypt key nonce plaintext)) [
        | err e ↦ err e
        | ok ciphertext ↦
            ok (record {
              nonce = api.base64_encode nonce;
              ciphertext = api.base64_encode ciphertext;
            })
      ]

  abbrev decrypt_with : Bytes → Bytes → Option Bytes → Result CryptoError Bytes
  decrypt_with key nonce none = err invalid_base64_ciphertext
  decrypt_with key nonce (some ciphertext) = decrypt_raw key nonce ciphertext

  -- `Nonce::from_slice` panics on a slice of another length.
  unfoldable pub decrypt : Bytes → EncryptedPayload → Outcome Bytes
  decrypt key payload = elim (api.base64_decode payload.nonce) [
    | none ↦ returned (err invalid_base64_nonce)
    | some nonce ↦
        if eqb (length nonce) nonce_length
        then returned (decrypt_with key nonce (api.base64_decode payload.ciphertext))
        else panicked
  ]
