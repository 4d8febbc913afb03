-- ===== src/Node/Encryption/Session.antt =====
-- An encrypted task of node/src/tasks/helpers.rs reaches the one it is for.
use lmao.Prelude.{◌≡◌, refl, sym, ◌∙◌, Option, some, length}
use lmao.Prelude.Result.{ok}
use lmao.Sds.Message.{Bytes}
use lmao.Task.{Task}
use lmao.Node.Poll.{EncryptedPayload}
use lmao.Crypto.{
  CryptoApi, key_length, nonce_length, from_secret, public_key_hex, shared_key, encrypt,
}
use lmao.Crypto.Roundtrip.{CryptoLaws, from_hex-secret_hex, decrypt-encrypt_shared}
use lmao.Node.Encryption.{encrypt_for, decrypt_task, read_task}

-- Two agents that know each other's public keys in hex exchange tasks: what one encrypts for the
-- other, with a nonce of 12 bytes, the other decrypts, with no error and no panic, to the task that
-- was encoded.
pub decrypt_task-encrypt_for :
    (api : CryptoApi) (laws : CryptoLaws api) (decode : Bytes → Option Task)
    (a b nonce json : Bytes) (task : Task) (encrypted : EncryptedPayload)
    → length a ≡ key_length
    → length b ≡ key_length
    → length nonce ≡ nonce_length
    → decode json ≡ some task
    → let alice = from_secret api a in
      let bob = from_secret api b in
      encrypt_for api nonce alice (public_key_hex api bob) json ≡ ok encrypted
      → decrypt_task api decode bob (public_key_hex api alice) encrypted ≡ some (ok task)
unfolding encrypt_for decrypt_task
decrypt_task-encrypt_for api laws decode a b nonce json task encrypted la lb ln read h =
    let alice = from_secret api a in
    let bob = from_secret api b in
    let key_of_bob = (from_hex-secret_hex api laws b lb).1 in
    let key_of_alice = (from_hex-secret_hex api laws a la).1 in
    let sends : encrypt_for api nonce alice (public_key_hex api bob) json
        ≡ encrypt api nonce (shared_key api alice bob.public) json =
      rw (encrypt_for, key_of_bob) refl in
    let opens = decrypt-encrypt_shared api laws a b nonce json encrypted la lb ln (sym sends ∙ h) in
    rw (decrypt_task, key_of_alice, opens, read_task, read) refl
