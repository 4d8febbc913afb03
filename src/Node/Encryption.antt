-- ===== src/Node/Encryption.antt =====
-- crates/logos-messaging-a2a-node/src/tasks/helpers.rs: what encrypts a task for its recipient, and
-- `decrypt_task`, over the crate for cryptography. serde is `encode` and `decode`; metrics are not
-- modelled.
pub mod Session
use lmao.Prelude.{String, Option, none, some}
use lmao.Prelude.Result.{Result, ok, err}
use lmao.Sds.Message.{Bytes}
use lmao.Task.{Task}
use lmao.Node.Poll.{EncryptedPayload}
use lmao.Crypto.{
  CryptoApi, CryptoError, Outcome, returned, panicked, AgentIdentity, parse_public_key, shared_key,
  encrypt, decrypt,
}

-- `no_task` is an error of serde.
pub data DecryptError : Type 0 where
  crypto : CryptoError → DecryptError
  no_task : DecryptError

module _ (api : CryptoApi) where
  -- The part of `maybe_encrypt_task` that encrypts bytes for the holder of a public key.
  unfoldable pub encrypt_for :
      Bytes → AgentIdentity → String → Bytes → Result CryptoError EncryptedPayload
  encrypt_for nonce identity agent_pubkey task_json = elim (parse_public_key api agent_pubkey) [
    | err e ↦ err e
    | ok their_pubkey ↦ encrypt api nonce (shared_key api identity their_pubkey) task_json
  ]

  abbrev read_task : (Bytes → Option Task) → Outcome Bytes → Option (Result DecryptError Task)
  read_task decode panicked = none
  read_task decode (returned (err e)) = some (err (crypto e))
  read_task decode (returned (ok plaintext)) = elim (decode plaintext) [
    | none ↦ some (err no_task)
    | some task ↦ some (ok task)
  ]

  -- `none` is a panic.
  unfoldable pub decrypt_task :
      (Bytes → Option Task)
      → AgentIdentity
      → String
      → EncryptedPayload
      → Option (Result DecryptError Task)
  decrypt_task decode identity sender_pubkey_hex encrypted =
      elim (parse_public_key api sender_pubkey_hex) [
        | err e ↦ some (err (crypto e))
        | ok their_pubkey ↦
            read_task decode (decrypt api (shared_key api identity their_pubkey) encrypted)
      ]
