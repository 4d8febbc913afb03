-- ===== src/Node/Payload.antt =====
-- crates/logos-messaging-a2a-node/src/tasks/helpers.rs: what of a task goes over the network, encrypted for
-- its recipient and offloaded to storage when it is large. serde, encryption and storage are the
-- parameter `PayloadApi`; an error stands for its text.
pub mod Roundtrip
use lmao.Prelude.{
  ℕ, String, Bool, true, false, Option, none, some, List, [], ◌∷◌, length, ltb, if◌then◌else◌,
}
use lmao.Prelude.Result.{Result, ok, err}
use lmao.Sds.Message.{Bytes}
use lmao.Task.{Task, Message}
use lmao.Node.Poll.{AgentCard, IntroBundle, EncryptedPayload, Envelope, task, encrypted_task}

-- An identity seals bytes for the holder of a public key; a key that does not parse is an error.
pub record Identity : Type 0 where
  pub public_key_hex : String
  pub seal : String → Bytes → Result String EncryptedPayload

pub record StorageOffload (S : Type 0) : Type 0 where
  pub threshold_bytes : ℕ
  pub upload : Bytes → S → Result String String × S

pub record PayloadApi (S : Type 0) : Type 0 where
  pub encode_envelope : Envelope → Option Bytes
  pub encode_task : Task → Option Bytes
  pub identity : Option Identity
  pub storage_offload : Option (StorageOffload S)

abbrev pub or_serde : {A : Type 0} → Option A → Result String A
or_serde none = err "serde_json"
or_serde (some a) = ok a

abbrev pub cleared : Message → Message
cleared m = record m { parts = [] }

-- The task without its contents, with the address of the whole one.
abbrev pub slim : String → Task → Task
slim cid t = record t {
  payload_cid = some cid;
  message = cleared t.message;
  result = elim t.result [ none ↦ none | some m ↦ some (cleared m) ];
}

module _ {S : Type 0} (api : PayloadApi S) where
  abbrev sealed : Identity → IntroBundle → Task → Result String Envelope
  sealed identity bundle t = elim (api.encode_task t) [
    | none ↦ err "serde_json"
    | some json ↦ elim (identity.seal bundle.agent_pubkey json) [
      | err e ↦ err e
      | ok encrypted ↦ ok (encrypted_task encrypted identity.public_key_hex)
    ]
  ]

  abbrev bundle_of : Option AgentCard → Option IntroBundle
  bundle_of none = none
  bundle_of (some card) = card.intro_bundle

  unfoldable pub maybe_encrypt_task : Task → Option AgentCard → Result String Envelope
  maybe_encrypt_task t card = elim api.identity [
    | none ↦ ok (task t)
    | some identity ↦ elim (bundle_of card) [
      | none ↦ ok (task t)
      | some bundle ↦ sealed identity bundle t
    ]
  ]

  -- `maybe_encrypt_task` and then `to_vec`
  unfoldable pub wire_form : Task → Option AgentCard → Result String Bytes
  wire_form t card = elim (maybe_encrypt_task t card) [
    | err e ↦ err e
    | ok envelope ↦ or_serde (api.encode_envelope envelope)
  ]

  unfoldable pub offload : StorageOffload S → Task → Option AgentCard → S → Result String Bytes × S
  offload store t card s = elim (api.encode_task t) [
    | none ↦ (err "serde_json", s)
    | some task_bytes ↦
        let (uploaded, s') = store.upload task_bytes s in
        elim uploaded [ err e ↦ (err e, s') | ok cid ↦ (wire_form (slim cid t) card, s') ]
  ]

  unfoldable pub prepare_payload : Task → Option AgentCard → S → Result String Bytes × S
  prepare_payload t card s = elim (wire_form t card) [
    | err e ↦ (err e, s)
    | ok payload ↦ elim api.storage_offload [
      | none ↦ (ok payload, s)
      | some store ↦
          if ltb store.threshold_bytes (length payload)
          then offload store t card s
          else (ok payload, s)
    ]
  ]
