-- ===== src/Node/Payload/Roundtrip.antt =====
-- A task that node/src/tasks/helpers.rs puts on the wire is the task that tasks/poll.rs takes off it.
use lmao.Prelude.{
  ◌≡◌, refl, ap, sym, ◌∙◌, ◌⊎◌, String, Option, none, some, inl, inr, Bool-cases, Option-cases,
  length, ltb,
}
use lmao.Prelude.Result.{Result, ok, err, Result-cases, ok_inj, err_not_ok}
use lmao.Sds.Message.{Bytes}
use lmao.Task.{Task}
use lmao.Node.Poll.{
  AgentCard, IntroBundle, EncryptedPayload, Envelope, task, encrypted_task, PollApi, extract_task,
  extract_task_from_envelope, maybe_fetch_offloaded,
}
use lmao.Node.Payload.{
  PayloadApi, StorageOffload, Identity, or_serde, slim, bundle_of, sealed, maybe_encrypt_task,
  wire_form, offload, prepare_payload,
}

-- The tasks that may stand on the wire for a task: itself, or what is left of it beside storage.
abbrev pub IsFormOf : Task → Task → Type 0
IsFormOf t form = (form ≡ t) ⊎ ((cid : String) × (form ≡ slim cid t))

-- What a sender of a task and its receiver rely on: the envelopes of the task's forms are read back,
-- the receiver's identity opens what the sender's sealed for the key of the receiver's card, and storage returns the task that
-- was uploaded.
pub record WireLaws {S : Type 0} (api : PayloadApi S) (poll : PollApi) (card : Option AgentCard)
    (t : Task) : Type 0 where
  pub decode_envelope-encode_envelope :
      (form : Task) (envelope : Envelope) (bytes : Bytes)
      → IsFormOf t form
      → maybe_encrypt_task api form card ≡ ok envelope
      → api.encode_envelope envelope ≡ some bytes
      → poll.decode_envelope bytes ≡ some envelope
  pub decrypt : EncryptedPayload → String → Option Task
  pub has_identity : poll.decrypt ≡ some decrypt
  pub decrypt-seal :
      (identity : Identity) (bundle : IntroBundle) (form : Task) (json : Bytes)
      (encrypted : EncryptedPayload)
      → IsFormOf t form
      → api.identity ≡ some identity
      → bundle_of api card ≡ some bundle
      → api.encode_task form ≡ some json
      → identity.seal bundle.agent_pubkey json ≡ ok encrypted
      → decrypt encrypted identity.public_key_hex ≡ some form
  pub download : String → Result String Task
  pub has_storage : poll.download ≡ some download
  pub download-upload :
      (store : StorageOffload S) (bytes : Bytes) (cid : String) (s : S)
      → api.storage_offload ≡ some store
      → api.encode_task t ≡ some bytes
      → (store.upload bytes s).0 ≡ ok cid
      → download cid ≡ ok t

module _ {S : Type 0} (api : PayloadApi S) (poll : PollApi) (card : Option AgentCard) (t : Task)
    (laws : WireLaws api poll card t) where
  or_serde-inv : (o : Option Bytes) (bytes : Bytes) → or_serde o ≡ ok bytes → o ≡ some bytes
  or_serde-inv none bytes h = absurd (err_not_ok _ _ h)
  or_serde-inv (some b) bytes h = ap some (ok_inj b bytes h)

  -- The envelope of a task, encrypted or not, holds the task.
  extract-maybe_encrypt_task :
      (form : Task) (envelope : Envelope)
      → IsFormOf t form
      → maybe_encrypt_task api form card ≡ ok envelope
      → extract_task_from_envelope poll envelope ≡ maybe_fetch_offloaded poll form
  unfolding maybe_encrypt_task
  extract-maybe_encrypt_task form envelope is_form h = elim (Option-cases api.identity) [
    | inl e ↦
        let plain : maybe_encrypt_task api form card ≡ ok (task form) =
          rw (e, maybe_encrypt_task) refl in
        rw (← ok_inj (task form) envelope (sym plain ∙ h)) refl
    | inr (identity, e) ↦ elim (Option-cases (bundle_of api card)) [
      | inl e' ↦
          let plain : maybe_encrypt_task api form card ≡ ok (task form) =
            rw (e, e', maybe_encrypt_task) refl in
          rw (← ok_inj (task form) envelope (sym plain ∙ h)) refl
      | inr (bundle, e') ↦ elim (Option-cases (api.encode_task form)) [
        | inl lost ↦
            let fails : maybe_encrypt_task api form card ≡ err "serde_json" =
              rw (e, e', sealed, lost, maybe_encrypt_task) refl in
            absurd (err_not_ok _ envelope (sym fails ∙ h))
        | inr (json, written) ↦ elim (Result-cases (identity.seal bundle.agent_pubkey json)) [
          | inr (x, failed) ↦
              let fails : maybe_encrypt_task api form card ≡ err x =
                rw (e, e', sealed, written, failed, maybe_encrypt_task) refl in
              absurd (err_not_ok x envelope (sym fails ∙ h))
          | inl (encrypted, done) ↦
              let secret : maybe_encrypt_task api form card
                  ≡ ok (encrypted_task encrypted identity.public_key_hex) =
                rw (e, e', sealed, written, done, maybe_encrypt_task) refl in
              rw
                (← ok_inj (encrypted_task encrypted identity.public_key_hex) envelope
                  (sym secret ∙ h))
                (rw
                  (
                    laws.has_identity,
                    laws.decrypt-seal identity bundle form json encrypted is_form e e' written done,
                  )
                  refl)
        ]
      ]
    ]
  ]

  extract-wire_form :
      (form : Task) (bytes : Bytes)
      → IsFormOf t form
      → wire_form api form card ≡ ok bytes
      → extract_task poll bytes ≡ maybe_fetch_offloaded poll form
  unfolding wire_form
  extract-wire_form form bytes is_form h = elim (Result-cases (maybe_encrypt_task api form card)) [
    | inr (x, failed) ↦
        let fails : wire_form api form card ≡ err x = rw (failed, wire_form) refl in
        absurd (err_not_ok x bytes (sym fails ∙ h))
    | inl (envelope, sealed_ok) ↦
        let shape : wire_form api form card ≡ or_serde (api.encode_envelope envelope) =
          rw (sealed_ok, wire_form) refl in
        let written = or_serde-inv (api.encode_envelope envelope) bytes (sym shape ∙ h) in
        rw
          (
            laws.decode_envelope-encode_envelope form envelope bytes is_form sealed_ok written,
            extract_task,
          )
          (extract-maybe_encrypt_task form envelope is_form sealed_ok)
  ]

  extract-offload :
      (store : StorageOffload S) (s : S) (bytes : Bytes)
      → api.storage_offload ≡ some store
      → (offload api store t card s).0 ≡ ok bytes
      → extract_task poll bytes ≡ ok (some t)
  unfolding offload
  extract-offload store s bytes here h = elim (Option-cases (api.encode_task t)) [
    | inl lost ↦
        let fails : (offload api store t card s).0 ≡ err "serde_json" = rw (lost, offload) refl in
        absurd (err_not_ok _ bytes (sym fails ∙ h))
    | inr (task_bytes, written) ↦ elim (Result-cases (store.upload task_bytes s).0) [
      | inr (x, failed) ↦
          let fails : (offload api store t card s).0 ≡ err x = rw (written, failed, offload) refl in
          absurd (err_not_ok x bytes (sym fails ∙ h))
      | inl (cid, stored) ↦
          let sent : (offload api store t card s).0 ≡ wire_form api (slim cid t) card =
            rw (written, stored, offload) refl in
          extract-wire_form (slim cid t) bytes (inr (cid, refl)) (sym sent ∙ h)
          ∙ rw (laws.has_storage, laws.download-upload store task_bytes cid s here written stored)
              refl
    ]
  ]

  -- Whatever way a task without a storage address of its own takes, plain or encrypted, whole or
  -- through storage, a receiver for whom the laws hold extracts the task itself from the payload.
  pub extract_task-prepare_payload :
      (s : S) (bytes : Bytes)
      → t.payload_cid ≡ none
      → (prepare_payload api t card s).0 ≡ ok bytes
      → extract_task poll bytes ≡ ok (some t)
  unfolding prepare_payload offload wire_form maybe_encrypt_task
  extract_task-prepare_payload s bytes whole h =
      let direct : (b : Bytes) → wire_form api t card ≡ ok b → extract_task poll b ≡ ok (some t) =
        λ b w. extract-wire_form t b (inl refl) w ∙ rw whole refl in
      elim (Result-cases (wire_form api t card)) [
        | inr (x, failed) ↦
            let fails : (prepare_payload api t card s).0 ≡ err x =
              rw (failed, prepare_payload) refl in
            absurd (err_not_ok x bytes (sym fails ∙ h))
        | inl (payload, formed) ↦ elim (Option-cases api.storage_offload) [
          | inl e ↦
              let sent : (prepare_payload api t card s).0 ≡ ok payload =
                rw (formed, e, prepare_payload) refl in
              direct bytes (formed ∙ (sym sent ∙ h))
          | inr (store, e) ↦ elim (Bool-cases (ltb store.threshold_bytes (length payload))) [
            | inr small ↦
                let sent : (prepare_payload api t card s).0 ≡ ok payload =
                  rw (formed, e, small, prepare_payload) refl in
                direct bytes (formed ∙ (sym sent ∙ h))
            | inl large ↦
                let sent : (prepare_payload api t card s).0 ≡ (offload api store t card s).0 =
                  rw (formed, e, large, prepare_payload) refl in
                extract-offload store s bytes e (sym sent ∙ h)
          ]
        ]
      ]
