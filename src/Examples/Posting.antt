-- ===== src/Examples/Posting.antt =====
-- A task through encoding, encryption and storage at a concrete input.
use lmao.Prelude.{
  ◌≡◌, refl, ap, sym, ◌∙◌, String, Option, none, some, [], ◌∷◌, eqb, ◌==◌, eq_iff, inl, inr,
  Bool-cases, Option-cases, subst, if◌then◌else◌,
}
use lmao.Prelude.Keyed.{some_inj, none_not_some}
use lmao.Prelude.Result.{Result, ok, err, ok_inj, err_not_ok}
use lmao.Sds.Message.{Bytes}
use lmao.Task
use lmao.Task.{Task}
use lmao.Node.Poll.{
  AgentCard, IntroBundle, PollApi, EncryptedPayload, Envelope, task, encrypted_task, extract_task,
}
use lmao.Node.Payload.{
  PayloadApi, Identity, maybe_encrypt_task, wire_form, offload, prepare_payload, slim,
}
use lmao.Node.Payload.Roundtrip.{IsFormOf, WireLaws, extract_task-prepare_payload}

abbrev letter : Task
letter = Task.new "t9" "02aa" "02me" "hello"

-- The whole of a task is written as two 1s, and what is left of it beside storage as one 2.
abbrev code_of : Task → Option Bytes
code_of t = elim t.payload_cid [
  | none ↦ some (1 ∷ 1 ∷ [])
  | some cid ↦ if cid == "cid" then some (2 ∷ []) else none
]

abbrev encode_plain : Envelope → Option Bytes
encode_plain (task t) = code_of t
encode_plain _ = none

abbrev pub plain_post : PayloadApi Unit
plain_post = record {
  encode_envelope = encode_plain;
  encode_task = code_of;
  identity = none;
  storage_offload = some (record { threshold_bytes = 1; upload = λ bytes s. (ok "cid", s) });
}

-- The sealed form of what `code_of` writes for the key of the card, and back.
abbrev label : Bytes → String
label [] = ""
label (n ∷ rest) = if eqb n 1 then "whole" else "slim"

abbrev sealed_as : Bytes → EncryptedPayload
sealed_as json = record { nonce = "key"; ciphertext = label json }

abbrev bytes_of : EncryptedPayload → Bytes
bytes_of encrypted = if encrypted.ciphertext == "whole" then 1 ∷ 1 ∷ [] else 2 ∷ []

abbrev encode_sealed : Envelope → Option Bytes
encode_sealed (encrypted_task encrypted key) = some (bytes_of encrypted)
encode_sealed _ = none

-- Only what is for the holder of "key" can be opened.
abbrev seal_for : String → Bytes → Result String EncryptedPayload
seal_for key json = if key == "key" then ok (sealed_as json) else err "seal"

abbrev sender : Identity
sender = record { public_key_hex = "02aa"; seal = seal_for }

abbrev bundle : IntroBundle
bundle = record { agent_pubkey = "key"; version = "1.0" }

abbrev pub card : AgentCard
card = record {
  name = "me";
  description = "";
  version = "";
  capabilities = [];
  public_key = "02me";
  intro_bundle = some bundle;
}

abbrev pub sealed_post : PayloadApi Unit
sealed_post = record plain_post { encode_envelope = encode_sealed; identity = some sender }

-- The envelope around what was written.
abbrev wrapped : Option Bytes → Result String Envelope
wrapped none = err "serde_json"
wrapped (some json) = ok (encrypted_task (sealed_as json) "02aa")

-- The post of one letter that is whole.
module _ (letter : Task) where
  abbrev task_of : Bytes → Option Task
  task_of [] = none
  task_of (n ∷ rest) = if eqb n 1 then some letter else some (slim "cid" letter)

  abbrev open_up : EncryptedPayload → String → Option Task
  open_up encrypted key = if encrypted.nonce == "key" then task_of (bytes_of encrypted) else none

  abbrev pub post_office : PollApi
  post_office = record {
    decode_envelope = λ bytes. some (encrypted_task (sealed_as bytes) "02aa");
    decrypt = some open_up;
    download = some (λ cid. ok letter);
    uuid = λ n. "session";
  }

  module _ (whole : letter.payload_cid ≡ none) where
    code_of-letter : code_of letter ≡ some (1 ∷ 1 ∷ [])
    code_of-letter = rw whole refl

    -- What is written of a form of the letter is one of the two codes, and the form is read back of it.
    codes :
        (form : Task) (bytes : Bytes)
        → IsFormOf letter form
        → code_of form ≡ some bytes
        → (bytes_of (sealed_as bytes) ≡ bytes) × (task_of bytes ≡ some form)
    codes form bytes (inl e) written =
        let w : ◌≡◌ {A = Option Bytes} (some (1 ∷ 1 ∷ [])) (some bytes) =
          sym code_of-letter ∙ (ap code_of (sym e) ∙ written) in
        let same = some_inj (1 ∷ 1 ∷ []) bytes w in
        (
          subst (λ (b : Bytes). bytes_of (sealed_as b) ≡ b) same refl,
          ap task_of (sym same) ∙ ap some (sym e),
        )
    codes form bytes (inr (cid, e)) written = elim (Bool-cases (cid == "cid")) [
      | inl hit ↦
          let w : ◌≡◌ {A = Option Bytes} (some (2 ∷ [])) (some bytes) =
            ap (λ b. if b then some (2 ∷ []) else none) (sym hit)
            ∙ (ap code_of (sym e) ∙ written) in
          let same = some_inj (2 ∷ []) bytes w in
          (
            subst (λ (b : Bytes). bytes_of (sealed_as b) ≡ b) same refl,
            ap task_of (sym same)
                ∙ (ap (λ c. some (slim c letter)) (sym ((eq_iff cid "cid").0 hit))
                    ∙ ap some (sym e)),
          )
      | inr miss ↦
          let w : ◌≡◌ {A = Option Bytes} none (some bytes) =
            ap (λ b. if b then some (2 ∷ []) else none) (sym miss)
            ∙ (ap code_of (sym e) ∙ written) in
          absurd (none_not_some bytes w)
    ]

    read_back :
        (form : Task) (envelope : Envelope) (bytes : Bytes)
        → IsFormOf letter form
        → maybe_encrypt_task sealed_post form (some card) ≡ ok envelope
        → sealed_post.encode_envelope envelope ≡ some bytes
        → post_office.decode_envelope bytes ≡ some envelope
    unfolding maybe_encrypt_task
    read_back form envelope bytes is_form sealed written = elim (Option-cases (code_of form)) [
      | inl lost ↦
          let fails : maybe_encrypt_task sealed_post form (some card) ≡ err "serde_json" =
            ap wrapped lost in
          absurd (err_not_ok "serde_json" envelope (sym fails ∙ sealed))
      | inr (json, coded) ↦
          let closed : Envelope = encrypted_task (sealed_as json) "02aa" in
          let works : maybe_encrypt_task sealed_post form (some card) ≡ ok closed =
            ap wrapped coded in
          let same = ok_inj closed envelope (sym works ∙ sealed) in
          let same_bytes =
            some_inj (bytes_of (sealed_as json)) bytes (ap encode_sealed same ∙ written) in
          ap (λ (b : Bytes). some (encrypted_task (sealed_as b) "02aa"))
            (sym same_bytes ∙ (codes form json is_form coded).0)
          ∙ ap some same
    ]

    opened :
        (identity : Identity) (to : IntroBundle) (form : Task) (json : Bytes)
        (encrypted : EncryptedPayload)
        → IsFormOf letter form
        → ◌≡◌ {A = Option Identity} (some sender) (some identity)
        → ◌≡◌ {A = Option IntroBundle} (some bundle) (some to)
        → code_of form ≡ some json
        → identity.seal to.agent_pubkey json ≡ ok encrypted
        → open_up encrypted identity.public_key_hex ≡ some form
    opened identity to form json encrypted is_form me it coded sealed =
        let who = some_inj sender identity me in
        let whom = some_inj bundle to it in
        let closed : ◌≡◌ {A = Result String EncryptedPayload} (ok (sealed_as json)) (ok encrypted) =
          ap (λ (i : Identity). i.seal bundle.agent_pubkey json) who
          ∙ ap (λ (b : IntroBundle). identity.seal b.agent_pubkey json) whom
          ∙ sealed in
        let same = ok_inj (sealed_as json) encrypted closed in
        let (same_bytes, found) = codes form json is_form coded in
        ap (λ (x : EncryptedPayload). open_up x identity.public_key_hex) (sym same)
        ∙ ap task_of same_bytes
        ∙ found

    pub post_laws : WireLaws sealed_post post_office (some card) letter
    post_laws = record {
      decode_envelope-encode_envelope = read_back;
      decrypt = open_up;
      has_identity = refl;
      decrypt-seal = opened;
      download = λ cid. ok letter;
      has_storage = refl;
      download-upload = λ store bytes cid s here written stored. refl;
    }

-- The letter is above the threshold: it goes through storage, and what is left of it is encrypted.
extract_task-prepare_payload_example : extract_task (post_office letter) (2 ∷ []) ≡ ok (some letter)
unfolding prepare_payload offload wire_form maybe_encrypt_task
extract_task-prepare_payload_example =
    extract_task-prepare_payload sealed_post (post_office letter) (some card) letter
      (post_laws letter refl) tt (2 ∷ []) refl refl
