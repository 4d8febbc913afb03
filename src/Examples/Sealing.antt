-- ===== src/Examples/Sealing.antt =====
-- Encryption, sealed load status and signatures at concrete inputs.
use lmao.Prelude.{ℕ, ◌≡◌, ◌≢◌, refl, sym, ap, ◌∙◌, none, some, List, [], ◌∷◌, inl, inr, arith}
use lmao.Prelude.Result.{ok}
use lmao.Prelude.Bytewise.{swap, KeysApart}
use lmao.Sds.Message.{Bytes}
use lmao.Task
use lmao.Task.{Task}
use lmao.Node.Poll.{EncryptedPayload}
use lmao.Node.Peers.{LoadStatus, SealedStatus, PresenceAnnouncement, free}
use lmao.Crypto.{
  from_secret, public_key_hex, panicked, encrypt, parse_public_key, shared_key, decrypt,
}
use lmao.Node.Encryption.{encrypt_for, decrypt_task}
use lmao.Node.Encryption.Session.{decrypt_task-encrypt_for}
use lmao.Presence.{sign, verify, recipient_hint}
use lmao.Presence.Signing.{verify-sign-Reordered}
use lmao.Examples.Keys.{
  write, add, sealed, toy_crypto, toy_crypto_laws, key_a, key_b, nonce, toy_signatures, public_hex,
  toy-SignatureLaws,
}

-- The nonce is the empty text, of no bytes.
abbrev hostile : EncryptedPayload
hostile = record { nonce = ""; ciphertext = "" }

it_panics : decrypt toy_crypto key_a hostile ≡ panicked
unfolding decrypt
it_panics = refl

abbrev job : Task
job = Task.new "t9" "02aa" "02me" "hello"

abbrev encrypted : EncryptedPayload
encrypted = record { nonce = write nonce; ciphertext = write (sealed (add key_a key_b) (5 ∷ [])) }

decrypt_task-encrypt_for_example :
    decrypt_task toy_crypto
      (λ bytes. some job)
      (from_secret toy_crypto key_b)
      (public_key_hex toy_crypto (from_secret toy_crypto key_a))
      encrypted
    ≡ some (ok job)
unfolding encrypt_for encrypt parse_public_key shared_key
decrypt_task-encrypt_for_example =
    decrypt_task-encrypt_for toy_crypto toy_crypto_laws (λ bytes. some job) key_a key_b nonce
      (5 ∷ []) job encrypted refl refl refl refl refl

abbrev calm : LoadStatus
calm = record { bucket = free; queue_depth = 0; max_concurrent = 4; avg_latency_ms = 9 }

abbrev for_b : SealedStatus
for_b = record {
  recipient_hint = recipient_hint key_b;
  ephemeral_pub = key_a;
  nonce = nonce;
  ciphertext = sealed (add key_a key_b) (6 ∷ []);
}

abbrev first_or : Bytes → ℕ
first_or [] = 0
first_or (x ∷ xs) = x

one_not_two : ◌≡◌ {A = ℕ} 1 2 → ⊥
one_not_two e = omega arith

hints_differ : recipient_hint key_a ≢ recipient_hint key_b
hints_differ e = one_not_two (ap first_or e)

abbrev envelope_of : ℕ → SealedStatus
envelope_of hint = record {
  recipient_hint = hint ∷ [];
  ephemeral_pub = [];
  nonce = [];
  ciphertext = [];
}

abbrev announced : List SealedStatus → PresenceAnnouncement
announced envelopes = record {
  agent_id = public_hex 5;
  name = "echo";
  capabilities = "text" ∷ [];
  waku_topic = "t";
  ttl_secs = 300;
  sealed_status = envelopes;
  signature = none;
}

hint_1 :
    (u v : SealedStatus)
    → u ≡ envelope_of 1
    → v ≡ envelope_of 2
    → u.recipient_hint ≡ v.recipient_hint
    → ◌≡◌ {A = ℕ} 1 2
hint_1 u v a b e =
    let hint = λ (s : SealedStatus). first_or s.recipient_hint in
    sym (ap hint a) ∙ ap first_or e ∙ ap hint b

envelopes_apart :
    KeysApart (λ (s : SealedStatus). s.recipient_hint) (envelope_of 1 ∷ envelope_of 2 ∷ [])
envelopes_apart u v (inl a) (inl b) e = a ∙ sym b
envelopes_apart u v (inl a) (inr (inl b)) e = absurd (one_not_two (hint_1 u v a b e))
envelopes_apart u v (inr (inl a)) (inl b) e = absurd (one_not_two (hint_1 v u b a (sym e)))
envelopes_apart u v (inr (inl a)) (inr (inl b)) e = a ∙ sym b
envelopes_apart u v (inl a) (inr (inr x)) e = absurd x
envelopes_apart u v (inr (inl a)) (inr (inr x)) e = absurd x
envelopes_apart u v (inr (inr x)) n e = absurd x

verify-sign-Reordered_example :
    verify toy_signatures
      (record (sign toy_signatures 5 (announced (envelope_of 1 ∷ envelope_of 2 ∷ []))) {
        sealed_status = envelope_of 2 ∷ envelope_of 1 ∷ [];
      })
    ≡ ok tt
verify-sign-Reordered_example =
    verify-sign-Reordered toy_signatures public_hex toy-SignatureLaws 5
      (announced (envelope_of 1 ∷ envelope_of 2 ∷ [])) (envelope_of 2 ∷ envelope_of 1 ∷ []) refl
      (swap (envelope_of 1) (envelope_of 2) []) envelopes_apart
