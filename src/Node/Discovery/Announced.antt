-- ===== src/Node/Discovery/Announced.antt =====
-- From `announce_presence` to `poll_presence` of node/src/discovery.rs: a peer that the sender trusts
-- learns of the sender and of its load.
use lmao.Prelude.{
  ◌≡◌, ◌≢◌, refl, sym, ◌∙◌, inl, inr, ℕ, suc, ◌+◌, String, true, false, Option, none, some, List,
  [], ◌∷◌, ◌++◌, All, length, ◌==◌, eq_iff, Bool-cases, Option-cases,
}
use lmao.Prelude.Dict
use lmao.Prelude.Dict.{lookup-insert}
use lmao.Prelude.Result.{ok, Result-cases}
use lmao.Sds.Message.{Bytes}
use lmao.Task.{task_topic}
use lmao.Trust.{TrustEntry}
use lmao.Crypto.{
  CryptoApi, AgentIdentity, key_length, nonce_length, from_secret, public_key_hex, parse_public_key,
}
use lmao.Crypto.Roundtrip.{CryptoLaws}
use lmao.Presence.{SignatureApi, sign, recipient_hint, seal, unseal_with, verify}
use lmao.Presence.Sealing.{unseal_with-other, unseal_with-seal_own, seal_hint, seal_total}
use lmao.Presence.Signing.{SignatureLaws, verify-sign}
use lmao.Node.Peers.{LoadStatus, PeerMap, update_with_load}
use lmao.Node.Poll.{AgentCard, Envelope, presence}
use lmao.Node.Announcing.{
  build_sealed_status_envelopes, announcement, find_status, is_accepted, hear_all, kept, read,
  unsigned,
}
use lmao.Node.Discovery.Authentic.{info_of}

module _ (crypto : CryptoApi) (encode_status : LoadStatus → Option Bytes)
    (decode_status : Bytes → Option LoadStatus) where
  -- A trust entry whose key, if it has one that parses, ends in other bytes than the agent's.
  abbrev pub IsForOthers : AgentIdentity → TrustEntry → Type 0
  IsForOthers me e =
      (hex : String) (key : Bytes)
      → e.encryption_pubkey ≡ some hex
      → parse_public_key crypto hex ≡ ok key
      → recipient_hint key ≢ recipient_hint me.public

  -- Envelopes for others are skipped.
  find_status-others :
      (me : AgentIdentity) (random : ℕ → Bytes × Bytes) (i : ℕ) (status : LoadStatus)
      (es rest : List TrustEntry)
      → All (IsForOthers me) es
      → (j : ℕ) × (find_status crypto decode_status me
            (build_sealed_status_envelopes crypto encode_status random i status (es ++ rest))
          ≡ find_status crypto decode_status me
              (build_sealed_status_envelopes crypto encode_status random j status rest))
  unfolding build_sealed_status_envelopes find_status
  find_status-others me random i status [] rest h = (i, refl)
  find_status-others me random i status (e ∷ es) rest h =
      let (j, same) = find_status-others me random (suc i) status es rest h.1 in
      let others =
        build_sealed_status_envelopes crypto encode_status random (suc i) status (es ++ rest) in
      elim (Option-cases e.encryption_pubkey) [
        | inl none_given ↦ (j, rw none_given same)
        | inr (hex, given) ↦
            elim (Result-cases (seal crypto encode_status (random i).0 (random i).1 hex status)) [
              | inr (x, failed) ↦ (j, rw (given, failed) same)
              | inl (s, done) ↦
                  let (key, parsed, hint) =
                    seal_hint crypto encode_status (random i).0 (random i).1 hex status s done in
                  let skipped : unseal_with crypto decode_status me s ≡ ok none =
                    unseal_with-other crypto decode_status me s
                      (λ e'. h.0 hex key given parsed (sym hint ∙ e')) in
                  let step : find_status crypto decode_status me (s ∷ others)
                      ≡ find_status crypto decode_status me others =
                    rw (find_status, skipped) refl in
                  (j, rw (given, done) (step ∙ same))
            ]
      ]

ne_apart : (a b : String) → a ≢ b → a == b ≡ false
ne_apart a b ne = elim (Bool-cases (a == b)) [
  | inl same ↦ absurd (ne ((eq_iff a b).0 same))
  | inr apart ↦ apart
]

find_status-announced :
    (crypto : CryptoApi) (encode_status : LoadStatus → Option Bytes)
    (decode_status : Bytes → Option LoadStatus) (laws : CryptoLaws crypto) (secret json : Bytes)
    (random : ℕ → Bytes × Bytes) (status : LoadStatus) (before after : List TrustEntry)
    (entry : TrustEntry)
    → length secret ≡ key_length
    → ((i : ℕ) → (length (random i).0 ≡ key_length) × (length (random i).1 ≡ nonce_length))
    → ((k n p : Bytes) → (c : Bytes) × (crypto.aead_encrypt k n p ≡ some c))
    → encode_status status ≡ some json
    → decode_status json ≡ some status
    → let me = from_secret crypto secret in
      entry.encryption_pubkey ≡ some (public_key_hex crypto me)
      → All (IsForOthers crypto encode_status decode_status me) before
      → find_status crypto decode_status me (
          build_sealed_status_envelopes crypto encode_status random 0 status
            (before ++ entry ∷ after))
        ≡ some status
unfolding build_sealed_status_envelopes find_status
find_status-announced crypto encode_status decode_status laws secret json random status before after
      entry ls lens encrypts written reads given apart =
    let me = from_secret crypto secret in
    let (j, same) =
      find_status-others crypto encode_status decode_status me random 0 status before
        (entry ∷ after) apart in
    let (s, sealed) =
      seal_total crypto laws encode_status (random j).0 secret (random j).1 json status encrypts ls
        written in
    let opens =
      unseal_with-seal_own crypto laws encode_status decode_status (random j).0 secret (random j).1
        json status s (lens j).0 ls (lens j).1 written reads sealed in
    same ∙ rw (build_sealed_status_envelopes, given, sealed, kept, find_status, opens, read) refl

-- Announced presence: an agent that holds the secret of a key announces its presence to those that it
-- trusts. Another agent, whose encryption key stands in the sender's trust list, after entries whose
-- keys do not end in the same 8 bytes, hears the message: it counts it, and its entry under the
-- card's public key has the card's name and capabilities, the topic of the tasks for that key, the
-- time to live that was announced, the time of hearing, and the sender's load status.
pub hear_all-announcement :
    {K V G : Type 0} (decode : Bytes → Option Envelope) (crypto : CryptoApi)
    (sigs : SignatureApi K V G) (encode_status : LoadStatus → Option Bytes)
    (decode_status : Bytes → Option LoadStatus) (laws : CryptoLaws crypto) (public_hex : K → String)
    (signing : SignatureLaws sigs public_hex) (card : AgentCard) (key : K) (own : String)
    (secret json payload : Bytes) (random : ℕ → Bytes × Bytes) (status : LoadStatus)
    (before after : List TrustEntry) (entry : TrustEntry) (ttl_secs now count : ℕ) (peers : PeerMap)
    → card.public_key ≡ public_hex key
    → card.public_key ≢ own
    → length secret ≡ key_length
    → ((i : ℕ) → (length (random i).0 ≡ key_length) × (length (random i).1 ≡ nonce_length))
    → ((k n p : Bytes) → (c : Bytes) × (crypto.aead_encrypt k n p ≡ some c))
    → encode_status status ≡ some json
    → decode_status json ≡ some status
    → let me = from_secret crypto secret in
      let ann =
        announcement crypto sigs encode_status card key random status
          (before ++ entry ∷ after)
          ttl_secs in
      entry.encryption_pubkey ≡ some (public_key_hex crypto me)
      → All (IsForOthers crypto encode_status decode_status me) before
      → decode payload ≡ some (presence ann)
      → let (count', peers') =
          hear_all decode own crypto sigs decode_status now
            (some me)
            (payload ∷ [])
            (count, peers) in
        (count' ≡ count + 1)
        × (Dict.lookup card.public_key peers'
            ≡ some (record {
              name = card.name;
              capabilities = card.capabilities;
              waku_topic = task_topic card.public_key;
              ttl_secs = ttl_secs;
              last_seen = now;
              load = some status;
            }))
unfolding hear_all announcement sign update_with_load
hear_all-announcement decode crypto sigs encode_status decode_status laws public_hex signing card
      key own secret json payload random status before after entry ttl_secs now count peers is_key
      other ls lens encrypts written reads given apart arrives =
    let me = from_secret crypto secret in
    let trusted = before ++ entry ∷ after in
    let ann = announcement crypto sigs encode_status card key random status trusted ttl_secs in
    let load : find_status crypto decode_status me ann.sealed_status ≡ some status =
      find_status-announced crypto encode_status decode_status laws secret json random status before
        after entry ls lens encrypts written reads given apart in
    let signed : verify sigs ann ≡ ok tt =
      verify-sign sigs public_hex signing key
        (unsigned card ttl_secs
          (build_sealed_status_envelopes crypto encode_status random 0 status trusted))
        is_key in
    let not_own : card.public_key == own ≡ false = ne_apart card.public_key own other in
    let accepted : is_accepted sigs own ann ≡ true = rw (not_own, signed) refl in
    rw (arrives, accepted, load)
      (
        refl,
        lookup-insert card.public_key card.public_key (info_of now ann (some status)) peers
            ∙ rw ((eq_iff card.public_key card.public_key).1 refl) refl,
      )
