-- ===== src/Presence.antt =====
-- crates/logos-messaging-a2a-core/src/presence.rs: sealed load status and signed announcements. ECDSA
-- over secp256k1 is the parameter `SignatureApi`, serde JSON the functions that encode and decode. An
-- error of serde says `serde_json` where the source quotes it.
pub mod Sealing
pub mod Signing
use lmao.Prelude.{
  ℕ, String, Bool, true, false, Option, none, some, List, [], ◌∷◌, drop, length, eqb, if◌then◌else◌,
  ◌&&◌,
}
use lmao.Prelude.Bytewise.{sort_by_bytes}
use lmao.Prelude.Result.{Result, ok, err}
use lmao.Sds.Message.{Bytes}
use lmao.Crypto.{
  CryptoApi, CryptoError, display, AgentIdentity, key_length, nonce_length, parse_public_key,
  seal_for, unseal,
}
use lmao.Node.Peers.{LoadStatus, SealedStatus, PresenceAnnouncement}

pub data PresenceError : Type 0 where
  missing_signature : PresenceError
  invalid_hex : PresenceError
  invalid_public_key : PresenceError
  invalid_signature : PresenceError
  verification_failed : PresenceError
  invalid_recipient_pubkey : String → PresenceError
  seal_crypto : String → PresenceError
  invalid_envelope : String → PresenceError

-- The last 8 of a key's 32 bytes.
abbrev pub recipient_hint : Bytes → Bytes
recipient_hint x25519_pub = drop 24 x25519_pub

abbrev pub same_bytes : Bytes → Bytes → Bool
same_bytes [] [] = true
same_bytes [] (y ∷ ys) = false
same_bytes (x ∷ xs) [] = false
same_bytes (x ∷ xs) (y ∷ ys) = eqb x y && same_bytes xs ys

module _ (api : CryptoApi) where
  -- The ephemeral secret and the nonce are random.
  abbrev pub envelope :
      Bytes → Result CryptoError (Bytes × Bytes × Bytes) → Result PresenceError SealedStatus
  envelope recipient (err e) = err (seal_crypto (display e))
  envelope recipient (ok (ephemeral_pub, nonce, ciphertext)) = ok (record {
    recipient_hint = recipient_hint recipient;
    ephemeral_pub = ephemeral_pub;
    nonce = nonce;
    ciphertext = ciphertext;
  })

  unfoldable pub seal :
      (LoadStatus → Option Bytes)
      → Bytes
      → Bytes
      → String
      → LoadStatus
      → Result PresenceError SealedStatus
  seal encode ephemeral nonce recipient_x25519_pub_hex status =
      elim (parse_public_key api recipient_x25519_pub_hex) [
        | err e ↦ err (invalid_recipient_pubkey (display e))
        | ok recipient_pub ↦ elim (encode status) [
          | none ↦ err (seal_crypto "encode: serde_json")
          | some plaintext ↦
              envelope recipient_pub (seal_for api ephemeral nonce recipient_pub plaintext)
        ]
      ]

  abbrev read_status :
      (Bytes → Option LoadStatus)
      → Result CryptoError Bytes
      → Result PresenceError (Option LoadStatus)
  read_status decode (err e) = err (seal_crypto (display e))
  read_status decode (ok plaintext) = elim (decode plaintext) [
    | none ↦ err (seal_crypto "decode: serde_json")
    | some status ↦ ok (some status)
  ]

  unfoldable pub unseal_with :
      (Bytes → Option LoadStatus)
      → AgentIdentity
      → SealedStatus
      → Result PresenceError (Option LoadStatus)
  unseal_with decode me s =
      if same_bytes s.recipient_hint (recipient_hint me.public)
      then if eqb (length s.ephemeral_pub) key_length
        then if eqb (length s.nonce) nonce_length
          then read_status decode (unseal api me s.ephemeral_pub s.nonce s.ciphertext)
          else err (invalid_envelope "nonce != 12 bytes")
        else err (invalid_envelope "ephemeral_pub != 32 bytes")
      else ok none

-- What a signature commits to, with its keys in the order in which they are written.
pub record Canonical : Type 0 where
  pub agent_id : String
  pub capabilities : List String
  pub name : String
  pub sealed_status : List SealedStatus
  pub ttl_secs : ℕ
  pub waku_topic : String

-- `K` are signing keys, `V` verifying keys, `G` signatures.
pub record SignatureApi (K V G : Type 0) : Type 0 where
  pub encode : Canonical → Bytes
  pub hex_decode : String → Option Bytes
  pub from_sec1_bytes : Bytes → Option V
  pub from_der : Bytes → Option G
  pub sign_to_der : K → Bytes → Bytes
  pub verify : V → Bytes → G → Bool

abbrev pub canonical : PresenceAnnouncement → Canonical
canonical a = record {
  agent_id = a.agent_id;
  capabilities = a.capabilities;
  name = a.name;
  sealed_status = sort_by_bytes (λ s. s.recipient_hint) a.sealed_status;
  ttl_secs = a.ttl_secs;
  waku_topic = a.waku_topic;
}

module _ {K V G : Type 0} (api : SignatureApi K V G) where
  unfoldable pub canonical_bytes : PresenceAnnouncement → Bytes
  canonical_bytes a = api.encode (canonical a)

  unfoldable pub sign : K → PresenceAnnouncement → PresenceAnnouncement
  sign key a = record a { signature = some (api.sign_to_der key (canonical_bytes a)) }

  -- The errors, in the order of the checks.
  unfoldable pub verify : PresenceAnnouncement → Result PresenceError Unit
  verify a = elim a.signature [
    | none ↦ err missing_signature
    | some sig_bytes ↦ elim (api.hex_decode a.agent_id) [
      | none ↦ err invalid_hex
      | some pubkey_bytes ↦ elim (api.from_sec1_bytes pubkey_bytes) [
        | none ↦ err invalid_public_key
        | some verifying_key ↦ elim (api.from_der sig_bytes) [
          | none ↦ err invalid_signature
          | some signature ↦
              if api.verify verifying_key (canonical_bytes a) signature
              then ok tt
              else err verification_failed
        ]
      ]
    ]
  ]
