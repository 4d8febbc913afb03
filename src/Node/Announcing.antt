-- ===== src/Node/Announcing.antt =====
-- What of crates/logos-messaging-a2a-node/src/discovery.rs makes and reads announcements of presence; the
-- clock, the load status and the random numbers of each sealed envelope are arguments.
use lmao.Prelude.{
  ℕ, suc, ◌+◌, String, Bool, true, false, Option, none, some, List, [], ◌∷◌, ◌==◌, if◌then◌else◌,
}
use lmao.Prelude.Result.{Result, ok, err}
use lmao.Sds.Message.{Bytes}
use lmao.Task.{task_topic}
use lmao.Trust.{TrustEntry}
use lmao.Crypto.{CryptoApi, AgentIdentity}
use lmao.Presence.{PresenceError, SignatureApi, seal, unseal_with, sign, verify}
use lmao.Node.Peers.{LoadStatus, SealedStatus, PresenceAnnouncement, PeerMap, update_with_load}
use lmao.Node.Poll.{AgentCard, Envelope, presence}

abbrev pub kept : Result PresenceError SealedStatus → List SealedStatus → List SealedStatus
kept (ok sealed) rest = sealed ∷ rest
kept (err e) rest = rest

module _ (crypto : CryptoApi) (encode_status : LoadStatus → Option Bytes) where
  -- `random` gives the ephemeral secret and the nonce of the envelope for entry `i` and on.
  unfoldable pub build_sealed_status_envelopes :
      (ℕ → Bytes × Bytes) → ℕ → LoadStatus → List TrustEntry → List SealedStatus
  build_sealed_status_envelopes random i status [] = []
  build_sealed_status_envelopes random i status (e ∷ es) =
      let rest = build_sealed_status_envelopes random (suc i) status es in
      elim e.encryption_pubkey [
        | none ↦ rest
        | some pub_hex ↦
            kept (seal crypto encode_status (random i).0 (random i).1 pub_hex status) rest
      ]

abbrev pub read : Result PresenceError (Option LoadStatus) → Option LoadStatus → Option LoadStatus
read (ok (some status)) rest = some status
read (ok none) rest = rest
read (err e) rest = rest

module _ (crypto : CryptoApi) (decode_status : Bytes → Option LoadStatus) where
  -- The first envelope that the node unseals.
  unfoldable pub find_status : AgentIdentity → List SealedStatus → Option LoadStatus
  find_status me [] = none
  find_status me (env ∷ envs) =
      let rest = find_status me envs in read (unseal_with crypto decode_status me env) rest

  abbrev pub load_of : Option AgentIdentity → PresenceAnnouncement → Option LoadStatus
  load_of none ann = none
  load_of (some me) ann = find_status me ann.sealed_status

-- An announcement of another agent that its signature proves.
abbrev pub is_accepted :
    {K V G : Type 0} → SignatureApi K V G → String → PresenceAnnouncement → Bool
is_accepted sigs own ann =
    if ann.agent_id == own then false else elim (verify sigs ann) [ ok _ ↦ true | err _ ↦ false ]

-- What an announcement says, before it is signed.
abbrev pub unsigned : AgentCard → ℕ → List SealedStatus → PresenceAnnouncement
unsigned card ttl_secs sealed = record {
  agent_id = card.public_key;
  name = card.name;
  capabilities = card.capabilities;
  waku_topic = task_topic card.public_key;
  ttl_secs = ttl_secs;
  sealed_status = sealed;
  signature = none;
}

-- The announcement that `announce_presence_with_ttl` signs and publishes.
unfoldable pub announcement :
    {K V G : Type 0}
    → CryptoApi
    → SignatureApi K V G
    → (LoadStatus → Option Bytes)
    → AgentCard
    → K
    → (ℕ → Bytes × Bytes)
    → LoadStatus
    → List TrustEntry
    → ℕ
    → PresenceAnnouncement
announcement crypto sigs encode_status card key random status trusted ttl_secs = sign sigs key (
    unsigned card ttl_secs
      (build_sealed_status_envelopes crypto encode_status random 0 status trusted))

module _ {K V G : Type 0} (decode : Bytes → Option Envelope) (own : String) (crypto : CryptoApi)
    (sigs : SignatureApi K V G) (decode_status : Bytes → Option LoadStatus) (now : ℕ)
    (me : Option AgentIdentity) where
  abbrev learn : PresenceAnnouncement → ℕ × PeerMap → ℕ × PeerMap
  learn ann (count, peers) =
      if is_accepted sigs own ann
      then (count + 1, update_with_load now ann (load_of crypto decode_status me ann) peers)
      else (count, peers)

  abbrev pub hear : Option Envelope → ℕ × PeerMap → ℕ × PeerMap
  hear (some (presence ann)) s = learn ann s
  hear _ s = s

  -- The loop of `poll_presence`.
  unfoldable pub hear_all : List Bytes → ℕ × PeerMap → ℕ × PeerMap
  hear_all [] s = s
  hear_all (msg ∷ msgs) s = hear_all msgs (hear (decode msg) s)
