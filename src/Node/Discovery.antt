-- ===== src/Node/Discovery.antt =====
-- crates/logos-messaging-a2a-node/src/discovery.rs: announcing and discovering cards, the registry and
-- presence. What the loops of `try_recv` take from a subscription is `drain`; the clock, the load
-- status and the random numbers of each sealed envelope are arguments. Log lines are not modelled.
pub mod Authentic
pub mod Preferred
pub mod Announced
use lmao.Prelude.{
  ℕ, suc, ◌+◌, String, Bool, true, false, not, Option, none, some, List, [], ◌∷◌, ◌++◌, length,
  filter, ◌==◌, if◌then◌else◌,
}
use lmao.Prelude.Dict
use lmao.Prelude.Dict.{Dict}
use lmao.Prelude.Keyed.{values}
use lmao.Prelude.Result.{Result, ok, err}
use lmao.Transport.{Transport, TransportError}
use lmao.Sds.Message.{Bytes}
use lmao.Task.{task_topic}
use lmao.Trust.{TrustEntry}
use lmao.Registry.{AgentRegistry, RegistryError}
use lmao.Crypto.{CryptoApi, AgentIdentity}
use lmao.Presence.{PresenceError, SignatureApi, seal, unseal_with, sign, verify}
use lmao.Node.Peers.{LoadStatus, SealedStatus, PresenceAnnouncement, PeerMap, update_with_load}
use lmao.Node.Poll.{AgentCard, Envelope, agent_card, presence}
use lmao.Node.Announcing.{announcement, hear_all}

pub data DiscoveryError : Type 0 where
  transport : TransportError → DiscoveryError
  serde : DiscoveryError
  no_registry : DiscoveryError
  registry : RegistryError → DiscoveryError

-- The node's part that discovery reads and writes; the two subscriptions are opened lazily.
pub record Finder (T R : Type 0) : Type 0 where
  pub transport : T
  pub discover_rx : Option R
  pub presence_rx : Option R
  pub peers : PeerMap
  pub announcements_sent : ℕ
  pub messages_published : ℕ
  pub discoveries : ℕ
  pub peers_discovered : ℕ

abbrev pub discovery_topic : String
discovery_topic = "/lmao/1/discovery/proto"

abbrev pub presence_topic : String
presence_topic = "/lmao/1/presence/proto"

-- The keys under which `discover_all` collects cards: a later card replaces an earlier one.
unfoldable pub insert_all : List AgentCard → Dict AgentCard → Dict AgentCard
insert_all [] by_key = by_key
insert_all (card ∷ cards) by_key = insert_all cards (Dict.insert card.public_key card by_key)

abbrev pub not_own : String → AgentCard → Bool
not_own own card = not (card.public_key == own)

module _ (decode : Bytes → Option Envelope) (own : String) where
  abbrev card_of : Option Envelope → List AgentCard
  card_of (some (agent_card c)) = if not_own own c then c ∷ [] else []
  card_of _ = []

  unfoldable pub cards_of : List Bytes → List AgentCard
  cards_of [] = []
  cards_of (msg ∷ msgs) = card_of (decode msg) ++ cards_of msgs

-- The registry's cards go over those that were announced; its failure is ignored.
abbrev with_registry :
    String → Option (Result RegistryError (List AgentCard)) → Dict AgentCard → Dict AgentCard
with_registry own none by_key = by_key
with_registry own (some (err e)) by_key = by_key
with_registry own (some (ok cards)) by_key = insert_all (filter (not_own own) cards) by_key

module _ {T R : Type 0} (tr : Transport T R) (card : AgentCard) where
  -- Publishing an announcement, with its counters.
  abbrev counted : Result TransportError Unit → Finder T R → Result DiscoveryError Unit × Finder T R
  counted (err e) s = (err (transport e), s)
  counted (ok u) s = (
    ok tt,
    record s {
      announcements_sent = s.announcements_sent + 1;
      messages_published = s.messages_published + 1;
    },
  )

  unfoldable pub publish_envelope :
      (Envelope → Option Bytes)
      → String
      → Envelope
      → Finder T R
      → Result DiscoveryError Unit × Finder T R
  publish_envelope encode topic envelope s = elim (encode envelope) [
    | none ↦ (err serde, s)
    | some payload ↦
        let (r, t) = tr.publish topic payload s.transport in counted r (record s { transport = t })
  ]

  abbrev pub announce :
      (Envelope → Option Bytes) → Finder T R → Result DiscoveryError Unit × Finder T R
  announce encode s = publish_envelope encode discovery_topic (agent_card card) s

unfoldable pub announce_presence_with_ttl :
    {T R K V G : Type 0}
    → Transport T R
    → CryptoApi
    → SignatureApi K V G
    → (Envelope → Option Bytes)
    → (LoadStatus → Option Bytes)
    → AgentCard
    → K
    → (ℕ → Bytes × Bytes)
    → LoadStatus
    → List TrustEntry
    → ℕ
    → Finder T R
    → Result DiscoveryError Unit × Finder T R
announce_presence_with_ttl tr crypto sigs encode encode_status card key random status trusted
      ttl_secs s =
    publish_envelope tr card encode presence_topic
      (presence (announcement crypto sigs encode_status card key random status trusted ttl_secs)) s

module _ {T R : Type 0} (tr : Transport T R) (drain : R → T → List Bytes × R × T)
    (decode : Bytes → Option Envelope) (own : String) where
  -- The subscription if there is one, else a new one.
  abbrev opened : String → Option R → T → Result TransportError R × T
  opened topic (some rx) t = (ok rx, t)
  opened topic none t = tr.subscribe topic t

  unfoldable pub discover : Finder T R → Result DiscoveryError (List AgentCard) × Finder T R
  discover s =
      let (r, t) = opened discovery_topic s.discover_rx s.transport in
      elim r [
        | err e ↦ (err (transport e), record s { transport = t })
        | ok rx ↦
            let (msgs, rx', t') = drain rx t in
            let cards = cards_of decode own msgs in
            (
              ok cards,
              record s {
                transport = t';
                discover_rx = some rx';
                discoveries = s.discoveries + length cards;
              },
            )
      ]

  -- `listed` is what the registry lists, if there is one.
  unfoldable pub discover_all :
      Option (Result RegistryError (List AgentCard))
      → Finder T R
      → Result DiscoveryError (List AgentCard) × Finder T R
  discover_all listed s =
      let (r, s') = discover s in
      elim r [
        | err e ↦ (err e, s')
        | ok cards ↦ (ok (values (with_registry own listed (insert_all cards []))), s')
      ]

module _ {K V G : Type 0} (decode : Bytes → Option Envelope) (own : String) (crypto : CryptoApi)
    (sigs : SignatureApi K V G) (decode_status : Bytes → Option LoadStatus) (now : ℕ)
    (me : Option AgentIdentity) where
  unfoldable pub poll_presence :
      {T R : Type 0}
      → Transport T R
      → (R → T → List Bytes × R × T)
      → Finder T R
      → Result DiscoveryError ℕ × Finder T R
  poll_presence tr drain s =
      let (r, t) = opened tr drain decode own presence_topic s.presence_rx s.transport in
      elim r [
        | err e ↦ (err (transport e), record s { transport = t })
        | ok rx ↦
            let (msgs, rx', t') = drain rx t in
            let (count, peers) =
              hear_all decode own crypto sigs decode_status now me msgs (0, s.peers) in
            (
              ok count,
              record s {
                transport = t';
                presence_rx = some rx';
                peers = peers;
                peers_discovered = s.peers_discovered + count;
              },
            )
      ]

-- The calls of the registry that the node makes with its own card.
module _ {S : Type 0} (r : Option (AgentRegistry S)) (card : AgentCard) where
  abbrev with_errors : Result RegistryError Unit × S → Result DiscoveryError Unit × S
  with_errors (ok u, s) = (ok tt, s)
  with_errors (err e, s) = (err (registry e), s)

  unfoldable pub register_in_registry : S → Result DiscoveryError Unit × S
  register_in_registry s = elim r [
    | none ↦ (err no_registry, s)
    | some reg ↦ with_errors (reg.register card s)
  ]

  unfoldable pub update_registry : S → Result DiscoveryError Unit × S
  update_registry s = elim r [
    | none ↦ (err no_registry, s)
    | some reg ↦ with_errors (reg.update card s)
  ]

  unfoldable pub deregister_from_registry : S → Result DiscoveryError Unit × S
  deregister_from_registry s = elim r [
    | none ↦ (err no_registry, s)
    | some reg ↦ with_errors (reg.deregister card.public_key s)
  ]
