-- ===== src/Node/Peers.antt =====
-- crates/logos-messaging-a2a-node/src/presence.rs and the load buckets of
-- crates/logos-messaging-a2a-core/src/presence.rs. The clock is an argument, in seconds; a hash map
-- is iterated in the order of its list, which no theorem depends on.
pub mod Eviction
use lmao.Prelude.{
  ℕ, ◌-◌, ◌*◌, ◌%◌, ◌^◌, max, String, Bool, true, false, not, ◌&&◌, ◌||◌, Option, none, some, List,
  filter, any, length, leb, ltb, eqb, ◌==◌, if◌then◌else◌,
}
use lmao.Prelude.Dict
use lmao.Prelude.Dict.{Dict}

pub data LoadBucket : Type 0 where
  free busy full : LoadBucket

-- The product is one of 32-bit words.
unfoldable pub from_load : ℕ → ℕ → LoadBucket
from_load queue_depth max_concurrent =
    let most = max max_concurrent 1 in
    if leb most queue_depth
    then full
    else if leb most (queue_depth * 2 % 2 ^ 32)
    then busy
    else free

pub record LoadStatus : Type 0 where
  pub bucket : LoadBucket
  pub queue_depth : ℕ
  pub max_concurrent : ℕ
  pub avg_latency_ms : ℕ

pub record SealedStatus : Type 0 where
  pub recipient_hint : List ℕ
  pub ephemeral_pub : List ℕ
  pub nonce : List ℕ
  pub ciphertext : List ℕ

pub record PresenceAnnouncement : Type 0 where
  pub agent_id : String
  pub name : String
  pub capabilities : List String
  pub waku_topic : String
  pub ttl_secs : ℕ
  pub sealed_status : List SealedStatus
  pub signature : Option (List ℕ)

pub record PeerInfo : Type 0 where
  pub name : String
  pub capabilities : List String
  pub waku_topic : String
  pub ttl_secs : ℕ
  pub last_seen : ℕ
  pub load : Option LoadStatus

abbrev pub PeerMap : Type 0
PeerMap = Dict PeerInfo

-- `saturating_sub` stops at 0, as `-` does here.
abbrev pub is_expired_at : ℕ → PeerInfo → Bool
is_expired_at now info = eqb info.ttl_secs 0 || ltb info.ttl_secs (now - info.last_seen)

unfoldable pub update_with_load : ℕ → PresenceAnnouncement → Option LoadStatus → PeerMap → PeerMap
update_with_load now announcement load peers =
    let info : PeerInfo = record {
      name = announcement.name;
      capabilities = announcement.capabilities;
      waku_topic = announcement.waku_topic;
      ttl_secs = announcement.ttl_secs;
      last_seen = now;
      load = load;
    } in
    Dict.insert announcement.agent_id info peers

abbrev pub update : ℕ → PresenceAnnouncement → PeerMap → PeerMap
update now announcement peers = update_with_load now announcement none peers

abbrev live : ℕ → Option PeerInfo → Option PeerInfo
live now none = none
live now (some info) = if is_expired_at now info then none else some info

abbrev pub get : ℕ → String → PeerMap → Option PeerInfo
get now agent_id peers = live now (Dict.lookup agent_id peers)

unfoldable pub find_by_capability : ℕ → String → PeerMap → List (String × PeerInfo)
find_by_capability now capability peers =
    filter (λ x. not (is_expired_at now x.1) && any (λ c. c == capability) x.1.capabilities) peers

unfoldable pub all_live : ℕ → PeerMap → List (String × PeerInfo)
all_live now peers = filter (λ x. not (is_expired_at now x.1)) peers

abbrev pub peer_count : PeerMap → ℕ
peer_count peers = length peers

abbrev pub is_empty : PeerMap → Bool
is_empty peers = eqb (length peers) 0

-- The number removed, and what is left.
unfoldable pub evict_expired : ℕ → PeerMap → ℕ × PeerMap
evict_expired now peers =
    let left = filter (λ x. not (is_expired_at now x.1)) peers in (length peers - length left, left)
