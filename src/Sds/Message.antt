-- ===== src/Sds/Message.antt =====
-- crates/logos-messaging-a2a-transport/src/sds/message.rs: the three message types.
-- A text is the library's `String`, a byte string a list of numbers. SHA-256 and hex are the
-- parameter `digest`.
use lmao.Prelude.{ℕ, String, Option, none, List, []}

-- A byte string: its numbers are below 256.
abbrev pub Bytes : Type 0
Bytes = List ℕ

-- An entry of a causal history.
pub record HistoryEntry : Type 0 where
  pub message_id : String
  pub lamport_timestamp : ℕ
  pub retrieval_hint : Option Bytes

pub record ContentMessage : Type 0 where
  pub message_id : String
  pub channel_id : String
  pub sender_id : String
  pub lamport_timestamp : ℕ
  pub causal_history : List HistoryEntry
  pub bloom_filter : Option Bytes
  pub content : Bytes
  pub repair_request : List HistoryEntry
  pub retrieval_hint : Option Bytes

pub record SyncMessage : Type 0 where
  pub message_id : String
  pub channel_id : String
  pub sender_id : String
  pub lamport_timestamp : ℕ
  pub causal_history : List HistoryEntry
  pub bloom_filter : Option Bytes
  pub repair_request : List HistoryEntry

pub record EphemeralMessage : Type 0 where
  pub message_id : String
  pub channel_id : String
  pub sender_id : String
  pub causal_history : List HistoryEntry
  pub bloom_filter : Option Bytes
  pub content : Bytes
  pub repair_request : List HistoryEntry

pub data SdsMessage : Type 0 where
  content_message : ContentMessage → SdsMessage
  sync_message : SyncMessage → SdsMessage
  ephemeral_message : EphemeralMessage → SdsMessage

abbrev pub message_id : SdsMessage → String
message_id (content_message m) = m.message_id
message_id (sync_message m) = m.message_id
message_id (ephemeral_message m) = m.message_id

abbrev pub channel_id : SdsMessage → String
channel_id (content_message m) = m.channel_id
channel_id (sync_message m) = m.channel_id
channel_id (ephemeral_message m) = m.channel_id

abbrev pub sender_id : SdsMessage → String
sender_id (content_message m) = m.sender_id
sender_id (sync_message m) = m.sender_id
sender_id (ephemeral_message m) = m.sender_id

abbrev pub causal_history : SdsMessage → List HistoryEntry
causal_history (content_message m) = m.causal_history
causal_history (sync_message m) = m.causal_history
causal_history (ephemeral_message m) = m.causal_history

abbrev pub bloom_filter_bytes : SdsMessage → Option Bytes
bloom_filter_bytes (content_message m) = m.bloom_filter
bloom_filter_bytes (sync_message m) = m.bloom_filter
bloom_filter_bytes (ephemeral_message m) = m.bloom_filter

abbrev pub repair_requests : SdsMessage → List HistoryEntry
repair_requests (content_message m) = m.repair_request
repair_requests (sync_message m) = m.repair_request
repair_requests (ephemeral_message m) = m.repair_request

-- `ContentMessage::new` and `EphemeralMessage::new`; `digest` is the hex of the SHA-256.
module _ (digest : Bytes → String) where
  abbrev pub new_content : String → String → ℕ → Bytes → ContentMessage
  new_content channel sender timestamp content = record {
    message_id = digest content;
    channel_id = channel;
    sender_id = sender;
    lamport_timestamp = timestamp;
    causal_history = [];
    bloom_filter = none;
    content = content;
    repair_request = [];
    retrieval_hint = none;
  }

  abbrev pub new_ephemeral : String → String → Bytes → EphemeralMessage
  new_ephemeral channel sender content = record {
    message_id = digest content;
    channel_id = channel;
    sender_id = sender;
    causal_history = [];
    bloom_filter = none;
    content = content;
    repair_request = [];
  }
