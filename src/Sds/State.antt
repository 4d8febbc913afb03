-- ===== src/Sds/State.antt =====
-- crates/logos-messaging-a2a-transport/src/sds/channel.rs: the state of a channel, and the methods that
-- need nothing but it. A method takes the channel last and returns the new one.
use lmao.Prelude.{
  ℕ, ◌+◌, ◌*◌, ◌%◌, String, Option, none, List, [], ◌∷◌, ◌++◌, reverse, ltb, leb, if◌then◌else◌,
  length, take, drop, max,
}
use lmao.Prelude.Words.{u64_mod}
use lmao.Prelude.Dict.{Dict}
use lmao.Sds.Message.{Bytes, HistoryEntry, ContentMessage, SdsMessage}
use lmao.Sds.Bloom.{BloomApi, SdsBloomFilter}

abbrev pub incoming_buffer_max : ℕ
incoming_buffer_max = 256

abbrev pub outgoing_buffer_max : ℕ
outgoing_buffer_max = 256

abbrev pub possible_acks_max : ℕ
possible_acks_max = 1024

-- Durations are in milliseconds.
pub record ChannelConfig : Type 0 where
  pub causal_history_size : ℕ
  pub possible_acks_threshold : ℕ
  pub ack_timeout : ℕ
  pub max_retries : ℕ
  pub timeout_for_lost_messages_ms : Option ℕ

abbrev pub default_config : ChannelConfig
default_config = record {
  causal_history_size = 200;
  possible_acks_threshold = 2;
  ack_timeout = 10000;
  max_retries = 3;
  timeout_for_lost_messages_ms = none;
}

abbrev pub fire_and_forget : ChannelConfig
fire_and_forget = record default_config { ack_timeout = 0; max_retries = 0 }

pub record MessageChannel (F : Type 0) : Type 0 where
  pub channel_id : String
  pub sender_id : String
  pub config : ChannelConfig
  pub lamport_timestamp : ℕ
  pub bloom : SdsBloomFilter F
  pub local_history : List HistoryEntry
  pub outgoing_buffer : List ContentMessage
  pub incoming_buffer : List SdsMessage
  pub possible_acks : Dict ℕ

-- What the channel takes from other crates: the filter, SHA-256 in hex, and serde's JSON.
pub record Env (F : Type 0) : Type 0 where
  pub bloom : BloomApi F
  pub digest : Bytes → String
  pub encode : SdsMessage → Option Bytes
  pub decode : Bytes → Option SdsMessage
  pub encode_ack : String → Option Bytes
  pub decode_ack : Bytes → Option String

-- `VecDeque::pop_front` while the queue is longer than `limit`.
abbrev pub trim : ℕ → List HistoryEntry → List HistoryEntry
trim limit [] = []
trim limit (e ∷ es) = if ltb limit (length (e ∷ es)) then trim limit es else e ∷ es

-- `causal_history_size * 2` in a 64-bit `usize`
abbrev pub history_limit : ChannelConfig → ℕ
history_limit config = config.causal_history_size * 2 % u64_mod

-- `Vec::push` behind `remove(0)` on a vector that has reached its ceiling
abbrev pub push_capped {ℓ} : {A : Type ℓ} → ℕ → A → List A → List A
push_capped ceiling a xs = (if leb ceiling (length xs) then drop 1 xs else xs) ++ a ∷ []

module _ {F : Type 0} where
  unfoldable pub next_timestamp : MessageChannel F → ℕ × MessageChannel F
  next_timestamp ch =
      let ts = (ch.lamport_timestamp + 1) % u64_mod in (ts, record ch { lamport_timestamp = ts })

  unfoldable pub update_timestamp : ℕ → MessageChannel F → MessageChannel F
  update_timestamp remote_ts ch = record ch {
    lamport_timestamp = (max ch.lamport_timestamp remote_ts + 1) % u64_mod;
  }

  unfoldable pub build_causal_history : MessageChannel F → List HistoryEntry
  build_causal_history ch = take ch.config.causal_history_size (reverse ch.local_history)

  unfoldable pub record_in_history : String → ℕ → MessageChannel F → MessageChannel F
  record_in_history id ts ch =
      let entry : HistoryEntry = record {
        message_id = id;
        lamport_timestamp = ts;
        retrieval_hint = none;
      } in
      record ch { local_history = trim (history_limit ch.config) (ch.local_history ++ entry ∷ []) }

  abbrev pub buffer_outgoing : ContentMessage → MessageChannel F → MessageChannel F
  buffer_outgoing msg ch = record ch {
    outgoing_buffer = push_capped outgoing_buffer_max msg ch.outgoing_buffer;
  }

  abbrev pub buffer_incoming : SdsMessage → MessageChannel F → MessageChannel F
  buffer_incoming msg ch = record ch {
    incoming_buffer = push_capped incoming_buffer_max msg ch.incoming_buffer;
  }

  abbrev pub outgoing_pending : MessageChannel F → ℕ
  outgoing_pending ch = length ch.outgoing_buffer

  abbrev pub incoming_pending : MessageChannel F → ℕ
  incoming_pending ch = length ch.incoming_buffer
