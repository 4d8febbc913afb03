-- ===== src/Sds/Channel.antt =====
-- crates/logos-messaging-a2a-transport/src/sds/channel.rs: the methods that receive, on the
-- state of Sds/State.antt. A method takes the channel last and returns the new one; the source's
-- mutexes make each access of a field atomic, and a method here is one run with no other between.
-- The methods that use the transport are in Sds/Send.antt.
pub mod Resolve
pub mod Causal
pub mod Receive
pub mod Dedup
pub mod Copies
pub mod Bounds
pub mod Clock
pub mod Acks
use mathlib.Core.List.{foldl}
use lmao.Prelude.{
  ℕ, zero, suc, ◌+◌, ◌*◌, ◌%◌, ◌^◌, String, Bool, true, false, not, Option, none, some, List, [],
  ◌∷◌, ◌++◌, reverse, ltb, leb, if◌then◌else◌, length, take, drop, all, filter, max, ◌==◌,
}
use lmao.Prelude.Words.{u64_mod}
use lmao.Prelude.Dict
use lmao.Prelude.Dict.{Dict}
use lmao.Sds.Message.{
  Bytes, HistoryEntry, ContentMessage, SyncMessage, EphemeralMessage, SdsMessage, content_message,
  sync_message, ephemeral_message, message_id, bloom_filter_bytes,
}
use lmao.Sds.Bloom
use lmao.Sds.Bloom.{BloomApi, SdsBloomFilter}
use lmao.Sds.State.{
  possible_acks_max, ChannelConfig, MessageChannel, Env, update_timestamp, record_in_history,
  buffer_incoming,
}

-- One message of the outgoing buffer against a remote filter that is asked by `seen`: whether it
-- stays, and the counters after it.
unfoldable pub count_ack : (String → Bool) → ℕ → ContentMessage → Dict ℕ → Bool × Dict ℕ
count_ack seen threshold msg acks =
    if seen msg.message_id
    then (let count =
          (elim (Dict.lookup msg.message_id acks) [ none ↦ 0 | some n ↦ n ] + 1) % 2 ^ 32 in
        if leb threshold count
        then (false, Dict.remove msg.message_id acks)
        else (true, Dict.insert msg.message_id count acks))
    else (true, acks)

-- `outgoing.retain`
unfoldable pub retain_unacked :
    (String → Bool) → ℕ → List ContentMessage → Dict ℕ → List ContentMessage × Dict ℕ
retain_unacked seen threshold [] acks = ([], acks)
retain_unacked seen threshold (msg ∷ msgs) acks =
    let (keep, acks') = count_ack seen threshold msg acks in
    let (kept, acks'') = retain_unacked seen threshold msgs acks' in
    (if keep then msg ∷ kept else kept, acks'')

-- The variables of the loop in `resolve_buffered`.
pub record Pass (F : Type 0) : Type 0 where
  pub channel : MessageChannel F
  pub delivered : List ContentMessage
  pub remaining : List SdsMessage
  pub made_progress : Bool

module _ {F : Type 0} (env : Env F) where
  abbrev pub new_channel : String → String → ChannelConfig → ℕ → MessageChannel F
  new_channel channel sender config now_ms = record {
    channel_id = channel;
    sender_id = sender;
    config = config;
    lamport_timestamp = now_ms % u64_mod;
    bloom = Bloom.new env.bloom;
    local_history = [];
    outgoing_buffer = [];
    incoming_buffer = [];
    possible_acks = [];
  }

  abbrev pub is_duplicate : String → MessageChannel F → Bool
  is_duplicate id ch = Bloom.check env.bloom ch.bloom id

  abbrev pub mark_seen : String → MessageChannel F → MessageChannel F
  mark_seen id ch = record ch { bloom = Bloom.set env.bloom ch.bloom id }

  -- All ids of the history are in the filter; an empty history is.
  unfoldable pub dependencies_satisfied : SdsBloomFilter F → List HistoryEntry → Bool
  dependencies_satisfied b history = all (λ e. Bloom.check env.bloom b e.message_id) history

  abbrev pub build_repair_requests : List HistoryEntry → MessageChannel F → List HistoryEntry
  build_repair_requests history ch =
      filter (λ e. not (Bloom.check env.bloom ch.bloom e.message_id)) history

  unfoldable pub check_outgoing_acks : Bytes → MessageChannel F → MessageChannel F
  check_outgoing_acks bytes ch = elim (Bloom.from_bytes env.bloom bytes) [
    | none ↦ ch
    | some remote ↦
        let (kept, acks) =
          retain_unacked (Bloom.probably_contains env.bloom remote)
            ch.config.possible_acks_threshold ch.outgoing_buffer ch.possible_acks in
        record ch {
          outgoing_buffer = kept;
          possible_acks = if ltb possible_acks_max (length acks) then [] else acks;
        }
  ]

  -- A message whose dependencies are there: it is marked, recorded and handed over.
  abbrev pub deliver : ContentMessage → MessageChannel F → MessageChannel F
  deliver content ch =
      record_in_history content.message_id content.lamport_timestamp
        (mark_seen content.message_id ch)

  -- The body of the `for` loop of `resolve_buffered`.
  unfoldable pub resolve_step : Pass F → SdsMessage → Pass F
  resolve_step p (content_message content) =
      if dependencies_satisfied p.channel.bloom content.causal_history
      then record p {
        channel = deliver content p.channel;
        delivered = p.delivered ++ content ∷ [];
        made_progress = true;
      }
      else record p { remaining = p.remaining ++ content_message content ∷ [] }
  resolve_step p msg = record p { remaining = p.remaining ++ msg ∷ [] }

  -- The `for` loop over the drained buffer.
  unfoldable pub resolve_pass : Pass F → List SdsMessage → Pass F
  resolve_pass p [] = p
  resolve_pass p (msg ∷ msgs) = resolve_pass (resolve_step p msg) msgs

  -- The `while` loop. The buffer shrinks in each round but the last, so its length and one more
  -- is enough fuel (Resolve.antt).
  unfoldable pub resolve_loop : ℕ → Pass F → Pass F
  resolve_loop zero p = p
  resolve_loop (suc fuel) p =
      let q = resolve_pass (record p { remaining = []; made_progress = false }) p.remaining in
      elim q.made_progress [ true ↦ resolve_loop fuel q | false ↦ q ]

  abbrev pub resolve_start : MessageChannel F → Pass F
  resolve_start ch = record {
    channel = ch;
    delivered = [];
    remaining = ch.incoming_buffer;
    made_progress = true;
  }

  unfoldable pub resolve_buffered : MessageChannel F → List ContentMessage × MessageChannel F
  resolve_buffered ch =
      let p = resolve_loop (suc (length ch.incoming_buffer)) (resolve_start ch) in
      (p.delivered, record p.channel { incoming_buffer = p.remaining })

  -- The `match` of `receive`.
  unfoldable pub accept : SdsMessage → MessageChannel F → List ContentMessage × MessageChannel F
  accept (content_message content) ch =
      let updated = update_timestamp content.lamport_timestamp ch in
      if dependencies_satisfied updated.bloom content.causal_history
      then (let (delivered, ch') = resolve_buffered (deliver content updated) in
          (content ∷ delivered, ch'))
      else resolve_buffered (buffer_incoming (content_message content) updated)
  accept (sync_message sync) ch =
      resolve_buffered (update_timestamp sync.lamport_timestamp (mark_seen sync.message_id ch))
  accept (ephemeral_message eph) ch = ([], mark_seen eph.message_id ch)

  abbrev pub detect_acks : SdsMessage → MessageChannel F → MessageChannel F
  detect_acks msg ch = elim (bloom_filter_bytes msg) [
    | none ↦ ch
    | some bytes ↦ check_outgoing_acks bytes ch
  ]

  -- `receive` on a message that parses.
  unfoldable pub receive_message :
      SdsMessage → MessageChannel F → List ContentMessage × MessageChannel F
  receive_message msg ch =
      if is_duplicate (message_id msg) ch then ([], ch) else accept msg (detect_acks msg ch)

  unfoldable pub receive : Bytes → MessageChannel F → List ContentMessage × MessageChannel F
  receive raw ch = elim (env.decode raw) [ none ↦ ([], ch) | some msg ↦ receive_message msg ch ]
