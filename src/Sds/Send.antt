-- ===== src/Sds/Send.antt =====
-- crates/logos-messaging-a2a-transport/src/sds/channel.rs: the methods that use the transport. The
-- state is the channel with its transport; a method runs with no other between its steps.
pub mod Outcome
pub mod Reliable
pub mod Repair
use lmao.Prelude.{
  ℕ, zero, suc, ◌+◌, ◌%◌, ◌^◌, String, Bool, true, false, Option, none, some, List, [], ◌∷◌, find,
  ◌==◌, if◌then◌else◌,
}
use lmao.Prelude.Result.{Result, ok, err}
use lmao.Prelude.Words.{le_bytes}
use lmao.Transport.{
  Transport, TransportError, transport_error, serialization_error, display, concat,
}
use lmao.Sds.Message.{
  Bytes, HistoryEntry, ContentMessage, SyncMessage, EphemeralMessage, SdsMessage, content_message,
  sync_message, ephemeral_message, repair_requests,
}
use lmao.Sds.Bloom
use lmao.Sds.State.{
  MessageChannel, Env, next_timestamp, build_causal_history, record_in_history, buffer_outgoing,
}
use lmao.Sds.Channel.{mark_seen, receive}
use lmao.Sds.Exec.{Exec, pure, raise, ◌>>=◌, ◌>>◌}

pub record World (F T : Type 0) : Type 0 where
  pub channel : MessageChannel F
  pub transport : T

module _ {F T R : Type 0} (env : Env F) (tr : Transport T R) where
  -- The primitive steps of the methods.
  abbrev pub stamp_next : Exec (World F T) ℕ
  stamp_next w = let (ts, ch) = next_timestamp w.channel in (ok ts, record w { channel = ch })

  abbrev pub get_channel : Exec (World F T) (MessageChannel F)
  get_channel w = (ok w.channel, w)

  abbrev pub modify : (MessageChannel F → MessageChannel F) → Exec (World F T) Unit
  modify f w = (ok tt, record w { channel = f w.channel })

  abbrev pub serialize : Option Bytes → Exec (World F T) Bytes
  serialize none = raise (serialization_error "serde_json")
  serialize (some bytes) = pure bytes

  abbrev pub on_transport : {A : Type 0} → (T → Result TransportError A × T) → Exec (World F T) A
  on_transport f w = let (r, t) = f w.transport in (r, record w { transport = t })

  -- `map_err` with a message before the error's own
  abbrev pub with_context : String → Result TransportError Unit → Result TransportError Unit
  with_context prefix (ok u) = ok u
  with_context prefix (err e) = err (transport_error (concat prefix (display e)))

  abbrev pub publish_as : String → String → Bytes → Exec (World F T) Unit
  publish_as prefix topic bytes =
      on_transport (λ t. let (r, t') = tr.publish topic bytes t in (with_context prefix r, t'))

  abbrev pub publish : String → Bytes → Exec (World F T) Unit
  publish topic bytes = on_transport (tr.publish topic bytes)

  abbrev pub ack_topic : String → String
  ack_topic id = concat "/lmao/1/ack-" (concat id "/proto")

  abbrev pub new_content : Bytes → ℕ → MessageChannel F → ContentMessage
  new_content payload ts ch = record {
    message_id = env.digest payload;
    channel_id = ch.channel_id;
    sender_id = ch.sender_id;
    lamport_timestamp = ts;
    causal_history = build_causal_history ch;
    bloom_filter = some (Bloom.to_bytes env.bloom ch.bloom);
    content = payload;
    repair_request = [];
    retrieval_hint = none;
  }

  abbrev pub new_sync : List HistoryEntry → ℕ → MessageChannel F → SyncMessage
  new_sync missing ts ch = record {
    message_id = env.digest (le_bytes 8 ts);
    channel_id = ch.channel_id;
    sender_id = ch.sender_id;
    lamport_timestamp = ts;
    causal_history = build_causal_history ch;
    bloom_filter = some (Bloom.to_bytes env.bloom ch.bloom);
    repair_request = missing;
  }

  -- What both ways of sending record about a message that has gone out.
  abbrev pub remember : ContentMessage → MessageChannel F → MessageChannel F
  remember msg ch =
      record_in_history msg.message_id msg.lamport_timestamp (mark_seen env msg.message_id ch)

  unfoldable pub send : String → Bytes → Exec (World F T) ContentMessage
  send topic payload = do
    ts ← stamp_next
    ch ← get_channel
    let msg = new_content payload ts ch
    encoded ← serialize (env.encode (content_message msg))
    publish_as "SDS: failed to publish content message: " topic encoded
    modify (remember msg)
    modify (buffer_outgoing msg)
    pure msg

  abbrev pub is_ack_for : String → Option Bytes → Bool
  is_ack_for id none = false
  is_ack_for id (some bytes) = elim (env.decode_ack bytes) [
    | none ↦ false
    | some other ↦ other == id
  ]

  -- The `for` loop of `send_reliable`, over the attempts that are left: whether an acknowledgement
  -- came.
  unfoldable pub attempt : ℕ → R → String → Bytes → String → Exec (World F T) Bool
  attempt zero rx topic encoded id w = pure false w
  attempt (suc left) rx topic encoded id w =
      let (sent, w') = publish_as "SDS: publish failed: " topic encoded w in
      let (ack_data, rx', t) = tr.recv_timeout w'.channel.config.ack_timeout rx w'.transport in
      let w'' : World F T = record w' { transport = t } in
      elim sent [
        | err e ↦ (err e, w')
        | ok _ ↦ elim (is_ack_for id ack_data) [
          | true ↦ (ok true, w'')
          | false ↦ attempt left rx' topic encoded id w''
        ]
      ]

  -- The result of `unsubscribe` is dropped.
  abbrev pub drop_subscription : String → Exec (World F T) Unit
  drop_subscription topic w =
      let (_, t) = tr.unsubscribe topic w.transport in (ok tt, record w { transport = t })

  unfoldable pub send_reliable : String → Bytes → Exec (World F T) (ContentMessage × Bool)
  send_reliable topic payload = do
    ts ← stamp_next
    ch ← get_channel
    let msg = new_content payload ts ch
    encoded ← serialize (env.encode (content_message msg))
    rx ← on_transport (tr.subscribe (ack_topic msg.message_id))
    acked ← attempt (suc ch.config.max_retries) rx topic encoded msg.message_id
    drop_subscription (ack_topic msg.message_id)
    modify (remember msg)
    pure (msg, acked)

  unfoldable pub send_ack : String → String → Exec (World F T) Unit
  send_ack topic_prefix id = do
    payload ← serialize (env.encode_ack id)
    publish (ack_topic id) payload

  unfoldable pub send_repair_request : String → List HistoryEntry → Exec (World F T) SyncMessage
  send_repair_request topic missing = do
    ts ← stamp_next
    ch ← get_channel
    let msg = new_sync missing ts ch
    encoded ← serialize (env.encode (sync_message msg))
    publish topic encoded
    pure msg

  abbrev pub send_sync : String → Exec (World F T) SyncMessage
  send_sync topic = do
    ts ← stamp_next
    ch ← get_channel
    let msg = new_sync [] ts ch
    encoded ← serialize (env.encode (sync_message msg))
    publish topic encoded
    pure msg

  abbrev pub send_batch_ack : String → Exec (World F T) SyncMessage
  send_batch_ack topic = send_sync topic

  abbrev pub new_ephemeral : Bytes → MessageChannel F → EphemeralMessage
  new_ephemeral payload ch = record {
    message_id = env.digest payload;
    channel_id = ch.channel_id;
    sender_id = ch.sender_id;
    causal_history = [];
    bloom_filter = none;
    content = payload;
    repair_request = [];
  }

  unfoldable pub send_ephemeral : String → Bytes → Exec (World F T) EphemeralMessage
  send_ephemeral topic payload = do
    ch ← get_channel
    let msg = new_ephemeral payload ch
    encoded ← serialize (env.encode (ephemeral_message msg))
    publish topic encoded
    pure msg

  -- The outgoing messages that the requests name, in the order of the requests.
  unfoldable pub to_resend : List HistoryEntry → List ContentMessage → List ContentMessage
  to_resend [] outgoing = []
  to_resend (req ∷ reqs) outgoing =
      let rest = to_resend reqs outgoing in
      elim (find (λ m. m.message_id == req.message_id) outgoing) [ none ↦ rest | some m ↦ m ∷ rest ]

  unfoldable pub resend : List ContentMessage → String → ℕ → Exec (World F T) ℕ
  resend [] topic resent w = pure resent w
  resend (m ∷ ms) topic resent w =
      (do
        encoded ← serialize (env.encode (content_message m))
        publish topic encoded
        resend ms topic (resent + 1))
        w

  unfoldable pub handle_repair_requests : String → List HistoryEntry → Exec (World F T) ℕ
  handle_repair_requests topic [] = pure 0
  handle_repair_requests topic (req ∷ reqs) = do
    ch ← get_channel
    resend (to_resend (req ∷ reqs) ch.outgoing_buffer) topic 0

  abbrev receive_now : Bytes → Exec (World F T) (List ContentMessage)
  receive_now raw w =
      let (delivered, ch) = receive env raw w.channel in (ok delivered, record w { channel = ch })

  unfoldable pub receive_and_repair : String → Bytes → Exec (World F T) (List ContentMessage)
  receive_and_repair topic raw = elim (env.decode raw) [
    | none ↦ pure []
    | some msg ↦ do handle_repair_requests topic (repair_requests msg); receive_now raw
  ]
