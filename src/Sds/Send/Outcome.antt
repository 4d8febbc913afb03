-- ===== src/Sds/Send/Outcome.antt =====
-- `send` of channel.rs: what is kept of a message that went out, and of one that did not.
use lmao.Prelude.{◌+◌, ◌%◌, ◌<◌, ◌≡◌, refl, ◌⊎◌, String, some, [], arith, inl, inr, Option-cases}
use lmao.Prelude.Words.{u64_mod}
use lmao.Prelude.Result.{Result, ok, err, Result-cases}
use lmao.Transport.{Transport, TransportError}
use lmao.Sds.Message.{Bytes, ContentMessage, content_message}
use lmao.Sds.Bloom.{BloomLaws}
use lmao.Sds.Bloom.Laws.{check-set_room}
use lmao.Sds.State.{
  MessageChannel, Env, next_timestamp, record_in_history, buffer_outgoing, outgoing_buffer_max,
}
use lmao.Sds.Channel.{receive}
use lmao.Sds.Channel.Bounds.{InBounds, length-trim, length-push_capped}
use lmao.Sds.Channel.Dedup.{receive_duplicate}
use lmao.Sds.Send.{World, new_content, remember, send}

module _ {F T R : Type 0} (env : Env F) (tr : Transport T R) where
  abbrev stamped : MessageChannel F → MessageChannel F
  stamped ch = record ch { lamport_timestamp = (ch.lamport_timestamp + 1) % u64_mod }

  abbrev sent : Bytes → MessageChannel F → ContentMessage
  sent payload ch = new_content env tr payload ((ch.lamport_timestamp + 1) % u64_mod) (stamped ch)

  abbrev Outcome : Bytes → World F T → Result TransportError ContentMessage × World F T → Type 0
  Outcome payload w (r, w') =
      let msg = sent payload w.channel in
      ((r ≡ ok msg) × (w'.channel ≡ buffer_outgoing msg (remember env tr msg (stamped w.channel))))
      ⊎ ((e : TransportError) × (r ≡ err e) × (w'.channel ≡ stamped w.channel))

  send-Outcome :
      (topic : String) (payload : Bytes) (w : World F T)
      → Outcome payload w (send env tr topic payload w)
  unfolding send next_timestamp
  send-Outcome topic payload w =
      elim (Option-cases (env.encode (content_message (sent payload w.channel)))) [
        | inl e ↦ rw (e, send) (inr (_, refl, refl))
        | inr (bytes, e) ↦ elim (Result-cases (tr.publish topic bytes w.transport).0) [
          | inl (_, e') ↦ rw (e, e', send) (inl (refl, refl))
          | inr (_, e') ↦ rw (e, e', send) (inr (_, refl, refl))
        ]
      ]

  -- A send that fails, in serialising or in publishing, has used up a timestamp and recorded
  -- nothing: filter, history and buffers are as before.
  send_failed :
      (topic : String) (payload : Bytes) (w : World F T) (e : TransportError)
      → (send env tr topic payload w).0 ≡ err e
      → (send env tr topic payload w).1.channel
        ≡ record w.channel { lamport_timestamp = (w.channel.lamport_timestamp + 1) % u64_mod }
  send_failed topic payload w e failed = elim (send-Outcome topic payload w) [
    | inl (sent_ok, _) ↦ cc
    | inr (_, _, same) ↦ same
  ]

  -- A message that was sent while the filter had room is in the filter at once, so that its echo
  -- from the network, or any other message under the digest of the same payload, is dropped by
  -- `receive` without a trace. The filter keeps its laws.
  send_echo :
      BloomLaws env.bloom
      → (topic : String) (payload raw : Bytes) (w : World F T) (msg echo : ContentMessage)
      → (send env tr topic payload w).0 ≡ ok msg
      → env.decode raw ≡ some (content_message echo)
      → echo.message_id ≡ env.digest payload
      → w.channel.bloom.item_count + 1 < w.channel.bloom.capacity
      → receive env raw (send env tr topic payload w).1.channel
        ≡ ([], (send env tr topic payload w).1.channel)
  unfolding record_in_history
  send_echo laws topic payload raw w msg echo sent_ok parses same_id room =
      elim (send-Outcome topic payload w) [
        | inl (_, e) ↦ receive_duplicate env laws raw (content_message echo) _ parses (
            rw (e, same_id)
              (check-set_room env.bloom laws w.channel.bloom (env.digest payload)
                (env.digest payload) room).0)
        | inr (_, failed, _) ↦ cc
      ]

  -- Sending keeps a channel within its ceilings, whether it succeeds or not.
  send-InBounds :
      (topic : String) (payload : Bytes) (w : World F T)
      → InBounds w.channel
      → InBounds (send env tr topic payload w).1.channel
  unfolding record_in_history
  send-InBounds topic payload w v = elim (send-Outcome topic payload w) [
    | inl (_, e) ↦ rw e (record {
      history = length-trim _ _;
      outgoing =
          length-push_capped outgoing_buffer_max (sent payload w.channel) w.channel.outgoing_buffer
            (omega arith) v.outgoing;
      incoming = v.incoming;
      acks = v.acks;
    })
    | inr (_, _, e) ↦ rw e (record {
      history = v.history;
      outgoing = v.outgoing;
      incoming = v.incoming;
      acks = v.acks;
    })
  ]
