-- ===== src/Sds/Channel/Receive.antt =====
-- `receive` of channel.rs: one message from its arrival to the deliveries that it causes.
use mathlib.Core.List.Perm
use lmao.Prelude.{
  ℕ, ◌≡◌, refl, false, some, List, [], ◌∷◌, ◌++◌, map, Bool-cases, Option-cases, inl, inr, length,
  ltb, Perm, if◌then◌else◌,
}
use lmao.Prelude.Dict.{Dict}
use lmao.Sds.Message.{
  Bytes, ContentMessage, SdsMessage, content_message, sync_message, ephemeral_message, message_id,
  bloom_filter_bytes,
}
use lmao.Sds.Bloom
use lmao.Sds.Bloom.{SdsBloomFilter}
use lmao.Sds.State.{
  MessageChannel, Env, record_in_history, update_timestamp, push_capped, possible_acks_max,
  incoming_buffer_max, buffer_incoming,
}
use lmao.Sds.Channel.{
  dependencies_satisfied, deliver, accept, receive_message, receive, is_duplicate, detect_acks,
  check_outgoing_acks, retain_unacked,
}
use lmao.Sds.Channel.Causal.{CausalRun, resolve_buffered-Follows}

module _ {F : Type 0} (env : Env F) where
  -- The filter from which the deliveries of `accept` start.
  abbrev pub before : SdsMessage → SdsBloomFilter F → SdsBloomFilter F
  before (content_message c) b = b
  before (sync_message s) b = Bloom.set env.bloom b s.message_id
  before (ephemeral_message e) b = Bloom.set env.bloom b e.message_id

  -- The messages from which `accept` delivers: the buffer, and a content message that arrives; if
  -- that must wait and the buffer is full, less the oldest.
  abbrev pub arrived : SdsMessage → MessageChannel F → List SdsMessage
  arrived (content_message c) ch =
      if dependencies_satisfied env ch.bloom c.causal_history
      then content_message c ∷ ch.incoming_buffer
      else push_capped incoming_buffer_max (content_message c) ch.incoming_buffer
  arrived (sync_message s) ch = ch.incoming_buffer
  arrived (ephemeral_message e) ch = ch.incoming_buffer

  abbrev pub Accepts :
      SdsMessage → MessageChannel F → List ContentMessage × MessageChannel F → Type 0
  Accepts msg ch (delivered, ch') =
      CausalRun env (before msg ch.bloom) delivered ch'.bloom
      × Perm (map content_message delivered ++ ch'.incoming_buffer) (arrived msg ch)

  accept-Accepts : (msg : SdsMessage) (ch : MessageChannel F) → Accepts msg ch (accept env msg ch)
  unfolding accept update_timestamp record_in_history
  accept-Accepts (content_message c) ch =
      elim (Bool-cases (dependencies_satisfied env ch.bloom c.causal_history)) [
        | inl ready ↦
            let run =
              resolve_buffered-Follows env
                (deliver env c (update_timestamp c.lamport_timestamp ch)) in
            rw (ready, accept) ((ready, run.0), Perm.cons (content_message c) run.1)
        | inr waits ↦
            rw (waits, accept)
              (resolve_buffered-Follows env
                (buffer_incoming (content_message c) (update_timestamp c.lamport_timestamp ch)))
      ]
  accept-Accepts (sync_message s) ch = resolve_buffered-Follows env _
  accept-Accepts (ephemeral_message e) ch = (refl, Perm.refl ch.incoming_buffer)

  abbrev AcksFrame : MessageChannel F → MessageChannel F → Type 0
  AcksFrame ch ch' =
      (out : List ContentMessage) × (acks : Dict ℕ) × (ch'
        ≡ record ch { outgoing_buffer = out; possible_acks = acks })

  check_outgoing_acks_frame :
      (bytes : Bytes) (ch : MessageChannel F) → AcksFrame ch (check_outgoing_acks env bytes ch)
  unfolding check_outgoing_acks
  check_outgoing_acks_frame bytes ch = elim (Option-cases (Bloom.from_bytes env.bloom bytes)) [
    | inl e ↦ (ch.outgoing_buffer, ch.possible_acks, rw (e, check_outgoing_acks))
    | inr (remote, e) ↦
        let (kept, acks) =
          retain_unacked (Bloom.probably_contains env.bloom remote)
            ch.config.possible_acks_threshold ch.outgoing_buffer ch.possible_acks in
        (
          kept,
          if ltb possible_acks_max (length acks) then [] else acks,
          rw (e, check_outgoing_acks),
        )
  ]

  -- Looking for acknowledgements changes the outgoing buffer and the counters, and nothing else.
  pub detect_acks_frame :
      (msg : SdsMessage) (ch : MessageChannel F) → AcksFrame ch (detect_acks env msg ch)
  detect_acks_frame msg ch = elim (Option-cases (bloom_filter_bytes msg)) [
    | inl e ↦ rw (e, detect_acks) (ch.outgoing_buffer, ch.possible_acks, refl)
    | inr (bytes, e) ↦ rw (e, detect_acks) (check_outgoing_acks_frame bytes ch)
  ]

  -- A message that parses and is new is accepted after the look for acknowledgements.
  pub receive_new :
      (raw : Bytes) (msg : SdsMessage) (ch : MessageChannel F)
      → env.decode raw ≡ some msg
      → is_duplicate env (message_id msg) ch ≡ false
      → receive env raw ch ≡ accept env msg (detect_acks env msg ch)
  unfolding receive receive_message
  receive_new raw msg ch parses new = rw (parses, receive) (rw (new, receive_message))

  arrived_frame :
      (msg : SdsMessage) (ch : MessageChannel F) (out : List ContentMessage) (acks : Dict ℕ)
      → arrived msg (record ch { outgoing_buffer = out; possible_acks = acks }) ≡ arrived msg ch
  arrived_frame (content_message c) ch out acks = refl
  arrived_frame (sync_message s) ch out acks = refl
  arrived_frame (ephemeral_message e) ch out acks = refl

  -- A message that parses and is new is taken in causal order: what is delivered, from the filter
  -- with the message's own mark if it has one, has its dependencies marked before it, and each
  -- delivery marks itself. The delivered messages and the buffer afterwards are, as often as
  -- before, the arrived message, if it has content, and the buffer before, less the oldest entry
  -- of a full one that the arrival displaces.
  pub receive-Accepts :
      (raw : Bytes) (msg : SdsMessage) (ch : MessageChannel F)
      → env.decode raw ≡ some msg
      → is_duplicate env (message_id msg) ch ≡ false
      → Accepts msg ch (receive env raw ch)
  receive-Accepts raw msg ch parses new =
      let (out, acks, e) = detect_acks_frame msg ch in
      rw (receive_new raw msg ch parses new, e, ← arrived_frame msg ch out acks)
        (accept-Accepts msg (record ch { outgoing_buffer = out; possible_acks = acks }))
