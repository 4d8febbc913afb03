-- ===== src/Sds/Channel/Clock.antt =====
-- The Lamport clock of channel.rs: what is sent after a message was received is stamped later.
use lmao.Prelude.{
  ℕ, suc, ◌+◌, ◌%◌, ◌<◌, ◌≡◌, refl, ◌∙◌, false, none, some, Option, List, [], ◌∷◌, arith, max,
  Bool-cases, inl, inr, length,
}
use lmao.Prelude.Words.{u64_mod}
use lmao.Sds.Message.{
  Bytes, SdsMessage, content_message, sync_message, ephemeral_message, message_id,
}
use lmao.Sds.State.{MessageChannel, Env, record_in_history, update_timestamp, next_timestamp}
use lmao.Sds.Channel.{
  Pass, dependencies_satisfied, resolve_pass, resolve_start, resolve_buffered, accept, receive,
  is_duplicate,
}
use lmao.Sds.Channel.Resolve.{
  stays, moves, restart, resolve_pass-nil, resolve_pass_cases, resolve_loop_keeps,
}
use lmao.Sds.Channel.Receive.{receive_new, detect_acks_frame}

module _ {F : Type 0} (env : Env F) where
  abbrev Ticks : ℕ → Pass F → Type 0
  Ticks l p = p.channel.lamport_timestamp ≡ l

  resolve_pass-Ticks :
      (l : ℕ) (p : Pass F) (msgs : List SdsMessage) → Ticks l p → Ticks l (resolve_pass env p msgs)
  unfolding record_in_history
  resolve_pass-Ticks l p [] h = rw (resolve_pass-nil env p) h
  resolve_pass-Ticks l p (m ∷ msgs) h = elim (resolve_pass_cases env p m msgs) [
    | inl (e, _) ↦ rw e (resolve_pass-Ticks l (stays env p m) msgs h)
    | inr (c, _, _, e) ↦ rw e (resolve_pass-Ticks l (moves env p c) msgs h)
  ]

  lamport-resolve_buffered :
      (ch : MessageChannel F) → (resolve_buffered env ch).1.lamport_timestamp ≡ ch.lamport_timestamp
  unfolding resolve_buffered
  lamport-resolve_buffered ch =
      resolve_loop_keeps env (Ticks ch.lamport_timestamp)
        (λ p h. resolve_pass-Ticks ch.lamport_timestamp (restart env p) p.remaining h)
        (suc (length ch.incoming_buffer)) (resolve_start env ch) refl

  -- The stamp that a message carries; an ephemeral one has none.
  abbrev pub stamp : SdsMessage → Option ℕ
  stamp (content_message c) = some c.lamport_timestamp
  stamp (sync_message s) = some s.lamport_timestamp
  stamp (ephemeral_message e) = none

  lamport-accept :
      (msg : SdsMessage) (ts : ℕ) (ch : MessageChannel F)
      → stamp msg ≡ some ts
      → (accept env msg ch).1.lamport_timestamp ≡ (max ch.lamport_timestamp ts + 1) % u64_mod
  unfolding accept update_timestamp record_in_history
  lamport-accept (content_message c) ts ch e =
      elim (Bool-cases (dependencies_satisfied env ch.bloom c.causal_history)) [
        | inl ready ↦ rw (ready, accept) (lamport-resolve_buffered _ ∙ cc)
        | inr waits ↦ rw (waits, accept) (lamport-resolve_buffered _ ∙ cc)
      ]
  lamport-accept (sync_message s) ts ch e = lamport-resolve_buffered _ ∙ cc
  lamport-accept (ephemeral_message x) ts ch e = cc

  -- A new content or sync message moves the clock past its own stamp and past the old clock, and
  -- the next message that is sent is stamped later than both; the sums must fit 64 bits.
  pub receive-lamport :
      (raw : Bytes) (msg : SdsMessage) (ts : ℕ) (ch : MessageChannel F)
      → env.decode raw ≡ some msg
      → is_duplicate env (message_id msg) ch ≡ false
      → stamp msg ≡ some ts
      → max ch.lamport_timestamp ts + 2 < u64_mod
      → let ch' = (receive env raw ch).1 in
        (ts < ch'.lamport_timestamp)
        × (ch.lamport_timestamp < ch'.lamport_timestamp)
        × (ch'.lamport_timestamp < (next_timestamp ch').0)
        × ((next_timestamp ch').1.lamport_timestamp ≡ (next_timestamp ch').0)
  unfolding next_timestamp
  receive-lamport raw msg ts ch parses new stamped fits =
      let (out, acks, e) = detect_acks_frame env msg ch in
      rw (receive_new env raw msg ch parses new, e)
        (omega (
          arith,
          lamport-accept msg ts (record ch { outgoing_buffer = out; possible_acks = acks }) stamped,
        ))
