-- ===== src/Sds/Channel/Bounds.antt =====
-- The ceilings of channel.rs: no message makes a buffer, the history or the counters grow past them.
use lmao.Prelude.{
  ℕ, suc, ◌+◌, ◌≤◌, ◌<◌, ◌≡◌, refl, ap, String, Bool, List, [], ◌∷◌, arith, length, length-append,
  length-drop, leb, Bool-cases, Option-cases, inl, inr, drop,
}
use lmao.Prelude.Dict.{Dict}
use lmao.Sds.Message.{
  Bytes, HistoryEntry, ContentMessage, SdsMessage, content_message, sync_message, ephemeral_message,
  message_id, bloom_filter_bytes,
}
use lmao.Sds.Bloom
use lmao.Sds.Bloom.{SdsBloomFilter}
use lmao.Sds.State.{
  MessageChannel, Env, trim, history_limit, push_capped, record_in_history, update_timestamp,
  buffer_incoming, outgoing_buffer_max, incoming_buffer_max, possible_acks_max,
}
use lmao.Sds.Channel.{
  Pass, deliver, count_ack, retain_unacked, check_outgoing_acks, detect_acks, resolve_pass,
  resolve_loop, dependencies_satisfied, resolve_start, resolve_buffered, accept, receive_message,
  receive, mark_seen, is_duplicate,
}
use lmao.Sds.Channel.Resolve.{
  stays, moves, restart, resolve_pass-nil, resolve_pass_cases, resolve_loop_keeps,
}

pub length-trim : (limit : ℕ) (es : List HistoryEntry) → length (trim limit es) ≤ limit
length-trim limit [] = omega arith
length-trim limit (e ∷ es) = ground (arith, length-trim limit es)

pub length-push_capped {ℓ} :
    {A : Type ℓ} (ceiling : ℕ) (a : A) (xs : List A)
    → 0 < ceiling
    → length xs ≤ ceiling
    → length (push_capped ceiling a xs) ≤ ceiling
length-push_capped ceiling a xs pos h = elim (Bool-cases (leb ceiling (length xs))) [
  | inl full ↦ rw full (omega (arith, length-append (drop 1 xs) (a ∷ []), length-drop 1 xs))
  | inr room ↦ rw room (ground (arith, length-append xs (a ∷ [])))
]

length-retain_unacked :
    (seen : String → Bool) (threshold : ℕ) (msgs : List ContentMessage) (acks : Dict ℕ)
    → length (retain_unacked seen threshold msgs acks).0 ≤ length msgs
unfolding retain_unacked
length-retain_unacked seen threshold [] acks = omega arith
length-retain_unacked seen threshold (m ∷ msgs) acks =
    ground (arith, length-retain_unacked seen threshold msgs (count_ack seen threshold m acks).1)

module _ {F : Type 0} where
  -- The ceilings that the constants and the configuration of channel.rs set.
  pub record InBounds (ch : MessageChannel F) : Type 0 where
    pub history : length ch.local_history ≤ history_limit ch.config
    pub outgoing : length ch.outgoing_buffer ≤ outgoing_buffer_max
    pub incoming : length ch.incoming_buffer ≤ incoming_buffer_max
    pub acks : length ch.possible_acks ≤ possible_acks_max

module _ {F : Type 0} (env : Env F) where
  -- `ch'` is `ch` with another filter, a bounded history and a buffer of at most `n` messages.
  abbrev ResolvesTo : MessageChannel F → ℕ → MessageChannel F → List SdsMessage → Type 0
  ResolvesTo ch n ch' remaining =
      (b : SdsBloomFilter F) × (h : List HistoryEntry) × (ch'
        ≡ record ch { bloom = b; local_history = h })
      × (length h ≤ history_limit ch.config)
      × (length remaining ≤ n)

  resolve_pass-ResolvesTo :
      (ch : MessageChannel F) (n : ℕ) (p : Pass F) (msgs : List SdsMessage)
      → ResolvesTo ch n p.channel p.remaining
      → length p.remaining + length msgs ≤ n
      → ResolvesTo ch n (resolve_pass env p msgs).channel (resolve_pass env p msgs).remaining
  unfolding record_in_history
  resolve_pass-ResolvesTo ch n p [] r fits = rw (resolve_pass-nil env p) r
  resolve_pass-ResolvesTo ch n p (m ∷ msgs) (b, h, same, short, _) fits =
      elim (resolve_pass_cases env p m msgs) [
        | inl (e, _) ↦
            let len = length-append p.remaining (m ∷ []) in
            rw e (
              resolve_pass-ResolvesTo ch n (stays env p m) msgs (b, h, same, short, omega arith)
                (omega arith))
        | inr (c, _, _, e) ↦ rw e (
            resolve_pass-ResolvesTo ch n (moves env p c) msgs
              (
                Bloom.set env.bloom b c.message_id,
                (deliver env c (record ch { bloom = b; local_history = h })).local_history,
                ap (deliver env c) same,
                length-trim _ _,
                omega arith,
              )
              (omega arith))
      ]

  -- `resolve_buffered` changes the filter, the history and the incoming buffer, and nothing else;
  -- the history stays within its limit and the buffer does not grow.
  pub resolve_buffered_frame :
      (ch : MessageChannel F)
      → length ch.local_history ≤ history_limit ch.config
      → (b : SdsBloomFilter F) × (h : List HistoryEntry) × (r : List SdsMessage)
        × ((resolve_buffered env ch).1
            ≡ record ch { bloom = b; local_history = h; incoming_buffer = r })
        × (length h ≤ history_limit ch.config)
        × (length r ≤ length ch.incoming_buffer)
  unfolding resolve_buffered
  resolve_buffered_frame ch short =
      let n = length ch.incoming_buffer in
      let (b, h, same, short', fits) =
        resolve_loop_keeps env (λ p. ResolvesTo ch n p.channel p.remaining)
          (λ p r.
            resolve_pass-ResolvesTo ch n (restart env p) p.remaining
              (r.0, r.1, r.2, r.3, omega arith) (omega (arith, r.4)))
          (suc n) (resolve_start env ch) (ch.bloom, ch.local_history, refl, short, omega arith) in
      let p = resolve_loop env (suc n) (resolve_start env ch) in
      (
        b,
        h,
        p.remaining,
        ap (λ (c : MessageChannel F). record c { incoming_buffer = p.remaining }) same,
        short',
        fits,
      )

  resolve_buffered-InBounds :
      (ch : MessageChannel F) → InBounds ch → InBounds (resolve_buffered env ch).1
  resolve_buffered-InBounds ch v =
      let (b, h, r, e, short, fits) = resolve_buffered_frame ch v.history in
      rw e (record {
        history = short;
        outgoing = v.outgoing;
        incoming = omega (arith, v.incoming);
        acks = v.acks;
      })

  record_in_history-InBounds :
      (id : String) (ts : ℕ) (ch : MessageChannel F)
      → InBounds ch
      → InBounds (record_in_history id ts ch)
  unfolding record_in_history
  record_in_history-InBounds id ts ch v = record {
    history = length-trim _ _;
    outgoing = v.outgoing;
    incoming = v.incoming;
    acks = v.acks;
  }

  buffer_incoming-InBounds :
      (m : SdsMessage) (ch : MessageChannel F) → InBounds ch → InBounds (buffer_incoming m ch)
  buffer_incoming-InBounds m ch v = record {
    history = v.history;
    outgoing = v.outgoing;
    incoming = length-push_capped incoming_buffer_max m ch.incoming_buffer (omega arith) v.incoming;
    acks = v.acks;
  }

  accept-InBounds :
      (msg : SdsMessage) (ch : MessageChannel F) → InBounds ch → InBounds (accept env msg ch).1
  unfolding accept update_timestamp
  accept-InBounds (content_message c) ch v =
      let updated = update_timestamp c.lamport_timestamp ch in
      let w : InBounds updated = record {
        history = v.history;
        outgoing = v.outgoing;
        incoming = v.incoming;
        acks = v.acks;
      } in
      elim (Bool-cases (dependencies_satisfied env ch.bloom c.causal_history)) [
        | inl ready ↦
            rw (ready, accept)
              (resolve_buffered-InBounds (deliver env c updated) (
                record_in_history-InBounds c.message_id c.lamport_timestamp
                  (mark_seen env c.message_id updated)
                  (record {
                    history = v.history;
                    outgoing = v.outgoing;
                    incoming = v.incoming;
                    acks = v.acks;
                  })))
        | inr waits ↦
            rw (waits, accept)
              (resolve_buffered-InBounds (buffer_incoming (content_message c) updated)
                (buffer_incoming-InBounds (content_message c) updated w))
      ]
  accept-InBounds (sync_message s) ch v =
      resolve_buffered-InBounds
        (update_timestamp s.lamport_timestamp (mark_seen env s.message_id ch))
        (record {
          history = v.history;
          outgoing = v.outgoing;
          incoming = v.incoming;
          acks = v.acks;
        })
  accept-InBounds (ephemeral_message e) ch v = record {
    history = v.history;
    outgoing = v.outgoing;
    incoming = v.incoming;
    acks = v.acks;
  }

  check_outgoing_acks-InBounds :
      (bytes : Bytes) (ch : MessageChannel F)
      → InBounds ch
      → InBounds (check_outgoing_acks env bytes ch)
  unfolding check_outgoing_acks
  check_outgoing_acks-InBounds bytes ch v = elim (Option-cases (Bloom.from_bytes env.bloom bytes)) [
    | inl e ↦ rw (e, check_outgoing_acks) v
    | inr (remote, e) ↦
        rw (e, check_outgoing_acks)
          (ground (
            arith,
            v,
            length-retain_unacked (Bloom.probably_contains env.bloom remote)
                ch.config.possible_acks_threshold ch.outgoing_buffer ch.possible_acks,
          ))
  ]

  detect_acks-InBounds :
      (msg : SdsMessage) (ch : MessageChannel F) → InBounds ch → InBounds (detect_acks env msg ch)
  detect_acks-InBounds msg ch v = elim (Option-cases (bloom_filter_bytes msg)) [
    | inl e ↦ rw (e, detect_acks) v
    | inr (bytes, e) ↦ rw (e, detect_acks) (check_outgoing_acks-InBounds bytes ch v)
  ]

  -- Whatever bytes arrive, parsed or not, duplicate or not, a channel within its ceilings is
  -- within them afterwards.
  pub receive-InBounds :
      (raw : Bytes) (ch : MessageChannel F) → InBounds ch → InBounds (receive env raw ch).1
  unfolding receive receive_message
  receive-InBounds raw ch v = elim (Option-cases (env.decode raw)) [
    | inl e ↦ rw (e, receive) v
    | inr (msg, e) ↦ elim (Bool-cases (is_duplicate env (message_id msg) ch)) [
      | inl old ↦ rw (e, receive) (rw (old, receive_message) v)
      | inr new ↦
          rw (e, receive)
            (rw (new, receive_message)
              (accept-InBounds msg (detect_acks env msg ch) (detect_acks-InBounds msg ch v)))
    ]
  ]
