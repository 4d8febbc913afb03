-- ===== src/Sds/Channel/Acks.antt =====
-- Implicit acknowledgements in channel.rs: which messages `check_outgoing_acks` drops, and how the
-- counters move.
use lmao.Prelude.{
  ℕ, ◌+◌, ◌%◌, ◌^◌, ◌≡◌, ◌≢◌, refl, ap, ◌∙◌, String, Bool, not, ◌&&◌, none, some, List, [], ◌∷◌,
  arith, leb, All, filter, eq_iff,
}
use lmao.Prelude.Dict
use lmao.Prelude.Dict.{Dict, lookup-insert, lookup-remove}
use lmao.Sds.Message.{ContentMessage}
use mathlib.Core.Path.{fun_ext}
use lmao.Sds.Bloom
use lmao.Sds.Bloom.{BloomLaws, SdsBloomFilter}
use lmao.Sds.Bloom.Bytes.{from_bytes-to_bytes}
use lmao.Sds.State.{Env, MessageChannel}
use lmao.Sds.Channel.{count_ack, retain_unacked, check_outgoing_acks}

abbrev pub counter : Dict ℕ → String → ℕ
counter acks id = elim (Dict.lookup id acks) [ none ↦ 0 | some n ↦ n ]

-- The remote filter shows the message, and so did enough filters before it.
abbrev pub is_acked : (String → Bool) → ℕ → Dict ℕ → ContentMessage → Bool
is_acked seen threshold acks m =
    seen m.message_id && leb threshold ((counter acks m.message_id + 1) % 2 ^ 32)

abbrev pub Distinct : List ContentMessage → Type 0
Distinct [] = Unit
Distinct (m ∷ ms) = All (λ x. x.message_id ≢ m.message_id) ms × Distinct ms

module _ (seen : String → Bool) (threshold : ℕ) where
  count_ack_keep :
      (m : ContentMessage) (acks : Dict ℕ)
      → (count_ack seen threshold m acks).0 ≡ not (is_acked seen threshold acks m)
  unfolding count_ack
  count_ack_keep m acks = ground arith

  -- Counting for one id leaves the other counters alone.
  count_ack_other :
      (m : ContentMessage) (acks : Dict ℕ) (id : String)
      → id ≢ m.message_id
      → counter (count_ack seen threshold m acks).1 id ≡ counter acks id
  unfolding count_ack
  count_ack_other m acks id ne =
      let n = (counter acks m.message_id + 1) % 2 ^ 32 in
      ground (
        arith,
        lookup-insert m.message_id id n acks,
        lookup-remove m.message_id id acks,
        eq_iff m.message_id id,
      )

  filter_other :
      (m : ContentMessage) (acks : Dict ℕ) (ms : List ContentMessage)
      → All (λ x. x.message_id ≢ m.message_id) ms
      → filter (λ x. not (is_acked seen threshold (count_ack seen threshold m acks).1 x)) ms
        ≡ filter (λ x. not (is_acked seen threshold acks x)) ms
  filter_other m acks [] h = refl
  filter_other m acks (x ∷ ms) h =
      let same =
        ap (λ n. not (seen x.message_id && leb threshold ((n + 1) % 2 ^ 32)))
          (count_ack_other m acks x.message_id h.0) in
      cc (same, filter_other m acks ms h.1)

  -- With distinct ids the buffer keeps exactly the messages that are not acknowledged by the
  -- filter and the counters before the call, in their order.
  pub retain_unacked-filter :
      (ms : List ContentMessage) (acks : Dict ℕ)
      → Distinct ms
      → (retain_unacked seen threshold ms acks).0
        ≡ filter (λ m. not (is_acked seen threshold acks m)) ms
  unfolding retain_unacked
  retain_unacked-filter [] acks d = refl
  retain_unacked-filter (m ∷ ms) acks d =
      let acks' = (count_ack seen threshold m acks).1 in
      rw (retain_unacked-filter ms acks' d.1, filter_other m acks ms d.0, count_ack_keep m acks)
        refl

-- The filter that a peer attaches to its messages decides which outgoing messages are dropped:
-- those that the peer has seen and that reach the threshold with this sighting. Incoming messages,
-- history, filter and clock stay. The ids of the buffer are distinct and the filter keeps its
-- laws.
pub check_outgoing_acks-peer :
    {F : Type 0} (env : Env F)
    → BloomLaws env.bloom
    → (peer : SdsBloomFilter F) (ch : MessageChannel F) → Distinct ch.outgoing_buffer
    → let ch' = check_outgoing_acks env (Bloom.to_bytes env.bloom peer) ch in
      (ch'.outgoing_buffer
        ≡ filter
            (λ m. not (
              is_acked
                (Bloom.check env.bloom peer)
                ch.config.possible_acks_threshold
                ch.possible_acks
                m))
            ch.outgoing_buffer)
      × (ch'.incoming_buffer ≡ ch.incoming_buffer)
      × (ch'.local_history ≡ ch.local_history)
      × (ch'.bloom ≡ ch.bloom)
      × (ch'.lamport_timestamp ≡ ch.lamport_timestamp)
unfolding check_outgoing_acks
check_outgoing_acks-peer env laws peer ch distinct =
    let (remote, parses, same, _, _) = from_bytes-to_bytes env.bloom laws peer in
    let t = ch.config.possible_acks_threshold in
    let agree : Bloom.check env.bloom remote ≡ Bloom.check env.bloom peer = fun_ext same in
    rw (parses, check_outgoing_acks)
      (
        retain_unacked-filter (Bloom.check env.bloom remote) t ch.outgoing_buffer ch.possible_acks
              distinct
            ∙ ap (λ s. filter (λ m. not (is_acked s t ch.possible_acks m)) ch.outgoing_buffer)
                agree,
        refl,
        refl,
        refl,
        refl,
      )
