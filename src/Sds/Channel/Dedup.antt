-- ===== src/Sds/Channel/Dedup.antt =====
-- Deduplication in channel.rs: what the filter knows while it has room.
use lmao.Prelude.{
  ◌+◌, ◌<◌, ◌≡◌, refl, ap, ◌∙◌, String, true, some, List, [], ◌∷◌, arith, Bool-cases, inl, inr,
  length,
}
use lmao.Sds.Message.{
  Bytes, ContentMessage, SdsMessage, content_message, sync_message, ephemeral_message, message_id,
}
use lmao.Sds.Bloom
use lmao.Sds.Bloom.{BloomLaws, SdsBloomFilter}
use lmao.Sds.Bloom.Laws.{check-set_room, set_room-count}
use lmao.Sds.State.{MessageChannel, Env, record_in_history, update_timestamp}
use lmao.Sds.Channel.{
  dependencies_satisfied, deliver, accept, receive_message, receive, is_duplicate, mark_seen,
}
use lmao.Sds.Channel.Causal.{CausalRun, resolve_buffered-Follows}
use lmao.Sds.Channel.Receive.{receive_new, detect_acks_frame}

module _ {F : Type 0} (env : Env F) (laws : BloomLaws env.bloom) where
  -- A run that does not fill the filter forgets nothing.
  pub CausalRun-check :
      (b : SdsBloomFilter F) (cs : List ContentMessage) (b' : SdsBloomFilter F) (x : String)
      → CausalRun env b cs b'
      → b.item_count + length cs < b.capacity
      → Bloom.check env.bloom b x ≡ true
      → Bloom.check env.bloom b' x ≡ true
  CausalRun-check b [] b' x r room seen = rw (← r) seen
  CausalRun-check b (c ∷ cs) b' x r room seen =
      let (count, cap) = set_room-count env.bloom b c.message_id (omega arith) in
      CausalRun-check (Bloom.set env.bloom b c.message_id) cs b' x r.1 (omega arith)
        ((check-set_room env.bloom laws b x c.message_id (omega arith)).1 seen)

  -- A message that `receive` is done with: a content message that can be delivered, or one of the
  -- other two kinds.
  abbrev pub IsTaken : SdsBloomFilter F → SdsMessage → Type 0
  IsTaken b (content_message c) = dependencies_satisfied env b c.causal_history ≡ true
  IsTaken b (sync_message s) = Unit
  IsTaken b (ephemeral_message e) = Unit

  -- After an id is added, a run within the filter's room keeps it.
  CausalRun-check_set :
      (b : SdsBloomFilter F) (x : String) (cs : List ContentMessage) (b' : SdsBloomFilter F)
      → CausalRun env (Bloom.set env.bloom b x) cs b'
      → b.item_count + 1 + length cs < b.capacity
      → Bloom.check env.bloom b' x ≡ true
  CausalRun-check_set b x cs b' r room =
      let (count, cap) = set_room-count env.bloom b x (omega arith) in
      CausalRun-check (Bloom.set env.bloom b x) cs b' x r (omega arith)
        (check-set_room env.bloom laws b x x (omega arith)).0

  check-accept :
      (msg : SdsMessage) (ch : MessageChannel F)
      → IsTaken ch.bloom msg
      → ch.bloom.item_count + 1 + length (accept env msg ch).0 < ch.bloom.capacity
      → Bloom.check env.bloom (accept env msg ch).1.bloom (message_id msg) ≡ true
  unfolding accept update_timestamp record_in_history
  check-accept (content_message c) ch taken room =
      let room' = rw (taken, accept) at room in
      let run =
        (resolve_buffered-Follows env
          (deliver env c (update_timestamp c.lamport_timestamp ch))).0 in
      rw (taken, accept) (CausalRun-check_set ch.bloom c.message_id _ _ run (omega arith))
  check-accept (sync_message s) ch taken room =
      CausalRun-check_set ch.bloom s.message_id _ _
        (resolve_buffered-Follows env
          (update_timestamp s.lamport_timestamp (mark_seen env s.message_id ch))).0
        room
  check-accept (ephemeral_message e) ch taken room =
      CausalRun-check_set ch.bloom e.message_id [] _ refl room

  pub receive_duplicate :
      (raw : Bytes) (msg : SdsMessage) (ch : MessageChannel F)
      → env.decode raw ≡ some msg
      → is_duplicate env (message_id msg) ch ≡ true
      → receive env raw ch ≡ ([], ch)
  unfolding receive receive_message
  receive_duplicate raw msg ch parses old = rw (parses, receive) (rw (old, receive_message))

  -- After a message was taken its id is in the filter, if there is room for the deliveries.
  check-receive :
      (raw : Bytes) (msg : SdsMessage) (ch : MessageChannel F)
      → env.decode raw ≡ some msg
      → IsTaken ch.bloom msg
      → ch.bloom.item_count + 1 + length (receive env raw ch).0 < ch.bloom.capacity
      → is_duplicate env (message_id msg) (receive env raw ch).1 ≡ true
  check-receive raw msg ch parses taken room =
      elim (Bool-cases (is_duplicate env (message_id msg) ch)) [
        | inl old ↦ rw (receive_duplicate raw msg ch parses old) old
        | inr new ↦
            let (out, acks, e) = detect_acks_frame env msg ch in
            let e' = receive_new env raw msg ch parses new ∙ ap (accept env msg) e in
            rw e' (
              check-accept msg (record ch { outgoing_buffer = out; possible_acks = acks }) taken
                (rw e' at room))
      ]

  -- A message that parses and was taken is seen: the same bytes again deliver nothing and change
  -- nothing, if what the first time delivers does not fill the filter, whose laws hold.
  pub receive_twice :
      (raw : Bytes) (msg : SdsMessage) (ch : MessageChannel F)
      → env.decode raw ≡ some msg
      → IsTaken ch.bloom msg
      → ch.bloom.item_count + 1 + length (receive env raw ch).0 < ch.bloom.capacity
      → receive env raw (receive env raw ch).1 ≡ ([], (receive env raw ch).1)
  receive_twice raw msg ch parses taken room =
      receive_duplicate raw msg (receive env raw ch).1 parses
        (check-receive raw msg ch parses taken room)
