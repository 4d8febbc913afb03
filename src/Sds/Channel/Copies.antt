-- ===== src/Sds/Channel/Copies.antt =====
-- A message that has to wait, received twice in channel.rs: the filter does not know it yet, so
-- both copies are buffered, and both are delivered when its dependencies arrive.
use lmao.Prelude.{
  ◌+◌, ◌<◌, String, ◌≡◌, refl, sym, ap, ◌∙◌, true, false, some, List, [], ◌∷◌, ◌++◌, arith, length,
  All, lt→leb, inl, inr,
}
use lmao.Sds.Message.{Bytes, HistoryEntry, ContentMessage, SdsMessage, content_message}
use lmao.Sds.Bloom
use lmao.Sds.Bloom.{BloomLaws, SdsBloomFilter}
use lmao.Sds.Bloom.Laws.{check-set_room, set_room-count}
use lmao.Sds.State.{
  MessageChannel, Env, record_in_history, update_timestamp, buffer_incoming, push_capped,
  incoming_buffer_max,
}
use lmao.Sds.Channel.{
  Pass, resolve_pass, resolve_loop, resolve_start, dependencies_satisfied, resolve_buffered,
  deliver, accept, receive, is_duplicate,
}
use lmao.Sds.Channel.Resolve.{
  IsBlocked, IsBlocked-not_ready, moves, restart, resolve_pass-nil, resolve_pass_cases,
  resolve_loop_more, resolve_loop_last, resolve_buffered_blocked,
}
use lmao.Sds.Channel.Receive.{receive_new, detect_acks_frame}

content-injective : {c d : ContentMessage} → content_message c ≡ content_message d → c ≡ d
content-injective e = cc

module _ {F : Type 0} (env : Env F) where
  All-IsBlocked-snoc :
      (b : SdsBloomFilter F) (msgs : List SdsMessage) (m : SdsMessage)
      → All (IsBlocked env b) msgs
      → IsBlocked env b m
      → All (IsBlocked env b) (msgs ++ m ∷ [])
  All-IsBlocked-snoc b [] m h k = (k, tt)
  All-IsBlocked-snoc b (x ∷ msgs) m h k = (h.0, All-IsBlocked-snoc b msgs m h.1 k)

  push_room :
      (msgs : List SdsMessage) (m : SdsMessage)
      → length msgs < 256
      → push_capped incoming_buffer_max m msgs ≡ msgs ++ m ∷ []
  push_room msgs m h = rw (lt→leb 256 (length msgs) h)

  accept_blocked :
      (c : ContentMessage) (ch : MessageChannel F)
      → dependencies_satisfied env ch.bloom c.causal_history ≡ false
      → All (IsBlocked env ch.bloom) ch.incoming_buffer
      → length ch.incoming_buffer < 256
      → ((accept env (content_message c) ch).0 ≡ [])
        × ((accept env (content_message c) ch).1.incoming_buffer
            ≡ ch.incoming_buffer ++ content_message c ∷ [])
        × ((accept env (content_message c) ch).1.bloom ≡ ch.bloom)
  unfolding accept update_timestamp
  accept_blocked c ch waits rest room =
      let push = push_room ch.incoming_buffer (content_message c) room in
      let ch' = buffer_incoming (content_message c) (update_timestamp c.lamport_timestamp ch) in
      let still =
        resolve_buffered_blocked env ch' (
          rw push
            (All-IsBlocked-snoc ch.bloom ch.incoming_buffer (content_message c) rest waits)) in
      rw (waits, accept) (rw still (refl, push, refl))

  -- What `receive` does with a message that has to wait, when nothing of the buffer can go.
  receive_blocked :
      (raw : Bytes) (c : ContentMessage) (ch : MessageChannel F)
      → env.decode raw ≡ some (content_message c)
      → is_duplicate env c.message_id ch ≡ false
      → dependencies_satisfied env ch.bloom c.causal_history ≡ false
      → All (IsBlocked env ch.bloom) ch.incoming_buffer
      → length ch.incoming_buffer < 256
      → ((receive env raw ch).0 ≡ [])
        × ((receive env raw ch).1.incoming_buffer ≡ ch.incoming_buffer ++ content_message c ∷ [])
        × ((receive env raw ch).1.bloom ≡ ch.bloom)
  receive_blocked raw c ch parses new waits rest room =
      let (out, acks, e) = detect_acks_frame env (content_message c) ch in
      rw (receive_new env raw (content_message c) ch parses new, e)
        (accept_blocked c (record ch { outgoing_buffer = out; possible_acks = acks }) waits rest
          room)

  resolve_pass_ready :
      (p : Pass F) (c : ContentMessage) (msgs : List SdsMessage)
      → dependencies_satisfied env p.channel.bloom c.causal_history ≡ true
      → resolve_pass env p (content_message c ∷ msgs) ≡ resolve_pass env (moves env p c) msgs
  resolve_pass_ready p c msgs ready = elim (resolve_pass_cases env p (content_message c) msgs) [
    | inl (_, waits) ↦
        absurd (IsBlocked-not_ready env p.channel.bloom c (content_message c) refl waits ready)
    | inr (d, same, _, e) ↦
        e ∙ ap (λ m. resolve_pass env (moves env p m) msgs) (sym (content-injective same))
  ]

  module _ (laws : BloomLaws env.bloom) where
    dependencies_satisfied-set :
        (b : SdsBloomFilter F) (x : String) (history : List HistoryEntry)
        → b.item_count + 1 < b.capacity
        → dependencies_satisfied env b history ≡ true
        → dependencies_satisfied env (Bloom.set env.bloom b x) history ≡ true
    unfolding dependencies_satisfied
    dependencies_satisfied-set b x [] room h = refl
    dependencies_satisfied-set b x (e ∷ es) room h = ground (
      arith,
      (check-set_room env.bloom laws b e.message_id x room).1,
      dependencies_satisfied-set b x es room,
    )

    abbrev holding_two : ContentMessage → MessageChannel F → MessageChannel F
    holding_two c ch = record ch { incoming_buffer = content_message c ∷ content_message c ∷ [] }

    -- Two copies in the buffer, their dependencies in the filter: both are delivered.
    resolve_two :
        (c : ContentMessage) (ch : MessageChannel F)
        → dependencies_satisfied env ch.bloom c.causal_history ≡ true
        → ch.bloom.item_count + 1 < ch.bloom.capacity
        → (resolve_buffered env (holding_two c ch)).0 ≡ c ∷ c ∷ []
    unfolding resolve_buffered record_in_history
    resolve_two c ch ready room =
        let p = resolve_start env (holding_two c ch) in
        let p1 = moves env (restart env p) c in
        let p2 = moves env p1 c in
        let again = dependencies_satisfied-set ch.bloom c.message_id c.causal_history room ready in
        let round : resolve_pass env (restart env p) p.remaining ≡ p2 =
          resolve_pass_ready (restart env p) c (content_message c ∷ []) ready
          ∙ (resolve_pass_ready p1 c [] again ∙ resolve_pass-nil env p2) in
        let idle : resolve_pass env (restart env p2) [] ≡ restart env p2 =
          resolve_pass-nil env (restart env p2) in
        ap (λ (q : Pass F). q.delivered)
          (resolve_loop_more env 2 p (ap (λ (q : Pass F). q.made_progress) round)
            ∙ (ap (resolve_loop env 2) round
                ∙ (resolve_loop_last env 1 p2 (ap (λ (q : Pass F). q.made_progress) idle) ∙ idle)))

    accept_two :
        (c m : ContentMessage) (ch : MessageChannel F)
        → ch.incoming_buffer ≡ content_message c ∷ content_message c ∷ []
        → dependencies_satisfied env ch.bloom m.causal_history ≡ true
        → dependencies_satisfied env (Bloom.set env.bloom ch.bloom m.message_id) c.causal_history
          ≡ true
        → ch.bloom.item_count + 2 < ch.bloom.capacity
        → (accept env (content_message m) ch).0 ≡ m ∷ c ∷ c ∷ []
    unfolding accept update_timestamp record_in_history
    accept_two c m ch holds ready unblocks room =
        let (count, cap) = set_room-count env.bloom ch.bloom m.message_id (omega arith) in
        let ch' = deliver env m (update_timestamp m.lamport_timestamp ch) in
        let same : ch' ≡ holding_two c ch' = ap (λ b. record ch' { incoming_buffer = b }) holds in
        rw (ready, accept)
          (ap (◌∷◌ m)
            (ap (λ x. (resolve_buffered env x).0) same ∙ resolve_two c ch' unblocks (omega arith)))

    receive_two :
        (raw : Bytes) (c m : ContentMessage) (ch : MessageChannel F)
        → env.decode raw ≡ some (content_message m)
        → is_duplicate env m.message_id ch ≡ false
        → ch.incoming_buffer ≡ content_message c ∷ content_message c ∷ []
        → dependencies_satisfied env ch.bloom m.causal_history ≡ true
        → dependencies_satisfied env (Bloom.set env.bloom ch.bloom m.message_id) c.causal_history
          ≡ true
        → ch.bloom.item_count + 2 < ch.bloom.capacity
        → (receive env raw ch).0 ≡ m ∷ c ∷ c ∷ []
    receive_two raw c m ch parses new holds ready unblocks room =
        let (out, acks, e) = detect_acks_frame env (content_message m) ch in
        rw (receive_new env raw (content_message m) ch parses new, e)
          (accept_two c m (record ch { outgoing_buffer = out; possible_acks = acks }) holds ready
            unblocks room)

    -- With an empty buffer, filter laws and room in the filter: a new message that waits for one
    -- other message and is received twice is handed to the application twice, once that other
    -- message comes.
    pub receive_copies :
        (raw raw_m : Bytes) (c m : ContentMessage) (ch : MessageChannel F)
        → env.decode raw ≡ some (content_message c)
        → env.decode raw_m ≡ some (content_message m)
        → is_duplicate env c.message_id ch ≡ false
        → is_duplicate env m.message_id ch ≡ false
        → ch.incoming_buffer ≡ []
        → dependencies_satisfied env ch.bloom c.causal_history ≡ false
        → dependencies_satisfied env ch.bloom m.causal_history ≡ true
        → dependencies_satisfied env (Bloom.set env.bloom ch.bloom m.message_id) c.causal_history
          ≡ true
        → ch.bloom.item_count + 2 < ch.bloom.capacity
        → let twice = (receive env raw (receive env raw ch).1).1 in
          (receive env raw_m twice).0 ≡ m ∷ c ∷ c ∷ []
    receive_copies raw raw_m c m ch pc pm new_c new_m empty waits ready unblocks room =
        let (_, held, bloom) =
          receive_blocked raw c ch pc new_c waits (rw empty tt) (rw empty (omega arith)) in
        let once = (receive env raw ch).1 in
        let held_one : once.incoming_buffer ≡ content_message c ∷ [] =
          held ∙ ap (λ b. b ++ content_message c ∷ []) empty in
        let (_, held', bloom') =
          receive_blocked raw c once pc (rw bloom new_c) (rw bloom waits)
            (rw (bloom, held_one) (waits, tt)) (rw held_one (omega arith)) in
        let twice = (receive env raw once).1 in
        let held_two : twice.incoming_buffer ≡ content_message c ∷ content_message c ∷ [] =
          held' ∙ ap (λ b. b ++ content_message c ∷ []) held_one in
        let same : twice.bloom ≡ ch.bloom = bloom' ∙ bloom in
        receive_two raw_m c m twice pm (rw same new_m) held_two (rw same ready) (rw same unblocks)
          (rw same room)
