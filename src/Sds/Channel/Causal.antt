-- ===== src/Sds/Channel/Causal.antt =====
-- `receive` of channel.rs against causal delivery: what is handed over, in which order, and what
-- becomes of the buffer.
use mathlib.Core.List.{append_assoc, append-nil, map-append, perm_middle, perm_append_singleton}
use mathlib.Core.List.Perm
use lmao.Prelude.{suc, ◌≡◌, refl, true, List, [], ◌∷◌, ◌++◌, map, inl, inr, length, Perm}
use lmao.Sds.Message.{ContentMessage, SdsMessage, content_message}
use lmao.Sds.Bloom
use lmao.Sds.Bloom.{SdsBloomFilter}
use lmao.Sds.State.{MessageChannel, Env, record_in_history}
use lmao.Sds.Channel.{
  Pass, dependencies_satisfied, deliver, resolve_pass, resolve_start, resolve_buffered,
}
use lmao.Sds.Channel.Resolve.{
  stays, moves, restart, resolve_pass-nil, resolve_pass_cases, resolve_loop_keeps,
}

module _ {F : Type 0} (env : Env F) where
  -- From filter `b` to filter `b'` the messages are delivered in this order: each has all its
  -- dependencies in the filter of that moment, and is then added to it.
  abbrev pub CausalRun : SdsBloomFilter F → List ContentMessage → SdsBloomFilter F → Type 0
  CausalRun b [] b' = b ≡ b'
  CausalRun b (c ∷ cs) b' =
      (dependencies_satisfied env b c.causal_history ≡ true)
      × CausalRun (Bloom.set env.bloom b c.message_id) cs b'

  CausalRun-snoc :
      (b : SdsBloomFilter F) (cs : List ContentMessage) (b' : SdsBloomFilter F) (c : ContentMessage)
      → CausalRun b cs b'
      → dependencies_satisfied env b' c.causal_history ≡ true
      → CausalRun b (cs ++ c ∷ []) (Bloom.set env.bloom b' c.message_id)
  CausalRun-snoc b [] b' c r ready = rw r (ready, refl)
  CausalRun-snoc b (x ∷ cs) b' c r ready =
      (r.0, CausalRun-snoc (Bloom.set env.bloom b x.message_id) cs b' c r.1 ready)

  deliver-bloom :
      (c : ContentMessage) (ch : MessageChannel F)
      → (deliver env c ch).bloom ≡ Bloom.set env.bloom ch.bloom c.message_id
  unfolding record_in_history
  deliver-bloom c ch = refl

  -- `p` has come from filter `b` by a causal run, and its messages are those of `total`.
  abbrev Follows : SdsBloomFilter F → List SdsMessage → Pass F → Type 0
  Follows b total p =
      CausalRun b p.delivered p.channel.bloom
      × Perm (map content_message p.delivered ++ p.remaining) total

  stays-Follows :
      (b : SdsBloomFilter F) (total : List SdsMessage) (p : Pass F) (m : SdsMessage)
      → Follows b total p
      → Follows b (total ++ m ∷ []) (stays env p m)
  stays-Follows b total p m f = (
    f.0,
    rw (← append_assoc (map content_message p.delivered) p.remaining (m ∷ []))
        (Perm.append f.1 (Perm.refl (m ∷ []))),
  )

  moves-Follows :
      (b : SdsBloomFilter F) (total : List SdsMessage) (p : Pass F) (c : ContentMessage)
      → dependencies_satisfied env p.channel.bloom c.causal_history ≡ true
      → Follows b total p
      → Follows b (total ++ content_message c ∷ []) (moves env p c)
  moves-Follows b total p c ready f = (
    rw (deliver-bloom c p.channel) (CausalRun-snoc b p.delivered p.channel.bloom c f.0 ready),
    rw
        (
          map-append content_message p.delivered (c ∷ []),
          append_assoc (map content_message p.delivered) (content_message c ∷ []) p.remaining,
        )
        (Perm.trans (perm_middle (map content_message p.delivered) p.remaining) (
          Perm.trans (Perm.cons (content_message c) f.1)
            (Perm.symm (perm_append_singleton (content_message c) total)))),
  )

  resolve_pass-Follows :
      (b : SdsBloomFilter F) (total : List SdsMessage) (p : Pass F) (msgs : List SdsMessage)
      → Follows b total p
      → Follows b (total ++ msgs) (resolve_pass env p msgs)
  resolve_pass-Follows b total p [] f = rw (resolve_pass-nil env p, append-nil total) f
  resolve_pass-Follows b total p (m ∷ msgs) f = elim (resolve_pass_cases env p m msgs) [
    | inl (e, _) ↦
        rw (e, ← append_assoc total (m ∷ []) msgs)
          (resolve_pass-Follows b (total ++ m ∷ []) (stays env p m) msgs
            (stays-Follows b total p m f))
    | inr (c, is_content, ready, e) ↦
        rw (e, ← append_assoc total (m ∷ []) msgs, is_content)
          (resolve_pass-Follows b (total ++ content_message c ∷ []) (moves env p c) msgs
            (moves-Follows b total p c ready f))
  ]

  next_round-Follows :
      (b : SdsBloomFilter F) (total : List SdsMessage) (p : Pass F)
      → Follows b total p
      → Follows b total (resolve_pass env (restart env p) p.remaining)
  next_round-Follows b total p f =
      let start = Perm.refl (map content_message p.delivered) in
      let round =
        resolve_pass-Follows b (map content_message p.delivered) (restart env p) p.remaining
          (f.0, rw (append-nil (map content_message p.delivered)) start) in
      (round.0, Perm.trans round.1 f.1)

  -- `resolve_buffered` delivers in causal order, and a message of the buffer is either delivered
  -- or still buffered, as often as it was there: none is lost and none is made up.
  pub resolve_buffered-Follows :
      (ch : MessageChannel F)
      → let (delivered, ch') = resolve_buffered env ch in
        CausalRun ch.bloom delivered ch'.bloom
        × Perm (map content_message delivered ++ ch'.incoming_buffer) ch.incoming_buffer
  unfolding resolve_buffered
  resolve_buffered-Follows ch =
      resolve_loop_keeps env (Follows ch.bloom ch.incoming_buffer)
        (next_round-Follows ch.bloom ch.incoming_buffer) (suc (length ch.incoming_buffer))
        (resolve_start env ch) (refl, Perm.refl ch.incoming_buffer)
