-- ===== src/Sds/Channel/Resolve.antt =====
-- `resolve_buffered` of channel.rs: its loop ends, and leaves no message that could be delivered.
use mathlib.Core.List.{append_assoc, append-nil}
use lmao.Prelude.{
  ℕ, zero, suc, ◌+◌, ◌≤◌, ◌<◌, ◌≡◌, refl, sym, ap, ◌∙◌, subst, ◌⊎◌, true, false, List, [], ◌∷◌,
  ◌++◌, arith, Bool-cases, inl, inr, length, length-append, All,
}
use lmao.Sds.Message.{ContentMessage, SdsMessage, content_message, sync_message, ephemeral_message}
use lmao.Sds.Bloom.{SdsBloomFilter}
use lmao.Sds.State.{MessageChannel, Env}
use lmao.Sds.Channel.{
  Pass, dependencies_satisfied, deliver, resolve_step, resolve_pass, resolve_loop, resolve_start,
  resolve_buffered,
}

module _ {F : Type 0} (env : Env F) where
  -- A content message that waits for a dependency; other messages are never delivered from a buffer.
  abbrev pub IsBlocked : SdsBloomFilter F → SdsMessage → Type 0
  IsBlocked b (content_message c) = dependencies_satisfied env b c.causal_history ≡ false
  IsBlocked b (sync_message s) = Unit
  IsBlocked b (ephemeral_message e) = Unit

  pub IsBlocked-not_ready :
      (b : SdsBloomFilter F) (c : ContentMessage) (m : SdsMessage)
      → m ≡ content_message c
      → IsBlocked b m
      → dependencies_satisfied env b c.causal_history ≡ true
      → ⊥
  IsBlocked-not_ready b c m e blocked ready =
      let blocked' : IsBlocked b (content_message c) = subst (IsBlocked b) e blocked in cc

  abbrev pub stays : Pass F → SdsMessage → Pass F
  stays p m = record p { remaining = p.remaining ++ m ∷ [] }

  abbrev pub moves : Pass F → ContentMessage → Pass F
  moves p c = record p {
    channel = deliver env c p.channel;
    delivered = p.delivered ++ c ∷ [];
    made_progress = true;
  }

  -- The body of the loop either delivers a message or leaves it where it was.
  pub resolve_step_cases :
      (p : Pass F) (m : SdsMessage)
      → ((resolve_step env p m ≡ stays p m) × IsBlocked p.channel.bloom m)
        ⊎ ((c : ContentMessage) × (m ≡ content_message c)
            × (dependencies_satisfied env p.channel.bloom c.causal_history ≡ true)
            × (resolve_step env p m ≡ moves p c))
  unfolding resolve_step
  resolve_step_cases p (content_message c) =
      elim (Bool-cases (dependencies_satisfied env p.channel.bloom c.causal_history)) [
        | inl ready ↦ inr (c, refl, ready, rw (ready, resolve_step))
        | inr blocked ↦ inl (rw (blocked, resolve_step), blocked)
      ]
  resolve_step_cases p (sync_message s) = inl (refl, tt)
  resolve_step_cases p (ephemeral_message e) = inl (refl, tt)

  pub resolve_pass-nil : (p : Pass F) → resolve_pass env p [] ≡ p
  unfolding resolve_pass
  resolve_pass-nil p = refl

  -- So a round goes on from one of two states.
  pub resolve_pass_cases :
      (p : Pass F) (m : SdsMessage) (msgs : List SdsMessage)
      → ((resolve_pass env p (m ∷ msgs) ≡ resolve_pass env (stays p m) msgs)
          × IsBlocked p.channel.bloom m)
        ⊎ ((c : ContentMessage) × (m ≡ content_message c)
            × (dependencies_satisfied env p.channel.bloom c.causal_history ≡ true)
            × (resolve_pass env p (m ∷ msgs) ≡ resolve_pass env (moves p c) msgs))
  unfolding resolve_pass
  resolve_pass_cases p m msgs = elim (resolve_step_cases p m) [
    | inl (e, blocked) ↦ inl (ap (λ q. resolve_pass env q msgs) e, blocked)
    | inr (c, is_content, ready, e) ↦
        inr (c, is_content, ready, ap (λ q. resolve_pass env q msgs) e)
  ]

  -- A round that reports no progress has delivered nothing and every message of it is blocked.
  resolve_pass_still :
      (p : Pass F) (msgs : List SdsMessage)
      → (resolve_pass env p msgs).made_progress ≡ false
      → (p.made_progress ≡ false)
        × ((resolve_pass env p msgs).channel ≡ p.channel)
        × ((resolve_pass env p msgs).remaining ≡ p.remaining ++ msgs)
        × All (IsBlocked p.channel.bloom) msgs
  resolve_pass_still p [] h =
      rw (resolve_pass-nil p) (rw (resolve_pass-nil p) at h, refl, sym (append-nil p.remaining), tt)
  resolve_pass_still p (m ∷ msgs) h = elim (resolve_pass_cases p m msgs) [
    | inl (e, blocked) ↦
        let ih = resolve_pass_still (stays p m) msgs (rw e at h) in
        rw e (ih.0, ih.1, ih.2 ∙ append_assoc p.remaining (m ∷ []) msgs, (blocked, ih.3))
    | inr (c, _, _, e) ↦ cc ((resolve_pass_still (moves p c) msgs (rw e at h)).0)
  ]

  -- A round never has more left than it was given, and less if it made its first progress.
  pub resolve_pass-length :
      (p : Pass F) (msgs : List SdsMessage)
      → length (resolve_pass env p msgs).remaining ≤ length p.remaining + length msgs
  resolve_pass-length p [] = rw (resolve_pass-nil p) (omega arith)
  resolve_pass-length p (m ∷ msgs) = elim (resolve_pass_cases p m msgs) [
    | inl (e, _) ↦
        rw e
          (omega (arith, resolve_pass-length (stays p m) msgs, length-append p.remaining (m ∷ [])))
    | inr (c, _, _, e) ↦ rw e (omega (arith, resolve_pass-length (moves p c) msgs))
  ]

  resolve_pass_shrinks :
      (p : Pass F) (msgs : List SdsMessage)
      → p.made_progress ≡ false
      → (resolve_pass env p msgs).made_progress ≡ true
      → length (resolve_pass env p msgs).remaining < length p.remaining + length msgs
  resolve_pass_shrinks p [] none_yet h = cc (resolve_pass-nil p)
  resolve_pass_shrinks p (m ∷ msgs) none_yet h = elim (resolve_pass_cases p m msgs) [
    | inl (e, _) ↦ rw e (
        omega (
          arith,
          resolve_pass_shrinks (stays p m) msgs none_yet (rw e at h),
          length-append p.remaining (m ∷ []),
        ))
    | inr (c, _, _, e) ↦ rw e (omega (arith, resolve_pass-length (moves p c) msgs))
  ]

  abbrev pub restart : Pass F → Pass F
  restart p = record p { remaining = []; made_progress = false }

  pub resolve_loop_more :
      (fuel : ℕ) (p : Pass F)
      → (resolve_pass env (restart p) p.remaining).made_progress ≡ true
      → resolve_loop env (suc fuel) p
        ≡ resolve_loop env fuel (resolve_pass env (restart p) p.remaining)
  unfolding resolve_loop resolve_pass
  resolve_loop_more fuel p more = rw (more, resolve_loop)

  pub resolve_loop_last :
      (fuel : ℕ) (p : Pass F)
      → (resolve_pass env (restart p) p.remaining).made_progress ≡ false
      → resolve_loop env (suc fuel) p ≡ resolve_pass env (restart p) p.remaining
  unfolding resolve_loop resolve_pass
  resolve_loop_last fuel p last = rw (last, resolve_loop)

  -- What each round keeps, the loop keeps.
  pub resolve_loop_keeps :
      (P : Pass F → Type 0)
      → ((p : Pass F) → P p → P (resolve_pass env (restart p) p.remaining))
      → (fuel : ℕ) (p : Pass F) → P p
      → P (resolve_loop env fuel p)
  unfolding resolve_loop
  resolve_loop_keeps P keep zero p h = h
  resolve_loop_keeps P keep (suc fuel) p h =
      elim (Bool-cases (resolve_pass env (restart p) p.remaining).made_progress) [
        | inl more ↦
            subst P (sym (resolve_loop_more fuel p more))
              (resolve_loop_keeps P keep fuel (resolve_pass env (restart p) p.remaining) (keep p h))
        | inr last ↦ subst P (sym (resolve_loop_last fuel p last)) (keep p h)
      ]

  -- With more fuel than messages the loop ends by its test: nothing left can be delivered.
  resolve_loop_ends :
      (fuel : ℕ) (p : Pass F)
      → length p.remaining < fuel
      → All (IsBlocked (resolve_loop env fuel p).channel.bloom) (resolve_loop env fuel p).remaining
  resolve_loop_ends zero p h = elim h [ ]
  resolve_loop_ends (suc fuel) p h =
      elim (Bool-cases (resolve_pass env (restart p) p.remaining).made_progress) [
        | inl more ↦ rw (resolve_loop_more fuel p more) (
            resolve_loop_ends fuel (resolve_pass env (restart p) p.remaining)
              (omega (arith, resolve_pass_shrinks (restart p) p.remaining refl more)))
        | inr last ↦
            let still = resolve_pass_still (restart p) p.remaining last in
            rw (resolve_loop_last fuel p last, still.1, still.2) still.3
      ]

  -- The fuel is enough, and `resolve_buffered` is complete: when it returns, every content message
  -- that is still buffered lacks a dependency in the filter that it leaves behind.
  pub resolve_buffered_complete :
      (ch : MessageChannel F)
      → let ch' = (resolve_buffered env ch).1 in All (IsBlocked ch'.bloom) ch'.incoming_buffer
  unfolding resolve_buffered
  resolve_buffered_complete ch =
      resolve_loop_ends (suc (length ch.incoming_buffer)) (resolve_start env ch) (omega arith)

  resolve_pass_blocked :
      (p : Pass F) (msgs : List SdsMessage)
      → All (IsBlocked p.channel.bloom) msgs
      → resolve_pass env p msgs ≡ record p { remaining = p.remaining ++ msgs }
  resolve_pass_blocked p [] h =
      resolve_pass-nil p ∙ ap (λ r. record p { remaining = r }) (sym (append-nil p.remaining))
  resolve_pass_blocked p (m ∷ msgs) h = elim (resolve_pass_cases p m msgs) [
    | inl (e, _) ↦
        e
        ∙ (resolve_pass_blocked (stays p m) msgs h.1
            ∙ ap (λ r. record p { remaining = r }) (append_assoc p.remaining (m ∷ []) msgs))
    | inr (c, is_content, ready, e) ↦
        absurd (IsBlocked-not_ready p.channel.bloom c m is_content h.0 ready)
  ]

  -- A buffer with nothing to deliver is left as it is.
  pub resolve_buffered_blocked :
      (ch : MessageChannel F)
      → All (IsBlocked ch.bloom) ch.incoming_buffer
      → resolve_buffered env ch ≡ ([], ch)
  unfolding resolve_buffered
  resolve_buffered_blocked ch h =
      let p = resolve_start env ch in
      let still = resolve_pass_blocked (restart p) ch.incoming_buffer h in
      let last =
        resolve_loop_last (length ch.incoming_buffer) p
          (ap (λ (q : Pass F). q.made_progress) still) in
      ap (λ (q : Pass F). (q.delivered, record q.channel { incoming_buffer = q.remaining }))
        (last ∙ still)

  -- So a second call finds nothing to do.
  pub resolve_buffered_twice :
      (ch : MessageChannel F)
      → let ch' = (resolve_buffered env ch).1 in resolve_buffered env ch' ≡ ([], ch')
  resolve_buffered_twice ch = resolve_buffered_blocked _ (resolve_buffered_complete ch)
