-- ===== src/Retry/Attempts.antt =====
-- The retry loop of node/src/retry.rs: which attempt's result comes back, and what it cost.
use lmao.Prelude.{
  ℕ, zero, suc, ◌+◌, ◌-◌, ◌≤◌, ◌<◌, ◌≡◌, refl, ap, Option, none, some, [], ◌∷◌, ◌++◌, arith, lt→ltb,
  ge→ltb, length, length-append,
}
use lmao.Prelude.Result.{Result, ok, err}
use lmao.Retry.{
  RetryConfig, RetryState, Outcome, sent, all_failed, panicked, retry_loop, send_reliable,
  compute_delay, give_up,
}

module _ {S E A : Type 0} (config : RetryConfig) (draw : ℕ → ℕ)
    (send_once : S → Result E A × S) where
  -- `k` sends in a row fail, and lead from `s` to `s'`.
  abbrev pub Fails : ℕ → S → S → Type 0
  Fails zero s s' = s ≡ s'
  Fails (suc k) s s' = (e : E) × ((send_once s).0 ≡ err e) × Fails k (send_once s).1 s'

  abbrev slept_after : ℕ → RetryState S → RetryState S
  slept_after attempt s = record s {
    world = (send_once s.world).1;
    retry_attempts = s.retry_attempts + 1;
    slept = s.slept ++ compute_delay config attempt (draw attempt) ∷ [];
  }

  abbrev loop : ℕ → ℕ → Option E → RetryState S → Outcome E A × RetryState S
  loop = retry_loop config draw send_once

  loop_success :
      (k left attempt : ℕ) (last_err : Option E) (s : RetryState S) (s' : S) (a : A)
      → attempt + left ≡ config.max_attempts
      → k < left
      → Fails k s.world s'
      → (send_once s').0 ≡ ok a
      → let (r, t) = loop left attempt last_err s in
        (r ≡ sent a)
        × (t.world ≡ (send_once s').1)
        × (t.retry_attempts ≡ s.retry_attempts + k)
        × (t.retries_exhausted ≡ s.retries_exhausted)
        × (length t.slept ≡ length s.slept + k)
  unfolding retry_loop
  loop_success k zero attempt last_err s s' a total room fails done = absurd (omega arith)
  loop_success zero (suc left) attempt last_err s s' a total room fails done =
      let done' : (send_once s.world).0 ≡ ok a = rw fails done in
      rw (done', retry_loop) (refl, ap (λ x. (send_once x).1) fails, omega arith, refl, omega arith)
  loop_success (suc k) (suc left) attempt last_err s s' a total room (e, failed, rest) done =
      let next : RetryState S = slept_after attempt s in
      let sleeps = lt→ltb (attempt + 1) config.max_attempts (omega arith) in
      rw (failed, retry_loop)
        (rw sleeps (
          let ih =
            loop_success k left (attempt + 1) (some e) next s' a (omega arith) (omega arith) rest
              done in
          (
            ih.0,
            ih.1,
            omega (arith, ih.2),
            ih.3,
            omega (
              arith,
              ih.4,
              length-append s.slept (compute_delay config attempt (draw attempt) ∷ []),
            ),
          )))

  abbrev Exhausted : ℕ → Option E → RetryState S → S → Outcome E A × RetryState S → Type 0
  Exhausted left last_err s s' (r, t) =
      (left ≡ 0 → r ≡ give_up config draw send_once last_err)
      × (0 < left → (e : E) × (r ≡ all_failed config.max_attempts e))
      × (t.world ≡ s')
      × (t.retry_attempts ≡ s.retry_attempts + left)
      × (t.retries_exhausted ≡ s.retries_exhausted + 1)
      × (length t.slept ≡ length s.slept + (left - 1))

  loop_zero :
      (attempt : ℕ) (last_err : Option E) (s : RetryState S)
      → loop 0 attempt last_err s ≡ (
        give_up config draw send_once last_err,
        record s { retries_exhausted = s.retries_exhausted + 1 },
      )
  unfolding retry_loop
  loop_zero attempt last_err s = refl

  loop_fails :
      (left attempt : ℕ) (last_err : Option E) (s : RetryState S) (e : E)
      → (send_once s.world).0 ≡ err e
      → attempt + 1 < config.max_attempts
      → loop (suc left) attempt last_err s
        ≡ loop left (attempt + 1) (some e) (slept_after attempt s)
  unfolding retry_loop
  loop_fails left attempt last_err s e failed more =
      rw (failed, retry_loop) (rw (lt→ltb (attempt + 1) config.max_attempts more))

  loop_fails_last :
      (attempt : ℕ) (last_err : Option E) (s : RetryState S) (e : E)
      → (send_once s.world).0 ≡ err e
      → config.max_attempts ≤ attempt + 1
      → loop 1 attempt last_err s ≡ (
        all_failed config.max_attempts e,
        record s {
          world = (send_once s.world).1;
          retry_attempts = s.retry_attempts + 1;
          retries_exhausted = s.retries_exhausted + 1;
        },
      )
  unfolding retry_loop
  loop_fails_last attempt last_err s e failed last =
      rw (failed, retry_loop) (rw (ge→ltb (attempt + 1) config.max_attempts last))

  loop-Exhausted :
      (left attempt : ℕ) (last_err : Option E) (s : RetryState S) (s' : S)
      → attempt + left ≡ config.max_attempts
      → Fails left s.world s'
      → Exhausted left last_err s s' (loop left attempt last_err s)
  loop-Exhausted zero attempt last_err s s' total fails =
      rw (loop_zero attempt last_err s)
        (λ _. refl, λ h. absurd (omega arith), fails, omega arith, refl, omega arith)
  loop-Exhausted (suc zero) attempt last_err s s' total (e, failed, rest) =
      rw (loop_fails_last attempt last_err s e failed (omega arith))
        (λ h. absurd (omega arith), λ _. (e, refl), rest, omega arith, refl, omega arith)
  loop-Exhausted (suc (suc left)) attempt last_err s s' total (e, failed, rest) =
      let next : RetryState S = slept_after attempt s in
      let ih = loop-Exhausted (suc left) (attempt + 1) (some e) next s' (omega arith) rest in
      rw (loop_fails (suc left) attempt last_err s e failed (omega arith)) (
        λ h. absurd (omega arith),
        λ _. ih.1 (omega arith),
        ih.2,
        omega (arith, ih.3),
        ih.4,
        omega
            (arith, ih.5, length-append s.slept (compute_delay config attempt (draw attempt) ∷ [])),
      )

  -- If the first `k` sends fail and the next one succeeds, and `k` is below the number of attempts,
  -- its result comes back, after `k` sleeps; `k` failures are counted and no exhaustion.
  send_reliable_success :
      (k : ℕ) (s : RetryState S) (s' : S) (a : A)
      → k < config.max_attempts
      → Fails k s.world s'
      → (send_once s').0 ≡ ok a
      → let (r, t) = send_reliable config draw send_once s in
        (r ≡ sent a)
        × (t.world ≡ (send_once s').1)
        × (t.retry_attempts ≡ s.retry_attempts + k)
        × (t.retries_exhausted ≡ s.retries_exhausted)
        × (length t.slept ≡ length s.slept + k)
  unfolding send_reliable
  send_reliable_success k s s' a room fails done =
      loop_success k config.max_attempts 0 none s s' a (omega arith) room fails done

  -- If every attempt fails, the error names the number of attempts, each failure and one exhaustion
  -- are counted, and there is a sleep between attempts only. With no attempt configured there is no
  -- error to report, and the code panics.
  send_reliable_exhausted :
      (s : RetryState S) (s' : S)
      → Fails config.max_attempts s.world s'
      → let (r, t) = send_reliable config draw send_once s in
        (config.max_attempts ≡ 0 → r ≡ panicked)
        × (0 < config.max_attempts → (e : E) × (r ≡ all_failed config.max_attempts e))
        × (t.world ≡ s')
        × (t.retry_attempts ≡ s.retry_attempts + config.max_attempts)
        × (t.retries_exhausted ≡ s.retries_exhausted + 1)
        × (length t.slept ≡ length s.slept + (config.max_attempts - 1))
  unfolding send_reliable
  send_reliable_exhausted s s' fails =
      loop-Exhausted config.max_attempts 0 none s s' (omega arith) fails
