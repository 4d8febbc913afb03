-- ===== src/Retry.antt =====
-- crates/logos-messaging-a2a-core/src/retry.rs and crates/logos-messaging-a2a-node/src/retry.rs:
-- backoff delays, and the loop that repeats a failed send.
-- The wrapped `send_reliable` is the parameter `send_once` over any state; `draw` is the random
-- number of each attempt; the metrics and the sleeps are recorded in the state.
pub mod Delay
pub mod Attempts
use lmao.Prelude.{
  ℕ, zero, suc, ◌+◌, ◌-◌, ◌*◌, ◌/◌, ◌^◌, Bool, Option, none, some, List, [], ◌∷◌, ◌++◌, min, ltb,
  if◌then◌else◌,
}
use lmao.Prelude.Result.{Result, ok, err}

pub record RetryConfig : Type 0 where
  pub max_attempts : ℕ
  pub base_delay_ms : ℕ
  pub max_delay_ms : ℕ
  pub jitter : Bool

abbrev pub u64_max : ℕ
u64_max = 2 ^ 64 - 1

abbrev pub saturating_mul : ℕ → ℕ → ℕ
saturating_mul a b = min (a * b) u64_max

abbrev pub saturating_add : ℕ → ℕ → ℕ
saturating_add a b = min (a + b) u64_max

unfoldable pub delay_ms : RetryConfig → ℕ → ℕ
delay_ms config attempt =
    min (saturating_mul config.base_delay_ms (2 ^ min attempt 31)) config.max_delay_ms

-- `jitter` is what `fastrand::u64(0..=base)` returns.
unfoldable pub compute_delay : RetryConfig → ℕ → ℕ → ℕ
compute_delay config attempt jitter =
    let base = delay_ms config attempt in
    if config.jitter then saturating_add base jitter / 2 else base

pub record RetryState (S : Type 0) : Type 0 where
  pub world : S
  pub retry_attempts : ℕ
  pub retries_exhausted : ℕ
  pub slept : List ℕ

-- `panicked` is the `unwrap` of a missing error.
pub data Outcome (E A : Type 0) : Type 0 where
  sent : A → Outcome E A
  all_failed : ℕ → E → Outcome E A
  panicked : Outcome E A

module _ {S E A : Type 0} (config : RetryConfig) (draw : ℕ → ℕ)
    (send_once : S → Result E A × S) where
  abbrev give_up : Option E → Outcome E A
  give_up none = panicked
  give_up (some e) = all_failed config.max_attempts e

  -- No sleep after the last attempt.
  abbrev pub after_failure : ℕ → RetryState S → RetryState S
  after_failure attempt s =
      let counted = record s { retry_attempts = s.retry_attempts + 1 } in
      if ltb (attempt + 1) config.max_attempts
      then record counted { slept = s.slept ++ compute_delay config attempt (draw attempt) ∷ [] }
      else counted

  -- `left` attempts are to come, the next one is number `attempt`.
  unfoldable pub retry_loop : ℕ → ℕ → Option E → RetryState S → Outcome E A × RetryState S
  retry_loop zero attempt last_err s =
      (give_up last_err, record s { retries_exhausted = s.retries_exhausted + 1 })
  retry_loop (suc left) attempt last_err s =
      let (r, world) = send_once s.world in
      let s' : RetryState S = record s { world = world } in
      elim r [
        | ok a ↦ (sent a, s')
        | err e ↦ retry_loop left (attempt + 1) (some e) (after_failure attempt s')
      ]

  unfoldable pub send_reliable : RetryState S → Outcome E A × RetryState S
  send_reliable s = retry_loop config.max_attempts 0 none s
