-- ===== src/Retry/Delay.antt =====
-- The delays of core/src/retry.rs and of `compute_delay` in node/src/retry.rs.
use native.Mathlib.Nat.{pow-suc, mul-le-mul_left}
use lmao.Prelude.{
  ℕ, zero, suc, ◌*◌, ◌/◌, ◌^◌, ◌≤◌, ◌<◌, ◌≡◌, false, arith, min, Bool-cases, inl, inr,
}
use lmao.Retry.{RetryConfig, delay_ms, compute_delay}

pow_two_pos : (b : ℕ) → 1 ≤ 2 ^ b
pow_two_pos zero = omega arith
pow_two_pos (suc b) = omega (arith, pow_two_pos b, pow-suc 2 b)

pow_two_mono : (a b : ℕ) → a ≤ b → 2 ^ a ≤ 2 ^ b
pow_two_mono zero b h = omega (arith, pow_two_pos b)
pow_two_mono (suc a) zero h = absurd (omega arith)
pow_two_mono (suc a) (suc b) h =
    omega (arith, pow_two_mono a b (omega arith), pow-suc 2 a, pow-suc 2 b)

-- Up to attempt 31 the delay is the documented `min(base * 2^n, max)`, for a 64-bit maximum.
pub delay_ms-doc :
    (config : RetryConfig) (n : ℕ)
    → n ≤ 31
    → config.max_delay_ms < 2 ^ 64
    → delay_ms config n ≡ min (config.base_delay_ms * 2 ^ n) config.max_delay_ms
unfolding delay_ms
delay_ms-doc config n small word = let same : min n 31 ≡ n = omega arith in rw same (omega arith)

-- From attempt 32 on the wait is below the documented `min(base * 2^n, max)`, for a base that is
-- not 0 and a maximum above `base * 2^31`.
pub delay_ms-below_doc :
    (config : RetryConfig) (n : ℕ)
    → 32 ≤ n
    → 0 < config.base_delay_ms
    → config.base_delay_ms * 2 ^ 31 < config.max_delay_ms
    → delay_ms config n < min (config.base_delay_ms * 2 ^ n) config.max_delay_ms
unfolding delay_ms
delay_ms-below_doc config n large pos room =
    let last : min n 31 ≡ 31 = omega arith in
    rw last (omega (arith, mul-le-mul_left config.base_delay_ms (pow_two_mono 32 n large)))

-- Delays never fall from one attempt to a later one, and never pass the maximum.
delay_ms_mono :
    (config : RetryConfig) (m n : ℕ)
    → m ≤ n
    → (delay_ms config m ≤ delay_ms config n) × (delay_ms config n ≤ config.max_delay_ms)
unfolding delay_ms
delay_ms_mono config m n h = (
  omega (
    arith,
    mul-le-mul_left config.base_delay_ms (pow_two_mono (min m 31) (min n 31) (omega arith)),
  ),
  omega arith,
)

-- For a 64-bit maximum: with jitter the wait lies between half the delay and the delay, for every
-- number that the generator may draw; without, it is the delay.
compute_delay_bounds :
    (config : RetryConfig) (n r : ℕ)
    → config.max_delay_ms < 2 ^ 64
    → r ≤ delay_ms config n
    → (compute_delay config n r ≤ delay_ms config n)
      × (delay_ms config n / 2 ≤ compute_delay config n r)
      × (config.jitter ≡ false → compute_delay config n r ≡ delay_ms config n)
unfolding compute_delay delay_ms
compute_delay_bounds config n r word h =
    let top = (delay_ms_mono config n n (omega arith)).1 in
    elim (Bool-cases config.jitter) [
      | inl on ↦ rw (on, compute_delay) (omega arith, omega arith, λ off. cc)
      | inr off ↦ rw (off, compute_delay) (omega arith, omega arith, λ _. omega arith)
    ]
