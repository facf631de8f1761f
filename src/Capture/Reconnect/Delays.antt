-- ===== src/Capture/Reconnect/Delays.antt =====
-- The delays between reconnects: their range, their growth, and where they end.
use native.Mathlib.Nat.{pow-le-pow_left, pow-le-pow_right, le_trans, one-le-pow}
use computer_vision.Common.{ℕ, ◌+◌, ◌*◌, ◌^◌, ◌≤◌, ◌≡◌, min, arith}
use computer_vision.Errors.{Error, ok, err}
use computer_vision.Capture.Reconnect.{
  ReconnectConfig, ReconnectPolicy, IsConfig, float_limit, float_pow, next_delay_ms,
}

abbrev pub at_attempt : ReconnectConfig → ℕ → ReconnectPolicy
at_attempt c k = record { config = c; attempts = k }

pow_grows : (m j k : ℕ) → 2 ≤ m → j ≤ k → m ^ j ≤ m ^ k
pow_grows m j k h le = pow-le-pow_right {n = m} (omega arith) le

two-pow-le : (m j k : ℕ) → 2 ≤ m → j ≤ k → 2 ^ j ≤ m ^ k
two-pow-le m j k h le = le_trans (pow-le-pow_right {n = 2} (omega arith) le) (pow-le-pow_left h k)

scaled_mono : (i a b : ℕ) → a ≤ b → i * a ≤ i * b
scaled_mono i a b h = grind arith

-- Successive delays of one configuration never shrink, never pass the configured maximum, and never
-- go below the smaller of the initial delay and the maximum.
pub delays_grow :
    (c : ReconnectConfig) (j k d d' : ℕ)
    → IsConfig c
    → j ≤ k
    → next_delay_ms (at_attempt c j) ≡ (at_attempt c (j + 1), ok d)
    → next_delay_ms (at_attempt c k) ≡ (at_attempt c (k + 1), ok d')
    → (d ≤ d') × (d' ≤ c.maximum_delay_ms) × (min c.maximum_delay_ms c.initial_delay_ms ≤ d)
unfolding next_delay_ms float_pow
delays_grow c j k d d' v le e e' =
    let grows = pow_grows c.multiplier j k v.multiplier_low le in
    let one = one-le-pow j c.multiplier (omega arith) in
    let s = scaled_mono c.initial_delay_ms (c.multiplier ^ j) (c.multiplier ^ k) grows in
    let t = scaled_mono c.initial_delay_ms 1 (c.multiplier ^ j) one in
    (ground arith, ground arith, ground arith)

-- From the twelfth failed attempt on, every delay that is computed is the configured maximum.
pub delay-eq-maximum :
    (c : ReconnectConfig) (k d : ℕ)
    → IsConfig c
    → 12 ≤ k
    → next_delay_ms (at_attempt c k) ≡ (at_attempt c (k + 1), ok d)
    → d ≡ c.maximum_delay_ms
unfolding next_delay_ms float_pow
delay-eq-maximum c k d v le e =
    let big : 4096 ≤ c.multiplier ^ k = two-pow-le c.multiplier 12 k v.multiplier_low le in
    let s = scaled_mono c.initial_delay_ms 4096 (c.multiplier ^ k) big in ground arith

-- From attempt 1024 on no delay is computed: the power of floats overflows, `next_delay_seconds`
-- raises, and the attempts are not counted any more. It is so for every whole multiplier allowed.
pub delay_overflows :
    (c : ReconnectConfig) (k : ℕ)
    → IsConfig c
    → 1024 ≤ k
    → next_delay_ms (at_attempt c k) ≡ (at_attempt c k, err Error.overflow_error)
unfolding next_delay_ms float_pow
delay_overflows c k v le =
    let big : float_limit ≤ c.multiplier ^ k = two-pow-le c.multiplier 1024 k v.multiplier_low le in
    ground arith
