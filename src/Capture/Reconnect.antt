-- ===== src/Capture/Reconnect.antt =====
-- edge_runtime/capture/reconnect_policy.py and `ReconnectConfig` of shared/schemas/camera.py, for
-- whole-number multipliers (the default is 2.0). A power of floats that reaches 2 ^ 1024 raises
-- `OverflowError`. Below that a rounded power differs from the exact one only past 2 ^ 53, where
-- `min` has long chosen the maximum. Delays are in milliseconds.
pub mod Delays
mod Examples
use computer_vision.Common.{ℕ, ◌+◌, ◌*◌, ◌^◌, ◌≤◌, min, leb, if◌then◌else◌}
use computer_vision.Errors.{Error, Result, ok, err}

pub record ReconnectConfig : Type 0 where
  pub initial_delay_ms : ℕ
  pub maximum_delay_ms : ℕ
  pub multiplier : ℕ
  pub read_timeout_ms : ℕ

-- The ranges that pydantic checks.
pub record IsConfig (c : ReconnectConfig) : Type 0 where
  pub initial_low : 100 ≤ c.initial_delay_ms
  pub initial_high : c.initial_delay_ms ≤ 60000
  pub maximum_low : 500 ≤ c.maximum_delay_ms
  pub maximum_high : c.maximum_delay_ms ≤ 300000
  pub multiplier_low : 2 ≤ c.multiplier
  pub multiplier_high : c.multiplier ≤ 10

pub record ReconnectPolicy : Type 0 where
  pub config : ReconnectConfig
  pub attempts : ℕ

abbrev pub float_limit : ℕ
float_limit = 2 ^ 1024

-- `multiplier ** attempts` on a float and an int.
unfoldable pub float_pow : ℕ → ℕ → Result ℕ
float_pow m k = if leb float_limit (m ^ k) then err Error.overflow_error else ok (m ^ k)

unfoldable pub next_delay_ms : ReconnectPolicy → ReconnectPolicy × Result ℕ
next_delay_ms p = elim (float_pow p.config.multiplier p.attempts) [
  | err e ↦ (p, err e)
  | ok factor ↦ (
    record p { attempts = p.attempts + 1 },
    ok (min p.config.maximum_delay_ms (p.config.initial_delay_ms * factor)),
  )
]

unfoldable pub reset : ReconnectPolicy → ReconnectPolicy
reset p = record p { attempts = 0 }
