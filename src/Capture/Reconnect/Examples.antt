-- ===== src/Capture/Reconnect/Examples.antt =====
-- The default reconnect configuration: tests, and the theorems on delays applied.
use computer_vision.Common.{◌≡◌, refl, arith}
use computer_vision.Errors.{ok}
use computer_vision.Capture.Reconnect.{ReconnectConfig, IsConfig, float_pow, next_delay_ms}
use computer_vision.Capture.Reconnect.Delays.{at_attempt}

abbrev defaults : ReconnectConfig
defaults = record {
  initial_delay_ms = 500;
  maximum_delay_ms = 30000;
  multiplier = 2;
  read_timeout_ms = 2000;
}

defaults-IsConfig : IsConfig defaults
defaults-IsConfig = omega arith

second_delay : next_delay_ms (at_attempt defaults 1) ≡ (at_attempt defaults 2, ok 1000)
unfolding next_delay_ms float_pow
second_delay = refl

late_delay : next_delay_ms (at_attempt defaults 1023) ≡ (at_attempt defaults 1024, ok 30000)
unfolding next_delay_ms float_pow
late_delay = refl
