-- ===== src/Capture/Worker/Examples.antt =====
-- A capture process on a small slot: a run, and the theorems of this folder applied.
use computer_vision.Common.{◌≡◌, refl, true, false, none, List, [], ◌∷◌, arith}
use computer_vision.Errors.{Error}
use computer_vision.Capture.LatestFrame.{LatestFrameBuffer, zeros, publish, read_latest}
use computer_vision.Capture.Health.{CameraState, new_health}
use computer_vision.Capture.Reconnect.{ReconnectConfig, next_delay_ms, float_pow}
use computer_vision.Capture.Worker.{
  opening, crashed, Worker, Shot, Event, open_failed, opened, read_ok, consume, step, run, start,
}
use computer_vision.Capture.Worker.Counters.{IsCounted, run-IsCounted}
use computer_vision.Capture.Worker.Ends.{failing, run-failing}

abbrev slot : LatestFrameBuffer
slot = record {
  camera_id = "gate";
  max_width = 4;
  max_height = 2;
  cells = zeros 24;
  sequence = 0;
  consumed_sequence = 0;
  unix_ns = 0;
  monotonic_ns = 0;
  height = 0;
  width = 0;
  dropped = 0;
  stale = 0;
}

abbrev config : ReconnectConfig
config = record {
  initial_delay_ms = 500;
  maximum_delay_ms = 30000;
  multiplier = 2;
  read_timeout_ms = 2000;
}

abbrev fresh : Worker
fresh = record {
  resolution = (1, 1);
  buffer = slot;
  health = record new_health { state = CameraState.starting };
  policy = record { config = config; attempts = 0 };
  phase = opening;
}

start-fresh : start (1, 1) slot new_health config ≡ fresh
unfolding start
start-fresh = refl

abbrev shot : Shot
shot = record {
  frame = record { is_uint8 = true; shape = 1 ∷ 1 ∷ 3 ∷ []; bytes = 7 ∷ 8 ∷ 9 ∷ [] };
  stamps = record { unix = none; monotonic = none; time_ns = 70; monotonic_ns = 60 };
  measured = 65;
  success_mono = 66;
  success_unix = 76;
  window_restart = 67;
}

abbrev wide : Shot
wide = record shot { frame = record { is_uint8 = true; shape = 1 ∷ 9 ∷ 3 ∷ []; bytes = [] } }

abbrev events : List Event
events =
    open_failed
    ∷ opened 50
    ∷ read_ok shot false
    ∷ read_ok shot false
    ∷ consume 0 500 80
    ∷ read_ok wide false
    ∷ []

run-events :
    ((run fresh events).health.captured ≡ 2)
    × ((run fresh events).health.dropped ≡ 1)
    × ((run fresh events).health.failures ≡ 2)
    × ((run fresh events).health.reconnects ≡ 2)
    × ((run fresh events).phase ≡ opening)
unfolding run step publish read_latest next_delay_ms float_pow
run-events = (refl, refl, refl, refl, refl)

fresh-IsCounted : IsCounted fresh
fresh-IsCounted = record { captured = refl; dropped = refl; in_word = omega arith; phase_fits = tt }

run-IsCounted_example : IsCounted (run fresh events)
run-IsCounted_example = run-IsCounted fresh events fresh-IsCounted

run-failing_example : (run fresh (failing 1025)).phase ≡ crashed Error.overflow_error
run-failing_example = run-failing fresh 1025 refl refl refl
