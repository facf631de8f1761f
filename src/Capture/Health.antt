-- ===== src/Capture/Health.antt =====
-- edge_runtime/capture/camera_health.py and `CameraState` of shared/enums.py: counters that a
-- capture process shares with its supervisor. Each method holds the lock; the clocks are arguments.
use computer_vision.Common.{ℕ, ◌+◌, ◌%◌}
use computer_vision.Capture.LatestFrame.{u64}

pub data CameraState : Type 0 where
  disabled starting running degraded disconnected stopped : CameraState

-- `window_frames / elapsed_window`, or 0.0 where no time has passed.
pub data Fps : Type 0 where
  no_rate : Fps
  rate : (frames elapsed_ns : ℕ) → Fps

pub record CameraHealth : Type 0 where
  pub state : CameraState
  pub captured : ℕ
  pub failures : ℕ
  pub reconnects : ℕ
  pub resolution_mismatches : ℕ
  pub dropped : ℕ
  pub fps : Fps
  pub last_mono : ℕ
  pub last_unix : ℕ
  pub width : ℕ
  pub height : ℕ

abbrev pub new_health : CameraHealth
new_health = record {
  state = CameraState.stopped;
  captured = 0;
  failures = 0;
  reconnects = 0;
  resolution_mismatches = 0;
  dropped = 0;
  fps = no_rate;
  last_mono = 0;
  last_unix = 0;
  width = 0;
  height = 0;
}

unfoldable pub set_state : CameraHealth → CameraState → CameraHealth
set_state h state = record h { state = state }

unfoldable pub record_success : CameraHealth → ℕ → ℕ → Fps → (mono unix : ℕ) → CameraHealth
record_success h width height fps mono unix = record h {
  captured = (h.captured + 1) % u64;
  fps = fps;
  last_mono = mono;
  last_unix = unix;
  width = width;
  height = height;
  state = CameraState.running;
}

unfoldable pub record_failure : CameraHealth → CameraHealth
record_failure h = record h { failures = (h.failures + 1) % u64; state = CameraState.degraded }

unfoldable pub record_reconnect : CameraHealth → CameraHealth
record_reconnect h = record h {
  reconnects = (h.reconnects + 1) % u64;
  state = CameraState.starting;
}

unfoldable pub record_resolution_mismatch : CameraHealth → CameraHealth
record_resolution_mismatch h = record h {
  resolution_mismatches = (h.resolution_mismatches + 1) % u64;
  state = CameraState.degraded;
}

unfoldable pub set_dropped_frames : CameraHealth → ℕ → CameraHealth
set_dropped_frames h count = record h { dropped = count % u64 }

-- The copy that readers get is the record itself.
unfoldable pub snapshot : CameraHealth → CameraHealth
snapshot h = h
