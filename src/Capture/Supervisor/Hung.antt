-- ===== src/Capture/Supervisor/Hung.antt =====
-- A process that was restarted, until it delivers its first frame.
use computer_vision.Common.{ℕ, ◌+◌, ◌%◌, ◌<◌, ◌≡◌, false, List, [], ◌∷◌}
use computer_vision.Capture.LatestFrame.{u64}
use computer_vision.Capture.Health.{CameraState}
use computer_vision.Capture.Supervisor.{CameraRuntime, Answer, is_disconnected, watch_one}

-- A turn of the watchdog: its time, what the processes answer, and the state that the camera's process
-- shows by then.
pub record Turn : Type 0 where
  pub now : ℕ
  pub answer : Answer
  pub shows : CameraState

abbrev pub shown : CameraState → CameraRuntime → CameraRuntime
shown state r = record r { health = record r.health { state = state } }

-- The watchdog on one camera, where the process sets its state before each turn.
abbrev pub watch_run : List Turn → CameraRuntime → CameraRuntime
watch_run [] r = r
watch_run (t ∷ turns) r = watch_run turns (watch_one t.now t.answer (shown t.shows r))

-- At each turn the last frame is too long ago, and the process does not show a lost camera.
abbrev pub AllOverdue : ℕ → List Turn → Type 0
AllOverdue deadline [] = Unit
AllOverdue deadline (t ∷ turns) =
    ((deadline < t.now) × (is_disconnected t.shows ≡ false)) × AllOverdue deadline turns

-- What a restart leaves as it was, and what it counts.
record Restarted (r r' : CameraRuntime) : Type 0 where
  counted : r'.health.reconnects ≡ (r.health.reconnects + 1) % u64
  same_mono : r'.health.last_mono ≡ r.health.last_mono
  same_timeout : r'.worker.read_timeout_ms ≡ r.worker.read_timeout_ms
