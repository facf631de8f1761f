-- ===== src/Capture/Supervisor.antt =====
-- `CaptureWorker` of edge_runtime/capture/worker.py, which owns the process of a camera, and
-- `EdgeSupervisor` of edge_runtime/supervisor.py, whose watchdog restarts processes. What the operating
-- system answers is an argument: the clock, and whether a process has ended after it was told to, and
-- after it was terminated otherwise. A process that is started is alive then. The waiting of the
-- watchdog's thread is left out: a turn of its loop is `watch`.
pub mod Watching
pub mod Hung
mod Examples
use mathlib.Core.Bool.{◌&&◌, ◌||◌}
use computer_vision.Common.{
  ℕ, ◌+◌, ◌*◌, String, Bool, true, false, not, List, [], ◌∷◌, eqb, ltb, Dict, if◌then◌else◌,
}
use computer_vision.Capture.Health.{
  CameraState, CameraHealth, new_health, set_state, record_reconnect, snapshot,
}

pub record CaptureWorker : Type 0 where
  pub read_timeout_ms : ℕ
  pub has_process : Bool
  pub process_alive : Bool
  pub stop_requested : Bool
  pub started_monotonic_ns : ℕ

pub record CameraRuntime : Type 0 where
  pub worker : CaptureWorker
  pub health : CameraHealth

-- `CaptureWorker(...)`
abbrev pub new_worker : ℕ → CaptureWorker
new_worker read_timeout_ms = record {
  read_timeout_ms = read_timeout_ms;
  has_process = false;
  process_alive = false;
  stop_requested = false;
  started_monotonic_ns = 0;
}

abbrev pub is_alive : CaptureWorker → Bool
is_alive w = w.has_process && w.process_alive

unfoldable pub start_worker : ℕ → CaptureWorker → CaptureWorker
start_worker now w = if is_alive w then w else record w {
  stop_requested = false;
  has_process = true;
  process_alive = true;
  started_monotonic_ns = now;
}

-- What the operating system answers while one camera is watched.
pub record Answer : Type 0 where
  pub ended : Bool
  pub started_at : ℕ

-- `stop`, after which the process has ended or not.
unfoldable pub stop_worker : Bool → CameraRuntime → CameraRuntime
stop_worker ended r = if not r.worker.has_process then r else record {
  worker = record (r.worker) {
    stop_requested = true;
    process_alive = r.worker.process_alive && not ended;
  };
  health = set_state r.health CameraState.stopped;
}

unfoldable pub restart_worker : Answer → CameraRuntime → CameraRuntime
restart_worker a r =
    let stopped = stop_worker a.ended r in
    record {
      worker = start_worker a.started_at stopped.worker;
      health = record_reconnect stopped.health;
    }

abbrev pub is_disconnected : CameraState → Bool
is_disconnected CameraState.disconnected = true
is_disconnected CameraState.disabled = false
is_disconnected CameraState.starting = false
is_disconnected CameraState.running = false
is_disconnected CameraState.degraded = false
is_disconnected CameraState.stopped = false

-- `snapshot.last_success_monotonic_ns or worker.started_monotonic_ns`
abbrev pub reference_ns : CameraRuntime → ℕ
reference_ns r =
    if eqb r.health.last_mono 0 then r.worker.started_monotonic_ns else r.health.last_mono

abbrev pub timeout_ns : CaptureWorker → ℕ
timeout_ns w = w.read_timeout_ms * 1000000

-- `reference_ns and now_ns - reference_ns > timeout_ns`
abbrev pub is_late : ℕ → CameraRuntime → Bool
is_late now r = not (eqb (reference_ns r) 0) && ltb (reference_ns r + timeout_ns r.worker) now

-- The watchdog on one camera.
unfoldable pub watch_one : ℕ → Answer → CameraRuntime → CameraRuntime
watch_one now a r =
    if not (is_alive r.worker)
    then restart_worker a r
    else if is_disconnected (snapshot r.health).state
    then r
    else if is_late now r
    then restart_worker a r
    else r

-- One turn of `_watchdog_loop` over the cameras.
unfoldable pub watch : ℕ → (String → Answer) → Dict String CameraRuntime → Dict String CameraRuntime
watch now answers [] = []
watch now answers (entry ∷ cameras) =
    (entry.0, watch_one now (answers entry.0) entry.1) ∷ watch now answers cameras

-- `start` and `stop` of the supervisor, on its cameras.
unfoldable pub start_all : (String → Answer) → Dict String CameraRuntime → Dict String CameraRuntime
start_all answers [] = []
start_all answers (entry ∷ cameras) =
    (
      entry.0,
      record (entry.1) { worker = start_worker (answers entry.0).started_at entry.1.worker },
    )
    ∷ start_all answers cameras

unfoldable pub stop_all : (String → Answer) → Dict String CameraRuntime → Dict String CameraRuntime
stop_all answers [] = []
stop_all answers (entry ∷ cameras) =
    (entry.0, stop_worker (answers entry.0).ended entry.1) ∷ stop_all answers cameras

-- The part of a camera's configuration that the supervisor reads.
pub record CameraConfig : Type 0 where
  pub camera_id : String
  pub enabled : Bool
  pub timeout_ms : ℕ

-- `EdgeSupervisor.__init__`: a runtime to each enabled camera; the configuration has no camera twice.
unfoldable pub make_cameras : List CameraConfig → Dict String CameraRuntime
make_cameras [] = []
make_cameras (c ∷ cs) =
    let rest = make_cameras cs in
    if c.enabled
    then (c.camera_id, record { worker = new_worker c.timeout_ms; health = new_health }) ∷ rest
    else rest
