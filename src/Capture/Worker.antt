-- ===== src/Capture/Worker.antt =====
-- `_capture_process_main` of edge_runtime/capture/worker.py: the loop of one capture process, as a
-- machine that takes one event from the camera, the clock or the stop flag at a time. `VideoCapture`
-- is not modelled: what it answers is the event. The waits between frames have no effect on the
-- state. `consume` is the scheduler's process, which reads the same slot between the worker's steps.
pub mod Counters
pub mod Ends
mod Examples
use computer_vision.Common.{
  ℕ, ◌+◌, ◌-◌, ◌*◌, Bool, true, false, not, ◌&&◌, Option, none, some, List, [], ◌∷◌, eqb, ltb, leb,
  if◌then◌else◌,
}
use computer_vision.Errors.{Error, Result, ok, err}
use computer_vision.Capture.LatestFrame.{Array, LatestFrameBuffer, Stamps, publish, read_latest}
use computer_vision.Capture.Health.{
  CameraState, CameraHealth, Fps, no_rate, rate, set_state, record_success, record_failure,
  record_reconnect, record_resolution_mismatch, set_dropped_frames,
}
use computer_vision.Capture.Reconnect.{ReconnectConfig, ReconnectPolicy, next_delay_ms, reset}

-- Where the process stands: at the test of the outer loop, at that of the inner loop, or ended.
pub data Phase : Type 0 where
  opening : Phase
  reading : (window_frames window_started : ℕ) → Phase
  returned : Phase
  crashed : Error → Phase

pub record Worker : Type 0 where
  pub resolution : ℕ × ℕ
  pub buffer : LatestFrameBuffer
  pub health : CameraHealth
  pub policy : ReconnectPolicy
  pub phase : Phase

-- A frame that was read, with the times that the loop takes: when it was published, when the window
-- is measured, and when success is recorded.
pub record Shot : Type 0 where
  pub frame : Array
  pub stamps : Stamps
  pub measured : ℕ
  pub success_mono : ℕ
  pub success_unix : ℕ
  pub window_restart : ℕ

-- `stop_set` is what the test behind the inner loop sees of the stop flag.
pub data Event : Type 0 where
  stop : Event
  open_failed : Event
  opened : (now : ℕ) → Event
  read_failed : (stop_set : Bool) → Event
  read_ok : Shot → (stop_set : Bool) → Event
  consume : (after max_age_ms now : ℕ) → Event

-- `health.set_state(DISCONNECTED)`, the wait, and `health.record_reconnect()`; the delay may raise.
unfoldable pub wait_and_reconnect : Worker → Worker
unfolding set_state record_reconnect
wait_and_reconnect w =
    let lost = set_state w.health CameraState.disconnected in
    let (policy, delay) = next_delay_ms w.policy in
    elim delay [
      | err e ↦ record w { health = lost; policy = policy; phase = crashed e }
      | ok _ ↦ record w { health = record_reconnect lost; policy = policy; phase = opening }
    ]

-- The end of the outer loop's body, after a `break` or after the stop flag ended the inner loop.
unfoldable pub leave_inner : Worker → Bool → Worker
unfolding wait_and_reconnect
leave_inner w stop_set = if stop_set then record w { phase = opening } else wait_and_reconnect w

-- `frame.shape[:2]`; fewer than two dimensions raise before the inner `try`.
unfoldable pub height_width : List ℕ → Option (ℕ × ℕ)
height_width (h ∷ w ∷ _) = some (h, w)
height_width _ = none

unfoldable pub window_seconds_ns : ℕ
window_seconds_ns = 2000000000

abbrev same_size : ℕ × ℕ → ℕ × ℕ → Bool
same_size p q = eqb p.0 q.0 && eqb p.1 q.1

-- The rest of the inner loop's body once `publish` has accepted the frame.
unfoldable pub after_publish : Worker → Shot → (h w window_frames window_started : ℕ) → Worker
unfolding record_success record_resolution_mismatch set_dropped_frames window_seconds_ns
after_publish w shot h wd frames started =
    let elapsed = shot.measured - started in
    let fps = if ltb 0 elapsed then rate (frames + 1) elapsed else no_rate in
    let counted = record_success w.health wd h fps shot.success_mono shot.success_unix in
    let checked =
      if same_size (wd, h) w.resolution then counted else record_resolution_mismatch counted in
    record w {
      health = set_dropped_frames checked w.buffer.dropped;
      phase =
          if leb window_seconds_ns elapsed
          then reading 0 shot.window_restart
          else reading (frames + 1) started;
    }

-- The inner `try`: a refused frame ends the inner loop, an accepted one is counted.
unfoldable pub on_published :
    Worker
    → Shot
    → Bool
    → (h w window_frames window_started : ℕ) → LatestFrameBuffer × Result ℕ
    → Worker
unfolding after_publish leave_inner record_failure set_state
on_published w shot stop_set h wd frames started (buffer, err _) =
    leave_inner
      (record w {
        buffer = buffer;
        health = set_state (record_failure w.health) CameraState.degraded;
      })
      stop_set
on_published w shot stop_set h wd frames started (buffer, ok _) =
    after_publish (record w { buffer = buffer }) shot h wd frames started

unfoldable pub handle_frame : Worker → Shot → Bool → (window_frames window_started : ℕ) → Worker
unfolding height_width on_published
handle_frame w shot stop_set frames started = elim (height_width shot.frame.shape) [
  | none ↦ record w { phase = crashed Error.value_error }
  | some (h, wd) ↦
      on_published w shot stop_set h wd frames started (publish w.buffer shot.frame shot.stamps)
]

-- One event. Events that cannot occur where the process stands leave it as it is.
unfoldable pub step : Worker → Phase → Event → Worker
unfolding handle_frame leave_inner wait_and_reconnect record_failure set_state reset
step w phase (consume after max_age now) = record w {
  buffer = (read_latest w.buffer after (some max_age) now).0;
}
step w opening stop = record w { health = set_state w.health CameraState.stopped; phase = returned }
step w opening open_failed = wait_and_reconnect (record w { health = record_failure w.health })
step w opening (opened now) = record w { policy = reset w.policy; phase = reading 0 now }
step w (reading frames started) stop = record w {
  health = set_state w.health CameraState.stopped;
  phase = returned;
}
step w (reading frames started) (read_failed stop_set) =
    leave_inner (record w { health = record_failure w.health }) stop_set
step w (reading frames started) (read_ok shot stop_set) =
    handle_frame w shot stop_set frames started
step w _ _ = w

unfoldable pub run : Worker → List Event → Worker
run w [] = w
run w (e ∷ events) = run (step w w.phase e) events

-- The process as `CaptureWorker.start` starts it: the first state is set before the loop.
unfoldable pub start : ℕ × ℕ → LatestFrameBuffer → CameraHealth → ReconnectConfig → Worker
unfolding set_state
start resolution buffer health config = record {
  resolution = resolution;
  buffer = buffer;
  health = set_state health CameraState.starting;
  policy = record { config = config; attempts = 0 };
  phase = opening;
}
