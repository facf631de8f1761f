-- ===== src/Capture/Worker/Counters.antt =====
-- The counters of the capture process beside the frame slot, at every point of the loop.
use mathlib.Core.Bool.{not, ◌||◌}
use computer_vision.Common.{
  ℕ, ◌+◌, ◌%◌, ◌<◌, ◌≡◌, refl, Bool, false, some, List, [], ◌∷◌, arith, eqb, ltb, Bool-cases,
  Option-cases, inl, inr,
}
use computer_vision.Errors.{Error, Result, ok, err}
use computer_vision.Capture.LatestFrame.{
  u64, Array, LatestFrameBuffer, Stamps, publish, read_latest,
}
use computer_vision.Capture.Health.{CameraState, record_failure, set_state}
use computer_vision.Capture.Reconnect.{next_delay_ms}
use computer_vision.Capture.Worker.{
  Phase, opening, reading, returned, crashed, Worker, Shot, Event, stop, open_failed, opened,
  read_failed, read_ok, consume, leave_inner, handle_frame, on_published, height_width,
  after_publish, step, run,
}

-- What the place in the loop says of the policy and of the state shown outside.
abbrev pub PhaseFits : Worker → Phase → Type 0
PhaseFits w opening = Unit
PhaseFits w (reading frames started) = w.policy.attempts ≡ 0
PhaseFits w returned = w.health.state ≡ CameraState.stopped
PhaseFits w (crashed e) = Unit

pub record IsCounted (w : Worker) : Type 0 where
  pub captured : w.health.captured ≡ w.buffer.sequence
  pub dropped : w.health.dropped ≡ w.buffer.dropped
  pub in_word : w.buffer.dropped < u64
  pub phase_fits : PhaseFits w w.phase

-- The two counters of the slot that `publish` changes, and what it reports.
pub data Published (b : LatestFrameBuffer) (r : LatestFrameBuffer × Result ℕ) : Type 0 where
  refused :
      r.0.sequence ≡ b.sequence
      → r.0.dropped ≡ b.dropped
      → r.1 ≡ err Error.value_error
      → Published b r
  taken :
      r.0.sequence ≡ (b.sequence + 1) % u64
      → r.0.dropped < u64
      → r.1 ≡ ok ((b.sequence + 1) % u64)
      → Published b r

publish_shape-cases :
    (b : LatestFrameBuffer) (u : Bool) (shape bytes : List ℕ) (t : Stamps)
    → b.dropped < u64
    → Published b (publish b (record { is_uint8 = u; shape = shape; bytes = bytes }) t)
unfolding publish
publish_shape-cases b u (h ∷ w ∷ c ∷ []) bytes t k = elim (Bool-cases (not u || not (eqb c 3))) [
  | inl bad ↦ rw bad (refused refl refl refl)
  | inr good ↦ elim (Bool-cases (ltb b.max_width w || ltb b.max_height h)) [
    | inl big ↦ rw (good, big) (refused refl refl refl)
    | inr fits ↦ rw (good, fits) (taken refl (ground arith) refl)
  ]
]
publish_shape-cases b u shape bytes t k = refused refl refl refl

publish-cases :
    (b : LatestFrameBuffer) (frame : Array) (t : Stamps)
    → b.dropped < u64
    → Published b (publish b frame t)
publish-cases b frame t k = publish_shape-cases b frame.is_uint8 frame.shape frame.bytes t k

leave_inner-IsCounted :
    (w : Worker) (b : Bool)
    → w.health.captured ≡ w.buffer.sequence
    → w.health.dropped ≡ w.buffer.dropped
    → w.buffer.dropped < u64
    → IsCounted (leave_inner w b)
unfolding leave_inner next_delay_ms
leave_inner-IsCounted w b p q r = ground arith

after_publish-IsCounted :
    (w : Worker) (shot : Shot) (h wd frames started : ℕ)
    → (w.health.captured + 1) % u64 ≡ w.buffer.sequence
    → w.buffer.dropped < u64
    → w.policy.attempts ≡ 0
    → IsCounted (after_publish w shot h wd frames started)
unfolding after_publish
after_publish-IsCounted w shot h wd frames started p q r = ground arith

on_published-IsCounted :
    (w : Worker) (shot : Shot) (b : Bool) (h wd frames started : ℕ)
    (r : LatestFrameBuffer × Result ℕ)
    → Published w.buffer r
    → IsCounted w
    → w.policy.attempts ≡ 0
    → IsCounted (on_published w shot b h wd frames started r)
unfolding on_published
on_published-IsCounted w shot b h wd frames started (buffer, err e) (refused p q _) v a =
    leave_inner-IsCounted
      (record w {
        buffer = buffer;
        health = set_state (record_failure w.health) CameraState.degraded;
      })
      b (ground arith) (ground arith) (ground arith)
on_published-IsCounted w shot b h wd frames started (buffer, ok n) (taken p q _) v a =
    after_publish-IsCounted (record w { buffer = buffer }) shot h wd frames started (ground arith) q
      a
on_published-IsCounted w shot b h wd frames started (buffer, ok n) (refused p q e) v a = cc
on_published-IsCounted w shot b h wd frames started (buffer, err n) (taken p q e) v a = cc

handle_frame-IsCounted :
    (w : Worker) (shot : Shot) (b : Bool) (frames started : ℕ)
    → IsCounted w
    → w.policy.attempts ≡ 0
    → IsCounted (handle_frame w shot b frames started)
unfolding handle_frame
handle_frame-IsCounted w shot b frames started v a =
    elim (Option-cases (height_width shot.frame.shape)) [
      | inl bare ↦
          rw (bare, handle_frame)
            (record {
              captured = v.captured;
              dropped = v.dropped;
              in_word = v.in_word;
              phase_fits = tt;
            })
      | inr ((h, wd), shaped) ↦
          rw (shaped, handle_frame)
            (on_published-IsCounted w shot b h wd frames started _
              (publish-cases w.buffer shot.frame shot.stamps v.in_word) v a)
    ]

read_latest_counts :
    (b : LatestFrameBuffer) (after m now : ℕ)
    → ((read_latest b after (some m) now).0.sequence ≡ b.sequence)
      × ((read_latest b after (some m) now).0.dropped ≡ b.dropped)
unfolding read_latest
read_latest_counts b after m now = ground arith

step-IsCounted :
    (w : Worker) (phase : Phase) (e : Event)
    → w.phase ≡ phase
    → IsCounted w
    → IsCounted (step w phase e)
unfolding step
step-IsCounted w phase (consume after m now) p v =
    ground (arith, read_latest_counts w.buffer after m now)
step-IsCounted w opening stop p v = ground arith
step-IsCounted w opening open_failed p v =
    leave_inner-IsCounted (record w { health = record_failure w.health }) false v.captured v.dropped
      v.in_word
step-IsCounted w opening (opened now) p v = ground arith
step-IsCounted w (reading frames started) stop p v = ground arith
step-IsCounted w (reading frames started) (read_failed b) p v =
    leave_inner-IsCounted (record w { health = record_failure w.health }) b v.captured v.dropped
      v.in_word
step-IsCounted w (reading frames started) (read_ok shot b) p v =
    handle_frame-IsCounted w shot b frames started v (ground arith)
step-IsCounted w _ _ p v = v

-- Whatever the camera answers and whenever the consumer reads, the capture process has counted
-- exactly the frames that it published, shows the dropped frames of the slot, has no open attempts
-- while it reads, and is shown as stopped once it has returned.
pub run-IsCounted : (w : Worker) (events : List Event) → IsCounted w → IsCounted (run w events)
unfolding run
run-IsCounted w [] v = v
run-IsCounted w (e ∷ events) v =
    run-IsCounted (step w w.phase e) events (step-IsCounted w w.phase e refl v)
