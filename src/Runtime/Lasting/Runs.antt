-- ===== src/Runtime/Lasting/Runs.antt =====
-- The runtime in any order of results, turns of the consumer and turns of the pose worker.
use mathlib.Core.Bool.{◌||◌}
use computer_vision.Common.{
  ℕ, refl, String, Bool, false, Option, List, [], ◌∷◌, length, text_key, Numbers,
}
use computer_vision.Vision.{Detection, PoseResult}
use computer_vision.Tracking.Kalman.{Arrays}
use computer_vision.Tracking.Tracker.{Track, costs}
use computer_vision.Tracking.Tracker.Assigned.{AllWithin}
use computer_vision.Tracking.Manager.{TrackerManager}
use computer_vision.Inference.Scheduler.{ScheduledResult, put_result}
use computer_vision.Inference.PoseQueue.{PoseRequest}
use computer_vision.Inference.Rtmpose.{PoseTarget}
use computer_vision.Runtime.{Phase2Runtime, consume, run_pose}
use computer_vision.Runtime.Lasting.{
  HasTracker, IsLasting, Lasts, Lasts-trans, put_result-IsLasting,
}
use computer_vision.Runtime.Lasting.Tracked.{consume-Lasts}
use computer_vision.Runtime.Lasting.Posed.{run_pose-Lasts}

module _ (n : Numbers) (a : Arrays n) where
  module _ (assign : List (List n.Number) → List (ℕ × ℕ))
      (within : (ts : List (Track n a)) (ds : List (Detection n))
        → AllWithin n a (length ts) (length ds) (assign (costs n a ts ds))) where
    module _ (infer : List (PoseRequest (PoseTarget n)) → Option (List (PoseResult n))) where
      -- The scheduler's thread puts a result, or one of the two threads has a turn.
      pub data Event : Type 0 where
        detected : ScheduledResult (List (Detection n)) → Event
        consume_turn : ℕ → Event
        pose_turn : (ℕ → ℕ) → Event

      abbrev pub step : Event → Phase2Runtime n a → Phase2Runtime n a × Bool
      step (detected r) s = (record s { scheduler = put_result s.scheduler r }, false)
      step (consume_turn now) s = consume n a assign s now
      step (pose_turn clock) s = run_pose n a infer s clock

      -- The runtime after the events, and whether one of them has ended a thread.
      unfoldable pub run : List Event → Phase2Runtime n a × Bool → Phase2Runtime n a × Bool
      run [] o = o
      run (e ∷ es) o = run es ((step e o.0).0, o.1 || (step e o.0).1)

      -- The results that the scheduler puts are of cameras that have a tracker.
      abbrev pub AllArrive : TrackerManager n a → List Event → Type 0
      AllArrive m [] = Unit
      AllArrive m (detected r ∷ es) = HasTracker n a m r.camera_id × AllArrive m es
      AllArrive m (consume_turn now ∷ es) = AllArrive m es
      AllArrive m (pose_turn clock ∷ es) = AllArrive m es

      AllArrive-cameras :
          (m m' : TrackerManager n a) (es : List Event)
          → ((c : String) → HasTracker n a m c → HasTracker n a m' c)
          → AllArrive m es
          → AllArrive m' es
      AllArrive-cameras m m' [] h k = tt
      AllArrive-cameras m m' (detected r ∷ es) h k =
          (h r.camera_id k.0, AllArrive-cameras m m' es h k.1)
      AllArrive-cameras m m' (consume_turn now ∷ es) h k = AllArrive-cameras m m' es h k
      AllArrive-cameras m m' (pose_turn clock ∷ es) h k = AllArrive-cameras m m' es h k

      -- Where the assignment answers rows and columns of its costs, whatever the pose pipeline answers,
      -- and in any order of results of known cameras and of turns of both threads: no exception ends
      -- either thread. All trackers stay valid and every camera keeps its tracker, every waiting result
      -- is of a camera that has one, and the three queues keep their bounds.
      pub run-Lasts :
          (es : List Event) (s : Phase2Runtime n a)
          → IsLasting n a s
          → AllArrive s.trackers es
          → Lasts n a s (run es (s, false))
      unfolding run
      run-Lasts [] s h k = record { going = refl; lasting = h; cameras = λ c known. known }
      run-Lasts (detected r ∷ es) s h k =
          let s' = record s { scheduler = put_result s.scheduler r } in
          Lasts-trans n a s s' (run es (s', false)) (λ c known. known)
            (run-Lasts es s' (put_result-IsLasting n a s r k.0 h) k.1)
      run-Lasts (consume_turn now ∷ es) s h k =
          let o = consume n a assign s now in
          let one = consume-Lasts n a assign within s now h in
          rw one.going (
            Lasts-trans n a s o.0 (run es (o.0, false)) one.cameras (
              run-Lasts es o.0 one.lasting
                (AllArrive-cameras s.trackers o.0.trackers es one.cameras k)))
      run-Lasts (pose_turn clock ∷ es) s h k =
          let o = run_pose n a infer s clock in
          let one = run_pose-Lasts n a infer s clock h in
          rw one.going (
            Lasts-trans n a s o.0 (run es (o.0, false)) one.cameras (
              run-Lasts es o.0 one.lasting
                (AllArrive-cameras s.trackers o.0.trackers es one.cameras k)))
