-- ===== src/Runtime/Examples.antt =====
-- A runtime of two cameras, with the tracker and the arrays of Tracking/Examples.antt.
use computer_vision.Common.{
  ℕ, ◌≡◌, refl, insert, text_key, true, false, Option, none, some, List, [], ◌∷◌, arith,
  thousandths, lookup,
}
use computer_vision.Capture.LatestFrame.{FramePacket}
use computer_vision.Vision.{Detection, TrackedDetection, PoseResult}
use computer_vision.Inference.Scheduler.{ScheduledResult}
use computer_vision.Inference.PoseQueue.{BoundedPoseQueue, PoseRequest, put, heappush, sift_down}
use computer_vision.Tracking.Examples.{
  identities, assign_first, assign_first-within, two_cameras, two_cameras-AllValid, person, fresh,
}
use computer_vision.Inference.Rtmpose.{PoseTarget}
use computer_vision.Runtime.{Queue, Phase2Runtime, request_of, request_pose, collect_requests}
use computer_vision.Runtime.Waiting.{IsWithin, put_all, newest, put_all-newest}
use computer_vision.Runtime.Collected.{Collected, collect_requests-Collected}
use computer_vision.Runtime.Pacing.{Move, ask, elsewhere, IsPaced, run_moves, run_moves-IsPaced}
use computer_vision.Runtime.Lasting.{IsLasting, Lasts}
use computer_vision.Runtime.Lasting.Runs.{Event, detected, consume_turn, pose_turn, run, run-Lasts}

abbrev two_values : Queue ℕ
two_values = record { maxsize = 2; items = 1 ∷ 2 ∷ [] }

two_values-IsWithin : IsWithin two_values
two_values-IsWithin = record { positive = omega arith; bounded = omega arith }

put_all-newest_example :
    put_all (some two_values) (3 ∷ 4 ∷ 5 ∷ [])
    ≡ some (record two_values { items = newest 2 (1 ∷ 2 ∷ 3 ∷ 4 ∷ 5 ∷ []) })
put_all-newest_example = put_all-newest two_values (3 ∷ 4 ∷ 5 ∷ []) two_values-IsWithin

newest_two : newest {A = ℕ} 2 (1 ∷ 2 ∷ 3 ∷ 4 ∷ 5 ∷ []) ≡ 4 ∷ 5 ∷ []
newest_two = refl

abbrev shot : FramePacket
shot = record {
  camera_id = "c1";
  frame_id = 1;
  captured_at_unix_ns = 0;
  captured_at_monotonic_ns = 5;
  frame = record { is_uint8 = true; shape = 1 ∷ 1 ∷ 3 ∷ []; bytes = 0 ∷ 0 ∷ 0 ∷ [] };
}

abbrev track : ℕ → TrackedDetection thousandths
track i = record {
  camera_id = "c1";
  track_id = i;
  bbox = person.bbox;
  score = 900;
  class_id = 0;
  class_name = "person";
}

abbrev one_request : BoundedPoseQueue (PoseTarget thousandths)
one_request = record {
  maxsize = 2;
  heap =
      record {
        rank = 1;
        requested_at = 10;
        request = request_of thousandths identities shot 10 (track 7);
      }
      ∷ [];
  dropped = 0;
}

abbrev started : Phase2Runtime thousandths identities
started = record {
  scheduler = record {
    configuration = record {
      max_frame_age_ms = 500;
      detector_batch_size = 1;
      inference_timeout_ms = 1000;
      circuit_breaker_failures = 3;
      circuit_breaker_reset_ms = 10000;
    };
    camera_order = "c1" ∷ "c2" ∷ [];
    cursor = 0;
    lanes = [];
    result_queue_size = 4;
    results = [];
    metrics = record {
      processed_frames = 0;
      stale_frames = 0;
      failed_batches = 0;
      result_drops = 0;
      circuit_open_count = 0;
      last_batch_latency_ns = 0;
      maximum_batch_latency_ns = 0;
    };
    consecutive_failures = 0;
    circuit_open_until_ns = 0;
  };
  pose_requests = one_request;
  trackers = two_cameras;
  has_pose_pipeline = true;
  track_results = record { maxsize = 16; items = [] };
  pose_results = record { maxsize = 64; items = [] };
  last_pose_request_ns = [];
  pose_interval_ns = 100;
}

started-IsLasting : IsLasting thousandths identities started
started-IsLasting = record {
  trackers = two_cameras-AllValid;
  known = tt;
  positive = omega arith;
  bounded = omega arith;
  tracks = record { positive = omega arith; bounded = omega arith };
  poses = record { positive = omega arith; bounded = omega arith };
}

collect_requests-Collected_example :
    Collected thousandths identities 2
      (λ i. 20)
      one_request
      []
      (collect_requests thousandths identities 2 (λ i. 20) one_request [])
collect_requests-Collected_example =
    collect_requests-Collected thousandths identities 2 (λ i. 20) one_request [] (omega arith)
      (omega arith)

abbrev found : ScheduledResult (List (Detection thousandths))
found = record {
  camera_id = "c1";
  frame_id = 1;
  captured_at_unix_ns = 0;
  frame_age_ns = 0;
  output = person ∷ [];
  frame = shot;
}

abbrev no_answer :
    List (PoseRequest (PoseTarget thousandths)) → Option (List (PoseResult thousandths))
no_answer requests = none

abbrev events : List (Event thousandths identities assign_first assign_first-within no_answer)
events = detected found ∷ consume_turn 200 ∷ pose_turn (λ i. 300) ∷ []

run-Lasts_example :
    Lasts thousandths identities started (
      run thousandths identities assign_first assign_first-within no_answer events (started, false))
unfolding lookup
run-Lasts_example =
    run-Lasts thousandths identities assign_first assign_first-within no_answer events started
      started-IsLasting ((fresh "c1", refl), tt)

abbrev moves : List (Move thousandths identities)
moves =
    ask shot 150 (track 7)
    ∷ elsewhere started
    ∷ ask shot 200 (track 7)
    ∷ ask shot 260 (track 7)
    ∷ []

started-IsPaced : IsPaced thousandths identities started 100 []
started-IsPaced = record { fixed = refl; tracks = λ i. refl; paced = tt }

run_moves-IsPaced_example :
    IsPaced thousandths identities
      (run_moves thousandths identities started [] moves).0
      100
      (run_moves thousandths identities started [] moves).1
run_moves-IsPaced_example =
    run_moves-IsPaced thousandths identities started 100 [] moves started-IsPaced

moves_asked :
    (run_moves thousandths identities started [] moves).1 ≡ (("c1", 7), 260) ∷ (("c1", 7), 150) ∷ []
unfolding run_moves request_pose put heappush sift_down lookup insert
moves_asked = refl
