-- ===== src/Inference/Scheduler/Examples.antt =====
-- The shared scheduler with two cameras: runs, and the theorems of this folder applied.
use computer_vision.Common.{
  ℕ, ◌≡◌, refl, inr, true, contains, Option, none, some, List, [], ◌∷◌, ◌++◌, arith, map, lookup,
  insert, String,
}
use computer_vision.Capture.LatestFrame.{
  Array, FramePacket, LatestFrameBuffer, Stamps, zeros, publish, read_latest,
}
use computer_vision.Inference.Scheduler.{
  SharedInferenceScheduler, Lane, Clock, put_result, get_result, after_read, visit_camera,
  collect_loop, collect_batch, put_results, finish_batch, answer_batch, process, run_once,
}
use computer_vision.Inference.Scheduler.Accounts.{
  Call, publish_call, run_call, take_call, IsBalanced, publish_to, run, run-IsBalanced,
}
use computer_vision.Inference.Scheduler.Rising.{IsRising, last_of, IsNamed}
use computer_vision.Inference.Scheduler.Rising.Runs.{handed_all, handed_all-IsRising}
use computer_vision.Inference.Scheduler.Batches.{IsReady, Collected, collect_batch-Collected}
use computer_vision.Inference.Scheduler.Circuit.{
  Attempt, raises, is_late, answer_all, answered, answer_all-opens,
}

abbrev slot : LatestFrameBuffer
slot = record {
  camera_id = "gate";
  max_width = 2;
  max_height = 1;
  cells = zeros 6;
  sequence = 0;
  consumed_sequence = 0;
  unix_ns = 0;
  monotonic_ns = 0;
  height = 0;
  width = 0;
  dropped = 0;
  stale = 0;
}

abbrev lane : Lane
lane = record { buffer = slot; last_sequence = 0; last_scheduled_ns = 0; interval_ns = 0 }

abbrev idle : SharedInferenceScheduler ℕ
idle = record {
  configuration = record {
    max_frame_age_ms = 500;
    detector_batch_size = 4;
    inference_timeout_ms = 1000;
    circuit_breaker_failures = 3;
    circuit_breaker_reset_ms = 10000;
  };
  camera_order = "gate" ∷ "yard" ∷ [];
  cursor = 0;
  lanes =
      ("gate", lane) ∷ ("yard", record lane { buffer = record slot { camera_id = "yard" } }) ∷ [];
  result_queue_size = 1;
  results = [];
  metrics = record {
    processed_frames = 0;
    stale_frames = 0;
    failed_batches = 0;
    result_drops = 0;
    circuit_open_count = 0;
    last_batch_latency_ns = 0;
    maximum_batch_latency_ns = 0;
  };
  consecutive_failures = 0;
  circuit_open_until_ns = 0;
}

abbrev pixel : Array
pixel = record { is_uint8 = true; shape = 1 ∷ 1 ∷ 3 ∷ []; bytes = 7 ∷ 8 ∷ 9 ∷ [] }

abbrev stamps : Stamps
stamps = record { unix = some 40; monotonic = some 5000; time_ns = 77; monotonic_ns = 6000 }

abbrev clock : Clock
clock = record {
  gate = 6000;
  visits = λ _. record { now = 6100; read_at = 6200; scheduled_at = 6300 };
  elapsed_ns = 20000000;
  failed_at = 7000;
  aged_at = λ _. 9000;
}

-- An output for each packet: its frame's number.
abbrev number : List FramePacket → Option (List ℕ)
number batch = some (map (λ p. p.frame_id) batch)

-- Both cameras publish, the scheduler runs once, and the consumer takes one result.
abbrev calls : List (Call ℕ)
calls =
    publish_call "gate" pixel stamps
    ∷ publish_call "yard" pixel stamps
    ∷ run_call number clock
    ∷ take_call
    ∷ []

run-calls :
    ((run idle 0 calls).0.metrics.processed_frames ≡ 2)
    × ((run idle 0 calls).0.metrics.result_drops ≡ 1)
    × ((run idle 0 calls).1 ≡ 1)
unfolding run publish_to run_once process collect_batch collect_loop visit_camera after_read
    answer_batch finish_batch put_results put_result get_result publish read_latest lookup insert
run-calls = (refl, refl, refl)

idle-IsBalanced : IsBalanced idle 0
idle-IsBalanced = record {
  total = refl;
  bounded = inr (omega arith);
  closed = omega arith;
  opened = omega arith;
}

run-IsBalanced_example : IsBalanced (run idle 0 calls).0 (run idle 0 calls).1
run-IsBalanced_example = run-IsBalanced idle 0 calls idle-IsBalanced

idle-IsReady : IsReady idle
unfolding contains
idle-IsReady = record { cursor = inr (omega arith); known = (refl, (refl, tt)) }

collect_batch-Collected_example : Collected 2 idle [] (collect_batch idle clock.visits)
collect_batch-Collected_example = collect_batch-Collected idle clock.visits idle-IsReady

-- A batch that the pipeline raises for, and one that it is late for.
abbrev raising : Attempt ℕ
raising = record { clock = clock; batch = []; answer = none }

abbrev slow : Attempt ℕ
slow = record {
  clock = record clock { elapsed_ns = 2000000000; failed_at = 8000 };
  batch = [];
  answer = some [];
}

answer_all-opens_example :
    ((answer_all idle (raising ∷ slow ∷ [])).circuit_open_until_ns ≡ 0)
    × ((answered (answer_all idle (raising ∷ slow ∷ [])) slow).circuit_open_until_ns ≡ 10000008000)
    × ((answered (answer_all idle (raising ∷ slow ∷ [])) slow).consecutive_failures ≡ 0)
    × (run_once number (answered (answer_all idle (raising ∷ slow ∷ [])) slow) clock
        ≡ (answered (answer_all idle (raising ∷ slow ∷ [])) slow, some 0))
answer_all-opens_example =
    answer_all-opens idle (raising ∷ slow ∷ []) slow number clock
      (raises refl, (is_late (omega arith), tt)) (is_late (omega arith)) refl (omega arith)

idle-IsNamed : IsNamed idle.lanes
idle-IsNamed = (refl, (refl, tt))

-- Two runs with one new frame in between: the first hands over one frame of each camera, the second the
-- new frame only.
abbrev two_runs : List (Call ℕ)
two_runs = calls ++ publish_call "gate" pixel stamps ∷ run_call number clock ∷ []

abbrev number_of_frame : FramePacket → String × ℕ
number_of_frame p = (p.camera_id, p.frame_id)

handed-two_runs :
    map number_of_frame (handed_all idle two_runs) ≡ ("gate", 1) ∷ ("yard", 1) ∷ ("gate", 2) ∷ []
unfolding handed_all publish_to run_once process collect_batch collect_loop visit_camera after_read
    answer_batch finish_batch put_results put_result get_result publish read_latest lookup insert
handed-two_runs = refl

handed_all-IsRising_example : IsRising (last_of idle.lanes) (handed_all idle two_runs)
handed_all-IsRising_example = handed_all-IsRising idle two_runs idle-IsNamed
