-- ===== src/Inference/Scheduler.antt =====
-- `SharedInferenceScheduler` of edge_runtime/inference/scheduler.py, on its one thread. What the class
-- keeps in dictionaries over the same cameras is one dictionary of lanes. Every reading of a clock is
-- an argument; a capture process publishes before or after a whole `run_once`. The pipeline is the
-- parameter `infer`, which answers `none` where it raises.
pub mod Collecting
pub mod Results
pub mod Accounts
pub mod Batches
pub mod Circuit
pub mod Rising
mod Examples
use mathlib.Core.Bool.{◌&&◌}
use computer_vision.Common.{
  ℕ, zero, suc, ◌+◌, ◌*◌, ◌%◌, max, String, Bool, true, false, Option, none, some, List, [], ◌∷◌,
  ◌++◌, length, get_elem?, drop, eqb, ltb, leb, Dict, lookup, insert, text_key, if◌then◌else◌,
}
use computer_vision.Capture.LatestFrame.{FramePacket, LatestFrameBuffer, read_latest, age_ns}

pub record SchedulerConfig : Type 0 where
  pub max_frame_age_ms : ℕ
  pub detector_batch_size : ℕ
  pub inference_timeout_ms : ℕ
  pub circuit_breaker_failures : ℕ
  pub circuit_breaker_reset_ms : ℕ

pub record SchedulerMetrics : Type 0 where
  pub processed_frames : ℕ
  pub stale_frames : ℕ
  pub failed_batches : ℕ
  pub result_drops : ℕ
  pub circuit_open_count : ℕ
  pub last_batch_latency_ns : ℕ
  pub maximum_batch_latency_ns : ℕ

-- One camera's entries. The interval is 0 where the camera has no limit on its analytics rate.
pub record Lane : Type 0 where
  pub buffer : LatestFrameBuffer
  pub last_sequence : ℕ
  pub last_scheduled_ns : ℕ
  pub interval_ns : ℕ

pub record ScheduledResult {ℓ} (O : Type ℓ) : Type ℓ where
  pub camera_id : String
  pub frame_id : ℕ
  pub captured_at_unix_ns : ℕ
  pub frame_age_ns : ℕ
  pub output : O
  pub frame : FramePacket

pub record SharedInferenceScheduler {ℓ} (O : Type ℓ) : Type ℓ where
  pub configuration : SchedulerConfig
  pub camera_order : List String
  pub cursor : ℕ
  pub lanes : Dict String Lane
  pub result_queue_size : ℕ
  pub results : List (ScheduledResult O)
  pub metrics : SchedulerMetrics
  pub consecutive_failures : ℕ
  pub circuit_open_until_ns : ℕ

-- The readings of the clock at one camera: before the interval test, within `read_latest`, and when
-- the camera is marked as scheduled.
pub record Visit : Type 0 where
  pub now : ℕ
  pub read_at : ℕ
  pub scheduled_at : ℕ

-- The readings during one `run_once`.
pub record Clock : Type 0 where
  pub gate : ℕ
  pub visits : ℕ → Visit
  pub elapsed_ns : ℕ
  pub failed_at : ℕ
  pub aged_at : ℕ → ℕ

-- `queue.Queue.full`: a size of 0 is no bound.
abbrev pub full {ℓ} : {O : Type ℓ} → SharedInferenceScheduler O → Bool
full s = ltb 0 s.result_queue_size && leb s.result_queue_size (length s.results)

abbrev pub add_one {ℓ} : {A : Type ℓ} → List A → Option A → List A
add_one xs none = xs
add_one xs (some x) = xs ++ x ∷ []

module _ {ℓ} {O : Type ℓ} where
  unfoldable pub put_result :
      SharedInferenceScheduler O → ScheduledResult O → SharedInferenceScheduler O
  put_result s result =
      if full s
      then record s {
        results = drop 1 s.results ++ result ∷ [];
        metrics = record s.metrics { result_drops = s.metrics.result_drops + 1 };
      }
      else record s { results = s.results ++ result ∷ [] }

  unfoldable pub get_result :
      SharedInferenceScheduler O → SharedInferenceScheduler O × Option (ScheduledResult O)
  get_result s = elim s.results [
    | [] ↦ (s, none)
    | result ∷ rest ↦ (record s { results = rest }, some result)
  ]

  -- What follows `read_latest` for the camera `c`.
  unfoldable pub after_read :
      SharedInferenceScheduler O
      → String
      → Lane
      → LatestFrameBuffer × Option FramePacket
      → ℕ
      → SharedInferenceScheduler O × Option FramePacket
  after_read s c lane (buffer, packet) scheduled_at =
      let is_stale = ltb lane.buffer.stale buffer.stale in
      let seen = if is_stale then buffer.sequence else lane.last_sequence in
      let stale = if is_stale then s.metrics.stale_frames + 1 else s.metrics.stale_frames in
      let metrics = record s.metrics { stale_frames = stale } in
      elim packet [
        | none ↦ (
          record s {
            lanes = insert c (record lane { buffer = buffer; last_sequence = seen }) s.lanes;
            metrics = metrics;
          },
          none,
        )
        | some p ↦ (
          record s {
            lanes =
                insert c
                  (record lane {
                    buffer = buffer;
                    last_sequence = p.frame_id;
                    last_scheduled_ns = scheduled_at;
                  })
                  s.lanes;
            metrics = metrics;
          },
          some p,
        )
      ]

  -- One turn of the loop of `_collect_batch`, at the camera `c`.
  unfoldable pub visit_camera :
      SharedInferenceScheduler O
      → String
      → Lane
      → Visit
      → SharedInferenceScheduler O × Option FramePacket
  visit_camera s c lane t =
      let s' = record s { cursor = (s.cursor + 1) % length s.camera_order } in
      if ltb 0 lane.interval_ns && ltb t.now (lane.last_scheduled_ns + lane.interval_ns)
      then (s', none)
      else after_read s' c lane
          (read_latest lane.buffer lane.last_sequence (some s.configuration.max_frame_age_ms)
            t.read_at)
          t.scheduled_at

  -- The loop, on the cameras left. `none` is an `IndexError` or a `KeyError`.
  unfoldable pub collect_loop :
      ℕ
      → SharedInferenceScheduler O
      → (ℕ → Visit)
      → List FramePacket
      → SharedInferenceScheduler O × Option (List FramePacket)
  collect_loop zero s visits batch = (s, some batch)
  collect_loop (suc left) s visits batch =
      elim (leb s.configuration.detector_batch_size (length batch)) [
        | true ↦ (s, some batch)
        | false ↦ elim (get_elem? s.camera_order s.cursor) [
          | none ↦ (s, none)
          | some c ↦ elim (lookup c s.lanes) [
            | none ↦ (s, none)
            | some lane ↦
                let (s', packet) = visit_camera s c lane (visits left) in
                collect_loop left s' visits (add_one batch packet)
          ]
        ]
      ]

  unfoldable pub collect_batch :
      SharedInferenceScheduler O
      → (ℕ → Visit)
      → SharedInferenceScheduler O × Option (List FramePacket)
  collect_batch s visits = collect_loop (length s.camera_order) s visits []

  -- The `except` branch of `run_once`.
  unfoldable pub fail_batch : SharedInferenceScheduler O → ℕ → SharedInferenceScheduler O
  fail_batch s failed_at =
      let failed = s.metrics.failed_batches + 1 in
      if leb s.configuration.circuit_breaker_failures (s.consecutive_failures + 1)
      then record s {
        metrics = record s.metrics {
          failed_batches = failed;
          circuit_open_count = s.metrics.circuit_open_count + 1;
        };
        circuit_open_until_ns = failed_at + s.configuration.circuit_breaker_reset_ms * 1000000;
        consecutive_failures = 0;
      }
      else record s {
        metrics = record s.metrics { failed_batches = failed };
        consecutive_failures = s.consecutive_failures + 1;
      }

  abbrev pub result_of : FramePacket → ℕ → O → ScheduledResult O
  result_of p now output = record {
    camera_id = p.camera_id;
    frame_id = p.frame_id;
    captured_at_unix_ns = p.captured_at_unix_ns;
    frame_age_ns = age_ns p now;
    output = output;
    frame = p;
  }

  -- `zip(batch, outputs)`, and a result put for each pair.
  unfoldable pub put_results :
      SharedInferenceScheduler O → (ℕ → ℕ) → List FramePacket → List O → SharedInferenceScheduler O
  put_results s aged_at (p ∷ batch) (o ∷ outputs) =
      put_results (put_result s (result_of p (aged_at (length batch)) o)) aged_at batch outputs
  put_results s aged_at _ _ = s

  -- The rest of `run_once` once the pipeline has answered in time for every packet.
  unfoldable pub finish_batch :
      SharedInferenceScheduler O → Clock → List FramePacket → List O → SharedInferenceScheduler O
  finish_batch s clock batch outputs =
      let metrics = record s.metrics {
        last_batch_latency_ns = clock.elapsed_ns;
        maximum_batch_latency_ns = max s.metrics.maximum_batch_latency_ns clock.elapsed_ns;
      } in
      let put =
        put_results (record s { consecutive_failures = 0; metrics = metrics }) clock.aged_at batch
          outputs in
      record put {
        metrics = record put.metrics {
          processed_frames = put.metrics.processed_frames + length batch;
        };
      }

  -- The `try` of `run_once` and what follows it: the pipeline raises, is late, or loses outputs.
  unfoldable pub answer_batch :
      SharedInferenceScheduler O
      → Clock
      → List FramePacket
      → Option (List O)
      → SharedInferenceScheduler O × ℕ
  answer_batch s clock batch none = (fail_batch s clock.failed_at, 0)
  answer_batch s clock batch (some outputs) =
      if ltb (s.configuration.inference_timeout_ms * 1000000) clock.elapsed_ns
      then (fail_batch s clock.failed_at, 0)
      else if eqb (length outputs) (length batch)
      then (finish_batch s clock batch outputs, length batch)
      else (fail_batch s clock.failed_at, 0)

  module _ (infer : List FramePacket → Option (List O)) where
    unfoldable pub process :
        SharedInferenceScheduler O × Option (List FramePacket)
        → Clock
        → SharedInferenceScheduler O × Option ℕ
    process (s, none) clock = (s, none)
    process (s, some []) clock = (s, some 0)
    process (s, some (p ∷ batch)) clock =
        let (s', processed) = answer_batch s clock (p ∷ batch) (infer (p ∷ batch)) in
        (s', some processed)

    -- `none` where the error of `_collect_batch` leaves it.
    unfoldable pub run_once :
        SharedInferenceScheduler O → Clock → SharedInferenceScheduler O × Option ℕ
    unfolding process
    run_once s clock =
        if ltb clock.gate s.circuit_open_until_ns
        then (s, some 0)
        else process (collect_batch s clock.visits) clock
