-- ===== src/Inference/Scheduler/Collecting.antt =====
-- What the collecting of a batch leaves as it is in the shared scheduler.
use mathlib.Core.Bool.{◌&&◌}
use computer_vision.Common.{
  ℕ, zero, suc, ◌+◌, ◌%◌, ◌≡◌, refl, ◌∙◌, inl, inr, String, Option, none, some, List, length,
  get_elem?, ltb, leb, lookup, text_key, Bool-cases, Option-cases,
}
use computer_vision.Capture.LatestFrame.{FramePacket, LatestFrameBuffer, read_latest}
use computer_vision.Inference.Scheduler.{
  SharedInferenceScheduler, Lane, Visit, add_one, after_read, visit_camera, collect_loop,
}

-- What changes with neither the frames nor the cursor.
pub record SameAccounts {ℓ} {O : Type ℓ} (s t : SharedInferenceScheduler O) : Type ℓ where
  pub configuration : t.configuration ≡ s.configuration
  pub size : t.result_queue_size ≡ s.result_queue_size
  pub results : t.results ≡ s.results
  pub processed : t.metrics.processed_frames ≡ s.metrics.processed_frames
  pub drops : t.metrics.result_drops ≡ s.metrics.result_drops
  pub failed : t.metrics.failed_batches ≡ s.metrics.failed_batches
  pub opened : t.metrics.circuit_open_count ≡ s.metrics.circuit_open_count
  pub failures : t.consecutive_failures ≡ s.consecutive_failures

module _ {ℓ} {O : Type ℓ} where
  after_read-SameAccounts :
      (s : SharedInferenceScheduler O) (c : String) (lane : Lane) (b : LatestFrameBuffer)
      (p : Option FramePacket) (t : ℕ)
      → SameAccounts s (after_read s c lane (b, p) t).0
  unfolding after_read
  after_read-SameAccounts s c lane b none t = record {
    configuration = refl;
    size = refl;
    results = refl;
    processed = refl;
    drops = refl;
    failed = refl;
    opened = refl;
    failures = refl;
  }
  after_read-SameAccounts s c lane b (some p) t = record {
    configuration = refl;
    size = refl;
    results = refl;
    processed = refl;
    drops = refl;
    failed = refl;
    opened = refl;
    failures = refl;
  }

  SameAccounts-refl : (s : SharedInferenceScheduler O) → SameAccounts s s
  SameAccounts-refl s = record {
    configuration = refl;
    size = refl;
    results = refl;
    processed = refl;
    drops = refl;
    failed = refl;
    opened = refl;
    failures = refl;
  }

  SameAccounts-trans :
      (s t u : SharedInferenceScheduler O) → SameAccounts s t → SameAccounts t u → SameAccounts s u
  SameAccounts-trans s t u h k = record {
    configuration = k.configuration ∙ h.configuration;
    size = k.size ∙ h.size;
    results = k.results ∙ h.results;
    processed = k.processed ∙ h.processed;
    drops = k.drops ∙ h.drops;
    failed = k.failed ∙ h.failed;
    opened = k.opened ∙ h.opened;
    failures = k.failures ∙ h.failures;
  }

  visit_camera-SameAccounts :
      (s : SharedInferenceScheduler O) (c : String) (lane : Lane) (t : Visit)
      → SameAccounts s (visit_camera s c lane t).0
  unfolding visit_camera
  visit_camera-SameAccounts s c lane t =
      elim (Bool-cases
        (ltb 0 lane.interval_ns && ltb t.now (lane.last_scheduled_ns + lane.interval_ns))) [
          | inl early ↦ rw early (record {
            configuration = refl;
            size = refl;
            results = refl;
            processed = refl;
            drops = refl;
            failed = refl;
            opened = refl;
            failures = refl;
          })
          | inr due ↦
              let s' = record s { cursor = (s.cursor + 1) % length s.camera_order } in
              let r =
                read_latest lane.buffer lane.last_sequence (some s.configuration.max_frame_age_ms)
                  t.read_at in
              let h = after_read-SameAccounts s' c lane r.0 r.1 t.scheduled_at in
              rw due (record {
                configuration = h.configuration;
                size = h.size;
                results = h.results;
                processed = h.processed;
                drops = h.drops;
                failed = h.failed;
                opened = h.opened;
                failures = h.failures;
              })
        ]

  pub collect_loop-SameAccounts :
      (left : ℕ) (s : SharedInferenceScheduler O) (visits : ℕ → Visit) (batch : List FramePacket)
      → SameAccounts s (collect_loop left s visits batch).0
  unfolding collect_loop
  collect_loop-SameAccounts zero s visits batch = SameAccounts-refl s
  collect_loop-SameAccounts (suc left) s visits batch =
      elim (Bool-cases (leb s.configuration.detector_batch_size (length batch))) [
        | inl enough ↦ rw (enough, collect_loop) (SameAccounts-refl s)
        | inr more ↦ elim (Option-cases (get_elem? s.camera_order s.cursor)) [
          | inl outside ↦ rw (more, outside, collect_loop) (SameAccounts-refl s)
          | inr (c, here) ↦ elim (Option-cases (lookup c s.lanes)) [
            | inl unknown ↦ rw (more, here, unknown, collect_loop) (SameAccounts-refl s)
            | inr (lane, known) ↦
                let r = visit_camera s c lane (visits left) in
                rw (more, here, known, collect_loop)
                  (SameAccounts-trans s r.0 _ (visit_camera-SameAccounts s c lane (visits left))
                    (collect_loop-SameAccounts left r.0 visits (add_one batch r.1)))
          ]
        ]
      ]
