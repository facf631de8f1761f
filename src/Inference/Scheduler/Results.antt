-- ===== src/Inference/Scheduler/Results.antt =====
-- The queue of results of the shared scheduler: what putting results moves, and its bound.
use computer_vision.Common.{
  ℕ, ◌+◌, ◌≤◌, ◌≡◌, refl, ◌∙◌, ◌⊎◌, inl, inr, List, [], ◌∷◌, arith, length, length-append,
  length-drop, drop, text_key, Bool-cases,
}
use computer_vision.Capture.LatestFrame.{FramePacket}
use computer_vision.Inference.Scheduler.{
  result_of, SharedInferenceScheduler, ScheduledResult, full, put_result, put_results,
}

-- Putting `n` results moves only the queue and the count of drops.
pub record Puts {ℓ} {O : Type ℓ} (n : ℕ) (s t : SharedInferenceScheduler O) : Type ℓ where
  pub configuration : t.configuration ≡ s.configuration
  pub size : t.result_queue_size ≡ s.result_queue_size
  pub total :
      length t.results + t.metrics.result_drops ≡ length s.results + s.metrics.result_drops + n
  pub processed : t.metrics.processed_frames ≡ s.metrics.processed_frames
  pub failed : t.metrics.failed_batches ≡ s.metrics.failed_batches
  pub opened : t.metrics.circuit_open_count ≡ s.metrics.circuit_open_count
  pub failures : t.consecutive_failures ≡ s.consecutive_failures

-- The queue's bound, and `put_nowait` beside a single producer.
abbrev pub IsBounded {ℓ} : {O : Type ℓ} → SharedInferenceScheduler O → Type 0
IsBounded s = (s.result_queue_size ≡ 0) ⊎ (length s.results ≤ s.result_queue_size)

module _ {ℓ} {O : Type ℓ} where
  put_result-Puts :
      (s : SharedInferenceScheduler O) (r : ScheduledResult O) → Puts 1 s (put_result s r)
  unfolding put_result
  put_result-Puts s r = elim (Bool-cases (full s)) [
    | inl e ↦ rw e (record {
      configuration = refl;
      size = refl;
      total = ground (arith, length-append (drop 1 s.results) (r ∷ []), length-drop 1 s.results);
      processed = refl;
      failed = refl;
      opened = refl;
      failures = refl;
    })
    | inr e ↦ rw e (record {
      configuration = refl;
      size = refl;
      total = omega (arith, length-append s.results (r ∷ []));
      processed = refl;
      failed = refl;
      opened = refl;
      failures = refl;
    })
  ]

  put_result-IsBounded :
      (s : SharedInferenceScheduler O) (r : ScheduledResult O)
      → IsBounded s
      → IsBounded (put_result s r)
  unfolding put_result
  put_result-IsBounded s r h = ground (
    arith,
    length-append (drop 1 s.results) (r ∷ []),
    length-append s.results (r ∷ []),
    length-drop 1 s.results,
  )

  pub put_results-Puts :
      (s : SharedInferenceScheduler O) (aged_at : ℕ → ℕ) (batch : List FramePacket)
      (outputs : List O)
      → length outputs ≡ length batch
      → Puts (length batch) s (put_results s aged_at batch outputs)
  unfolding put_results
  put_results-Puts s aged_at [] outputs e = record {
    configuration = refl;
    size = refl;
    total = omega arith;
    processed = refl;
    failed = refl;
    opened = refl;
    failures = refl;
  }
  put_results-Puts s aged_at (p ∷ batch) [] e = absurd (omega (arith, e))
  put_results-Puts s aged_at (p ∷ batch) (o ∷ outputs) e =
      let r = result_of p (aged_at (length batch)) o in
      let first = put_result-Puts s r in
      let rest = put_results-Puts (put_result s r) aged_at batch outputs (omega (arith, e)) in
      record {
        configuration = rest.configuration ∙ first.configuration;
        size = rest.size ∙ first.size;
        total = omega (arith, rest.total, first.total);
        processed = rest.processed ∙ first.processed;
        failed = rest.failed ∙ first.failed;
        opened = rest.opened ∙ first.opened;
        failures = rest.failures ∙ first.failures;
      }

  pub put_results-IsBounded :
      (s : SharedInferenceScheduler O) (aged_at : ℕ → ℕ) (batch : List FramePacket)
      (outputs : List O)
      → IsBounded s
      → IsBounded (put_results s aged_at batch outputs)
  unfolding put_results
  put_results-IsBounded s aged_at [] outputs h = h
  put_results-IsBounded s aged_at (p ∷ batch) [] h = h
  put_results-IsBounded s aged_at (p ∷ batch) (o ∷ outputs) h =
      let r = result_of p (aged_at (length batch)) o in
      put_results-IsBounded (put_result s r) aged_at batch outputs (put_result-IsBounded s r h)
