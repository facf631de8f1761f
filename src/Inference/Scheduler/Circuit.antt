-- ===== src/Inference/Scheduler/Circuit.antt =====
-- The circuit breaker of the shared scheduler: batches that fail in a row, and what follows them.
use computer_vision.Common.{
  ℕ, ◌+◌, ◌*◌, ◌<◌, ◌≡◌, ◌≢◌, refl, ap, ◌∙◌, Option, none, some, List, [], ◌∷◌, arith, length,
  eqb_iff,
}
use computer_vision.Capture.LatestFrame.{FramePacket}
use computer_vision.Inference.Scheduler.{
  SchedulerConfig, SharedInferenceScheduler, Clock, fail_batch, answer_batch, run_once,
}

-- A batch that was collected, and what the pipeline answers for it.
pub record Attempt {ℓ} (O : Type ℓ) : Type ℓ where
  pub clock : Clock
  pub batch : List FramePacket
  pub answer : Option (List O)

-- The pipeline raises, exceeds its deadline, or answers for another number of packets.
pub data Fails {ℓ} {O : Type ℓ} (k : SchedulerConfig) (a : Attempt O) : Type ℓ where
  raises : a.answer ≡ none → Fails k a
  is_late : k.inference_timeout_ms * 1000000 < a.clock.elapsed_ns → Fails k a
  loses : (outputs : List O) → a.answer ≡ some outputs → length outputs ≢ length a.batch → Fails k a

module _ {ℓ} {O : Type ℓ} where
  abbrev pub AllFail : SchedulerConfig → List (Attempt O) → Type ℓ
  AllFail k [] = Unit
  AllFail k (a ∷ attempts) = Fails k a × AllFail k attempts

  abbrev pub answered : SharedInferenceScheduler O → Attempt O → SharedInferenceScheduler O
  answered s a = (answer_batch s a.clock a.batch a.answer).0

  unfoldable pub answer_all :
      SharedInferenceScheduler O → List (Attempt O) → SharedInferenceScheduler O
  answer_all s [] = s
  answer_all s (a ∷ attempts) = answer_all (answered s a) attempts

  answer_batch-late :
      (s : SharedInferenceScheduler O) (clock : Clock) (batch : List FramePacket)
      (answer : Option (List O))
      → s.configuration.inference_timeout_ms * 1000000 < clock.elapsed_ns
      → (answer_batch s clock batch answer).0 ≡ fail_batch s clock.failed_at
  unfolding answer_batch
  answer_batch-late s clock batch none h = refl
  answer_batch-late s clock batch (some outputs) h = ground arith

  answer_batch-Fails :
      (s : SharedInferenceScheduler O) (a : Attempt O)
      → Fails s.configuration a
      → (answer_batch s a.clock a.batch a.answer).0 ≡ fail_batch s a.clock.failed_at
  unfolding answer_batch
  answer_batch-Fails s a (raises e) = rw e refl
  answer_batch-Fails s a (is_late h) = answer_batch-late s a.clock a.batch a.answer h
  answer_batch-Fails s a (loses outputs e h) =
      rw e (ground (arith, eqb_iff (length outputs) (length a.batch)))

  run_once-early :
      (infer : List FramePacket → Option (List O)) (s : SharedInferenceScheduler O) (clock : Clock)
      → clock.gate < s.circuit_open_until_ns
      → run_once infer s clock ≡ (s, some 0)
  unfolding run_once
  run_once-early infer s clock h = ground arith

  fail_batch-few :
      (s : SharedInferenceScheduler O) (now : ℕ)
      → s.consecutive_failures + 1 < s.configuration.circuit_breaker_failures
      → ((fail_batch s now).consecutive_failures ≡ s.consecutive_failures + 1)
        × ((fail_batch s now).circuit_open_until_ns ≡ s.circuit_open_until_ns)
        × ((fail_batch s now).configuration ≡ s.configuration)
  unfolding fail_batch
  fail_batch-few s now h = (ground arith, ground arith, ground arith)

  fail_batch-last :
      (s : SharedInferenceScheduler O) (now : ℕ)
      → s.consecutive_failures + 1 ≡ s.configuration.circuit_breaker_failures
      → ((fail_batch s now).consecutive_failures ≡ 0)
        × ((fail_batch s now).circuit_open_until_ns
            ≡ now + s.configuration.circuit_breaker_reset_ms * 1000000)
  unfolding fail_batch
  fail_batch-last s now h = (ground arith, ground arith)

  answer_all-Fails :
      (s : SharedInferenceScheduler O) (a : Attempt O) (attempts : List (Attempt O))
      → Fails s.configuration a
      → answer_all s (a ∷ attempts) ≡ answer_all (fail_batch s a.clock.failed_at) attempts
  unfolding answer_all
  answer_all-Fails s a attempts h = ap (λ t. answer_all t attempts) (answer_batch-Fails s a h)

  answer_all-few :
      (s : SharedInferenceScheduler O) (attempts : List (Attempt O))
      → AllFail s.configuration attempts
      → s.consecutive_failures + length attempts < s.configuration.circuit_breaker_failures
      → ((answer_all s attempts).consecutive_failures ≡ s.consecutive_failures + length attempts)
        × ((answer_all s attempts).circuit_open_until_ns ≡ s.circuit_open_until_ns)
        × ((answer_all s attempts).configuration ≡ s.configuration)
  unfolding answer_all
  answer_all-few s [] h few = (omega arith, refl, refl)
  answer_all-few s (a ∷ attempts) h few =
      let t = fail_batch s a.clock.failed_at in
      let (failures, until, config) = fail_batch-few s a.clock.failed_at (omega (arith, few)) in
      let limit : t.configuration.circuit_breaker_failures
          ≡ s.configuration.circuit_breaker_failures =
        ap (λ k. k.circuit_breaker_failures) config in
      let (f, u, k) =
        answer_all-few t attempts (rw config h.1) (omega (arith, failures, limit, few)) in
      rw (answer_all-Fails s a attempts h.0) (omega (arith, f, failures), u ∙ until, k ∙ config)

  -- Batches fail in a row, because the pipeline raises, is late or loses outputs, and the last of them
  -- reaches the configured limit: none before the last one opens the circuit, the last one opens it
  -- for the configured time, the count starts again, and until then the scheduler does nothing.
  pub answer_all-opens :
      (s : SharedInferenceScheduler O) (attempts : List (Attempt O)) (last : Attempt O)
      (infer : List FramePacket → Option (List O)) (clock : Clock)
      → AllFail s.configuration attempts
      → Fails s.configuration last
      → s.consecutive_failures + length attempts + 1 ≡ s.configuration.circuit_breaker_failures
      → clock.gate < last.clock.failed_at + s.configuration.circuit_breaker_reset_ms * 1000000
      → ((answer_all s attempts).circuit_open_until_ns ≡ s.circuit_open_until_ns)
        × ((answered (answer_all s attempts) last).circuit_open_until_ns
            ≡ last.clock.failed_at + s.configuration.circuit_breaker_reset_ms * 1000000)
        × ((answered (answer_all s attempts) last).consecutive_failures ≡ 0)
        × (run_once infer (answered (answer_all s attempts) last) clock
            ≡ (answered (answer_all s attempts) last, some 0))
  answer_all-opens s attempts last infer clock h e limit early =
      let t = answer_all s attempts in
      let (failures, until, config) = answer_all-few s attempts h (omega (arith, limit)) in
      let same : t.configuration.circuit_breaker_failures
          ≡ s.configuration.circuit_breaker_failures =
        ap (λ k. k.circuit_breaker_failures) config in
      let reset : t.configuration.circuit_breaker_reset_ms
          ≡ s.configuration.circuit_breaker_reset_ms =
        ap (λ k. k.circuit_breaker_reset_ms) config in
      let (zeroed, opened) =
        fail_batch-last t last.clock.failed_at (omega (arith, failures, same, limit)) in
      let opened' = opened ∙ ap (λ r. last.clock.failed_at + r * 1000000) reset in
      rw (answer_batch-Fails t last (rw config e)) (
        until,
        opened',
        zeroed,
        run_once-early infer (fail_batch t last.clock.failed_at) clock
            (omega (arith, opened', early)),
      )
