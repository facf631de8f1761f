-- ===== src/Inference/Scheduler/Accounts.antt =====
-- The counters of the shared scheduler, its queue of results and its circuit breaker, through calls of
-- the capture processes, of the scheduler's thread and of the consumer of the results.
use computer_vision.Common.{
  ℕ, suc, max, ◌+◌, ◌*◌, ◌≤◌, ◌<◌, ◌≡◌, ap, inl, inr, String, Option, none, some, List, [], ◌∷◌,
  arith, length, eqb, eqb_iff, ltb, leb, lookup, text_key, insert, Bool-cases, Option-cases,
  List-cases,
}
use computer_vision.Capture.LatestFrame.{FramePacket, Array, Stamps, publish}
use computer_vision.Inference.Scheduler.{
  SharedInferenceScheduler, ScheduledResult, Clock, get_result, collect_batch, fail_batch,
  finish_batch, answer_batch, process, run_once,
}
use computer_vision.Inference.Scheduler.Collecting.{SameAccounts, collect_loop-SameAccounts}
use computer_vision.Inference.Scheduler.Results.{IsBounded, put_results-Puts, put_results-IsBounded}

-- `taken` counts the results that the consumer took.
pub record IsBalanced {ℓ} {O : Type ℓ} (s : SharedInferenceScheduler O) (taken : ℕ) : Type 0 where
  pub total : s.metrics.processed_frames ≡ length s.results + s.metrics.result_drops + taken
  pub bounded : IsBounded s
  pub closed : s.consecutive_failures < s.configuration.circuit_breaker_failures
  pub opened :
      s.metrics.circuit_open_count * s.configuration.circuit_breaker_failures
        + s.consecutive_failures
      ≤ s.metrics.failed_batches

one_more :
    (n limit k f : ℕ) → n * limit + k ≤ f → k < limit → limit ≤ k + 1 → (n + 1) * limit + 0 ≤ f + 1
one_more n limit k f h lt le = omega (arith, h)

pub data Call {ℓ} (O : Type ℓ) : Type ℓ where
  publish_call : String → Array → Stamps → Call O
  run_call : (List FramePacket → Option (List O)) → Clock → Call O
  take_call : Call O

module _ {ℓ} {O : Type ℓ} where
  -- A capture process publishes into the buffer of the camera `c`.
  unfoldable pub publish_to :
      SharedInferenceScheduler O → String → Array → Stamps → SharedInferenceScheduler O
  publish_to s c frame t = elim (lookup c s.lanes) [
    | none ↦ s
    | some lane ↦ record s {
      lanes = insert c (record lane { buffer = (publish lane.buffer frame t).0 }) s.lanes;
    }
  ]

  abbrev pub count : Option (ScheduledResult O) → ℕ
  count none = 0
  count (some _) = 1

  -- The scheduler after the calls, and how many results the consumer has taken.
  unfoldable pub run :
      SharedInferenceScheduler O → ℕ → List (Call O) → SharedInferenceScheduler O × ℕ
  run s taken [] = (s, taken)
  run s taken (publish_call c frame t ∷ calls) = run (publish_to s c frame t) taken calls
  run s taken (run_call infer clock ∷ calls) = run (run_once infer s clock).0 taken calls
  run s taken (take_call ∷ calls) =
      let (s', result) = get_result s in run s' (taken + count result) calls

  fail_batch-IsBalanced :
      (s : SharedInferenceScheduler O) (now taken : ℕ)
      → IsBalanced s taken
      → IsBalanced (fail_batch s now) taken
  unfolding fail_batch
  fail_batch-IsBalanced s now taken v =
      elim (Bool-cases
        (leb s.configuration.circuit_breaker_failures (s.consecutive_failures + 1))) [
          | inl e ↦ rw e (record {
            total = v.total;
            bounded = v.bounded;
            closed = ground arith;
            opened =
                one_more s.metrics.circuit_open_count s.configuration.circuit_breaker_failures
                  s.consecutive_failures s.metrics.failed_batches v.opened v.closed (ground arith);
          })
          | inr e ↦ rw e (record {
            total = v.total;
            bounded = v.bounded;
            closed = ground arith;
            opened = omega (arith, v.opened);
          })
        ]

  IsBalanced-SameAccounts :
      (s t : SharedInferenceScheduler O) (taken : ℕ)
      → SameAccounts s t
      → IsBalanced s taken
      → IsBalanced t taken
  IsBalanced-SameAccounts s t taken h v = record {
    total = rw (h.processed, h.results, h.drops) v.total;
    bounded = rw (h.size, h.results) v.bounded;
    closed = rw (h.failures, h.configuration) v.closed;
    opened = rw (h.opened, h.configuration, h.failures, h.failed) v.opened;
  }

  finish_batch-IsBalanced :
      (s : SharedInferenceScheduler O) (clock : Clock) (batch : List FramePacket) (outputs : List O)
      (taken : ℕ)
      → length outputs ≡ length batch
      → IsBalanced s taken
      → IsBalanced (finish_batch s clock batch outputs) taken
  unfolding finish_batch
  finish_batch-IsBalanced s clock batch outputs taken e v =
      let s' = record s {
        consecutive_failures = 0;
        metrics = record s.metrics {
          last_batch_latency_ns = clock.elapsed_ns;
          maximum_batch_latency_ns = max s.metrics.maximum_batch_latency_ns clock.elapsed_ns;
        };
      } in
      let h = put_results-Puts s' clock.aged_at batch outputs e in
      record {
        total = omega (arith, h.total, h.processed, v.total);
        bounded = put_results-IsBounded s' clock.aged_at batch outputs v.bounded;
        closed = rw (h.failures, h.configuration) (omega (arith, v.closed));
        opened = rw (h.opened, h.configuration, h.failures, h.failed) (omega (arith, v.opened));
      }

  answer_batch-IsBalanced :
      (s : SharedInferenceScheduler O) (clock : Clock) (batch : List FramePacket)
      (answer : Option (List O)) (taken : ℕ)
      → IsBalanced s taken
      → IsBalanced (answer_batch s clock batch answer).0 taken
  unfolding answer_batch
  answer_batch-IsBalanced s clock batch none taken v =
      fail_batch-IsBalanced s clock.failed_at taken v
  answer_batch-IsBalanced s clock batch (some outputs) taken v =
      elim (Bool-cases (ltb (s.configuration.inference_timeout_ms * 1000000) clock.elapsed_ns)) [
        | inl late ↦ rw late (fail_batch-IsBalanced s clock.failed_at taken v)
        | inr in_time ↦ elim (Bool-cases (eqb (length outputs) (length batch))) [
          | inl matched ↦
              rw (in_time, matched)
                (finish_batch-IsBalanced s clock batch outputs taken
                  ((eqb_iff (length outputs) (length batch)).0 matched) v)
          | inr lost ↦ rw (in_time, lost) (fail_batch-IsBalanced s clock.failed_at taken v)
        ]
      ]

  process-IsBalanced :
      (infer : List FramePacket → Option (List O)) (s : SharedInferenceScheduler O)
      (collected : Option (List FramePacket)) (clock : Clock) (taken : ℕ)
      → IsBalanced s taken
      → IsBalanced (process infer (s, collected) clock).0 taken
  unfolding process
  process-IsBalanced infer s none clock taken v = v
  process-IsBalanced infer s (some []) clock taken v = v
  process-IsBalanced infer s (some (p ∷ batch)) clock taken v =
      answer_batch-IsBalanced s clock (p ∷ batch) (infer (p ∷ batch)) taken v

  run_once-IsBalanced :
      (infer : List FramePacket → Option (List O)) (s : SharedInferenceScheduler O) (clock : Clock)
      (taken : ℕ)
      → IsBalanced s taken
      → IsBalanced (run_once infer s clock).0 taken
  unfolding run_once collect_batch
  run_once-IsBalanced infer s clock taken v =
      elim (Bool-cases (ltb clock.gate s.circuit_open_until_ns)) [
        | inl opened ↦ rw opened v
        | inr closed ↦
            let r = collect_batch s clock.visits in
            rw closed (
              process-IsBalanced infer r.0 r.1 clock taken (
                IsBalanced-SameAccounts s r.0 taken
                  (collect_loop-SameAccounts (length s.camera_order) s clock.visits []) v))
      ]

  get_result-IsBalanced :
      (s : SharedInferenceScheduler O) (taken : ℕ)
      → IsBalanced s taken
      → IsBalanced (get_result s).0 (taken + count (get_result s).1)
  unfolding get_result
  get_result-IsBalanced s taken v = elim (List-cases s.results) [
    | inl none_left ↦
        rw (none_left, get_result)
          (record {
            total = omega (arith, v.total);
            bounded = v.bounded;
            closed = v.closed;
            opened = v.opened;
          })
    | inr (x, rest, found) ↦
        let n : length s.results ≡ suc (length rest) = ap length found in
        rw (found, get_result)
          (record {
            total = omega (arith, v.total, n);
            bounded = omega (arith, v.bounded, n);
            closed = v.closed;
            opened = v.opened;
          })
  ]

  publish_to-IsBalanced :
      (s : SharedInferenceScheduler O) (c : String) (frame : Array) (t : Stamps) (taken : ℕ)
      → IsBalanced s taken
      → IsBalanced (publish_to s c frame t) taken
  unfolding publish_to
  publish_to-IsBalanced s c frame t taken v = elim (Option-cases (lookup c s.lanes)) [
    | inl unknown ↦ rw (unknown, publish_to) v
    | inr (lane, known) ↦
        rw (known, publish_to)
          (record { total = v.total; bounded = v.bounded; closed = v.closed; opened = v.opened })
  ]

  -- From any balanced scheduler, through any calls in any order, whatever the pipeline answers: as many
  -- frames are processed as results wait, were taken or were dropped; the queue keeps its bound; the
  -- failures in a row stay below the configured limit; and the batches that failed are no fewer than
  -- the limit times how often the circuit opened, and the failures in a row.
  pub run-IsBalanced :
      (s : SharedInferenceScheduler O) (taken : ℕ) (calls : List (Call O))
      → IsBalanced s taken
      → IsBalanced (run s taken calls).0 (run s taken calls).1
  unfolding run
  run-IsBalanced s taken [] v = v
  run-IsBalanced s taken (publish_call c frame t ∷ calls) v =
      run-IsBalanced (publish_to s c frame t) taken calls
        (publish_to-IsBalanced s c frame t taken v)
  run-IsBalanced s taken (run_call infer clock ∷ calls) v =
      run-IsBalanced (run_once infer s clock).0 taken calls
        (run_once-IsBalanced infer s clock taken v)
  run-IsBalanced s taken (take_call ∷ calls) v =
      run-IsBalanced (get_result s).0 (taken + count (get_result s).1) calls
        (get_result-IsBalanced s taken v)
