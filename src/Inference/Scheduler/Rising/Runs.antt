-- ===== src/Inference/Scheduler/Rising/Runs.antt =====
-- The frames that the shared scheduler hands to the pipeline, in any order of calls.
use computer_vision.Common.{
  ℕ, ◌*◌, ◌≤◌, ◌≡◌, refl, ap, ◌∙◌, inl, inr, String, Option, none, some, List, [], ◌∷◌, ◌++◌,
  length, arith, eqb, ltb, lookup, AllEntries-insert, AllEntries-lookup, text_key, Bool-cases,
  Option-cases,
}
use computer_vision.Capture.LatestFrame.{Array, FramePacket, Stamps}
use computer_vision.Inference.Scheduler.{
  SharedInferenceScheduler, Clock, collect_loop, collect_batch, result_of, put_result, put_results,
  get_result, fail_batch, finish_batch, answer_batch, process, run_once,
}
use computer_vision.Inference.Scheduler.Accounts.{
  Call, publish_call, run_call, take_call, publish_to,
}
use computer_vision.Inference.Scheduler.Rising.{
  IsRising, IsRising-later, last_of, last_of-insert, IsNamed, publish-name,
}
use computer_vision.Inference.Scheduler.Rising.Taken.{
  collect_loop-Takes, Takes-packets, packets_of, handed,
}

module _ {ℓ} {O : Type ℓ} where
  put_results-lanes :
      (s : SharedInferenceScheduler O) (aged_at : ℕ → ℕ) (batch : List FramePacket)
      (outputs : List O)
      → (put_results s aged_at batch outputs).lanes ≡ s.lanes
  unfolding put_results put_result
  put_results-lanes s aged_at [] outputs = refl
  put_results-lanes s aged_at (p ∷ batch) [] = refl
  put_results-lanes s aged_at (p ∷ batch) (o ∷ outputs) =
      put_results-lanes (put_result s (result_of p (aged_at (length batch)) o)) aged_at batch
        outputs
      ∙ ground arith

  fail_batch-lanes : (s : SharedInferenceScheduler O) (now : ℕ) → (fail_batch s now).lanes ≡ s.lanes
  unfolding fail_batch
  fail_batch-lanes s now = ground arith

  finish_batch-lanes :
      (s : SharedInferenceScheduler O) (clock : Clock) (batch : List FramePacket) (outputs : List O)
      → (finish_batch s clock batch outputs).lanes ≡ s.lanes
  unfolding finish_batch
  finish_batch-lanes s clock batch outputs = put_results-lanes _ clock.aged_at batch outputs

  answer_batch-lanes :
      (s : SharedInferenceScheduler O) (clock : Clock) (batch : List FramePacket)
      (answer : Option (List O))
      → (answer_batch s clock batch answer).0.lanes ≡ s.lanes
  unfolding answer_batch
  answer_batch-lanes s clock batch none = fail_batch-lanes s clock.failed_at
  answer_batch-lanes s clock batch (some outputs) =
      elim (Bool-cases (ltb (s.configuration.inference_timeout_ms * 1000000) clock.elapsed_ns)) [
        | inl late ↦ rw late (fail_batch-lanes s clock.failed_at)
        | inr in_time ↦ elim (Bool-cases (eqb (length outputs) (length batch))) [
          | inl matched ↦ rw (in_time, matched) (finish_batch-lanes s clock batch outputs)
          | inr lost ↦ rw (in_time, lost) (fail_batch-lanes s clock.failed_at)
        ]
      ]

  process-lanes :
      (infer : List FramePacket → Option (List O)) (s : SharedInferenceScheduler O)
      (collected : Option (List FramePacket)) (clock : Clock)
      → (process infer (s, collected) clock).0.lanes ≡ s.lanes
  unfolding process
  process-lanes infer s none clock = refl
  process-lanes infer s (some []) clock = refl
  process-lanes infer s (some (p ∷ batch)) clock =
      answer_batch-lanes s clock (p ∷ batch) (infer (p ∷ batch))

  run_once-IsRising :
      (infer : List FramePacket → Option (List O)) (s : SharedInferenceScheduler O) (clock : Clock)
      → IsNamed s.lanes
      → IsNamed (run_once infer s clock).0.lanes
        × ((later : List FramePacket)
            → IsRising (last_of (run_once infer s clock).0.lanes) later
            → IsRising (last_of s.lanes) (handed s clock ++ later))
  unfolding run_once collect_batch
  run_once-IsRising infer s clock v = elim (Bool-cases (ltb clock.gate s.circuit_open_until_ns)) [
    | inl closed ↦ rw closed (v, λ later h. h)
    | inr open_gate ↦
        let r = collect_loop (length s.camera_order) s clock.visits [] in
        let h = collect_loop-Takes (length s.camera_order) s clock.visits [] v in
        let lanes : (process infer (r.0, r.1) clock).0.lanes ≡ r.0.lanes =
          process-lanes infer r.0 r.1 clock in
        rw (open_gate, lanes) (h.named, λ later k. Takes-packets s r later h k)
  ]

  process-handed :
      (infer other : List FramePacket → Option (List O)) (s : SharedInferenceScheduler O)
      (collected : Option (List FramePacket)) (clock : Clock)
      → infer (packets_of collected) ≡ other (packets_of collected)
      → process infer (s, collected) clock ≡ process other (s, collected) clock
  unfolding process
  process-handed infer other s none clock same = refl
  process-handed infer other s (some []) clock same = refl
  process-handed infer other s (some (p ∷ batch)) clock same =
      ap
        (λ answer. (
          (answer_batch s clock (p ∷ batch) answer).0,
          some (answer_batch s clock (p ∷ batch) answer).1,
        ))
        same

  -- The pipeline is asked for no other packets: one that answers these alike makes no difference.
  pub run_once-handed :
      (infer other : List FramePacket → Option (List O)) (s : SharedInferenceScheduler O)
      (clock : Clock)
      → infer (handed s clock) ≡ other (handed s clock)
      → run_once infer s clock ≡ run_once other s clock
  unfolding run_once
  run_once-handed infer other s clock same =
      elim (Bool-cases (ltb clock.gate s.circuit_open_until_ns)) [
        | inl closed ↦ rw closed refl
        | inr open_gate ↦
            let r = collect_batch s clock.visits in
            let here : infer (packets_of r.1) ≡ other (packets_of r.1) = rw open_gate at same in
            rw open_gate (process-handed infer other r.0 r.1 clock here)
      ]

  publish_to-IsRising :
      (s : SharedInferenceScheduler O) (c : String) (frame : Array) (t : Stamps)
      → IsNamed s.lanes
      → IsNamed (publish_to s c frame t).lanes
        × ((j : String) → last_of s.lanes j ≤ last_of (publish_to s c frame t).lanes j)
  unfolding publish_to
  publish_to-IsRising s c frame t v = elim (Option-cases (lookup c s.lanes)) [
    | inl unknown ↦ rw (publish_to, unknown) (v, λ j. omega arith)
    | inr (lane, known) ↦
        rw (publish_to, known)
          (
            AllEntries-insert _ c _ s.lanes v
                (publish-name lane.buffer frame t ∙ AllEntries-lookup _ c lane s.lanes v known),
            λ j. last_of-insert s.lanes c lane _ j known (omega arith),
          )
  ]

  -- All packets that are handed to the pipeline during the calls, in their order.
  unfoldable pub handed_all : SharedInferenceScheduler O → List (Call O) → List FramePacket
  handed_all s [] = []
  handed_all s (publish_call c frame t ∷ calls) = handed_all (publish_to s c frame t) calls
  handed_all s (run_call infer clock ∷ calls) =
      handed s clock ++ handed_all (run_once infer s clock).0 calls
  handed_all s (take_call ∷ calls) = handed_all (get_result s).0 calls

  get_result-lanes : (s : SharedInferenceScheduler O) → (get_result s).0.lanes ≡ s.lanes
  unfolding get_result
  get_result-lanes s = ground arith

  -- Where the buffers have their cameras' names, through any calls of capture processes, the scheduler
  -- and the consumer in any order, and whatever the pipeline answers: of the packets that are handed to
  -- the pipeline, each has a greater frame number than all packets of its camera before it, so that no
  -- frame is handed over twice.
  pub handed_all-IsRising :
      (s : SharedInferenceScheduler O) (calls : List (Call O))
      → IsNamed s.lanes
      → IsRising (last_of s.lanes) (handed_all s calls)
  unfolding handed_all
  handed_all-IsRising s [] v = tt
  handed_all-IsRising s (publish_call c frame t ∷ calls) v =
      let s' = publish_to s c frame t in
      let (named, le) = publish_to-IsRising s c frame t v in
      IsRising-later (last_of s.lanes) (last_of s'.lanes) (handed_all s' calls) le
        (handed_all-IsRising s' calls named)
  handed_all-IsRising s (run_call infer clock ∷ calls) v =
      let s' = (run_once infer s clock).0 in
      let (named, rising) = run_once-IsRising infer s clock v in
      rising (handed_all s' calls) (handed_all-IsRising s' calls named)
  handed_all-IsRising s (take_call ∷ calls) v =
      let s' = (get_result s).0 in
      IsRising-later (last_of s.lanes) (last_of s'.lanes) (handed_all s' calls)
        (λ j. omega (arith, ap (λ d. last_of d j) (get_result-lanes s)))
        (handed_all-IsRising s' calls (rw (get_result-lanes s) v))
