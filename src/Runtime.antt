-- ===== src/Runtime.antt =====
-- edge_runtime/phase2_runtime.py: the two threads that turn detections into tracks and tracks into
-- poses. A turn of a thread is one function; its second component is true where an exception leaves
-- the loop, which ends the thread. The clocks, SciPy's assignment and the pose pipeline are arguments.
pub mod Waiting
pub mod Collected
pub mod Pacing
pub mod Lasting
mod Examples
use mathlib.Core.Bool.{◌&&◌, ◌||◌}
use computer_vision.Common.{
  ℕ, zero, suc, ◌+◌, String, Bool, true, false, Option, none, some, List, [], ◌∷◌, ◌++◌, length,
  drop, ltb, leb, Dict, lookup, insert, text_key, number_key, pair_key, Numbers, if◌then◌else◌,
}
use computer_vision.Errors.{Result, ok, err}
use computer_vision.Capture.LatestFrame.{FramePacket, age_ns}
use computer_vision.Vision.{BoundingBox, Detection, TrackedDetection, PoseResult, identity}
use computer_vision.Tracking.Kalman.{Arrays}
use computer_vision.Tracking.Manager.{
  TrackerManager, Updated, unknown_camera, index_error, updated, update_camera,
}
use computer_vision.Inference.Scheduler.{
  SharedInferenceScheduler, ScheduledResult, put_result, get_result,
}
use computer_vision.Inference.Rtmpose.{PoseTarget}
use computer_vision.Inference.PoseQueue.{
  PosePriority, PoseRequest, BoundedPoseQueue, put, get_request,
}

-- Python's `queue.Queue`, where a size of 0 is no bound.
pub record Queue {ℓ} (A : Type ℓ) : Type ℓ where
  pub maxsize : ℕ
  pub items : List A

abbrev pub is_full {ℓ} : {A : Type ℓ} → Queue A → Bool
is_full q = ltb 0 q.maxsize && leb q.maxsize (length q.items)

-- `put_nowait`, where `none` is `queue.Full`.
abbrev pub put_nowait {ℓ} : {A : Type ℓ} → Queue A → A → Option (Queue A)
put_nowait q v = if is_full q then none else some (record q { items = q.items ++ v ∷ [] })

-- `get_nowait`, which passes on an empty queue.
abbrev pub without_first {ℓ} : {A : Type ℓ} → Queue A → Queue A
without_first q = record q { items = drop 1 q.items }

unfoldable pub put_latest {ℓ} : {A : Type ℓ} → Queue A → A → Option (Queue A)
put_latest q v = put_nowait (if is_full q then without_first q else q) v

module _ (n : Numbers) (a : Arrays n) where
  abbrev pub as_xyxy : BoundingBox n → n.Number × n.Number × n.Number × n.Number
  as_xyxy b = (b.x1, b.y1, b.x2, b.y2)

  pub record Phase2Runtime : Type 0 where
    pub scheduler : SharedInferenceScheduler (List (Detection n))
    pub pose_requests : BoundedPoseQueue (PoseTarget n)
    pub trackers : TrackerManager n a
    pub has_pose_pipeline : Bool
    pub track_results : Queue (List (TrackedDetection n))
    pub pose_results : Queue (PoseResult n)
    pub last_pose_request_ns : Dict (String × ℕ) ℕ
    pub pose_interval_ns : ℕ

  abbrev pub or_zero : Option ℕ → ℕ
  or_zero none = 0
  or_zero (some last) = last

  -- `now_ns - self._last_pose_request_ns.get(identity, 0) < self._pose_interval_ns`
  abbrev pub is_early : Phase2Runtime → ℕ → TrackedDetection n → Bool
  is_early s now t =
      ltb now (or_zero (lookup (identity n t) s.last_pose_request_ns) + s.pose_interval_ns)

  abbrev pub request_of : FramePacket → ℕ → TrackedDetection n → PoseRequest (PoseTarget n)
  request_of frame now t = record {
    priority = PosePriority.medium;
    requested_at_monotonic_ns = now;
    content = record {
      camera_id = t.camera_id;
      track_id = t.track_id;
      frame = frame;
      bbox_xyxy = as_xyxy t.bbox;
    };
  }

  abbrev pub after_put :
      Phase2Runtime
      → ℕ
      → TrackedDetection n
      → BoundedPoseQueue (PoseTarget n) × Result Bool
      → Phase2Runtime × Bool
  after_put s now t (q, ok true) = (
    record s {
      pose_requests = q;
      last_pose_request_ns = insert (identity n t) now s.last_pose_request_ns;
    },
    false,
  )
  after_put s now t (q, ok false) = (record s { pose_requests = q }, false)
  after_put s now t (q, err e) = (record s { pose_requests = q }, true)

  -- One turn of the loop over the tracks.
  unfoldable pub request_pose :
      Phase2Runtime → FramePacket → ℕ → TrackedDetection n → Phase2Runtime × Bool
  request_pose s frame now t =
      if is_early s now t
      then (s, false)
      else after_put s now t (put (PoseTarget n) s.pose_requests (request_of frame now t))

  unfoldable pub request_poses :
      Phase2Runtime → FramePacket → ℕ → List (TrackedDetection n) → Phase2Runtime × Bool
  request_poses s frame now [] = (s, false)
  request_poses s frame now (t ∷ ts) =
      let (s', raised) = request_pose s frame now t in
      if raised then (s', true) else request_poses s' frame now ts

  -- What follows `if self.pose_pipeline is None`.
  abbrev pub ask_poses :
      Bool → Phase2Runtime → FramePacket → ℕ → List (TrackedDetection n) → Phase2Runtime × Bool
  ask_poses true s frame now ts = request_poses s frame now ts
  ask_poses false s frame now ts = (s, false)

  abbrev pub with_tracks :
      Phase2Runtime
      → FramePacket
      → ℕ
      → List (TrackedDetection n)
      → Option (Queue (List (TrackedDetection n)))
      → Phase2Runtime × Bool
  with_tracks s frame now ts none = (s, true)
  with_tracks s frame now ts (some q) =
      ask_poses s.has_pose_pipeline (record s { track_results = q }) frame now ts

  abbrev pub after_update : Phase2Runtime → FramePacket → ℕ → Updated n a → Phase2Runtime × Bool
  after_update s frame now unknown_camera = (s, true)
  after_update s frame now index_error = (s, true)
  after_update s frame now (updated m ts) =
      with_tracks (record s { trackers = m }) frame now ts (put_latest s.track_results ts)

  module _ (assign : List (List n.Number) → List (ℕ × ℕ)) where
    abbrev pub consume_result :
        Phase2Runtime
        → ℕ
        → SharedInferenceScheduler (List (Detection n))
          × Option (ScheduledResult (List (Detection n)))
        → Phase2Runtime × Bool
    consume_result s now (scheduler, none) = (record s { scheduler = scheduler }, false)
    consume_result s now (scheduler, some r) =
        after_update (record s { scheduler = scheduler }) r.frame now
          (update_camera n a assign r.camera_id r.output s.trackers)

    -- One turn of `_consume_detections`.
    unfoldable pub consume : Phase2Runtime → ℕ → Phase2Runtime × Bool
    consume s now = consume_result s now (get_result s.scheduler)

  -- `request.frame.age_ms <= 1_000`
  abbrev pub is_fresh : ℕ → PoseRequest (PoseTarget n) → Bool
  is_fresh now r = leb (age_ns r.content.frame now) 1000000000

  -- The inner loop of `_run_pose`, with a reading of the clock at each request. `none` is that the fuel
  -- ran out.
  unfoldable pub collect_requests :
      ℕ
      → (ℕ → ℕ)
      → BoundedPoseQueue (PoseTarget n)
      → List (PoseRequest (PoseTarget n))
      → Option (BoundedPoseQueue (PoseTarget n) × List (PoseRequest (PoseTarget n)))
  collect_requests zero clock q requests = none
  collect_requests (suc fuel) clock q requests = elim (leb 8 (length requests)) [
    | true ↦ some (q, requests)
    | false ↦ elim (get_request (PoseTarget n) q).1 [
      | none ↦ some ((get_request (PoseTarget n) q).0, requests)
      | some r ↦
          collect_requests fuel clock (get_request (PoseTarget n) q).0
            (if is_fresh (clock fuel) r then requests ++ r ∷ [] else requests)
    ]
  ]

  unfoldable pub store_poses : Phase2Runtime → List (PoseResult n) → Phase2Runtime × Bool
  store_poses s [] = (s, false)
  store_poses s (p ∷ ps) = elim (put_latest s.pose_results p) [
    | none ↦ (s, true)
    | some q ↦ store_poses (record s { pose_results = q }) ps
  ]

  module _ (infer : List (PoseRequest (PoseTarget n)) → Option (List (PoseResult n))) where
    abbrev pub after_infer : Phase2Runtime → Option (List (PoseResult n)) → Phase2Runtime × Bool
    after_infer s none = (s, false)
    after_infer s (some poses) = store_poses s poses

    -- With no request, the thread waits for the next turn.
    abbrev pub infer_poses :
        Phase2Runtime
        → Option (BoundedPoseQueue (PoseTarget n) × List (PoseRequest (PoseTarget n)))
        → Phase2Runtime × Bool
    infer_poses s none = (s, false)
    infer_poses s (some (q, [])) = (record s { pose_requests = q }, false)
    infer_poses s (some (q, r ∷ rs)) = after_infer (record s { pose_requests = q }) (infer (r ∷ rs))

    -- One turn of `_run_pose`. Its inner loop ends where the queue is empty, after as many rounds as it
    -- holds requests.
    unfoldable pub run_pose : Phase2Runtime → (ℕ → ℕ) → Phase2Runtime × Bool
    run_pose s clock =
        infer_poses s
          (collect_requests (suc (length s.pose_requests.heap)) clock s.pose_requests [])
