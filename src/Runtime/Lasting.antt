-- ===== src/Runtime/Lasting.antt =====
-- What keeps the two threads of the runtime going: every result is of a camera that has a tracker, and
-- the queues keep their bounds.
pub mod Tracked
pub mod Posed
pub mod Runs
use mathlib.Core.Bool.{◌||◌}
use mathlib.Core.Path.{subst}
use computer_vision.Common.{
  ℕ, suc, ◌+◌, ◌≤◌, ◌<◌, ◌≡◌, refl, sym, ◌∙◌, inl, inr, String, Bool, true, false, Option, none,
  some, List, [], ◌∷◌, ◌++◌, length, drop, arith, lookup, ◌==◌, text_key, Bool-cases, Option-cases,
  Numbers, if◌then◌else◌, List-cases,
}
use computer_vision.Errors.{Result, ok, err}
use computer_vision.Capture.LatestFrame.{FramePacket}
use computer_vision.Vision.{Detection, TrackedDetection, PoseResult}
use computer_vision.Tracking.Kalman.{Arrays}
use computer_vision.Tracking.Tracker.{ByteTracker, Track, costs}
use computer_vision.Tracking.Tracker.Assigned.{AllWithin}
use computer_vision.Tracking.Manager.{TrackerManager, updated, update_camera}
use computer_vision.Tracking.Manager.Isolation.{AllValid, Isolated, update_camera-Isolated}
use computer_vision.Inference.Scheduler.{
  SharedInferenceScheduler, ScheduledResult, full, put_result, get_result,
}
use computer_vision.Inference.PoseQueue.{BoundedPoseQueue, PoseRequest, put}
use computer_vision.Inference.PoseQueue.Accounts.{IsAccounted, put-Puts}
use computer_vision.Inference.Rtmpose.{PoseTarget}
use computer_vision.Runtime.{
  Queue, Phase2Runtime, put_latest, request_of, is_early, after_put, request_pose, request_poses,
  ask_poses, with_tracks, after_update, consume_result, consume, collect_requests, store_poses,
  after_infer, infer_poses, run_pose,
}
use computer_vision.Runtime.Waiting.{IsWithin, newest, put_latest-newest, length-newest}
use computer_vision.Runtime.Collected.{collect_requests-Collected}

module _ (n : Numbers) (a : Arrays n) where
  abbrev pub HasTracker : TrackerManager n a → String → Type 0
  HasTracker m c = (t : ByteTracker n a) × (lookup c m.trackers ≡ some t)

  abbrev pub AllKnown : TrackerManager n a → List (ScheduledResult (List (Detection n))) → Type 0
  AllKnown m [] = Unit
  AllKnown m (r ∷ rs) = HasTracker m r.camera_id × AllKnown m rs

  pub record IsLasting (s : Phase2Runtime n a) : Type 0 where
    pub trackers : AllValid n a s.trackers
    pub known : AllKnown s.trackers s.scheduler.results
    pub positive : 0 < s.pose_requests.maxsize
    pub bounded : length s.pose_requests.heap ≤ s.pose_requests.maxsize
    pub tracks : IsWithin s.track_results
    pub poses : IsWithin s.pose_results

  -- A turn that no exception ends, after which the runtime lasts and has the cameras that it had.
  pub record Lasts (s : Phase2Runtime n a) (o : Phase2Runtime n a × Bool) : Type 0 where
    pub going : o.1 ≡ false
    pub lasting : IsLasting o.0
    pub cameras : (c : String) → HasTracker s.trackers c → HasTracker o.0.trackers c

  pub Lasts-trans :
      (s t : Phase2Runtime n a) (o : Phase2Runtime n a × Bool)
      → ((c : String) → HasTracker s.trackers c → HasTracker t.trackers c)
      → Lasts t o
      → Lasts s o
  Lasts-trans s t o h l = record {
    going = l.going;
    lasting = l.lasting;
    cameras = λ c known. l.cameras c (h c known);
  }

  pub AllKnown-cameras :
      (m m' : TrackerManager n a) (rs : List (ScheduledResult (List (Detection n))))
      → ((c : String) → HasTracker m c → HasTracker m' c)
      → AllKnown m rs
      → AllKnown m' rs
  AllKnown-cameras m m' [] h k = tt
  AllKnown-cameras m m' (r ∷ rs) h k = (h r.camera_id k.0, AllKnown-cameras m m' rs h k.1)

  AllKnown-append :
      (m : TrackerManager n a) (rs : List (ScheduledResult (List (Detection n))))
      (r : ScheduledResult (List (Detection n)))
      → AllKnown m rs
      → HasTracker m r.camera_id
      → AllKnown m (rs ++ r ∷ [])
  AllKnown-append m [] r k h = (h, tt)
  AllKnown-append m (x ∷ rs) r k h = (k.0, AllKnown-append m rs r k.1 h)

  AllKnown-drop :
      (m : TrackerManager n a) (rs : List (ScheduledResult (List (Detection n))))
      → AllKnown m rs
      → AllKnown m (drop 1 rs)
  AllKnown-drop m [] k = tt
  AllKnown-drop m (r ∷ rs) k = k.1

  -- The scheduler's thread puts a result of a known camera.
  pub put_result-IsLasting :
      (s : Phase2Runtime n a) (r : ScheduledResult (List (Detection n)))
      → HasTracker s.trackers r.camera_id
      → IsLasting s
      → IsLasting (record s { scheduler = put_result s.scheduler r })
  unfolding put_result
  put_result-IsLasting s r k h = record {
    trackers = h.trackers;
    known = elim (Bool-cases (full s.scheduler)) [
      | inl e ↦ rw e (
          AllKnown-append s.trackers (drop 1 s.scheduler.results) r
            (AllKnown-drop s.trackers s.scheduler.results h.known) k)
      | inr e ↦ rw e (AllKnown-append s.trackers s.scheduler.results r h.known k)
    ];
    positive = h.positive;
    bounded = h.bounded;
    tracks = h.tracks;
    poses = h.poses;
  }

  abbrev pub IsKnown : TrackerManager n a → Option (ScheduledResult (List (Detection n))) → Type 0
  IsKnown m none = Unit
  IsKnown m (some r) = HasTracker m r.camera_id

  pub get_result-AllKnown :
      (m : TrackerManager n a) (q : SharedInferenceScheduler (List (Detection n)))
      → AllKnown m q.results
      → AllKnown m (get_result q).0.results × IsKnown m (get_result q).1
  unfolding get_result
  get_result-AllKnown m q k = elim (List-cases q.results) [
    | inl e ↦ rw (get_result, e, e) (tt, tt)
    | inr (r, rest, e) ↦ let known = subst (AllKnown m) e k in rw (get_result, e) (known.1, known.0)
  ]
