-- ===== src/Runtime/Lasting/Tracked.antt =====
-- A turn of `_consume_detections`.
use computer_vision.Common.{
  ℕ, ◌+◌, ◌≤◌, ◌<◌, ◌≡◌, refl, ◌∙◌, inl, inr, String, Bool, true, false, Option, none, some, List,
  [], ◌∷◌, ◌++◌, length, arith, lookup, ◌==◌, text_key, Bool-cases, Numbers, if◌then◌else◌,
}
use computer_vision.Errors.{Result, ok, err}
use computer_vision.Capture.LatestFrame.{FramePacket}
use computer_vision.Vision.{Detection, TrackedDetection}
use computer_vision.Tracking.Kalman.{Arrays}
use computer_vision.Tracking.Tracker.{ByteTracker, Track, costs}
use computer_vision.Tracking.Tracker.Assigned.{AllWithin}
use computer_vision.Tracking.Manager.{TrackerManager, updated, update_camera}
use computer_vision.Tracking.Manager.Isolation.{update_camera-Isolated}
use computer_vision.Inference.Scheduler.{SharedInferenceScheduler, ScheduledResult, get_result}
use computer_vision.Inference.PoseQueue.{BoundedPoseQueue, put}
use computer_vision.Inference.PoseQueue.Accounts.{put-Puts}
use computer_vision.Inference.Rtmpose.{PoseTarget}
use computer_vision.Runtime.{
  Phase2Runtime, put_latest, request_of, is_early, after_put, request_pose, request_poses,
  ask_poses, with_tracks, after_update, consume_result, consume,
}
use computer_vision.Runtime.Waiting.{newest, put_latest-newest, length-newest}
use computer_vision.Runtime.Lasting.{
  HasTracker, IsKnown, IsLasting, Lasts, Lasts-trans, AllKnown-cameras, get_result-AllKnown,
}

module _ (n : Numbers) (a : Arrays n) where
  after_put-Lasts :
      (s : Phase2Runtime n a) (now : ℕ) (t : TrackedDetection n)
      (o : BoundedPoseQueue (PoseTarget n) × Result Bool) (accepted : Bool)
      → o.1 ≡ ok accepted
      → 0 < o.0.maxsize
      → length o.0.heap ≤ o.0.maxsize
      → IsLasting n a s
      → Lasts n a s (after_put n a s now t o)
  after_put-Lasts s now t (q, ok true) accepted e p b h = record {
    going = refl;
    lasting = record {
      trackers = h.trackers;
      known = h.known;
      positive = p;
      bounded = b;
      tracks = h.tracks;
      poses = h.poses;
    };
    cameras = λ c known. known;
  }
  after_put-Lasts s now t (q, ok false) accepted e p b h = record {
    going = refl;
    lasting = record {
      trackers = h.trackers;
      known = h.known;
      positive = p;
      bounded = b;
      tracks = h.tracks;
      poses = h.poses;
    };
    cameras = λ c known. known;
  }
  after_put-Lasts s now t (q, err x) accepted e p b h = absurd (ground arith)

  request_pose-Lasts :
      (s : Phase2Runtime n a) (frame : FramePacket) (now : ℕ) (t : TrackedDetection n)
      → IsLasting n a s
      → Lasts n a s (request_pose n a s frame now t)
  unfolding request_pose
  request_pose-Lasts s frame now t h = elim (Bool-cases (is_early n a s now t)) [
    | inl early ↦ rw early (record { going = refl; lasting = h; cameras = λ c known. known })
    | inr due ↦
        let q = s.pose_requests in
        let p =
          put-Puts (PoseTarget n) q (length q.heap + 0 + q.dropped) 0 (request_of n a frame now t)
            (record { positive = h.positive; bounded = h.bounded; balanced = refl }) in
        rw due (
          after_put-Lasts s now t (put (PoseTarget n) q (request_of n a frame now t)) p.accepted
            p.answer p.accounted.positive p.accounted.bounded h)
  ]

  request_poses-Lasts :
      (s : Phase2Runtime n a) (frame : FramePacket) (now : ℕ) (ts : List (TrackedDetection n))
      → IsLasting n a s
      → Lasts n a s (request_poses n a s frame now ts)
  unfolding request_poses
  request_poses-Lasts s frame now [] h = record {
    going = refl;
    lasting = h;
    cameras = λ c known. known;
  }
  request_poses-Lasts s frame now (t ∷ ts) h =
      let one = request_pose-Lasts s frame now t h in
      rw one.going (
        Lasts-trans n a s (request_pose n a s frame now t).0
          (request_poses n a (request_pose n a s frame now t).0 frame now ts) one.cameras
          (request_poses-Lasts (request_pose n a s frame now t).0 frame now ts one.lasting))

  ask_poses-Lasts :
      (asks : Bool) (s : Phase2Runtime n a) (frame : FramePacket) (now : ℕ)
      (ts : List (TrackedDetection n))
      → IsLasting n a s
      → Lasts n a s (ask_poses n a asks s frame now ts)
  ask_poses-Lasts true s frame now ts h = request_poses-Lasts s frame now ts h
  ask_poses-Lasts false s frame now ts h = record {
    going = refl;
    lasting = h;
    cameras = λ c known. known;
  }

  -- Tracks that are stored, and asked poses for where there is a pipeline for them.
  with_tracks-Lasts :
      (s : Phase2Runtime n a) (frame : FramePacket) (now : ℕ) (ts : List (TrackedDetection n))
      → IsLasting n a s
      → Lasts n a s (with_tracks n a s frame now ts (put_latest s.track_results ts))
  with_tracks-Lasts s frame now ts h =
      let q = s.track_results in
      let items = newest q.maxsize (q.items ++ ts ∷ []) in
      let s' = record s { track_results = record q { items = items } } in
      let lasting : IsLasting n a s' = record {
        trackers = h.trackers;
        known = h.known;
        positive = h.positive;
        bounded = h.bounded;
        tracks = record {
          positive = h.tracks.positive;
          bounded = length-newest q.maxsize (q.items ++ ts ∷ []);
        };
        poses = h.poses;
      } in
      rw (put_latest-newest q ts h.tracks) (
        Lasts-trans n a s s' (ask_poses n a s.has_pose_pipeline s' frame now ts) (λ c known. known)
          (ask_poses-Lasts s.has_pose_pipeline s' frame now ts lasting))

  module _ (assign : List (List n.Number) → List (ℕ × ℕ))
      (within : (ts : List (Track n a)) (ds : List (Detection n))
        → AllWithin n a (length ts) (length ds) (assign (costs n a ts ds))) where
    -- The result of a known camera is tracked by that camera's tracker.
    update-Lasts :
        (s : Phase2Runtime n a) (r : ScheduledResult (List (Detection n))) (now : ℕ)
        → HasTracker n a s.trackers r.camera_id
        → IsLasting n a s
        → Lasts n a s (
            after_update n a s r.frame now
              (update_camera n a assign r.camera_id r.output s.trackers))
    update-Lasts s r now k h =
        elim (update_camera-Isolated n a assign within r.camera_id r.output s.trackers h.trackers) [
          | inl (missing, _) ↦ absurd (no_tracker missing k.1)
          | inr u ↦
              let known = λ (c : String) (own : HasTracker n a s.trackers c).
                still_known u.next u.after c own (u.trackers c) in
              let s' = record s { trackers = u.next } in
              rw u.returned (
                Lasts-trans n a s s' (after_update n a s r.frame now (updated u.next u.detections))
                  known
                  (with_tracks-Lasts s' r.frame now u.detections (record {
                    trackers = u.valid;
                    known =
                        AllKnown-cameras n a s.trackers u.next s.scheduler.results known h.known;
                    positive = h.positive;
                    bounded = h.bounded;
                    tracks = h.tracks;
                    poses = h.poses;
                  })))
        ]
      where
        no_tracker :
            lookup r.camera_id s.trackers.trackers ≡ none
            → lookup r.camera_id s.trackers.trackers ≡ some k.0
            → ⊥
        no_tracker missing found = ground arith

        still_known :
            (m : TrackerManager n a) (t : ByteTracker n a) (c : String)
            → HasTracker n a s.trackers c
            → lookup c m.trackers
              ≡ (if r.camera_id == c then some t else lookup c s.trackers.trackers)
            → HasTracker n a m c
        still_known m t c own e = elim (Bool-cases (r.camera_id == c)) [
          | inl same ↦ (t, e ∙ rw same refl)
          | inr other ↦ (own.0, e ∙ rw other own.1)
        ]

    consume_result-Lasts :
        (s : Phase2Runtime n a) (now : ℕ)
        (o : SharedInferenceScheduler (List (Detection n))
          × Option (ScheduledResult (List (Detection n))))
        → IsLasting n a (record s { scheduler = o.0 })
        → IsKnown n a s.trackers o.1
        → Lasts n a s (consume_result n a assign s now o)
    consume_result-Lasts s now (scheduler, none) h k = record {
      going = refl;
      lasting = h;
      cameras = λ c known. known;
    }
    consume_result-Lasts s now (scheduler, some r) h k =
        let s' = record s { scheduler = scheduler } in
        Lasts-trans n a s s'
          (after_update n a s' r.frame now
            (update_camera n a assign r.camera_id r.output s.trackers))
          (λ c known. known) (update-Lasts s' r now k h)

    pub consume-Lasts :
        (s : Phase2Runtime n a) (now : ℕ) → IsLasting n a s → Lasts n a s (consume n a assign s now)
    unfolding consume
    consume-Lasts s now h =
        let got = get_result-AllKnown n a s.trackers s.scheduler h.known in
        consume_result-Lasts s now (get_result s.scheduler)
          (record {
            trackers = h.trackers;
            known = got.0;
            positive = h.positive;
            bounded = h.bounded;
            tracks = h.tracks;
            poses = h.poses;
          })
          got.1
