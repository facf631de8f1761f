-- ===== src/Runtime/Lasting/Posed.antt =====
-- A turn of `_run_pose`.
use computer_vision.Common.{
  ℕ, suc, ◌≡◌, refl, Option, none, some, List, [], ◌∷◌, ◌++◌, length, arith, text_key, Numbers,
}
use computer_vision.Vision.{PoseResult}
use computer_vision.Tracking.Kalman.{Arrays}
use computer_vision.Inference.PoseQueue.{BoundedPoseQueue, PoseRequest}
use computer_vision.Inference.Rtmpose.{PoseTarget}
use computer_vision.Runtime.{
  Phase2Runtime, collect_requests, store_poses, after_infer, infer_poses, run_pose,
}
use computer_vision.Runtime.Waiting.{newest, put_latest-newest, length-newest}
use computer_vision.Runtime.Collected.{collect_requests-Collected}
use computer_vision.Runtime.Lasting.{IsLasting, Lasts, Lasts-trans}

module _ (n : Numbers) (a : Arrays n) where
  store_poses-Lasts :
      (s : Phase2Runtime n a) (ps : List (PoseResult n))
      → IsLasting n a s
      → Lasts n a s (store_poses n a s ps)
  unfolding store_poses
  store_poses-Lasts s [] h = record { going = refl; lasting = h; cameras = λ c known. known }
  store_poses-Lasts s (p ∷ ps) h =
      let q = s.pose_results in
      let s' = record s {
        pose_results = record q { items = newest q.maxsize (q.items ++ p ∷ []) };
      } in
      rw (store_poses, put_latest-newest q p h.poses)
        (Lasts-trans n a s s' (store_poses n a s' ps) (λ c known. known)
          (store_poses-Lasts s' ps (record {
            trackers = h.trackers;
            known = h.known;
            positive = h.positive;
            bounded = h.bounded;
            tracks = h.tracks;
            poses = record {
              positive = h.poses.positive;
              bounded = length-newest q.maxsize (q.items ++ p ∷ []);
            };
          })))

  module _ (infer : List (PoseRequest (PoseTarget n)) → Option (List (PoseResult n))) where
    infer_poses-Lasts :
        (s : Phase2Runtime n a)
        (o : Option (BoundedPoseQueue (PoseTarget n) × List (PoseRequest (PoseTarget n))))
        (q : BoundedPoseQueue (PoseTarget n)) (rs : List (PoseRequest (PoseTarget n)))
        → o ≡ some (q, rs)
        → IsLasting n a (record s { pose_requests = q })
        → Lasts n a s (infer_poses n a infer s o)
    infer_poses-Lasts s o q [] e h =
        rw e (record { going = refl; lasting = h; cameras = λ c known. known })
    infer_poses-Lasts s o q (r ∷ rs) e h =
        let s' = record s { pose_requests = q } in
        rw e (
          Lasts-trans n a s s' (after_infer n a infer s' (infer (r ∷ rs))) (λ c known. known)
            (after_infer-Lasts s' (infer (r ∷ rs)) h))
      where
        after_infer-Lasts :
            (t : Phase2Runtime n a) (poses : Option (List (PoseResult n)))
            → IsLasting n a t
            → Lasts n a t (after_infer n a infer t poses)
        after_infer-Lasts t none h = record { going = refl; lasting = h; cameras = λ c k. k }
        after_infer-Lasts t (some poses) h = store_poses-Lasts t poses h

    pub run_pose-Lasts :
        (s : Phase2Runtime n a) (clock : ℕ → ℕ)
        → IsLasting n a s
        → Lasts n a s (run_pose n a infer s clock)
    unfolding run_pose
    run_pose-Lasts s clock h =
        let q = s.pose_requests in
        let c =
          collect_requests-Collected n a (suc (length q.heap)) clock q [] (omega arith)
            (omega arith) in
        infer_poses-Lasts s (collect_requests n a (suc (length q.heap)) clock q []) c.left
          c.requests c.returned
          (record {
            trackers = h.trackers;
            known = h.known;
            positive = omega (arith, c.same_size, h.positive);
            bounded = omega (arith, c.same_size, c.fewer, h.bounded);
            tracks = h.tracks;
            poses = h.poses;
          })
