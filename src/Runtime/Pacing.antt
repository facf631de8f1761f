-- ===== src/Runtime/Pacing.antt =====
-- How often a pose is asked for one track.
use mathlib.Core.Bool.{◌&&◌}
use computer_vision.Common.{
  ℕ, ◌+◌, ◌≤◌, ◌≡◌, sym, inl, inr, String, Bool, true, false, not, Option, none, some, List, [],
  ◌∷◌, arith, Dict, lookup, lookup-insert, text_key, number_key, pair_key, Bool-cases, Numbers,
}
use computer_vision.Errors.{Result, ok, err}
use computer_vision.Capture.LatestFrame.{FramePacket}
use computer_vision.Vision.{TrackedDetection, identity}
use computer_vision.Tracking.Kalman.{Arrays}
use computer_vision.Inference.PoseQueue.{BoundedPoseQueue, put}
use computer_vision.Inference.Rtmpose.{PoseTarget}
use computer_vision.Runtime.{Phase2Runtime, or_zero, is_early, request_of, after_put, request_pose}

-- The requests that were accepted, newest first, with the identity of the track.
abbrev pub History : Type 0
History = Dict (String × ℕ) ℕ

abbrev pub Later : ℕ → Option ℕ → ℕ → Type 0
Later interval none now = Unit
Later interval (some last) now = last + interval ≤ now

-- Each request is later than the one before it for the same track by the interval.
abbrev pub AllPaced : ℕ → History → Type 0
AllPaced interval [] = Unit
AllPaced interval (e ∷ h) = Later interval (lookup e.0 h) e.1 × AllPaced interval h

abbrev pub noted : Bool → String × ℕ → ℕ → History → History
noted true i now h = (i, now) ∷ h
noted false i now h = h

abbrev pub is_accepted : Result Bool → Bool
is_accepted (ok accepted) = accepted
is_accepted (err e) = false

module _ (n : Numbers) (a : Arrays n) where
  -- The track is due, and the queue takes the request.
  abbrev pub is_granted : Phase2Runtime n a → FramePacket → ℕ → TrackedDetection n → Bool
  is_granted s frame now t =
      not (is_early n a s now t)
      && is_accepted (put (PoseTarget n) s.pose_requests (request_of n a frame now t)).1

  -- A turn of the loop over the tracks, or anything else that happens to the runtime in between and
  -- leaves the times of the requests and the interval alone.
  pub data Move : Type 0 where
    ask : FramePacket → ℕ → TrackedDetection n → Move
    elsewhere : Phase2Runtime n a → Move

  unfoldable pub run_moves : Phase2Runtime n a → History → List Move → Phase2Runtime n a × History
  run_moves s h [] = (s, h)
  run_moves s h (ask frame now t ∷ moves) =
      run_moves (request_pose n a s frame now t).0
        (noted (is_granted s frame now t) (identity n t) now h) moves
  run_moves s h (elsewhere r ∷ moves) =
      run_moves
        (record r {
          last_pose_request_ns = s.last_pose_request_ns;
          pose_interval_ns = s.pose_interval_ns;
        })
        h moves

  pub record IsPaced (s : Phase2Runtime n a) (interval : ℕ) (h : History) : Type 0 where
    pub fixed : s.pose_interval_ns ≡ interval
    pub tracks : (i : String × ℕ) → lookup i s.last_pose_request_ns ≡ lookup i h
    pub paced : AllPaced interval h

  Later-or_zero :
      (interval now : ℕ) (o : Option ℕ) → or_zero n a o + interval ≤ now → Later interval o now
  Later-or_zero interval now none h = tt
  Later-or_zero interval now (some last) h = h

  after_put-IsPaced :
      (s : Phase2Runtime n a) (interval : ℕ) (h : History) (now : ℕ) (t : TrackedDetection n)
      (o : BoundedPoseQueue (PoseTarget n) × Result Bool)
      → Later interval (lookup (identity n t) h) now
      → IsPaced s interval h
      → IsPaced (after_put n a s now t o).0 interval (noted (is_accepted o.1) (identity n t) now h)
  unfolding lookup
  after_put-IsPaced s interval h now t (q, ok true) later v = record {
    fixed = v.fixed;
    tracks =
        λ i. ground (arith, lookup-insert (identity n t) i now s.last_pose_request_ns, v.tracks i);
    paced = (later, v.paced);
  }
  after_put-IsPaced s interval h now t (q, ok false) later v = record {
    fixed = v.fixed;
    tracks = v.tracks;
    paced = v.paced;
  }
  after_put-IsPaced s interval h now t (q, err e) later v = record {
    fixed = v.fixed;
    tracks = v.tracks;
    paced = v.paced;
  }

  request_pose-IsPaced :
      (s : Phase2Runtime n a) (interval : ℕ) (h : History) (frame : FramePacket) (now : ℕ)
      (t : TrackedDetection n)
      → IsPaced s interval h
      → IsPaced
          (request_pose n a s frame now t).0
          interval
          (noted (is_granted s frame now t) (identity n t) now h)
  unfolding request_pose
  request_pose-IsPaced s interval h frame now t v = elim (Bool-cases (is_early n a s now t)) [
    | inl early ↦ rw early v
    | inr due ↦
        let i = identity n t in
        let time : or_zero n a (lookup i s.last_pose_request_ns) + interval ≤ now =
          ground (arith, v.fixed) in
        rw due (
          after_put-IsPaced s interval h now t
            (put (PoseTarget n) s.pose_requests (request_of n a frame now t))
            (Later-or_zero interval now (lookup i h) (rw (sym (v.tracks i)) time)) v)
  ]

  -- Whatever the clock shows, and whatever else happens to the runtime in between: two poses that are
  -- asked for one track of one camera are apart by the interval at least, and the runtime remembers the
  -- last one of every track, where a request that the queue refuses counts for nothing.
  pub run_moves-IsPaced :
      (s : Phase2Runtime n a) (interval : ℕ) (h : History) (moves : List Move)
      → IsPaced s interval h
      → IsPaced (run_moves s h moves).0 interval (run_moves s h moves).1
  unfolding run_moves
  run_moves-IsPaced s interval h [] v = v
  run_moves-IsPaced s interval h (ask frame now t ∷ moves) v =
      run_moves-IsPaced (request_pose n a s frame now t).0 interval
        (noted (is_granted s frame now t) (identity n t) now h) moves
        (request_pose-IsPaced s interval h frame now t v)
  run_moves-IsPaced s interval h (elsewhere r ∷ moves) v =
      run_moves-IsPaced
        (record r {
          last_pose_request_ns = s.last_pose_request_ns;
          pose_interval_ns = s.pose_interval_ns;
        })
        interval h moves (record { fixed = v.fixed; tracks = v.tracks; paced = v.paced })
