-- ===== src/Tracking/Tracker/Update.antt =====
-- `ByteTracker.update` as a whole: from one valid tracker to the next.
use mathlib.Core.Bool.{◌&&◌}
use mathlib.Core.Path.{subst}
use computer_vision.Common.{
  ℕ, ◌+◌, ◌≡◌, refl, sym, ap, ◌∙◌, ◌⊎◌, inl, inr, true, false, not, Option, none, some, List, [],
  ◌∷◌, ◌++◌, map, arith, String, length, keep, ◌==◌, text_key, eqb, eqb_iff, Numbers, Bool-cases,
}
use computer_vision.Vision.{Detection, TrackedDetection}
use computer_vision.Tracking.Kalman.{Arrays}
use computer_vision.Tracking.Tracker.{
  TrackState, tracked, lost, removed, is_tracked, is_lost, is_removed, member, Track, ByteTracker,
  make_tracker, ids, predict_track, predict_all, costs, Association, associate, finish,
  second_stage, update, tracked_detection,
}
use computer_vision.Tracking.Tracker.Matching.{
  member-append, All, All-map, IsPending, IsPending-left,
}
use computer_vision.Tracking.Tracker.Assigned.{AllWithin, associate-Associated}
use computer_vision.Tracking.Tracker.Ids.{Increasing, Increasing-keep, ids-predict_all}
use computer_vision.Tracking.Tracker.Lifecycle.{IsCurrent, IsValid, finish-IsValid}

module _ (n : Numbers) (a : Arrays n) where
  abbrev IsKept : Track n a → Type 0
  IsKept t = is_removed t.state ≡ false

  IsCurrent-IsKept :
      (buffer frame_id : ℕ) (t : Track n a) → IsCurrent n a buffer frame_id t → IsKept t
  IsCurrent-IsKept buffer frame_id t p = elim p.either [
    | inl e ↦ ap is_removed e.0
    | inr e ↦ ap is_removed e.0
  ]

  All-predict_all :
      (buffer frame_id : ℕ) (left : List ℕ) (ts : List (Track n a))
      → ((i : ℕ) → member i (ids n a ts) ≡ true → member i left ≡ true)
      → All n a (IsCurrent n a buffer frame_id) ts
      → All n a (IsPending n a (frame_id + 1) left) (predict_all n a ts)
  unfolding predict_all predict_track
  All-predict_all buffer frame_id left [] f h = tt
  All-predict_all buffer frame_id left (t ∷ ts) f h = rw (IsCurrent-IsKept buffer frame_id t h.0) (
    record {
      past = omega (arith, h.0.past);
      seen_or_left = inr (f t.track_id (ground (arith, eqb_iff t.track_id t.track_id)));
    },
    All-predict_all buffer frame_id left ts (λ i m. f i (ground arith)) h.1,
  )

  All-predict_all-IsKept :
      (buffer frame_id : ℕ) (ts : List (Track n a))
      → All n a (IsCurrent n a buffer frame_id) ts
      → All n a IsKept (predict_all n a ts)
  unfolding predict_all predict_track
  All-predict_all-IsKept buffer frame_id [] h = tt
  All-predict_all-IsKept buffer frame_id (t ∷ ts) h =
      let here = IsCurrent-IsKept buffer frame_id t h.0 in
      elim (Bool-cases (is_removed t.state)) [
        | inl e ↦ absurd (ground arith)
        | inr e ↦ rw e (here, All-predict_all-IsKept buffer frame_id ts h.1)
      ]

  TrackState-cases :
      (state : TrackState)
      → is_removed state ≡ false
      → ((is_tracked state ≡ true) × (is_lost state ≡ false))
        ⊎ ((is_tracked state ≡ false) × (is_lost state ≡ true))
  TrackState-cases tracked h = inl (refl, refl)
  TrackState-cases lost h = inr (refl, refl)
  TrackState-cases removed h = absurd (ground arith)

  keep-all :
      (ts : List (Track n a)) → All n a IsKept ts → keep (λ t. not (is_removed t.state)) ts ≡ ts
  keep-all [] h = refl
  keep-all (t ∷ ts) h = rw h.0 (ap (◌∷◌ t) (keep-all ts h.1))

  member-partition :
      (i : ℕ) (ts : List (Track n a))
      → All n a IsKept ts
      → member i (ids n a ts ++ []) ≡ true
      → member i
          (ids n a (keep (λ t. is_tracked t.state) ts) ++ ids n a (keep (λ t. is_lost t.state) ts))
        ≡ true
  member-partition i [] h m = cc
  member-partition i (t ∷ ts) h m =
      let now = keep (λ t. is_tracked t.state) ts in
      let late = keep (λ t. is_lost t.state) ts in
      let rest = λ (m' : member i (ids n a ts ++ []) ≡ true). member-partition i ts h.1 m' in
      elim (TrackState-cases t.state h.0) [
        | inl e ↦
            rw (e.0, e.1)
              (elim (Bool-cases (eqb t.track_id i)) [
                | inl same ↦ rw same refl
                | inr other ↦ rw other (rest (ground arith))
              ])
        | inr e ↦
            rw (e.0, e.1, member-append i (ids n a now) (t.track_id ∷ ids n a late))
              (elim (Bool-cases (eqb t.track_id i)) [
                | inl same ↦ ground arith
                | inr other ↦
                    let found = rest (ground arith) in
                    ground (arith, member-append i (ids n a now) (ids n a late))
              ])
      ]

  member-predicted :
      (i : ℕ) (ts : List (Track n a))
      → member i (ids n a ts) ≡ true
      → member i (ids n a (predict_all n a ts) ++ []) ≡ true
  member-predicted i ts m = rw (ids-predict_all n a ts, member-append i (ids n a ts) []) (rw m refl)

  ids-tracked_detection :
      (camera_id : String) (ts : List (Track n a))
      → map (λ d. d.track_id) (map (tracked_detection n a camera_id) ts) ≡ ids n a ts
  ids-tracked_detection camera_id [] = refl
  ids-tracked_detection camera_id (t ∷ ts) =
      ap (◌∷◌ t.track_id) (ids-tracked_detection camera_id ts)

  -- The tracks reported by `finish` have increasing ids.
  Increasing-finish :
      (s : ByteTracker n a) (candidates : List (Track n a)) (first second : Association n a)
      → IsValid n a (finish n a s candidates first second).0
      → Increasing 1
          (map (λ d. d.track_id) (finish n a s candidates first second).1)
          (finish n a s candidates first second).0.next_track_id
  unfolding finish
  Increasing-finish s candidates first second v =
      rw (ids-tracked_detection s.camera_id _)
        (Increasing-keep n a _ 1 _ (finish n a s candidates first second).0.tracks v.ids_increasing)

  -- What `__init__` makes is a valid tracker.
  pub make_tracker-IsValid :
      (camera_id : String) (high low iou : n.Number) (buffer : ℕ)
      → (make_tracker n a camera_id high low iou buffer ≡ none)
        ⊎ ((s : ByteTracker n a) × (make_tracker n a camera_id high low iou buffer ≡ some s)
            × IsValid n a s
            × (s.camera_id ≡ camera_id))
  unfolding make_tracker
  make_tracker-IsValid camera_id high low iou buffer = elim (Bool-cases (camera_id == "")) [
    | inl e ↦ inl (rw e refl)
    | inr e ↦ inr (
      record {
        camera_id = camera_id;
        track_threshold = high;
        low_threshold = low;
        match_iou_threshold = iou;
        track_buffer = buffer;
        tracks = [];
        next_track_id = 1;
        frame_id = 0;
      },
      rw e refl,
      record { ids_increasing = omega arith; current = tt },
      refl,
    )
  ]

  -- The result of `update` on a valid tracker.
  pub record Updated (s : ByteTracker n a)
      (o : Option (ByteTracker n a × List (TrackedDetection n))) : Type 0 where
    pub result : ByteTracker n a × List (TrackedDetection n)
    pub returned : o ≡ some result
    pub valid : IsValid n a result.0
    pub counted : result.0.frame_id ≡ s.frame_id + 1
    pub detected : Increasing 1 (map (λ d. d.track_id) result.1) result.0.next_track_id
    pub same_camera : result.0.camera_id ≡ s.camera_id

  module _ (assign : List (List n.Number) → List (ℕ × ℕ))
      (within : (ts : List (Track n a)) (ds : List (Detection n))
        → AllWithin n a (length ts) (length ds) (assign (costs n a ts ds))) where
    -- The tracker that `update` associates on.
    abbrev next : ByteTracker n a → ByteTracker n a
    next s = record s { frame_id = s.frame_id + 1; tracks = predict_all n a s.tracks }

    abbrev high : ByteTracker n a → List (Detection n) → List (Detection n)
    high s ds = keep (λ d. n.le s.track_threshold d.score) ds

    abbrev low : ByteTracker n a → List (Detection n) → List (Detection n)
    low s ds = keep (λ d. n.le s.low_threshold d.score && n.lt d.score s.track_threshold) ds

    update-returned :
        (s : ByteTracker n a) (ds : List (Detection n)) (first second : Association n a)
        → keep (λ t. not (is_removed t.state)) (predict_all n a s.tracks) ≡ predict_all n a s.tracks
        → associate n a assign s.match_iou_threshold
            (s.frame_id + 1)
            (predict_all n a s.tracks)
            (predict_all n a s.tracks)
            (high s ds)
          ≡ some first
        → associate n a assign s.match_iou_threshold
            (s.frame_id + 1)
            first.store
            (keep (λ t. is_tracked t.state) first.left_tracks)
            (low s ds)
          ≡ some second
        → update n a assign s ds
          ≡ some (finish n a (next s) (predict_all n a s.tracks) first second)
    unfolding update
    update-returned s ds first second e h k = rw (update, e, h, second_stage, k, e) refl

    -- Where the assignment answers rows and columns of its costs, `update` of a valid tracker returns,
    -- without an `IndexError`, and leaves a valid one of the same camera, one frame later: the ids
    -- increase and are below the next one to give, and every track was matched in this frame or is lost
    -- for at most the track buffer. The ids that are reported increase too.
    pub update-IsValid :
        (s : ByteTracker n a) (ds : List (Detection n))
        → IsValid n a s
        → Updated s (update n a assign s ds)
    unfolding update finish
    update-IsValid s ds v =
        let predicted = predict_all n a s.tracks in
        let kept = All-predict_all-IsKept s.track_buffer s.frame_id s.tracks v.current in
        let first =
          associate-Associated n a assign s.match_iou_threshold (s.frame_id + 1) predicted predicted
            (high s ds) [] (within predicted (high s ds))
            (All-predict_all s.track_buffer s.frame_id (ids n a predicted ++ []) s.tracks
              (λ i m. member-predicted i s.tracks m) v.current) in
        let left = first.result.left_tracks in
        let waiting = keep (λ t. is_lost t.state) left in
        let again = keep (λ t. is_tracked t.state) left in
        let second =
          associate-Associated n a assign s.match_iou_threshold (s.frame_id + 1) first.result.store
            again (low s ds) (ids n a waiting) (within again (low s ds))
            (All-map n a _ _ first.result.store
              (λ t p.
                IsPending-left n a (s.frame_id + 1) (ids n a left ++ [])
                  (ids n a again ++ ids n a waiting) t
                  (member-partition t.track_id left (first.from_tracks IsKept kept)) p)
              first.pending) in
        let valid =
          finish-IsValid n a (next s) predicted first.result second.result
            (subst (λ is. Increasing 1 is s.next_track_id)
              (sym (second.same_ids ∙ first.same_ids ∙ ids-predict_all n a s.tracks))
              v.ids_increasing)
            second.pending in
        record {
          result = finish n a (next s) predicted first.result second.result;
          returned =
              update-returned s ds first.result second.result (keep-all predicted kept)
                first.returned second.returned;
          valid = valid;
          counted = refl;
          detected = Increasing-finish (next s) predicted first.result second.result valid;
          same_camera = refl;
        }
