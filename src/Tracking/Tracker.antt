-- ===== src/Tracking/Tracker.antt =====
-- `ByteTracker` of edge_runtime/tracking/byte_tracker.py. `candidates` and the lists of unmatched tracks
-- hold the very objects of `_tracks`: a write to one of them is a write to the track of that id in the
-- tracker. `linear_sum_assignment` of SciPy is the parameter `assign`, which answers rows with columns;
-- a row or column outside of the costs is an `IndexError`, `none` here.
pub mod Matching
pub mod Assigned
pub mod Ids
pub mod Lifecycle
pub mod Update
use mathlib.Core.Bool.{◌&&◌, ◌||◌}
use mathlib.Core.List.{filter}
use computer_vision.Common.{
  ℕ, zero, suc, ◌+◌, String, Bool, true, false, not, Option, none, some, List, [], ◌∷◌, ◌++◌, map,
  length, get_elem?, keep, eqb, ltb, ◌==◌, text_key, Numbers, whole, if◌then◌else◌,
}
use computer_vision.Vision.{BoundingBox, Detection, TrackedDetection}
use computer_vision.Tracking.Boxes.{Xyah, xyxy_to_xyah, corners, iou}
use computer_vision.Tracking.Kalman.{Arrays, initiate, predict, correct}

pub data TrackState : Type 0 where
  tracked lost removed : TrackState

abbrev pub is_tracked : TrackState → Bool
is_tracked tracked = true
is_tracked lost = false
is_tracked removed = false

abbrev pub is_lost : TrackState → Bool
is_lost lost = true
is_lost tracked = false
is_lost removed = false

abbrev pub is_removed : TrackState → Bool
is_removed removed = true
is_removed tracked = false
is_removed lost = false

-- `value in ids`
abbrev pub member : ℕ → List ℕ → Bool
member i [] = false
member i (j ∷ ids) = if eqb j i then true else member i ids

module _ (n : Numbers) (a : Arrays n) where
  pub record Track : Type 0 where
    pub track_id : ℕ
    pub mean : a.Vector
    pub covariance : a.Matrix
    pub score : n.Number
    pub class_id : ℕ
    pub class_name : String
    pub last_frame : ℕ
    pub state : TrackState

  pub record ByteTracker : Type 0 where
    pub camera_id : String
    pub track_threshold : n.Number
    pub low_threshold : n.Number
    pub match_iou_threshold : n.Number
    pub track_buffer : ℕ
    pub tracks : List Track
    pub next_track_id : ℕ
    pub frame_id : ℕ

  -- `__init__`: no camera's name is a `ValueError`.
  unfoldable pub make_tracker : String → n.Number → n.Number → n.Number → ℕ → Option ByteTracker
  make_tracker camera_id track_threshold low_threshold match_iou_threshold track_buffer =
      if camera_id == ""
      then none
      else some (record {
        camera_id = camera_id;
        track_threshold = track_threshold;
        low_threshold = low_threshold;
        match_iou_threshold = match_iou_threshold;
        track_buffer = track_buffer;
        tracks = [];
        next_track_id = 1;
        frame_id = 0;
      })

  abbrev pub bbox : Track → BoundingBox n
  bbox t = corners n (record {
    center_x = a.item t.mean 0;
    center_y = a.item t.mean 1;
    aspect = a.item t.mean 2;
    tall = a.item t.mean 3;
  })

  abbrev pub measurement : BoundingBox n → a.Vector
  measurement b =
      let v = xyxy_to_xyah n b in a.vector (v.center_x ∷ v.center_y ∷ v.aspect ∷ v.tall ∷ [])

  abbrev pub ids : List Track → List ℕ
  ids [] = []
  ids (t ∷ ts) = t.track_id ∷ ids ts

  -- A write to the track object with the id `i`.
  unfoldable pub modify : ℕ → (Track → Track) → List Track → List Track
  modify i f [] = []
  modify i f (t ∷ ts) = (if eqb t.track_id i then f t else t) ∷ modify i f ts

  unfoldable pub predict_track : Track → Track
  predict_track t =
      let (mean, covariance) = predict n a t.mean t.covariance in
      record t { mean = mean; covariance = covariance }

  unfoldable pub predict_all : List Track → List Track
  predict_all [] = []
  predict_all (t ∷ ts) = (if is_removed t.state then t else predict_track t) ∷ predict_all ts

  -- The body of the loop over the assigned pairs.
  unfoldable pub update_track : ℕ → Detection n → Track → Track
  update_track frame_id d t =
      let (mean, covariance) = correct n a t.mean t.covariance (measurement d.bbox) in
      record t {
        mean = mean;
        covariance = covariance;
        score = d.score;
        class_id = d.class_id;
        class_name = d.class_name;
        last_frame = frame_id;
        state = tracked;
      }

  pub record Match : Type 0 where
    pub row : ℕ
    pub column : ℕ
    pub track : Track
    pub detection : Detection n

  abbrev pub cost : Track → Detection n → n.Number
  cost t d = n.sub (whole n 1) (iou n (bbox t) d.bbox)

  abbrev pub costs : List Track → List (Detection n) → List (List n.Number)
  costs ts ds = map (λ t. map (cost t) ds) ts

  -- One assigned pair, read from both lists, and added unless it overlaps too little.
  abbrev pub add_match :
      n.Number
      → ℕ × ℕ
      → Option Track
      → Option (Detection n)
      → Option (List Match)
      → Option (List Match)
  add_match threshold p (some t) (some d) (some rest) = some (
      if n.lt (n.sub (whole n 1) (cost t d)) threshold
      then rest
      else record { row = p.0; column = p.1; track = t; detection = d } ∷ rest)
  add_match threshold p _ _ _ = none

  unfoldable pub matches :
      n.Number → List Track → List (Detection n) → List (ℕ × ℕ) → Option (List Match)
  matches threshold ts ds [] = some []
  matches threshold ts ds (p ∷ pairs) =
      add_match threshold p (get_elem? ts p.0) (get_elem? ds p.1) (matches threshold ts ds pairs)

  unfoldable pub write_matches : ℕ → List Match → List Track → List Track
  write_matches frame_id [] store = store
  write_matches frame_id (m ∷ ms) store =
      write_matches frame_id ms (modify m.track.track_id (update_track frame_id m.detection) store)

  -- `[x for index, x in enumerate(xs) if index not in matched]`, from an index on.
  abbrev pub unmatched {ℓ} : {A : Type ℓ} → ℕ → List ℕ → List A → List A
  unmatched index matched [] = []
  unmatched index matched (x ∷ xs) =
      if member index matched
      then unmatched (suc index) matched xs
      else x ∷ unmatched (suc index) matched xs

  pub record Association : Type 0 where
    pub store : List Track
    pub left_tracks : List Track
    pub left_detections : List (Detection n)

  abbrev pub rows : List Match → List ℕ
  rows = map (λ m. m.row)

  abbrev pub columns : List Match → List ℕ
  columns = map (λ m. m.column)

  abbrev pub associated :
      ℕ → List Track → List Track → List (Detection n) → Option (List Match) → Option Association
  associated frame_id store ts ds none = none
  associated frame_id store ts ds (some ms) = some (record {
    store = write_matches frame_id ms store;
    left_tracks = unmatched 0 (rows ms) ts;
    left_detections = unmatched 0 (columns ms) ds;
  })

  module _ (assign : List (List n.Number) → List (ℕ × ℕ)) where
    -- `_associate`, on the tracks `ts` of the store.
    unfoldable pub associate :
        n.Number → ℕ → List Track → List Track → List (Detection n) → Option Association
    associate threshold frame_id store [] ds =
        some (record { store = store; left_tracks = []; left_detections = ds })
    associate threshold frame_id store (t ∷ ts) [] =
        some (record { store = store; left_tracks = t ∷ ts; left_detections = [] })
    associate threshold frame_id store (t ∷ ts) (d ∷ ds) =
        associated frame_id store (t ∷ ts) (d ∷ ds)
          (matches threshold (t ∷ ts) (d ∷ ds) (assign (costs (t ∷ ts) (d ∷ ds))))

  -- A track that no detection matched, in the frame `frame_id`.
  unfoldable pub lose_track : ℕ → ℕ → Track → Track
  lose_track track_buffer frame_id t = record t {
    state = if ltb (t.last_frame + track_buffer) frame_id then removed else lost;
  }

  unfoldable pub lose_all : ℕ → ℕ → List ℕ → List Track → List Track
  lose_all track_buffer frame_id [] store = store
  lose_all track_buffer frame_id (i ∷ is) store =
      lose_all track_buffer frame_id is (modify i (lose_track track_buffer frame_id) store)

  unfoldable pub new_track : ℕ → ℕ → Detection n → Track
  new_track i frame_id d =
      let (mean, covariance) = initiate n a (measurement d.bbox) in
      record {
        track_id = i;
        mean = mean;
        covariance = covariance;
        score = d.score;
        class_id = d.class_id;
        class_name = d.class_name;
        last_frame = frame_id;
        state = tracked;
      }

  unfoldable pub new_tracks : ℕ → ℕ → List (Detection n) → List Track
  new_tracks i frame_id [] = []
  new_tracks i frame_id (d ∷ ds) = new_track i frame_id d ∷ new_tracks (suc i) frame_id ds

  abbrev pub tracked_detection : String → Track → TrackedDetection n
  tracked_detection camera_id t = record {
    camera_id = camera_id;
    track_id = t.track_id;
    bbox = bbox t;
    score = t.score;
    class_id = t.class_id;
    class_name = t.class_name;
  }

  -- `candidates` without `unmatched_tracks`, and `unmatched_tracks` without `remaining_tracks`.
  abbrev pub matched_ids : List Track → List Track → List Track → List ℕ
  matched_ids candidates left remaining =
      keep (λ i. not (member i (ids left))) (ids candidates)
      ++ keep (λ i. not (member i (ids remaining))) (ids left)

  -- `update` after both associations.
  unfoldable pub finish :
      ByteTracker → List Track → Association → Association → ByteTracker × List (TrackedDetection n)
  finish s candidates first second =
      let remaining = keep (λ t. is_lost t.state) first.left_tracks ++ second.left_tracks in
      let after = lose_all s.track_buffer s.frame_id (ids remaining) second.store in
      let created = new_tracks s.next_track_id s.frame_id first.left_detections in
      let kept = keep (λ t. not (is_removed t.state)) (after ++ created) in
      let seen = matched_ids candidates first.left_tracks remaining ++ ids created in
      (
        record s { tracks = kept; next_track_id = s.next_track_id + length first.left_detections },
        map (tracked_detection s.camera_id)
            (keep (λ t. is_tracked t.state && member t.track_id seen) kept),
      )

  module _ (assign : List (List n.Number) → List (ℕ × ℕ)) where
    abbrev pub second_stage :
        ByteTracker
        → List Track
        → List (Detection n)
        → Association
        → Option (ByteTracker × List (TrackedDetection n))
    second_stage s candidates low first =
        elim (associate assign s.match_iou_threshold s.frame_id first.store
          (keep (λ t. is_tracked t.state) first.left_tracks) low) [
            | none ↦ none
            | some second ↦ some (finish s candidates first second)
          ]

    unfoldable pub update :
        ByteTracker → List (Detection n) → Option (ByteTracker × List (TrackedDetection n))
    update s ds =
        let s' = record s { frame_id = s.frame_id + 1; tracks = predict_all s.tracks } in
        let candidates = keep (λ t. not (is_removed t.state)) s'.tracks in
        let high = keep (λ d. n.le s'.track_threshold d.score) ds in
        let low = keep (λ d. n.le s'.low_threshold d.score && n.lt d.score s'.track_threshold) ds in
        elim (associate assign s'.match_iou_threshold s'.frame_id s'.tracks candidates high) [
          | none ↦ none
          | some first ↦ second_stage s' candidates low first
        ]
