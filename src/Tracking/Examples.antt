-- ===== src/Tracking/Examples.antt =====
-- A tracker of two cameras, with numbers in thousandths and arrays whose matrices are all the identity.
use computer_vision.Common.{
  ℕ, ◌+◌, ◌-◌, ◌≡◌, refl, ◌⊎◌, String, Option, none, some, List, [], ◌∷◌, ◌++◌, map, length, lookup,
  text_key, thousandths, arith, zero, suc,
}
use computer_vision.Vision.{Detection}
use computer_vision.Tracking.Kalman.{Arrays, predict, initiate, correct}
use computer_vision.Tracking.Tracker.{
  Track, ByteTracker, costs, make_tracker, update, associate, predict_all, finish, lose_all,
  new_tracks, new_track, predict_track, modify, lose_track, matches, write_matches, update_track,
}
use computer_vision.Tracking.Boxes.{iou, corners, xyxy_to_xyah}
use computer_vision.Tracking.Tracker.Assigned.{AllWithin}
use computer_vision.Tracking.Tracker.Lifecycle.{IsValid}
use computer_vision.Tracking.Tracker.Update.{update-IsValid, Updated as TrackerUpdated}
use computer_vision.Tracking.Manager.{
  TrackerManager, TrackerOptions, make_manager, make_trackers, update_camera, unknown_camera,
}
use computer_vision.Tracking.Manager.Isolation.{AllValid, Isolated, update_camera-Isolated}

abbrev nth : List ℕ → ℕ → ℕ
nth [] i = 0
nth (x ∷ xs) zero = x
nth (x ∷ xs) (suc i) = nth xs i

abbrev zip_with : (ℕ → ℕ → ℕ) → List ℕ → List ℕ → List ℕ
zip_with f [] ys = []
zip_with f (x ∷ xs) [] = x ∷ xs
zip_with f (x ∷ xs) (y ∷ ys) = f x y ∷ zip_with f xs ys

abbrev pub identities : Arrays thousandths
identities = record {
  Vector = List ℕ;
  Matrix = Unit;
  vector = λ xs. xs;
  item = nth;
  join = λ xs ys. xs ++ ys;
  vector_add = zip_with (λ a b. a + b);
  vector_sub = zip_with (λ a b. a - b);
  eye = λ r c. tt;
  set_item = λ m i j v. m;
  apply = λ m v. v;
  product = λ m k. tt;
  transpose = λ m. m;
  matrix_add = λ m k. tt;
  matrix_sub = λ m k. tt;
  diagonal = λ v. tt;
  square = λ v. v;
  solve = λ m k. tt;
}

-- The first row with the first column.
abbrev pub assign_first : List (List ℕ) → List (ℕ × ℕ)
assign_first [] = []
assign_first ([] ∷ rows) = []
assign_first ((c ∷ cs) ∷ rows) = (0, 0) ∷ []

pub assign_first-within :
    (ts : List (Track thousandths identities)) (ds : List (Detection thousandths))
    → AllWithin thousandths identities
        (length ts)
        (length ds)
        (assign_first (costs thousandths identities ts ds))
assign_first-within [] ds = tt
assign_first-within (t ∷ ts) [] = tt
assign_first-within (t ∷ ts) (d ∷ ds) = (omega arith, omega arith, tt)

abbrev options : TrackerOptions thousandths identities
options = record {
  track_threshold = 500;
  low_threshold = 100;
  match_iou_threshold = 300;
  track_buffer = 30;
}

abbrev pub fresh : String → ByteTracker thousandths identities
fresh c = record {
  camera_id = c;
  track_threshold = 500;
  low_threshold = 100;
  match_iou_threshold = 300;
  track_buffer = 30;
  tracks = [];
  next_track_id = 1;
  frame_id = 0;
}

abbrev pub two_cameras : TrackerManager thousandths identities
two_cameras = record { trackers = ("c1", fresh "c1") ∷ ("c2", fresh "c2") ∷ [] }

pub two_cameras-AllValid : AllValid thousandths identities two_cameras
two_cameras-AllValid = (
  (refl, record { ids_increasing = omega arith; current = tt }),
  ((refl, record { ids_increasing = omega arith; current = tt }), tt),
)

abbrev pub person : Detection thousandths
person = record {
  bbox = record { x1 = 0; y1 = 0; x2 = 10000; y2 = 20000 };
  score = 900;
  class_id = 0;
  class_name = "person";
}

two_cameras-made : make_manager thousandths identities options ("c1" ∷ "c2" ∷ []) ≡ some two_cameras
unfolding make_manager make_trackers make_tracker
two_cameras-made = refl

-- A person seen once gives the track 1, matched again in the next frame; with no detections it is lost.
abbrev reported :
    List (Detection thousandths)
    → ByteTracker thousandths identities
    → Option (List ℕ × ByteTracker thousandths identities)
reported ds s = elim (update thousandths identities assign_first s ds) [
  | none ↦ none
  | some r ↦ some (map (λ d. d.track_id) r.1, r.0)
]

abbrev reports :
    List (List (Detection thousandths)) → ByteTracker thousandths identities → List (List ℕ)
reports [] s = []
reports (ds ∷ rest) s = elim (reported ds s) [
  | none ↦ []
  | some (seen, next) ↦ seen ∷ reports rest next
]

reports_example :
    reports ((person ∷ []) ∷ [] ∷ (person ∷ []) ∷ []) (fresh "c1") ≡ (1 ∷ []) ∷ [] ∷ (1 ∷ []) ∷ []
unfolding update associate predict_all finish lose_all new_tracks new_track predict_track modify
    lose_track matches iou corners predict initiate xyxy_to_xyah write_matches update_track correct
reports_example = refl

update_camera-Isolated_example :
    ((lookup "c2" two_cameras.trackers ≡ none)
      × (update_camera thousandths identities assign_first "c2" (person ∷ []) two_cameras
          ≡ unknown_camera))
    ⊎ Isolated thousandths identities assign_first "c2"
        (person ∷ [])
        two_cameras
        (update_camera thousandths identities assign_first "c2" (person ∷ []) two_cameras)
update_camera-Isolated_example =
    update_camera-Isolated thousandths identities assign_first assign_first-within "c2"
      (person ∷ []) two_cameras two_cameras-AllValid

fresh-IsValid : IsValid thousandths identities (fresh "c1")
fresh-IsValid = record { ids_increasing = omega arith; current = tt }

update-IsValid_example :
    TrackerUpdated thousandths identities
      (fresh "c1")
      (update thousandths identities assign_first (fresh "c1") (person ∷ []))
update-IsValid_example =
    update-IsValid thousandths identities assign_first assign_first-within (fresh "c1")
      (person ∷ []) fresh-IsValid
