-- ===== src/Alert/Classifier.antt =====
-- alert/classifier.py with the classes of shared/models.py that it reads: `_iou`, `_compute_fall_score`
-- and `ViolationClassifier.classify`. The numbers are a parameter.
pub mod Fall
pub mod Counts
mod Examples
use mathlib.Core.Bool.{◌&&◌, ◌||◌}
use computer_vision.Common.{
  ℕ, suc, String, Bool, true, false, not, Option, none, some, List, [], ◌∷◌, ◌++◌, length,
  get_elem?, keep, is_empty, leb, eqb, ◌==◌, text_key, Numbers, whole, max_of, min_of, sum,
  if◌then◌else◌,
}
use computer_vision.Alert.Roi.{BBox}
use computer_vision.Alert.Pipeline.{Violation}

abbrev pub any {ℓ} : {A : Type ℓ} → (A → Bool) → List A → Bool
any test [] = false
any test (x ∷ xs) = test x || any test xs

module _ (n : Numbers) where
  pub record DetectedObject : Type 0 where
    pub bbox : BBox n.Number
    pub cls : String
    pub conf : n.Number

  pub record Keypoint : Type 0 where
    pub x : n.Number
    pub y : n.Number
    pub conf : n.Number

  pub record DetectionResult : Type 0 where
    pub camera_id : String
    pub objects : List DetectedObject
    pub keypoints : Option (List (List Keypoint))
    pub timestamp : ℕ

  abbrev pub width : BBox n.Number → n.Number
  width b = n.sub b.x2 b.x1

  abbrev pub height : BBox n.Number → n.Number
  height b = n.sub b.y2 b.y1

  abbrev pub aspect_ratio : BBox n.Number → n.Number
  aspect_ratio b = if n.lt (whole n 0) (height b) then n.div (width b) (height b) else whole n 0

  unfoldable pub iou : BBox n.Number → BBox n.Number → n.Number
  iou a b =
      let x_left = max_of n a.x1 b.x1 in
      let y_top = max_of n a.y1 b.y1 in
      let x_right = min_of n a.x2 b.x2 in
      let y_bottom = min_of n a.y2 b.y2 in
      if n.lt x_right x_left || n.lt y_bottom y_top
      then whole n 0
      else let inter : n.Number = n.mul (n.sub x_right x_left) (n.sub y_bottom y_top) in
        let union : n.Number =
          n.sub (n.add (n.mul (width a) (height a)) (n.mul (width b) (height b))) inter in
        if n.lt (whole n 0) union then n.div inter union else whole n 0

  -- The literals of the score: 0.4 is `hundredths 40`.
  abbrev pub hundredths : ℕ → n.Number
  hundredths k = n.decimal k 2

  abbrev pub is_wide : BBox n.Number → Bool
  is_wide b = n.lt (n.decimal 12 1) (aspect_ratio b)

  abbrev pub is_squat : BBox n.Number → Bool
  is_squat b = n.lt (n.decimal 9 1) (aspect_ratio b)

  -- `[kp.y for i, kp in enumerate(keypoints) if i in indices and kp.conf > 0.3]`, from an index on.
  abbrev pub visible_ys : (ℕ → Bool) → ℕ → List Keypoint → List n.Number
  visible_ys wanted i [] = []
  visible_ys wanted i (k ∷ ks) =
      if wanted i && n.lt (n.decimal 3 1) k.conf
      then k.y ∷ visible_ys wanted (suc i) ks
      else visible_ys wanted (suc i) ks

  abbrev pub head_ys : List Keypoint → List n.Number
  head_ys = visible_ys (λ i. leb i 4) 0

  abbrev pub hip_ys : List Keypoint → List n.Number
  hip_ys = visible_ys (λ i. eqb i 11 || eqb i 12) 0

  abbrev pub shoulder_ys : List Keypoint → List n.Number
  shoulder_ys = visible_ys (λ i. eqb i 5 || eqb i 6) 0

  abbrev pub average : List n.Number → n.Number
  average ys = n.div (sum n ys) (whole n (length ys))

  -- Both lists are there, and the first lies below the second by so much at least.
  abbrev pub is_below : (n.Number → n.Number) → List n.Number → List n.Number → Bool
  is_below lower ys hips =
      not (is_empty ys) && not (is_empty hips) && n.lt (lower (average hips)) (average ys)

  abbrev pub head_is_below : List Keypoint → Bool
  head_is_below ks = is_below (λ y. y) (head_ys ks) (hip_ys ks)

  abbrev pub head_is_near : List Keypoint → Bool
  head_is_near ks = is_below (λ y. n.sub y (whole n 30)) (head_ys ks) (hip_ys ks)

  abbrev pub shoulders_are_below : List Keypoint → Bool
  shoulders_are_below ks = is_below (λ y. y) (shoulder_ys ks) (hip_ys ks)

  abbrev pub add_aspect : Bool → Bool → n.Number → n.Number
  add_aspect wide squat score =
      if wide
      then n.add score (hundredths 40)
      else if squat
      then n.add score (hundredths 20)
      else score

  abbrev pub add_head : Bool → Bool → n.Number → n.Number
  add_head below near score =
      if below
      then n.add score (hundredths 35)
      else if near
      then n.add score (hundredths 15)
      else score

  abbrev pub add_shoulders : Bool → n.Number → n.Number
  add_shoulders below score = if below then n.add score (hundredths 25) else score

  abbrev pub total_score : Bool → Bool → Bool → Bool → Bool → Bool → n.Number
  total_score wide squat posed head near shoulders =
      let score = add_aspect wide squat (hundredths 0) in
      min_of n (if posed then add_shoulders shoulders (add_head head near score) else score)
        (hundredths 100)

  -- `keypoints and len(keypoints) >= 17`
  abbrev pub is_posed : List Keypoint → Bool
  is_posed ks = not (is_empty ks) && leb 17 (length ks)

  unfoldable pub compute_fall_score : BBox n.Number → List Keypoint → n.Number
  compute_fall_score b ks =
      total_score (is_wide b) (is_squat b) (is_posed ks) (head_is_below ks) (head_is_near ks)
        (shoulders_are_below ks)

  pub record ViolationClassifier : Type 0 where
    pub confidence_threshold : n.Number

  -- The detected objects of a class.
  abbrev pub of_class : ViolationClassifier → String → List DetectedObject → List DetectedObject
  of_class c name = keep (λ o. o.cls == name && n.le c.confidence_threshold o.conf)

  -- `_iou(person.bbox, o.bbox) > IOU_THRESHOLD`
  abbrev pub overlaps : BBox n.Number → DetectedObject → Bool
  overlaps b o = n.lt (n.decimal 1 1) (iou b o.bbox)

  abbrev pub is_lower_boot : BBox n.Number → DetectedObject → Bool
  is_lower_boot b o = n.le (n.add b.y1 (n.mul (height b) (hundredths 66))) o.bbox.y1 && overlaps b o

  abbrev pub has_boot : BBox n.Number → List DetectedObject → Bool
  has_boot b boots = not (is_empty (keep (is_lower_boot b) boots))

  -- `person_keypoints`, where nothing and an empty list are the same to the tests on them.
  abbrev pub keypoints_of : Option (List (List Keypoint)) → ℕ → List Keypoint
  keypoints_of none i = []
  keypoints_of (some all) i = elim (get_elem? all i) [ none ↦ [] | some ks ↦ ks ]

  abbrev pub is_fallen : BBox n.Number → List Keypoint → Bool
  is_fallen b ks = not (is_empty ks) && n.lt (hundredths 60) (compute_fall_score b ks)

  abbrev pub violation : DetectionResult → BBox n.Number → String → String → Violation n.Number
  violation r b type severity = record {
    id = none;
    camera_id = r.camera_id;
    violation_type = type;
    severity = severity;
    bbox = b;
    thumbnail_path = "";
    timestamp = r.timestamp;
  }

  abbrev pub unless : Bool → Violation n.Number → List (Violation n.Number)
  unless test v = if test then [] else v ∷ []

  -- The loop over the persons, from the person `i` on.
  unfoldable pub classify_from :
      ViolationClassifier → DetectionResult → ℕ → List DetectedObject → List (Violation n.Number)
  classify_from c r i [] = []
  classify_from c r i (person ∷ persons) =
      let b = person.bbox in
      unless (any (overlaps b) (of_class c "helmet" r.objects)) (violation r b "NO_HELMET" "HIGH")
      ++ unless (any (overlaps b) (of_class c "vest" r.objects)) (violation r b "NO_VEST" "MEDIUM")
      ++ unless (has_boot b (of_class c "boot" r.objects)) (violation r b "NO_BOOT" "MEDIUM")
      ++ unless (not (is_fallen b (keypoints_of r.keypoints i))) (violation r b "FALL" "HIGH")
      ++ classify_from c r (suc i) persons

  unfoldable pub classify : ViolationClassifier → DetectionResult → List (Violation n.Number)
  classify c r = classify_from c r 0 (of_class c "person" r.objects)
