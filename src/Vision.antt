-- ===== src/Vision.antt =====
-- shared/schemas/vision.py: the results that detectors, the tracker and the rules share. A class whose
-- `__post_init__` may raise has a `make_` function that answers a `Result`.
pub mod Checks
use mathlib.Core.Bool.{◌&&◌, ◌||◌}
use computer_vision.Common.{
  ℕ, String, Bool, true, false, not, Option, none, some, List, [], ◌∷◌, Numbers, whole, ◌==◌,
  text_key, if◌then◌else◌,
}
use computer_vision.Errors.{Error, Result, ok, err}

-- `value is None`
abbrev pub is_none {ℓ} : {A : Type ℓ} → Option A → Bool
is_none none = true
is_none (some _) = false

module _ (n : Numbers) where
  pub record BoundingBox : Type 0 where
    pub x1 : n.Number
    pub y1 : n.Number
    pub x2 : n.Number
    pub y2 : n.Number

  unfoldable pub make_box : BoundingBox → Result BoundingBox
  make_box b = if n.lt b.x2 b.x1 || n.lt b.y2 b.y1 then err Error.value_error else ok b

  abbrev pub width : BoundingBox → n.Number
  width b = n.sub b.x2 b.x1

  abbrev pub height : BoundingBox → n.Number
  height b = n.sub b.y2 b.y1

  abbrev pub area : BoundingBox → n.Number
  area b = n.mul (width b) (height b)

  pub record Detection : Type 0 where
    pub bbox : BoundingBox
    pub score : n.Number
    pub class_id : ℕ
    pub class_name : String

  -- `0.0 <= value <= 1.0`
  abbrev pub in_unit : n.Number → Bool
  in_unit x = n.le (whole n 0) x && n.le x (whole n 1)

  unfoldable pub make_detection : Detection → Result Detection
  make_detection d = if in_unit d.score then ok d else err Error.value_error

  pub record TrackedDetection : Type 0 where
    pub camera_id : String
    pub track_id : ℕ
    pub bbox : BoundingBox
    pub score : n.Number
    pub class_id : ℕ
    pub class_name : String

  abbrev pub identity : TrackedDetection → String × ℕ
  identity t = (t.camera_id, t.track_id)

  pub record Keypoint : Type 0 where
    pub name : String
    pub x : Option n.Number
    pub y : Option n.Number
    pub confidence : n.Number
    pub visible : Bool

  unfoldable pub make_keypoint : Keypoint → Result Keypoint
  make_keypoint k =
      if not (in_unit k.confidence)
      then err Error.value_error
      else if k.visible && (is_none k.x || is_none k.y)
      then err Error.value_error
      else if not k.visible && (not (is_none k.x) || not (is_none k.y))
      then err Error.value_error
      else ok k

  pub record PoseResult : Type 0 where
    pub camera_id : String
    pub track_id : ℕ
    pub bbox : BoundingBox
    pub keypoints : List Keypoint

  -- The loop of `PoseResult.keypoint`.
  unfoldable pub find_keypoint : String → List Keypoint → Result Keypoint
  find_keypoint name [] = err Error.key_error
  find_keypoint name (point ∷ points) =
      if point.name == name then ok point else find_keypoint name points

  unfoldable pub keypoint : PoseResult → String → Result Keypoint
  unfolding find_keypoint
  keypoint pose name = find_keypoint name pose.keypoints
