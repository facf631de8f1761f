-- ===== src/Evidence.antt =====
-- edge_runtime/analytics/roi: where the evidence for a safety rule lies (body_regions.py), and whether it
-- meets a region of interest (geometry.py, evidence.py). Shapely is a parameter: its shapes and what the
-- code asks of them. Messages of errors are not modelled.
pub mod Rules
pub mod Occluded
pub mod Matched
mod Examples
use mathlib.Core.Bool.{◌&&◌, ◌||◌}
use computer_vision.Common.{
  ℕ, String, Bool, true, false, not, Option, none, some, List, [], ◌∷◌, map, length, leb, ◌==◌,
  text_key, Numbers, whole, max_of, if◌then◌else◌,
}
use computer_vision.Errors.{Error, Result, ok, err}
use computer_vision.Vision.{BoundingBox, width, height, area, Keypoint, PoseResult}

pub record Shapes (n : Numbers) : Type 1 where
  pub Shape : Type 0
  pub polygon : List (n.Number × n.Number) → Result Shape
  pub box : BoundingBox n → Shape
  pub hull : List (n.Number × n.Number) → Shape
  pub point : n.Number × n.Number → Shape
  pub buffer : Shape → n.Number → Shape
  pub union : List Shape → Shape
  pub intersection : Shape → Shape → Shape
  pub shape_area : Shape → n.Number
  pub is_empty : Shape → Bool
  pub is_valid : Shape → Bool

pub data EvidenceKind : Type 0 where
  head torso feet upper_body person : EvidenceKind
  bare_head_detection no_vest_detection no_shoes_detection : EvidenceKind

module _ (n : Numbers) (s : Shapes n) where
  pub record EvidenceRegion : Type 0 where
    pub kind : EvidenceKind
    pub geometry : s.Shape
    pub source : String

  unfoldable pub make_region : EvidenceKind → s.Shape → String → Result EvidenceRegion
  make_region kind geometry source =
      if s.is_empty geometry || not (s.is_valid geometry)
      then err Error.value_error
      else ok (record { kind = kind; geometry = geometry; source = source })

  unfoldable pub bbox_region : EvidenceKind → BoundingBox n → String → Result EvidenceRegion
  bbox_region kind bbox source =
      if n.le (area n bbox) (whole n 0)
      then err Error.value_error
      else make_region kind (s.box bbox) source

  pub record RoiIntersection : Type 0 where
    pub intersects : Bool
    pub intersection_area : n.Number
    pub evidence_overlap_ratio : n.Number

  abbrev pub checked_polygon : Result s.Shape → Result s.Shape
  checked_polygon (err e) = err e
  checked_polygon (ok p) =
      if not (s.is_valid p)
      then err Error.value_error
      else if s.is_empty p || n.le (s.shape_area p) (whole n 0)
      then err Error.value_error
      else ok p

  -- `roi_polygon_pixels`, on the points of the configuration.
  unfoldable pub roi_polygon_pixels :
      List (n.Number × n.Number) → n.Number → n.Number → Result s.Shape
  roi_polygon_pixels points frame_width frame_height =
      if n.le frame_width (whole n 0) || n.le frame_height (whole n 0)
      then err Error.value_error
      else checked_polygon
          (s.polygon (map (λ p. (n.mul p.0 frame_width, n.mul p.1 frame_height)) points))

  abbrev pub overlap_ratio : n.Number → n.Number → n.Number
  overlap_ratio shared whole_area =
      if n.lt (whole n 0) whole_area then n.div shared whole_area else whole n 0

  unfoldable pub intersect_evidence : s.Shape → EvidenceRegion → n.Number → Result RoiIntersection
  intersect_evidence roi_polygon evidence minimum_overlap_ratio =
      if not (n.le (whole n 0) minimum_overlap_ratio && n.le minimum_overlap_ratio (whole n 1))
      then err Error.value_error
      else let shared : n.Number = s.shape_area (s.intersection roi_polygon evidence.geometry) in
        let ratio : n.Number = overlap_ratio shared (s.shape_area evidence.geometry) in
        ok (record {
          intersects = n.lt (whole n 0) shared && n.le minimum_overlap_ratio ratio;
          intersection_area = shared;
          evidence_overlap_ratio = ratio;
        })

  abbrev pub has_name : String → List String → Bool
  has_name name [] = false
  has_name name (x ∷ xs) = x == name || has_name name xs

  abbrev pub with_point :
      Option n.Number → Option n.Number → List (n.Number × n.Number) → List (n.Number × n.Number)
  with_point (some x) (some y) rest = (x, y) ∷ rest
  with_point (some x) none rest = rest
  with_point none y rest = rest

  unfoldable pub visible_points : List (Keypoint n) → List String → List (n.Number × n.Number)
  visible_points [] names = []
  visible_points (k ∷ ks) names =
      let rest = visible_points ks names in
      if has_name k.name names && k.visible then with_point k.x k.y rest else rest

  abbrev pub hull_or_buffer : List (n.Number × n.Number) → n.Number → Option s.Shape
  hull_or_buffer [] radius = none
  hull_or_buffer (p ∷ ps) radius = some (s.buffer (s.hull (p ∷ ps)) radius)

  abbrev pub head_names : List String
  head_names = "nose" ∷ "left_eye" ∷ "right_eye" ∷ "left_ear" ∷ "right_ear" ∷ []

  abbrev pub torso_names : List String
  torso_names = "left_shoulder" ∷ "right_shoulder" ∷ "left_hip" ∷ "right_hip" ∷ []

  abbrev pub ankle_names : List String
  ankle_names = "left_ankle" ∷ "right_ankle" ∷ []

  abbrev pub scale_of : PoseResult n → n.Number
  scale_of pose = max_of n (max_of n (width n pose.bbox) (height n pose.bbox)) (whole n 1)

  unfoldable pub head_of : PoseResult n → Option s.Shape
  head_of pose =
      hull_or_buffer (visible_points pose.keypoints head_names)
        (n.mul (scale_of pose) (n.decimal 35 3))

  unfoldable pub torso_of : PoseResult n → Option s.Shape
  torso_of pose =
      let points = visible_points pose.keypoints torso_names in
      if leb 2 (length points)
      then hull_or_buffer points (n.mul (scale_of pose) (n.decimal 2 2))
      else none

  abbrev pub union_of_points : n.Number → List (n.Number × n.Number) → Option s.Shape
  union_of_points radius [] = none
  union_of_points radius (p ∷ ps) = some (s.union (map (λ q. s.buffer (s.point q) radius) (p ∷ ps)))

  unfoldable pub feet_of : PoseResult n → Option s.Shape
  feet_of pose =
      union_of_points (n.mul (scale_of pose) (n.decimal 4 2))
        (visible_points pose.keypoints ankle_names)

  -- `upper_parts`, from the head and the torso.
  abbrev pub upper_of : Option s.Shape → Option s.Shape → Option s.Shape
  upper_of none none = none
  upper_of (some h) none = some (s.union (h ∷ []))
  upper_of none (some t) = some (s.union (t ∷ []))
  upper_of (some h) (some t) = some (s.union (h ∷ t ∷ []))

  -- `shape is not None and not shape.is_empty`
  abbrev pub unless_empty : Option s.Shape → Option s.Shape
  unless_empty none = none
  unless_empty (some g) = if s.is_empty g then none else some g

  abbrev pub cons_region :
      Result EvidenceRegion → Result (List EvidenceRegion) → Result (List EvidenceRegion)
  cons_region (err e) rest = err e
  cons_region (ok r) (err e) = err e
  cons_region (ok r) (ok rest) = ok (r ∷ rest)

  -- One entry of `regions`, and then the later ones.
  abbrev pub add_region :
      EvidenceKind → Option s.Shape → Result (List EvidenceRegion) → Result (List EvidenceRegion)
  add_region kind none rest = rest
  add_region kind (some g) rest = cons_region (make_region kind g "pose") rest

  -- The values of the dictionary `regions`, whose keys are the kinds, in the order of its insertions.
  unfoldable pub pose_evidence_regions : PoseResult n → Result (List EvidenceRegion)
  pose_evidence_regions pose = add_region head (unless_empty (head_of pose)) (
      add_region torso (unless_empty (torso_of pose)) (
        add_region feet (feet_of pose)
          (add_region upper_body (upper_of (head_of pose) (torso_of pose)) (ok []))))
