-- ===== src/Alert/Roi.antt =====
-- `ROIMatcher` of alert/roi_matcher.py, and the parts of `BBox` of shared/models.py that it uses.
-- Coordinates, polygons (Shapely), the JSON text and the database are parameters: `get_roi` is what the
-- database answers at the time of a call. A call of them that raises answers an error.
pub mod Cache
use mathlib.Core.Bool.{◌||◌}
use computer_vision.Common.{
  ℕ, ◌≡◌, ◌≢◌, refl, ap, String, Bool, true, false, Option, none, some, List, [], ◌∷◌, arith,
  length, ltb, Dict, lookup, lookup-insert_self, lookup-remove, insert, remove, ◌==◌, same_self,
  text_key, if◌then◌else◌, Bool-cases, Option-cases,
}
use computer_vision.Errors.{Error, Result, ok, err}

pub record BBox (F : Type 0) : Type 0 where
  pub x1 : F
  pub y1 : F
  pub x2 : F
  pub y2 : F

pub record Geometry : Type 1 where
  pub Coordinate : Type 0
  pub middle : Coordinate → Coordinate → Coordinate
  pub Polygon : Type 0
  pub polygon : List (List Coordinate) → Result Polygon
  pub contains : Polygon → Coordinate × Coordinate → Bool
  pub touches : Polygon → Coordinate × Coordinate → Bool
  pub loads : String → Result (List (List Coordinate))

module _ (g : Geometry) where
  -- The cache: a camera that was looked up without a polygon is there with `none`.
  pub record RoiMatcher : Type 0 where
    pub cache : Dict String (Option g.Polygon)

  abbrev pub some_polygon : Result g.Polygon → Result (Option g.Polygon)
  some_polygon (ok p) = ok (some p)
  some_polygon (err e) = err e

  abbrev pub from_points : Result (List (List g.Coordinate)) → Result (Option g.Polygon)
  from_points (err e) = err e
  from_points (ok points) =
      if ltb (length points) 3 then ok none else some_polygon (g.polygon points)

  unfoldable pub load_polygon : (String → Option String) → String → Result (Option g.Polygon)
  load_polygon get_roi camera_id = elim (get_roi camera_id) [
    | none ↦ ok none
    | some row ↦ from_points (g.loads row)
  ]

  abbrev pub store : RoiMatcher → String → Result (Option g.Polygon) → RoiMatcher
  store s camera_id (ok p) = record s { cache = insert camera_id p s.cache }
  store s camera_id (err e) = s

  unfoldable pub get_polygon :
      (String → Option String) → RoiMatcher → String → RoiMatcher × Result (Option g.Polygon)
  get_polygon get_roi s camera_id = elim (lookup camera_id s.cache) [
    | some p ↦ (s, ok p)
    | none ↦ (store s camera_id (load_polygon get_roi camera_id), load_polygon get_roi camera_id)
  ]

  -- The rest of `is_in_roi`: no polygon allows everything.
  unfoldable pub judge : Result (Option g.Polygon) → BBox g.Coordinate → Result Bool
  judge (err e) b = err e
  judge (ok none) b = ok true
  judge (ok (some p)) b =
      let center : g.Coordinate × g.Coordinate = (g.middle b.x1 b.x2, g.middle b.y1 b.y2) in
      ok (g.contains p center || g.touches p center)

  unfoldable pub is_in_roi :
      (String → Option String) → RoiMatcher → String → BBox g.Coordinate → RoiMatcher × Result Bool
  is_in_roi get_roi s camera_id b =
      let (s', polygon) = get_polygon get_roi s camera_id in (s', judge polygon b)

  unfoldable pub invalidate : RoiMatcher → String → RoiMatcher
  invalidate s camera_id = record s { cache = remove camera_id s.cache }

  unfoldable pub invalidate_all : RoiMatcher → RoiMatcher
  invalidate_all s = record s { cache = [] }
