-- ===== src/Desktop/Zones.antt =====
-- gpu/roi_checker.py: the bounds of the zones of a camera, and the zones that a point lies in.
pub mod Rotated
pub mod Examples
use mathlib.Core.Bool.{◌&&◌}
use computer_vision.Common.{
  ℕ, String, Bool, true, false, not, Option, none, some, List, [], ◌∷◌, ◌++◌, Numbers, whole,
  max_of, min_of, if◌then◌else◌,
}
use computer_vision.Errors.{Error, Result, ok, err, ◌>>=◌}

-- `!=` of two tests.
abbrev pub differ : Bool → Bool → Bool
differ true b = not b
differ false b = b

abbrev pub last_of {ℓ} : {A : Type ℓ} → A → List A → A
last_of x [] = x
last_of x (y ∷ ys) = last_of y ys

module _ (n : Numbers) where
  abbrev pub Point : Type 0
  Point = n.Number × n.Number

  -- A row of the table of zones.
  pub record Roi : Type 0 where
    pub enabled : Option Bool
    pub points_json : String
    pub zone_name : String

  -- `json.loads`, and the functions of numbers that the code uses: `int`, `abs`, `** 2` and `** 0.5`.
  pub record Maths : Type 0 where
    pub loads : String → Result (List (List n.Number))
    pub truncate : n.Number → n.Number
    pub absolute : n.Number → n.Number
    pub square : n.Number → n.Number
    pub root : n.Number → n.Number

  pub record Bounds : Type 0 where
    pub x : n.Number
    pub y : n.Number
    pub w : n.Number
    pub h : n.Number

  -- `roi.get("enabled", True)`
  abbrev pub is_enabled : Roi → Bool
  is_enabled r = elim r.enabled [ none ↦ true | some b ↦ b ]

  -- `pt[0]` and `pt[1]`
  abbrev pub first_two : List n.Number → Result Point
  first_two (x ∷ y ∷ _) = ok (x, y)
  first_two _ = err Error.index_error

  -- `x, y = point`
  abbrev pub unpack : List n.Number → Result Point
  unpack (x ∷ y ∷ []) = ok (x, y)
  unpack _ = err Error.value_error

  unfoldable pub read_points : List (List n.Number) → Result (List Point)
  read_points [] = ok []
  read_points (p ∷ ps) = do point ← first_two p; rest ← read_points ps; ok (point ∷ rest)

  -- `min(xs)` and `max(xs)`, which keep the first of equals.
  abbrev pub smallest : n.Number → List n.Number → n.Number
  smallest x [] = x
  smallest x (y ∷ ys) = smallest (min_of n x y) ys

  abbrev pub largest : n.Number → List n.Number → n.Number
  largest x [] = x
  largest x (y ∷ ys) = largest (max_of n x y) ys

  abbrev pub abscissas : List Point → List n.Number
  abscissas [] = []
  abscissas (p ∷ ps) = p.0 ∷ abscissas ps

  abbrev pub ordinates : List Point → List n.Number
  ordinates [] = []
  ordinates (p ∷ ps) = p.1 ∷ ordinates ps

  abbrev pub clipped : Option n.Number → n.Number → n.Number
  clipped none x = x
  clipped (some limit) x = min_of n limit x

  pub record RoiChecker : Type 0 where
    pub rois : List Roi
    pub frame_size : Option (n.Number × n.Number)

  abbrev pub reload : List Roi → RoiChecker → RoiChecker
  reload rois s = record s { rois = rois }

  -- What `point_in_polygon` asks of the edge from `j` to `i`: whether the point lies on it, or within a
  -- pixel of it, and whether the ray from the point crosses it.
  module _ (m : Maths) where
    abbrev pub lies_on : Point → Point → Point → Bool
    lies_on (x, y) (xj, yj) (xi, yi) =
        let distance =
          m.absolute
            (n.sub (n.mul (n.sub xj xi) (n.sub yi y)) (n.mul (n.sub xi x) (n.sub yj yi))) in
        let len = m.root (n.add (m.square (n.sub xj xi)) (m.square (n.sub yj yi))) in
        let dot : n.Number =
          n.add (n.mul (n.sub x xi) (n.sub xj xi)) (n.mul (n.sub y yi) (n.sub yj yi)) in
        n.lt (whole n 0) len
        && n.lt (n.div distance len) (n.decimal 10 1)
        && (n.le (whole n 0) dot && n.le dot (n.mul len len))

    abbrev pub crosses : Point → Point → Point → Bool
    crosses (x, y) (xj, yj) (xi, yi) =
        differ (n.lt y yi) (n.lt y yj)
        && n.lt x (n.add (n.div (n.mul (n.sub xj xi) (n.sub y yi)) (n.sub yj yi)) xi)

    -- The loop, at the points left, with the point before them.
    unfoldable pub edge_loop : Point → Point → Bool → List (List n.Number) → Result Bool
    edge_loop p previous inside [] = ok inside
    edge_loop p previous inside (q ∷ qs) = do
      point ← unpack q
      let rest = edge_loop p point (if crosses p previous point then not inside else inside) qs
      if lies_on p previous point then ok true else rest

    unfoldable pub point_in_polygon : Point → List (List n.Number) → Result Bool
    point_in_polygon p [] = ok false
    point_in_polygon p (q ∷ qs) = do
      first ← unpack q
      last ← unpack (last_of q qs)
      edge_loop p last false (q ∷ qs)

    -- The points of all enabled zones.
    unfoldable pub zone_points : List Roi → Result (List Point)
    zone_points [] = ok []
    zone_points (r ∷ rs) =
        if is_enabled r
        then (do
          polygon ← m.loads r.points_json
          points ← read_points polygon
          rest ← zone_points rs
          ok (points ++ rest))
        else zone_points rs

    abbrev pub bounds_of : n.Number → Option (n.Number × n.Number) → Point → List Point → Bounds
    bounds_of margin size p ps =
        let x1 = max_of n (whole n 0) (n.sub (smallest p.0 (abscissas ps)) margin) in
        let y1 = max_of n (whole n 0) (n.sub (smallest p.1 (ordinates ps)) margin) in
        let x2 =
          clipped (elim size [ none ↦ none | some s ↦ some s.0 ])
            (n.add (largest p.0 (abscissas ps)) margin) in
        let y2 =
          clipped (elim size [ none ↦ none | some s ↦ some s.1 ])
            (n.add (largest p.1 (ordinates ps)) margin) in
        record {
          x = m.truncate x1;
          y = m.truncate y1;
          w = m.truncate (n.sub x2 x1);
          h = m.truncate (n.sub y2 y1);
        }

    abbrev pub bounds_or_none : n.Number → Option (n.Number × n.Number) → List Point → Option Bounds
    bounds_or_none margin size [] = none
    bounds_or_none margin size (p ∷ ps) = some (bounds_of margin size p ps)

    unfoldable pub compute_roi_bounds :
        List Roi → n.Number → Option (n.Number × n.Number) → Result (Option Bounds)
    compute_roi_bounds rois margin size = do
      points ← zone_points rois
      ok (bounds_or_none margin size points)

    -- `get_bounds()`, whose margin is 16.
    unfoldable pub get_bounds : RoiChecker → Result (Option Bounds)
    unfolding compute_roi_bounds
    get_bounds s = compute_roi_bounds s.rois (whole n 16) s.frame_size

    -- The loop of `check_person`.
    unfoldable pub zones_with : Point → List Roi → Result (List Roi)
    zones_with foot [] = ok []
    zones_with foot (r ∷ rs) =
        if is_enabled r
        then (do
          polygon ← m.loads r.points_json
          inside ← point_in_polygon foot polygon
          rest ← zones_with foot rs
          ok (if inside then r ∷ rest else rest))
        else zones_with foot rs

    unfoldable pub check_person : RoiChecker → Point → Result (List Roi)
    unfolding zones_with
    check_person s foot = zones_with foot s.rois
