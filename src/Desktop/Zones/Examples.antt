-- ===== src/Desktop/Zones/Examples.antt =====
-- A square zone, in thousandths of a pixel.
use computer_vision.Common.{◌*◌, ◌/◌, ◌≡◌, refl, none, List, [], ◌∷◌, ◌++◌, thousandths}
use computer_vision.Errors.{ok}
use computer_vision.Desktop.Zones.{
  Point, Maths, Roi, RoiChecker, point_in_polygon, check_person, zones_with, edge_loop,
}
use computer_vision.Desktop.Zones.Rotated.{lists, edges, is_inside, point_in_polygon-rotate}

abbrev corners : List (Point thousandths)
corners = (9000, 1000) ∷ (9000, 9000) ∷ (1000, 9000) ∷ []

abbrev pub maths : Maths thousandths
maths = record {
  loads = λ text.
      ok ((1000 ∷ 1000 ∷ []) ∷ (9000 ∷ 1000 ∷ []) ∷ (9000 ∷ 9000 ∷ []) ∷ (1000 ∷ 9000 ∷ []) ∷ []);
  truncate = λ x. x / 1000 * 1000;
  absolute = λ x. x;
  square = λ x. x * x / 1000;
  root = λ x. x;
}

point_in_polygon-rotate_example :
    (point_in_polygon thousandths maths
        (5000, 5000)
        (lists thousandths maths ((1000, 1000) ∷ corners))
      ≡ ok (
          is_inside thousandths maths
            (5000, 5000)
            (edges thousandths maths ((1000, 1000) ∷ corners))))
    × (point_in_polygon thousandths maths
          (5000, 5000)
          (lists thousandths maths (corners ++ (1000, 1000) ∷ []))
        ≡ point_in_polygon thousandths maths
            (5000, 5000)
            (lists thousandths maths ((1000, 1000) ∷ corners)))
point_in_polygon-rotate_example =
    point_in_polygon-rotate thousandths maths (5000, 5000) (1000, 1000) corners

abbrev pub zone : Roi thousandths
zone = record { enabled = none; points_json = "square"; zone_name = "yard" }

abbrev pub checker : RoiChecker thousandths
checker = record { rois = zone ∷ []; frame_size = none }

zone_found : check_person thousandths maths checker (5000, 5000) ≡ ok (zone ∷ [])
unfolding check_person zones_with point_in_polygon edge_loop
zone_found = refl
