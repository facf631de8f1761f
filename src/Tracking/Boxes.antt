-- ===== src/Tracking/Boxes.antt =====
-- The boxes of edge_runtime/tracking/byte_tracker.py: corners, centre with aspect and height, overlap.
use computer_vision.Common.{◌≡◌, refl, false, Numbers, whole, max_of, min_of, arith, if◌then◌else◌}
use computer_vision.Errors.{ok}
use computer_vision.Vision.{BoundingBox, make_box, width, height, area}

-- `values[:4]` of a mean, and a measurement.
pub record Xyah (n : Numbers) : Type 0 where
  pub center_x : n.Number
  pub center_y : n.Number
  pub aspect : n.Number
  pub tall : n.Number

module _ (n : Numbers) where
  unfoldable pub xyxy_to_xyah : BoundingBox n → Xyah n
  xyxy_to_xyah b =
      let h : n.Number = max_of n (height n b) (n.decimal 1 6) in
      record {
        center_x = n.div (n.add b.x1 b.x2) (whole n 2);
        center_y = n.div (n.add b.y1 b.y2) (whole n 2);
        aspect = n.div (width n b) h;
        tall = h;
      }

  -- The four numbers that `_xyah_to_bbox` passes to `BoundingBox`.
  unfoldable pub corners : Xyah n → BoundingBox n
  corners v =
      let w : n.Number = max_of n (n.mul v.aspect v.tall) (whole n 0) in
      let h : n.Number = max_of n v.tall (whole n 0) in
      record {
        x1 = n.sub v.center_x (n.div w (whole n 2));
        y1 = n.sub v.center_y (n.div h (whole n 2));
        x2 = n.add v.center_x (n.div w (whole n 2));
        y2 = n.add v.center_y (n.div h (whole n 2));
      }

  unfoldable pub iou : BoundingBox n → BoundingBox n → n.Number
  iou a b =
      let w = max_of n (whole n 0) (n.sub (min_of n a.x2 b.x2) (max_of n a.x1 b.x1)) in
      let h = max_of n (whole n 0) (n.sub (min_of n a.y2 b.y2) (max_of n a.y1 b.y1)) in
      let intersection = n.mul w h in
      let union = n.sub (n.add (area n a) (area n b)) intersection in
      if n.lt (whole n 0) union then n.div intersection union else whole n 0

  max_of-zero :
      (a : n.Number)
      → n.lt (whole n 0) (whole n 0) ≡ false
      → n.lt (max_of n a (whole n 0)) (whole n 0) ≡ false
  max_of-zero a h = ground arith

  -- `_xyah_to_bbox` never raises, where a number that is halved and subtracted is not above the same
  -- number with the half added, for any half of a number that is not negative.
  pub make_box-corners :
      ((c w : n.Number)
        → n.lt w (whole n 0) ≡ false
        → n.lt (n.add c (n.div w (whole n 2))) (n.sub c (n.div w (whole n 2))) ≡ false)
      → n.lt (whole n 0) (whole n 0) ≡ false
      → (v : Xyah n) → make_box n (corners v) ≡ ok (corners v)
  unfolding make_box corners
  make_box-corners spread irreflexive v =
      rw
        (
          spread v.center_x (max_of n (n.mul v.aspect v.tall) (whole n 0))
              (max_of-zero (n.mul v.aspect v.tall) irreflexive),
          spread v.center_y (max_of n v.tall (whole n 0)) (max_of-zero v.tall irreflexive),
        )
        refl
