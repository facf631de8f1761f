-- ===== src/Desktop/Ppe/Windows.antt =====
-- The windows that a person's box is cropped to.
use mathlib.Core.Bool.{◌||◌}
use computer_vision.Common.{
  ◌≡◌, inl, inr, true, false, Option, none, some, arith, Numbers, whole, max_of, min_of, Bool-cases,
}
use computer_vision.Vision.{BoundingBox}
use computer_vision.Desktop.Ppe.{Window, Frame, crop, crop_head, crop_torso, crop_feet}

-- What the comparisons of numbers other than NaN satisfy.
pub record IsOrdered (n : Numbers) : Type 0 where
  pub le_refl : (a : n.Number) → n.le a a ≡ true
  pub le_of_lt : (a b : n.Number) → n.lt a b ≡ true → n.le a b ≡ true
  pub le_of_not_lt : (a b : n.Number) → n.lt a b ≡ false → n.le b a ≡ true
  pub lt_of_not_le : (a b : n.Number) → n.le b a ≡ false → n.lt a b ≡ true

module _ (n : Numbers) {Picture : Type 0} (frame : Frame n Picture) where
  -- A part of the frame with at least one row and one column.
  pub record IsInside (w : Window n) : Type 0 where
    pub rows : n.lt w.top w.bottom ≡ true
    pub columns : n.lt w.left w.right ≡ true
    pub from_top : n.le (whole n 0) w.top ≡ true
    pub from_left : n.le (whole n 0) w.left ≡ true
    pub to_bottom : n.le w.bottom frame.tall ≡ true
    pub to_right : n.le w.right frame.wide ≡ true

  abbrev pub IsInsideOrNone : Option (Window n) → Type 0
  IsInsideOrNone none = Unit
  IsInsideOrNone (some w) = IsInside w

  module _ (trunc : n.Number → n.Number) (ordered : IsOrdered n) where
    le-max_of : (a b : n.Number) → n.le a (max_of n a b) ≡ true
    le-max_of a b = elim (Bool-cases (n.lt a b)) [
      | inl e ↦ rw e (ordered.le_of_lt a b e)
      | inr e ↦ rw e (ordered.le_refl a)
    ]

    min_of-le : (a b : n.Number) → n.le (min_of n a b) a ≡ true
    min_of-le a b = elim (Bool-cases (n.lt b a)) [
      | inl e ↦ rw e (ordered.le_of_lt b a e)
      | inr e ↦ rw e (ordered.le_refl a)
    ]

    crop-inside :
        (top bottom : n.Number) (b : BoundingBox n)
        → IsInsideOrNone (crop n trunc frame top bottom b)
    unfolding crop
    crop-inside top bottom b =
        let cy1 = max_of n (whole n 0) top in
        let cy2 = min_of n frame.tall bottom in
        let cx1 = max_of n (whole n 0) (trunc b.x1) in
        let cx2 = min_of n frame.wide (trunc b.x2) in
        elim (Bool-cases (n.le cy2 cy1 || n.le cx2 cx1)) [
          | inl e ↦ rw e tt
          | inr e ↦ rw e (record {
            rows = ordered.lt_of_not_le cy1 cy2 (ground arith);
            columns = ordered.lt_of_not_le cx1 cx2 (ground arith);
            from_top = le-max_of (whole n 0) top;
            from_left = le-max_of (whole n 0) (trunc b.x1);
            to_bottom = min_of-le frame.tall bottom;
            to_right = min_of-le frame.wide (trunc b.x2);
          })
        ]

    -- For numbers in order, each crop of a person is either the black picture or a window that lies in
    -- the frame and has at least one row and one column, wherever the box lies.
    pub crops-inside :
        (b : BoundingBox n)
        → IsInsideOrNone (crop_head n trunc frame b)
          × IsInsideOrNone (crop_torso n trunc frame b)
          × IsInsideOrNone (crop_feet n trunc frame b)
    crops-inside b = (crop-inside _ _ b, crop-inside _ _ b, crop-inside _ _ b)
