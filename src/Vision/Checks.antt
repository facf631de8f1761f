-- ===== src/Vision/Checks.antt =====
-- Which values the constructors of shared/schemas/vision.py accept.
use mathlib.Core.Bool.{◌&&◌}
use computer_vision.Common.{◌≡◌, not, arith, Numbers, if◌then◌else◌}
use computer_vision.Errors.{Error, ok, err}
use computer_vision.Vision.{is_none, Keypoint, in_unit, make_keypoint}

module _ (n : Numbers) where
  -- A keypoint is accepted, and then as it was given, exactly if its confidence is within 0 and 1 and it
  -- is visible with both coordinates or invisible with none; otherwise `ValueError` is raised.
  pub make_keypoint-eq :
      (k : Keypoint n)
      → make_keypoint n k ≡ (
          if in_unit n k.confidence
            && (if k.visible
                then not (is_none k.x) && not (is_none k.y)
                else is_none k.x && is_none k.y)
          then ok k
          else err Error.value_error)
  unfolding make_keypoint
  make_keypoint-eq k = ground arith
