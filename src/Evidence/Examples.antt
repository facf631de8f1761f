-- ===== src/Evidence/Examples.antt =====
-- Evidence on a line: shapes are spans, with numbers in thousandths.
use mathlib.Core.Bool.{◌||◌}
use computer_vision.Common.{
  ℕ, ◌+◌, ◌-◌, ◌≡◌, refl, String, true, not, some, List, [], ◌∷◌, leb, max, min, lookup, text_key,
  thousandths,
}
use computer_vision.Errors.{Result, ok, err}
use computer_vision.Vision.{Keypoint, PoseResult}
use computer_vision.Evidence.{
  Shapes, EvidenceRegion, RoiIntersection, make_region, head_of, torso_of, feet_of, unless_empty,
  visible_points, pose_evidence_regions, roi_polygon_pixels,
}
use computer_vision.Evidence.Rules.{is_bare_head, rule_evidence_kinds, evaluate_rule_roi}
use computer_vision.Evidence.Occluded.{has, has_kind, is_unverifiable, evaluate_rule_roi-pose}
use computer_vision.Evidence.Matched.{any_meets, evaluate_rule_roi-matched}

record Span : Type 0 where
  from : ℕ
  until : ℕ

abbrev span_of : List (ℕ × ℕ) → Span
span_of [] = record { from = 0; until = 0 }
span_of (p ∷ []) = record { from = p.0; until = p.0 }
span_of (p ∷ q ∷ ps) =
    let rest = span_of (q ∷ ps) in record { from = min p.0 rest.from; until = max p.0 rest.until }

abbrev cover : List Span → Span
cover [] = record { from = 0; until = 0 }
cover (p ∷ []) = p
cover (p ∷ q ∷ ps) =
    let rest = cover (q ∷ ps) in
    record { from = min p.from rest.from; until = max p.until rest.until }

abbrev spans : Shapes thousandths
spans = record {
  Shape = Span;
  polygon = λ ps. ok (span_of ps);
  box = λ b. record { from = b.x1; until = b.x2 };
  hull = span_of;
  point = λ p. record { from = p.0; until = p.0 };
  buffer = λ p r. record { from = p.from - r; until = p.until + r };
  union = cover;
  intersection = λ p q. record { from = max p.from q.from; until = min p.until q.until };
  shape_area = λ p. p.until - p.from;
  is_empty = λ p. leb p.until p.from;
  is_valid = λ p. leb p.from p.until;
}

abbrev seen_at : String → ℕ → Keypoint thousandths
seen_at name x = record { name = name; x = some x; y = some 0; confidence = 900; visible = true }

-- A nose and two hips in view, and no feet.
abbrev seated : PoseResult thousandths
seated = record {
  camera_id = "c1";
  track_id = 4;
  bbox = record { x1 = 0; y1 = 0; x2 = 100000; y2 = 200000 };
  keypoints = seen_at "nose" 50000 ∷ seen_at "left_hip" 40000 ∷ seen_at "right_hip" 60000 ∷ [];
}

abbrev regions_or_none :
    Result (List (EvidenceRegion thousandths spans)) → List (EvidenceRegion thousandths spans)
regions_or_none (err e) = []
regions_or_none (ok rs) = rs

abbrev seated_regions : List (EvidenceRegion thousandths spans)
seated_regions = regions_or_none (pose_evidence_regions thousandths spans seated)

seated_built : pose_evidence_regions thousandths spans seated ≡ ok seated_regions
unfolding pose_evidence_regions make_region head_of torso_of feet_of visible_points
seated_built = refl

-- The left half of a frame of 100 by 100 pixels.
abbrev left_half : List (ℕ × ℕ)
left_half = (0, 0) ∷ (500, 0) ∷ (500, 1000) ∷ []

evaluate_rule_roi-pose_example :
    (is_unverifiable thousandths spans
        (evaluate_rule_roi thousandths spans "no_helmet" left_half 100000 100000 seated_regions 0)
      ≡ not (
          has thousandths spans
            (unless_empty thousandths spans (head_of thousandths spans seated))))
    × (is_unverifiable thousandths spans
          (evaluate_rule_roi thousandths spans "no_vest" left_half 100000 100000 seated_regions 0)
        ≡ not (
            has thousandths spans
              (unless_empty thousandths spans (torso_of thousandths spans seated))))
    × (is_unverifiable thousandths spans
          (evaluate_rule_roi thousandths spans "no_shoes" left_half 100000 100000 seated_regions 0)
        ≡ not (has thousandths spans (feet_of thousandths spans seated)))
    × (is_unverifiable thousandths spans
          (evaluate_rule_roi thousandths spans "fall" left_half 100000 100000 seated_regions 0)
        ≡ not (
            has thousandths spans (head_of thousandths spans seated)
            || has thousandths spans (torso_of thousandths spans seated)))
evaluate_rule_roi-pose_example =
    evaluate_rule_roi-pose thousandths spans seated seated_regions seated_built left_half 100000
      100000 0

seated_shoes :
    is_unverifiable thousandths spans
      (evaluate_rule_roi thousandths spans "no_shoes" left_half 100000 100000 seated_regions 0)
    ≡ true
unfolding evaluate_rule_roi rule_evidence_kinds lookup pose_evidence_regions make_region head_of
    torso_of feet_of visible_points
seated_shoes = refl

abbrev left_span : Span
left_span = record { from = 0; until = 50000 }

left_half_sound : roi_polygon_pixels thousandths spans left_half 100000 100000 ≡ ok left_span
unfolding roi_polygon_pixels
left_half_sound = refl

helmet_known : lookup "no_helmet" rule_evidence_kinds ≡ some is_bare_head
unfolding lookup rule_evidence_kinds
helmet_known = refl

evaluate_rule_roi-matched_example :
    (xs : List (RoiIntersection thousandths spans)) × (evaluate_rule_roi thousandths spans
        "no_helmet" left_half 100000 100000 seated_regions 300
      ≡ ok (record {
        rule = "no_helmet";
        verifiable = has_kind thousandths spans is_bare_head seated_regions;
        matched = any_meets thousandths spans is_bare_head left_span 300 seated_regions;
        intersections = xs;
      }))
evaluate_rule_roi-matched_example =
    evaluate_rule_roi-matched thousandths spans 300 refl "no_helmet" is_bare_head left_half 100000
      100000 left_span seated_regions helmet_known left_half_sound
