-- ===== src/Alert/Classifier/Examples.antt =====
-- A person lying under a helmet, with numbers in thousandths.
use computer_vision.Common.{
  ℕ, suc, zero, ◌≡◌, refl, some, List, [], ◌∷◌, arith, ltb, ◌&&◌, ◌||◌, thousandths,
}
use computer_vision.Alert.Roi.{BBox}
use computer_vision.Alert.Classifier.{
  Keypoint, DetectionResult, ViolationClassifier, is_wide, is_squat, is_posed, head_is_below,
  shoulders_are_below, hundredths, compute_fall_score, iou, classify, classify_from,
}
use computer_vision.Alert.Classifier.Fall.{HasExactScores, compute_fall_score-above}
use computer_vision.Alert.Classifier.Counts.{
  count, count_persons, lacks, persons, lacks_boot, fell, count-classify,
}

thousandths-HasExactScores : HasExactScores thousandths
thousandths-HasExactScores = record {
  sums = (
    refl,
    (
      refl,
      (
        refl,
        (
          refl,
          (
            refl,
            (refl, (refl, (refl, (refl, (refl, (refl, (refl, (refl, (refl, (refl, tt)))))))))),
          ),
        ),
      ),
    ),
  );
  compares = λ a b h k. ground arith;
}

abbrev repeat_keypoint :
    ℕ → Keypoint thousandths → List (Keypoint thousandths) → List (Keypoint thousandths)
repeat_keypoint zero k rest = rest
repeat_keypoint (suc m) k rest = k ∷ repeat_keypoint m k rest

abbrev at_height : ℕ → Keypoint thousandths
at_height y = record { x = 0; y = y; conf = 900 }

-- Five points of the head below the hips, and the shoulders above them.
abbrev lying : List (Keypoint thousandths)
lying =
    repeat_keypoint 5 (at_height 90000)
      (repeat_keypoint 6 (at_height 10000) (repeat_keypoint 6 (at_height 50000) []))

abbrev wide_box : BBox ℕ
wide_box = record { x1 = 0; y1 = 0; x2 = 200000; y2 = 100000 }

compute_fall_score-above_example :
    ltb (hundredths thousandths 60) (compute_fall_score thousandths wide_box lying) ≡ (
      is_posed thousandths lying
      && (is_wide thousandths wide_box
            && (head_is_below thousandths lying || shoulders_are_below thousandths lying)
          || is_squat thousandths wide_box
            && head_is_below thousandths lying
            && shoulders_are_below thousandths lying))
compute_fall_score-above_example =
    compute_fall_score-above thousandths thousandths-HasExactScores wide_box lying

abbrev lenient : ViolationClassifier thousandths
lenient = record { confidence_threshold = 400 }

abbrev scene : DetectionResult thousandths
scene = record {
  camera_id = "c1";
  objects =
      record { bbox = wide_box; cls = "person"; conf = 800 }
      ∷ record { bbox = wide_box; cls = "helmet"; conf = 800 }
      ∷ record { bbox = wide_box; cls = "vest"; conf = 300 }
      ∷ [];
  keypoints = some (lying ∷ []);
  timestamp = 7;
}

scene_falls : count "FALL" (classify thousandths lenient scene) ≡ 1
unfolding classify classify_from compute_fall_score iou
scene_falls = refl

scene_helmets : count "NO_HELMET" (classify thousandths lenient scene) ≡ 0
unfolding classify classify_from compute_fall_score iou
scene_helmets = refl

count-classify_example :
    (count "NO_HELMET" (classify thousandths lenient scene)
      ≡ count_persons thousandths
          (lacks thousandths lenient scene "helmet")
          0
          (persons thousandths lenient scene))
    × (count "NO_VEST" (classify thousandths lenient scene)
        ≡ count_persons thousandths
            (lacks thousandths lenient scene "vest")
            0
            (persons thousandths lenient scene))
    × (count "NO_BOOT" (classify thousandths lenient scene)
        ≡ count_persons thousandths
            (lacks_boot thousandths lenient scene)
            0
            (persons thousandths lenient scene))
    × (count "FALL" (classify thousandths lenient scene)
        ≡ count_persons thousandths
            (fell thousandths lenient scene)
            0
            (persons thousandths lenient scene))
count-classify_example = count-classify thousandths lenient scene
