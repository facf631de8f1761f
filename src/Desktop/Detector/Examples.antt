-- ===== src/Desktop/Detector/Examples.antt =====
-- A session that sees one person in the middle of every frame.
use computer_vision.Common.{ℕ, [], ◌∷◌, thousandths}
use computer_vision.Errors.{ok}
use computer_vision.Inference.Tensors.{cube}
use computer_vision.Desktop.Zones.{Bounds}
use computer_vision.Desktop.Detector.{Session, YoloDetector}

abbrev pub session : Session thousandths
session = record {
  Frame = ℕ × ℕ;
  size_of = λ frame. frame;
  run = λ frame. ok (
      cube 5 (((λ j. 50000) ∷ (λ j. 50000) ∷ (λ j. 20000) ∷ (λ j. 40000) ∷ (λ j. 900) ∷ []) ∷ [])
      ∷ []);
  crop = λ bounds frame. frame;
  squeeze = λ output. output;
  argmax = λ scores. 0;
  nms = λ boxes scores conf_threshold iou_threshold. ok (0 ∷ []);
}

abbrev pub detector : YoloDetector thousandths
detector = record { input_w = 100; input_h = 100 }

abbrev wide : Bounds thousandths
wide = record { x = 10000; y = 20000; w = 64000; h = 64000 }
