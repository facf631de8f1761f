-- ===== src/Inference/Yolo/Examples.antt =====
-- A session that sees one person in every image, with the score 0.9.
use computer_vision.Common.{◌≡◌, refl, some, [], ◌∷◌, thousandths}
use computer_vision.Errors.{Error, ok, err}
use computer_vision.Alert.Classifier.{ViolationClassifier, classify}
use computer_vision.Inference.Tensors.{cube}
use computer_vision.Inference.Yolo.{
  YoloBackend, ModelManager, Candidate, image, detect, detections_at, candidates_of, postprocess,
  worker_objects, run_detector,
}
use computer_vision.Inference.Yolo.Nothing.{detect-nothing}

abbrev session : YoloBackend thousandths
session = record {
  Image = Unit;
  Input = Unit;
  decode = λ jpeg. ok (some (100, 100, tt));
  to_tensor = λ frame. tt;
  run = λ input. ok (
      cube 1 (((λ j. 50000) ∷ (λ j. 50000) ∷ (λ j. 20000) ∷ (λ j. 40000) ∷ (λ j. 900) ∷ []) ∷ [])
      ∷ []);
  argmax = λ scores. 0;
  nms = λ boxes scores conf_threshold nms_threshold. ok (0 ∷ []);
}

abbrev manager : ModelManager thousandths
manager = record { input_w = 416; input_h = 416; conf_threshold = 400; nms_threshold = 450 }

abbrev classifier : ViolationClassifier thousandths
classifier = record { confidence_threshold = 500 }

abbrev seen : Candidate thousandths
seen = record { bbox = record { x1 = 10; y1 = 10; x2 = 50; y2 = 90 }; score = 900; cls_id = 0 }

detect-nothing_example :
    (worker_objects thousandths session manager 100 100 tt ≡ [])
    × ((run_detector thousandths session manager [] "c1" 1).objects ≡ [])
    × (classify thousandths classifier (run_detector thousandths session manager [] "c1" 1) ≡ [])
    × (detections_at thousandths (seen ∷ []) (0 ∷ []) ≡ err Error.attribute_error)
detect-nothing_example =
    detect-nothing thousandths session manager classifier 100 100 tt [] "c1" 1 (seen ∷ []) seen 0 []
      refl

-- The person raises.
detect_person : detect thousandths session manager (image 100 100 tt) ≡ err Error.attribute_error
unfolding detect postprocess candidates_of detections_at
detect_person = refl
