-- ===== src/Inference/Rtmpose/Examples.antt =====
-- A backend whose peaks are all at one place, with the confidence 0.8.
use computer_vision.Common.{
  ℕ, suc, ◌≡◌, refl, true, some, List, [], ◌∷◌, map, arith, thousandths, ltb, min, if◌then◌else◌,
  zero,
}
use computer_vision.Errors.{ok}
use computer_vision.Vision.{Keypoint, in_unit, make_box}
use computer_vision.Inference.PoseQueue.{PosePriority, PoseRequest}
use computer_vision.Inference.Rtmdet.{PipelineConfig}
use computer_vision.Inference.Tensors.{Row, cube}
use computer_vision.Inference.Rtmpose.{
  keypoint_names, PoseTarget, PoseBackend, box_from, postprocess_pose,
}
use computer_vision.Inference.Rtmpose.Named.{AllPlaced, postprocess_pose-AllPlaced}

abbrev backend : PoseBackend thousandths
backend = record {
  Input = Unit;
  Affine = Unit;
  affine_transform = λ source destination. tt;
  invert = λ affine. affine;
  warp = λ image affine w h. tt;
  apply = λ affine p. p;
  argmax = λ columns row. 4;
  largest = λ columns row. row 4;
  smaller = λ x y. if ltb y x then y else x;
  clip = λ x. min 1000 x;
  infer = λ inputs. ok [];
}

backend-clips : (x : ℕ) → in_unit thousandths (min 1000 x) ≡ true
backend-clips x = ground arith

abbrev configured : PipelineConfig thousandths
configured = record {
  output_format = some "simcc-coco17";
  input_height = 4;
  input_width = 3;
  score_threshold = 350;
  keypoint_threshold = 300;
}

abbrev request : PoseRequest (PoseTarget thousandths)
request = record {
  priority = PosePriority.medium;
  requested_at_monotonic_ns = 1;
  content = record {
    camera_id = "c1";
    track_id = 7;
    frame = record {
      camera_id = "c1";
      frame_id = 1;
      captured_at_unix_ns = 0;
      captured_at_monotonic_ns = 0;
      frame = record { is_uint8 = true; shape = 10 ∷ 12 ∷ 3 ∷ []; bytes = [] };
    };
    bbox_xyxy = (0, 0, 2000, 3000);
  };
}

abbrev peaks : ℕ → List (Row thousandths)
peaks zero = []
peaks (suc k) = (λ column. 800) ∷ peaks k

postprocess_pose-AllPlaced_example :
    (points : List (Keypoint thousandths)) × (postprocess_pose thousandths backend configured
        (cube 6 (peaks 17 ∷ []) ∷ cube 8 (peaks 17 ∷ []) ∷ [])
        tt
        request
      ≡ ok (record {
        camera_id = "c1";
        track_id = 7;
        bbox = box_from thousandths (0, 0, 2000, 3000);
        keypoints = points;
      }))
    × (map (λ k. k.name) points ≡ keypoint_names)
    × AllPlaced thousandths configured 10 12 points
unfolding make_box
postprocess_pose-AllPlaced_example =
    postprocess_pose-AllPlaced thousandths configured 10 12 backend backend-clips tt request
      (peaks 17) (peaks 17) (3 ∷ []) refl refl refl refl
