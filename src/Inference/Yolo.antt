-- ===== src/Inference/Yolo.antt =====
-- inference/model_manager.py, inference/detector.py and the part of inference/inference_worker.py
-- around the model. The session, OpenCV and NumPy are parameters.
pub mod Nothing
mod Examples
use computer_vision.Common.{
  ℕ, zero, suc, String, Bool, true, false, Option, none, some, List, [], ◌∷◌, map, get_elem?,
  Numbers, whole, if◌then◌else◌,
}
use computer_vision.Errors.{Error, Result, ok, err, ◌>>=◌}
use computer_vision.Alert.Roi.{BBox}
use computer_vision.Alert.Classifier.{DetectedObject, DetectionResult}
use computer_vision.Inference.Tensors.{Row, Tensor, vector, matrix, cube, other}

module _ (n : Numbers) where
  pub record ModelDetection : Type 0 where
    pub bbox : BBox n.Number
    pub cls_id : ℕ
    pub cls_name : String
    pub conf : n.Number

  -- An image of a height and a width, or the tensor that `preprocess` has made of one.
  pub data Frame (Image Input : Type 0) : Type 0 where
    image : ℕ → ℕ → Image → Frame Image Input
    tensor : Input → Frame Image Input

  -- `decode` is `cv2.imdecode`, which answers `none` on failure; `to_tensor` resizes and normalises an
  -- image; `run` is the session, which may raise; `nms` is `NMSBoxes(...).flatten()` with both
  -- thresholds given, which raises where OpenCV answers an empty tuple.
  pub record YoloBackend : Type 1 where
    pub Image : Type 0
    pub Input : Type 0
    pub decode : List ℕ → Result (Option (ℕ × ℕ × Image))
    pub to_tensor : Image → Input
    pub run : Input → Result (List (Tensor n))
    pub argmax : List n.Number → ℕ
    pub nms : List (BBox n.Number) → List n.Number → n.Number → n.Number → Result (List ℕ)

  pub record ModelManager : Type 0 where
    pub input_w : ℕ
    pub input_h : ℕ
    pub conf_threshold : n.Number
    pub nms_threshold : n.Number

  pub record Candidate : Type 0 where
    pub bbox : BBox n.Number
    pub score : n.Number
    pub cls_id : ℕ

  abbrev pub half : n.Number → n.Number
  half x = n.div x (whole n 2)

  -- The factors from the model's input to the frame of a height and a width, or 1.0 for none.
  abbrev pub factors : ModelManager → Option (ℕ × ℕ) → n.Number × n.Number
  factors mm none = (n.decimal 10 1, n.decimal 10 1)
  factors mm (some (h, w)) =
      (n.div (whole n w) (whole n mm.input_w), n.div (whole n h) (whole n mm.input_h))

  abbrev pub scaled_box :
      n.Number × n.Number → n.Number → n.Number → n.Number → n.Number → BBox n.Number
  scaled_box (sw, sh) xc yc w h = record {
    x1 = n.mul (n.sub xc (half w)) sw;
    y1 = n.mul (n.sub yc (half h)) sh;
    x2 = n.mul (n.add xc (half w)) sw;
    y2 = n.mul (n.add yc (half h)) sh;
  }

  -- `COCO_CLASSES.get(c, "?")`: `COCO_CLASSES` is a list, which has no `get`.
  abbrev pub class_name : ℕ → Result String
  class_name c = err Error.attribute_error

  -- `boxes[i]`, `cls_ids[i]` and `scores[i]`.
  abbrev pub detection_at : Option Candidate → Result ModelDetection
  detection_at none = err Error.index_error
  detection_at (some c) = do
    name ← class_name c.cls_id
    ok (record { bbox = c.bbox; cls_id = c.cls_id; cls_name = name; conf = c.score })

  unfoldable pub detections_at : List Candidate → List ℕ → Result (List ModelDetection)
  detections_at candidates [] = ok []
  detections_at candidates (i ∷ indices) = do
    d ← detection_at (get_elem? candidates i)
    rest ← detections_at candidates indices
    ok (d ∷ rest)

  module _ (m : YoloBackend) where
    open m use {Image, Input, decode, to_tensor, run, argmax, nms}

    abbrev pub add_candidate :
        ModelManager
        → n.Number × n.Number
        → n.Number × n.Number × n.Number × n.Number
        → ℕ
        → Option n.Number
        → List Candidate
        → Result (List Candidate)
    add_candidate mm scale (xc, yc, w, h) cls_id none rest = err Error.index_error
    add_candidate mm scale (xc, yc, w, h) cls_id (some score) rest =
        if n.lt score mm.conf_threshold
        then ok rest
        else ok
            (record { bbox = scaled_box scale xc yc w h; score = score; cls_id = cls_id } ∷ rest)

    -- One prediction: the box and the scores of the classes, of which `argmax` wants at least one.
    abbrev pub read_prediction :
        ModelManager
        → n.Number × n.Number
        → List n.Number
        → List Candidate
        → Result (List Candidate)
    read_prediction mm scale (xc ∷ yc ∷ w ∷ h ∷ s ∷ scores) rest =
        let cls_id = argmax (s ∷ scores) in
        add_candidate mm scale (xc, yc, w, h) cls_id (get_elem? (s ∷ scores) cls_id) rest
    read_prediction mm scale _ rest = err Error.value_error

    -- `for pred in preds.T`, whose predictions are the columns, so many from the last on.
    unfoldable pub candidates_of :
        ModelManager
        → n.Number × n.Number
        → List (Row n)
        → ℕ
        → List Candidate
        → Result (List Candidate)
    candidates_of mm scale rows zero found = ok found
    candidates_of mm scale rows (suc j) found = do
      more ← read_prediction mm scale (map (λ row. row j) rows) found
      candidates_of mm scale rows j more

    abbrev pub suppressed : ModelManager → List Candidate → Result (List ModelDetection)
    suppressed mm [] = ok []
    suppressed mm (c ∷ cs) =
        nms (map (λ k. k.bbox) (c ∷ cs)) (map (λ k. k.score) (c ∷ cs)) mm.conf_threshold
          mm.nms_threshold
        >>= detections_at (c ∷ cs)

    -- `_postprocess`, on `outputs[0][0]`; an array with another number of dimensions raises, where only
    -- that it does is kept.
    unfoldable pub postprocess :
        ModelManager → List (Tensor n) → Option (ℕ × ℕ) → Result (List ModelDetection)
    postprocess mm (cube columns (rows ∷ planes) ∷ outputs) shape =
        candidates_of mm (factors mm shape) rows columns [] >>= suppressed mm
    postprocess mm (cube columns [] ∷ outputs) shape = err Error.index_error
    postprocess mm [] shape = err Error.index_error
    postprocess mm (vector k row ∷ outputs) shape = err Error.value_error
    postprocess mm (matrix columns rows ∷ outputs) shape = err Error.value_error
    postprocess mm (other k ∷ outputs) shape = err Error.value_error

    unfoldable pub detect : ModelManager → Frame Image Input → Result (List ModelDetection)
    detect mm (image h w frame) = do
      outputs ← run (to_tensor frame)
      postprocess mm outputs (some (h, w))
    detect mm (tensor input) = do outputs ← run input; postprocess mm outputs none

    -- What the worker writes of one object: the class, the confidence and the box times the scale.
    abbrev pub object_of : n.Number × n.Number → ModelDetection → DetectedObject n
    object_of (scale_x, scale_y) d = record {
      bbox = record {
        x1 = n.mul d.bbox.x1 scale_x;
        y1 = n.mul d.bbox.y1 scale_y;
        x2 = n.mul d.bbox.x2 scale_x;
        y2 = n.mul d.bbox.y2 scale_y;
      };
      cls = d.cls_name;
      conf = d.conf;
    }

    -- `except Exception: detections = []`
    abbrev pub or_nothing : Result (List ModelDetection) → List ModelDetection
    or_nothing (ok ds) = ds
    or_nothing (err e) = []

    -- The objects of the result that `InferenceWorker.step` writes for a frame.
    unfoldable pub worker_objects : ModelManager → ℕ → ℕ → Image → List (DetectedObject n)
    worker_objects mm h w frame =
        map
          (object_of
            (n.div (whole n w) (whole n mm.input_w), n.div (whole n h) (whole n mm.input_h)))
          (or_nothing (detect mm (image h w frame)))

    abbrev pub result_of : String → ℕ → List (DetectedObject n) → DetectionResult n
    result_of camera_id now objects = record {
      camera_id = camera_id;
      objects = objects;
      keypoints = none;
      timestamp = now;
    }

    abbrev pub detected : String → ℕ → Result (List ModelDetection) → DetectionResult n
    detected camera_id now (err e) = result_of camera_id now []
    detected camera_id now (ok ds) =
        result_of camera_id now
          (map (λ d. record { bbox = d.bbox; cls = d.cls_name; conf = d.conf }) ds)

    abbrev pub with_frame :
        ModelManager → String → ℕ → Result (Option (ℕ × ℕ × Image)) → DetectionResult n
    with_frame mm camera_id now (err e) = result_of camera_id now []
    with_frame mm camera_id now (ok none) = result_of camera_id now []
    with_frame mm camera_id now (ok (some (h, w, frame))) =
        detected camera_id now (detect mm (tensor (to_tensor frame)))

    -- `Detector.run` on JPEG bytes.
    unfoldable pub run_detector : ModelManager → List ℕ → String → ℕ → DetectionResult n
    run_detector mm jpeg camera_id now = with_frame mm camera_id now (decode jpeg)
