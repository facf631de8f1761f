-- ===== src/Desktop/Detector.antt =====
-- gpu/detector.py: the YOLO detector around its session. The session, NumPy's `argmax` and `squeeze`,
-- OpenCV's `NMSBoxes` and the cropping of a frame are parameters.
pub mod Shifted
pub mod Examples
use mathlib.Core.Bool.{◌&&◌, ◌||◌}
use computer_vision.Common.{
  ℕ, zero, suc, String, Bool, true, false, not, Option, none, some, List, [], ◌∷◌, ◌++◌, map,
  length, get_elem?, eqb, Numbers, whole, if◌then◌else◌,
}
use computer_vision.Errors.{Error, Result, ok, err, ◌>>=◌}
use computer_vision.Alert.Roi.{BBox}
use computer_vision.Alert.Classifier.{DetectedObject}
use computer_vision.Inference.Tensors.{Row, Tensor, vector, matrix, cube, other}
use computer_vision.Desktop.Zones.{Bounds}

module _ (n : Numbers) where
  -- `size_of` is `frame.shape[:2]`, `run` preprocesses a frame and runs the session, `crop` cuts a frame
  -- to bounds, and `squeeze` drops the dimensions of size 1 of a batch of several images. `nms` is
  -- `NMSBoxes(...).flatten()`, which raises where OpenCV answers an empty tuple.
  pub record Session : Type 1 where
    pub Frame : Type 0
    pub size_of : Frame → ℕ × ℕ
    pub run : Frame → Result (List (Tensor n))
    pub crop : Bounds n → Frame → Frame
    pub squeeze : Tensor n → Tensor n
    pub argmax : List n.Number → ℕ
    pub nms : List (BBox n.Number) → List n.Number → n.Number → n.Number → Result (List ℕ)

  pub record YoloDetector : Type 0 where
    pub input_w : ℕ
    pub input_h : ℕ

  pub record Candidate : Type 0 where
    pub bbox : BBox n.Number
    pub score : n.Number

  abbrev pub conf_threshold : n.Number
  conf_threshold = n.decimal 35 2

  abbrev pub iou_threshold : n.Number
  iou_threshold = n.decimal 45 2

  abbrev pub half : n.Number → n.Number
  half x = n.div x (whole n 2)

  -- From the model's input to the frame of a height and a width.
  abbrev pub scaled : ℕ → ℕ → n.Number → n.Number
  scaled original input x = n.mul (n.div x (whole n input)) (whole n original)

  abbrev pub box_of :
      YoloDetector → ℕ × ℕ → n.Number × n.Number × n.Number × n.Number → BBox n.Number
  box_of d (height, width) (xc, yc, w, h) = record {
    x1 = scaled width d.input_w (n.sub xc (half w));
    y1 = scaled height d.input_h (n.sub yc (half h));
    x2 = scaled width d.input_w (n.add xc (half w));
    y2 = scaled height d.input_h (n.add yc (half h));
  }

  abbrev pub elements : ℕ → Row n → List n.Number
  elements zero row = []
  elements (suc k) row = row 0 ∷ elements k (λ j. row (suc j))

  -- The columns from `j` on, so many.
  abbrev pub columns_from : ℕ → ℕ → List (Row n) → List (List n.Number)
  columns_from zero j rows = []
  columns_from (suc k) j rows = map (λ row. row j) rows ∷ columns_from k (suc j) rows

  -- The predictions of a matrix, which is transposed if it has 84 rows and not 84 columns.
  abbrev pub predictions : Tensor n → Result (List (List n.Number))
  predictions (matrix columns rows) =
      if eqb (length rows) 84 && not (eqb columns 84)
      then ok (columns_from columns 0 rows)
      else ok (map (elements columns) rows)
  predictions (vector k row) = err Error.index_error
  predictions (cube columns planes) = err Error.value_error
  predictions (other k) = err Error.value_error

  abbrev pub offset : Bounds n → DetectedObject n → DetectedObject n
  offset b o = record o {
    bbox = record {
      x1 = n.add o.bbox.x1 b.x;
      y1 = n.add o.bbox.y1 b.y;
      x2 = n.add o.bbox.x2 b.x;
      y2 = n.add o.bbox.y2 b.y;
    };
  }

  abbrev pub is_small : Bounds n → Bool
  is_small b = n.lt b.w (whole n 32) || n.lt b.h (whole n 32)

  -- The object at an index that `NMSBoxes` answers.
  abbrev pub object_at : Option Candidate → Result (DetectedObject n)
  object_at none = err Error.index_error
  object_at (some c) = ok (record { bbox = c.bbox; cls = "person"; conf = c.score })

  unfoldable pub objects_at : List Candidate → List ℕ → Result (List (DetectedObject n))
  objects_at candidates [] = ok []
  objects_at candidates (i ∷ indices) = do
    o ← object_at (get_elem? candidates i)
    rest ← objects_at candidates indices
    ok (o ∷ rest)

  module _ (m : Session) where
    open m use {Frame, size_of, run, crop, squeeze, argmax, nms}

    abbrev pub add_candidate :
        YoloDetector
        → ℕ × ℕ
        → n.Number × n.Number × n.Number × n.Number
        → ℕ
        → Option n.Number
        → List Candidate
        → Result (List Candidate)
    add_candidate d size box class_id none rest = err Error.index_error
    add_candidate d size box class_id (some score) rest =
        if not (eqb class_id 0) || n.lt score conf_threshold
        then ok rest
        else ok (record { bbox = box_of d size box; score = score } ∷ rest)

    abbrev pub read_prediction :
        YoloDetector → ℕ × ℕ → List n.Number → List Candidate → Result (List Candidate)
    read_prediction d size (xc ∷ yc ∷ w ∷ h ∷ s ∷ scores) rest =
        let class_id = argmax (s ∷ scores) in
        add_candidate d size (xc, yc, w, h) class_id (get_elem? (s ∷ scores) class_id) rest
    read_prediction d size _ rest = err Error.value_error

    -- The loop over the predictions.
    unfoldable pub candidates_of :
        YoloDetector → ℕ × ℕ → List (List n.Number) → Result (List Candidate)
    candidates_of d size [] = ok []
    candidates_of d size (p ∷ ps) = do rest ← candidates_of d size ps; read_prediction d size p rest

    abbrev pub suppressed : List Candidate → Result (List (DetectedObject n))
    suppressed [] = ok []
    suppressed (c ∷ cs) =
        nms (map (λ k. k.bbox) (c ∷ cs)) (map (λ k. k.score) (c ∷ cs)) conf_threshold iou_threshold
        >>= objects_at (c ∷ cs)

    -- `output[0] if output.shape[0] == 1 else output.squeeze()` where there are three dimensions.
    abbrev pub without_batch : Tensor n → Tensor n
    without_batch (cube columns (rows ∷ [])) = matrix columns rows
    without_batch (cube columns planes) = squeeze (cube columns planes)
    without_batch output = output

    unfoldable pub postprocess :
        YoloDetector → List (Tensor n) → ℕ × ℕ → Result (List (DetectedObject n))
    postprocess d [] size = err Error.index_error
    postprocess d (output ∷ outputs) size = do
      ps ← predictions (without_batch output)
      candidates ← candidates_of d size ps
      suppressed candidates

    unfoldable pub detect : YoloDetector → Frame → Result (List (DetectedObject n))
    detect d frame = do outputs ← run frame; postprocess d outputs (size_of frame)

    unfoldable pub detect_roi :
        YoloDetector → Frame → Option (Bounds n) → Result (List (DetectedObject n))
    detect_roi d frame none = detect d frame
    detect_roi d frame (some b) =
        if is_small b
        then ok []
        else (do objects ← detect d (crop b frame); ok (map (offset b) objects))
