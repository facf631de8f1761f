-- ===== src/Inference/Rtmdet.antt =====
-- edge_runtime/inference/pipelines/rtmdet.py: the person detector around its backend. The image's
-- resizing and normalising, the rounding of a float and the backend are parameters.
pub mod Boxed
pub mod Mapped
mod Examples
use mathlib.Core.Bool.{◌&&◌, ◌||◌}
use computer_vision.Common.{
  ℕ, zero, suc, ◌+◌, max, min, String, Bool, true, false, not, Option, none, some, List, [], ◌∷◌,
  map, length, eqb, ltb, ◌==◌, text_key, Numbers, whole, max_of, min_of, if◌then◌else◌,
}
use computer_vision.Errors.{Error, Result, ok, err, ◌>>=◌}
use computer_vision.Capture.LatestFrame.{Array, FramePacket}
use computer_vision.Vision.{BoundingBox, Detection, make_box, make_detection}
use computer_vision.Inference.Tensors.{Row, Tensor, vector, matrix, cube, other, first_size, slices}

module _ (n : Numbers) where
  -- The fields of the model's configuration that its pipeline reads.
  pub record PipelineConfig : Type 0 where
    pub output_format : Option String
    pub input_height : ℕ
    pub input_width : ℕ
    pub score_threshold : n.Number
    pub keypoint_threshold : n.Number

  pub record LetterboxTransform : Type 0 where
    pub scale : n.Number
    pub original_width : ℕ
    pub original_height : ℕ

  -- What OpenCV, NumPy and the backend do. `letterbox` resizes an image to a width and a height, pads it
  -- and normalises it; `is_person` is `int(label) == 0`.
  pub record Backend : Type 1 where
    pub Input : Type 0
    pub round : n.Number → ℕ
    pub letterbox : Array → ℕ → ℕ → Input
    pub is_person : n.Number → Bool
    pub infer : List Input → Result (List (Tensor n))

  abbrev pub has_format : String → Option String → Bool
  has_format format none = false
  has_format format (some f) = f == format

  -- `__init__`
  unfoldable pub make_pipeline : PipelineConfig → Result PipelineConfig
  make_pipeline c =
      if has_format "mmdeploy-dets-labels" c.output_format then ok c else err Error.value_error

  -- `min(max(x, 0.0), float(limit))`
  abbrev pub clamp : ℕ → n.Number → n.Number
  clamp limit x = min_of n (max_of n x (whole n 0)) (whole n limit)

  abbrev pub box_of : LetterboxTransform → Row n → BoundingBox n
  box_of t row = record {
    x1 = clamp t.original_width (n.div (row 0) t.scale);
    y1 = clamp t.original_height (n.div (row 1) t.scale);
    x2 = clamp t.original_width (n.div (row 2) t.scale);
    y2 = clamp t.original_height (n.div (row 3) t.scale);
  }

  abbrev pub detection_of : BoundingBox n → n.Number → Detection n
  detection_of b score = record { bbox = b; score = score; class_id = 0; class_name = "person" }

  -- `Detection(BoundingBox(...), ...)`, both of which may raise.
  abbrev pub checked : BoundingBox n → n.Number → Result (Option (Detection n))
  checked b score = do
    box ← make_box n b
    d ← make_detection n (detection_of box score)
    ok (some d)

  abbrev pub add_found : Option (Detection n) → List (Detection n) → List (Detection n)
  add_found none ds = ds
  add_found (some d) ds = d ∷ ds

  module _ (m : Backend) where
    open m use {Input, round, letterbox, is_person, infer}

    abbrev pub side : ℕ → ℕ → n.Number → ℕ
    side limit original scale = max 1 (min limit (round (n.mul (whole n original) scale)))

    abbrev pub scale_of : PipelineConfig → ℕ → ℕ → n.Number
    scale_of c h w =
        min_of n (n.div (whole n c.input_width) (whole n w))
          (n.div (whole n c.input_height) (whole n h))

    abbrev pub preprocess_shape :
        PipelineConfig → Array → List ℕ → Result (Input × LetterboxTransform)
    preprocess_shape c image (h ∷ w ∷ channels ∷ []) =
        if not (eqb channels 3)
        then err Error.value_error
        else if eqb w 0 || eqb h 0
        then err Error.zero_division_error
        else let scale = scale_of c h w in
          ok (
            letterbox image (side c.input_width w scale) (side c.input_height h scale),
            record { scale = scale; original_width = w; original_height = h },
          )
    preprocess_shape c image _ = err Error.value_error

    unfoldable pub preprocess : PipelineConfig → Array → Result (Input × LetterboxTransform)
    preprocess c image = preprocess_shape c image image.shape

    -- One turn of the loop over the rows.
    unfoldable pub read_row :
        PipelineConfig → LetterboxTransform → Row n → n.Number → Result (Option (Detection n))
    read_row c t row label =
        if not (is_person label) || n.lt (row 4) c.score_threshold
        then ok none
        else let b = box_of t row in
          if n.le b.x2 b.x1 || n.le b.y2 b.y1 then ok none else checked b (row 4)

    -- The loop, whose label is that of the row's index.
    unfoldable pub read_rows :
        PipelineConfig → LetterboxTransform → ℕ → List (Row n) → Row n → Result (List (Detection n))
    read_rows c t i [] labels = ok []
    read_rows c t i (row ∷ rows) labels = do
      found ← read_row c t row (labels i)
      rest ← read_rows c t (suc i) rows labels
      ok (add_found found rest)

    -- `dets[0]` where there is one dimension more.
    abbrev pub squeeze_dets : Tensor n → Result (Tensor n)
    squeeze_dets (cube columns []) = err Error.index_error
    squeeze_dets (cube columns (rows ∷ _)) = ok (matrix columns rows)
    squeeze_dets (vector k row) = ok (vector k row)
    squeeze_dets (matrix columns rows) = ok (matrix columns rows)
    squeeze_dets (other k) = ok (other k)

    abbrev pub squeeze_labels : Tensor n → Result (Tensor n)
    squeeze_labels (matrix columns []) = err Error.index_error
    squeeze_labels (matrix columns (row ∷ _)) = ok (vector columns row)
    squeeze_labels (vector k row) = ok (vector k row)
    squeeze_labels (cube columns planes) = ok (cube columns planes)
    squeeze_labels (other k) = ok (other k)

    abbrev pub read_outputs :
        PipelineConfig → LetterboxTransform → Tensor n → Tensor n → Result (List (Detection n))
    read_outputs c t (matrix columns rows) (vector k labels) =
        if eqb columns 5 && eqb (length rows) k
        then read_rows c t 0 rows labels
        else err Error.value_error
    read_outputs c t _ _ = err Error.value_error

    unfoldable pub postprocess :
        PipelineConfig → List (Tensor n) → LetterboxTransform → Result (List (Detection n))
    postprocess c (dets ∷ labels ∷ []) t = do
      d ← squeeze_dets dets
      l ← squeeze_labels labels
      read_outputs c t d l
    postprocess c _ t = err Error.value_error

    unfoldable pub preprocess_all :
        PipelineConfig → List FramePacket → Result (List (Input × LetterboxTransform))
    preprocess_all c [] = ok []
    preprocess_all c (p ∷ frames) = do
      item ← preprocess c p.frame
      rest ← preprocess_all c frames
      ok (item ∷ rest)

    -- A call of the backend for each image.
    unfoldable pub infer_each :
        PipelineConfig → List (Input × LetterboxTransform) → Result (List (List (Detection n)))
    infer_each c [] = ok []
    infer_each c (item ∷ items) = do
      outputs ← infer (item.0 ∷ [])
      ds ← postprocess c outputs item.1
      rest ← infer_each c items
      ok (ds ∷ rest)

    -- The outputs of one call, from the index `i` on.
    unfoldable pub split_outputs :
        PipelineConfig
        → ℕ
        → List (Tensor n)
        → List (Input × LetterboxTransform)
        → Result (List (List (Detection n)))
    split_outputs c i outputs [] = ok []
    split_outputs c i outputs (item ∷ items) = do
      ds ← postprocess c (slices n i outputs) item.1
      rest ← split_outputs c (suc i) outputs items
      ok (ds ∷ rest)

    abbrev pub mapped :
        PipelineConfig
        → List (Input × LetterboxTransform)
        → List (Tensor n)
        → Result (List (List (Detection n)))
    mapped c items [] = err Error.value_error
    mapped c items (output ∷ outputs) =
        if eqb (first_size n output) (length items)
        then split_outputs c 0 (output ∷ outputs) items
        else err Error.value_error

    -- `takes_one` is whether the backend declares an input shape that starts with 1.
    abbrev pub infer_prepared :
        Bool
        → PipelineConfig
        → List (Input × LetterboxTransform)
        → Result (List (List (Detection n)))
    infer_prepared takes_one c items =
        if ltb 1 (length items) && takes_one
        then infer_each c items
        else infer (map (λ item. item.0) items) >>= mapped c items

    unfoldable pub infer_frames :
        Bool → PipelineConfig → List FramePacket → Result (List (List (Detection n)))
    infer_frames takes_one c [] = ok []
    infer_frames takes_one c (p ∷ frames) =
        preprocess_all c (p ∷ frames) >>= infer_prepared takes_one c
