-- ===== src/Inference/Rtmpose.antt =====
-- edge_runtime/inference/pipelines/rtmpose.py: the pose pipeline around its backend. What OpenCV, NumPy
-- and the backend do are parameters.
pub mod Named
mod Examples
use mathlib.Core.Bool.{◌&&◌}
use computer_vision.Common.{
  ℕ, suc, ◌*◌, String, Bool, true, false, not, Option, none, some, List, [], ◌∷◌, map, length, eqb,
  Numbers, whole, max_of, if◌then◌else◌,
}
use computer_vision.Errors.{Error, Result, ok, err, ◌>>=◌}
use computer_vision.Capture.LatestFrame.{Array, FramePacket}
use computer_vision.Vision.{
  BoundingBox, Keypoint, PoseResult, make_box, make_keypoint, width, height,
}
use computer_vision.Inference.PoseQueue.{PoseRequest}
use computer_vision.Inference.Rtmdet.{PipelineConfig, has_format}
use computer_vision.Inference.Tensors.{Row, Tensor, vector, matrix, cube, other, first_size, slices}

abbrev pub keypoint_names : List String
keypoint_names =
    "nose" ∷ "left_eye" ∷ "right_eye" ∷ "left_ear" ∷ "right_ear" ∷ "left_shoulder"
    ∷ "right_shoulder" ∷ "left_elbow" ∷ "right_elbow" ∷ "left_wrist" ∷ "right_wrist" ∷ "left_hip"
    ∷ "right_hip" ∷ "left_knee" ∷ "right_knee" ∷ "left_ankle" ∷ "right_ankle" ∷ []

module _ (n : Numbers) where
  -- What a request for a pose holds beside its priority and its time.
  pub record PoseTarget : Type 0 where
    pub camera_id : String
    pub track_id : ℕ
    pub frame : FramePacket
    pub bbox_xyxy : n.Number × n.Number × n.Number × n.Number

  abbrev pub Point : Type 0
  Point = n.Number × n.Number

  -- `affine_transform` maps three points to three points, `warp` crops an image by such a map, with its
  -- colours normalised, `apply` is the product of a map with a point; `argmax` and `largest` are of a
  -- row with so many columns, and `clip` cuts a number to 0 and 1.
  pub record PoseBackend : Type 1 where
    pub Input : Type 0
    pub Affine : Type 0
    pub affine_transform : List Point → List Point → Affine
    pub invert : Affine → Affine
    pub warp : Array → Affine → ℕ → ℕ → Input
    pub apply : Affine → Point → Point
    pub argmax : ℕ → Row n → ℕ
    pub largest : ℕ → Row n → n.Number
    pub smaller : n.Number → n.Number → n.Number
    pub clip : n.Number → n.Number
    pub infer : List Input → Result (List (Tensor n))

  -- `__init__`
  unfoldable pub make_pose_pipeline : PipelineConfig n → Result (PipelineConfig n)
  make_pose_pipeline c =
      if has_format n "simcc-coco17" c.output_format then ok c else err Error.value_error

  abbrev pub half : n.Number → n.Number
  half x = n.div x (whole n 2)

  -- The width and height of the crop, at the aspect of the input, with the padding of 1.25.
  abbrev pub crop_size : PipelineConfig n → BoundingBox n → Point
  crop_size c b =
      let wide = max_of n (width n b) (whole n 1) in
      let high = max_of n (height n b) (whole n 1) in
      let aspect : n.Number = n.div (whole n c.input_width) (whole n c.input_height) in
      let padding = n.decimal 125 2 in
      if n.lt (n.mul high aspect) wide
      then (n.mul wide padding, n.mul (n.div wide aspect) padding)
      else (n.mul (n.mul high aspect) padding, n.mul high padding)

  abbrev pub center_of : BoundingBox n → Point
  center_of b = (half (n.add b.x1 b.x2), half (n.add b.y1 b.y2))

  -- The center, the middle of the upper edge and that of the right edge.
  abbrev pub source_points : Point → Point → List Point
  source_points center size =
      center
      ∷ (n.add center.0 (whole n 0), n.sub center.1 (half size.1))
      ∷ (n.add center.0 (half size.0), n.add center.1 (whole n 0))
      ∷ []

  abbrev pub destination_points : PipelineConfig n → List Point
  destination_points c =
      (half (whole n c.input_width), half (whole n c.input_height))
      ∷ (half (whole n c.input_width), whole n 0)
      ∷ (whole n c.input_width, half (whole n c.input_height))
      ∷ []

  abbrev pub box_from : n.Number × n.Number × n.Number × n.Number → BoundingBox n
  box_from (x1, y1, x2, y2) = record { x1 = x1; y1 = y1; x2 = x2; y2 = y2 }

  abbrev pub is_visible : PipelineConfig n → ℕ → ℕ → Point → n.Number → Bool
  is_visible c frame_height frame_width (x, y) score =
      n.le c.keypoint_threshold score
      && (n.le (whole n 0) x && n.lt x (whole n frame_width))
      && (n.le (whole n 0) y && n.lt y (whole n frame_height))

  abbrev pub keypoint_of : String → Point → n.Number → Bool → Keypoint n
  keypoint_of name (x, y) score visible = record {
    name = name;
    x = if visible then some x else none;
    y = if visible then some y else none;
    confidence = score;
    visible = visible;
  }

  module _ (m : PoseBackend) where
    open m use {
      Input, Affine, affine_transform, invert, warp, apply, argmax, largest, smaller, clip, infer,
    }

    abbrev pub cropped : PipelineConfig n → Array → BoundingBox n → Input × Affine
    cropped c image b =
        let affine =
          affine_transform (source_points (center_of b) (crop_size c b)) (destination_points c) in
        (warp image affine c.input_width c.input_height, invert affine)

    abbrev pub crop_shape :
        PipelineConfig n → Array → BoundingBox n → List ℕ → Result (Input × Affine)
    crop_shape c image b (h ∷ w ∷ channels ∷ []) =
        if eqb channels 3 then ok (cropped c image b) else err Error.value_error
    crop_shape c image b _ = err Error.value_error

    unfoldable pub preprocess_pose :
        PipelineConfig n → Array → BoundingBox n → Result (Input × Affine)
    preprocess_pose c image b = crop_shape c image b image.shape

    -- Where the peaks of both rows lie in the frame, at half a pixel to a column.
    abbrev pub frame_point : PipelineConfig n → Affine → Row n → Row n → Point
    frame_point c inverse x_row y_row = apply inverse (
      half (whole n (argmax (c.input_width * 2) x_row)),
      half (whole n (argmax (c.input_height * 2) y_row)),
    )

    abbrev pub confidence_of : PipelineConfig n → Row n → Row n → n.Number
    confidence_of c x_row y_row =
        clip (smaller (largest (c.input_width * 2) x_row) (largest (c.input_height * 2) y_row))

    abbrev pub read_keypoint :
        PipelineConfig n → ℕ → ℕ → Affine → String → Row n → Row n → Keypoint n
    read_keypoint c frame_height frame_width inverse name x_row y_row =
        let point = frame_point c inverse x_row y_row in
        let score = confidence_of c x_row y_row in
        keypoint_of name point score (is_visible c frame_height frame_width point score)

    -- The loop over the names and both outputs, as long as all three last.
    unfoldable pub read_keypoints :
        PipelineConfig n
        → ℕ
        → ℕ
        → Affine
        → List String
        → List (Row n)
        → List (Row n)
        → Result (List (Keypoint n))
    read_keypoints c h w inverse (name ∷ names) (x_row ∷ xs) (y_row ∷ ys) = do
      point ← make_keypoint n (read_keypoint c h w inverse name x_row y_row)
      rest ← read_keypoints c h w inverse names xs ys
      ok (point ∷ rest)
    read_keypoints c h w inverse _ _ _ = ok []

    abbrev pub squeeze_simcc : Tensor n → Result (Tensor n)
    squeeze_simcc (cube columns []) = err Error.index_error
    squeeze_simcc (cube columns (rows ∷ _)) = ok (matrix columns rows)
    squeeze_simcc (vector k row) = ok (vector k row)
    squeeze_simcc (matrix columns rows) = ok (matrix columns rows)
    squeeze_simcc (other k) = ok (other k)

    abbrev pub pose_of : PoseRequest PoseTarget → List (Keypoint n) → Result (PoseResult n)
    pose_of r points = do
      box ← make_box n (box_from r.content.bbox_xyxy)
      ok (record {
        camera_id = r.content.camera_id;
        track_id = r.content.track_id;
        bbox = box;
        keypoints = points;
      })

    abbrev pub in_frame :
        PipelineConfig n
        → Affine
        → PoseRequest PoseTarget
        → List (Row n)
        → List (Row n)
        → List ℕ
        → Result (PoseResult n)
    in_frame c inverse r xs ys (h ∷ w ∷ _) = do
      points ← read_keypoints c h w inverse keypoint_names xs ys
      pose_of r points
    in_frame c inverse r xs ys _ = err Error.value_error

    abbrev pub read_simcc :
        PipelineConfig n
        → Affine
        → PoseRequest PoseTarget
        → Tensor n
        → Tensor n
        → Result (PoseResult n)
    read_simcc c inverse r (matrix x_columns xs) (matrix y_columns ys) =
        if eqb (length xs) 17
          && eqb x_columns (c.input_width * 2)
          && (eqb (length ys) 17 && eqb y_columns (c.input_height * 2))
        then in_frame c inverse r xs ys r.content.frame.frame.shape
        else err Error.value_error
    read_simcc c inverse r _ _ = err Error.value_error

    unfoldable pub postprocess_pose :
        PipelineConfig n → List (Tensor n) → Affine → PoseRequest PoseTarget → Result (PoseResult n)
    postprocess_pose c (simcc_x ∷ simcc_y ∷ []) inverse r = do
      x ← squeeze_simcc simcc_x
      y ← squeeze_simcc simcc_y
      read_simcc c inverse r x y
    postprocess_pose c _ inverse r = err Error.value_error

    unfoldable pub preprocess_requests :
        PipelineConfig n → List (PoseRequest PoseTarget) → Result (List (Input × Affine))
    preprocess_requests c [] = ok []
    preprocess_requests c (r ∷ rs) = do
      box ← make_box n (box_from r.content.bbox_xyxy)
      item ← preprocess_pose c r.content.frame.frame box
      rest ← preprocess_requests c rs
      ok (item ∷ rest)

    -- A pose for each request, from the index `i` on, with the inverse map of that index.
    unfoldable pub split_poses :
        PipelineConfig n
        → ℕ
        → List (Tensor n)
        → List (Input × Affine)
        → List (PoseRequest PoseTarget)
        → Result (List (PoseResult n))
    split_poses c i outputs (item ∷ items) (r ∷ rs) = do
      pose ← postprocess_pose c (slices n i outputs) item.1 r
      rest ← split_poses c (suc i) outputs items rs
      ok (pose ∷ rest)
    split_poses c i outputs _ _ = ok []

    abbrev pub mapped_poses :
        PipelineConfig n
        → List (PoseRequest PoseTarget)
        → List (Input × Affine)
        → List (Tensor n)
        → Result (List (PoseResult n))
    mapped_poses c rs items [] = err Error.value_error
    mapped_poses c rs items (output ∷ outputs) =
        if eqb (first_size n output) (length rs)
        then split_poses c 0 (output ∷ outputs) items rs
        else err Error.value_error

    abbrev pub infer_items :
        PipelineConfig n
        → List (PoseRequest PoseTarget)
        → List (Input × Affine)
        → Result (List (PoseResult n))
    infer_items c rs items = infer (map (λ item. item.0) items) >>= mapped_poses c rs items

    unfoldable pub infer_requests :
        PipelineConfig n → List (PoseRequest PoseTarget) → Result (List (PoseResult n))
    infer_requests c [] = ok []
    infer_requests c (r ∷ rs) = preprocess_requests c (r ∷ rs) >>= infer_items c (r ∷ rs)
