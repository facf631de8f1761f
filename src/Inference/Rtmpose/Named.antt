-- ===== src/Inference/Rtmpose/Named.antt =====
-- What the pipeline makes of well-formed outputs: a pose with every keypoint, in the frame or hidden.
use computer_vision.Common.{
  ℕ, ◌*◌, ◌≡◌, refl, String, Bool, true, false, none, some, List, [], ◌∷◌, map, length, eqb, arith,
  Numbers, whole,
}
use computer_vision.Errors.{Result, ok}
use computer_vision.Vision.{Keypoint, make_box, make_keypoint, in_unit}
use computer_vision.Inference.PoseQueue.{PoseRequest}
use computer_vision.Inference.Rtmdet.{PipelineConfig}
use computer_vision.Inference.Tensors.{Row, cube}
use computer_vision.Inference.Rtmpose.{
  keypoint_names, PoseTarget, Point, PoseBackend, box_from, frame_point, confidence_of, is_visible,
  keypoint_of, read_keypoint, read_keypoints, postprocess_pose,
}

module _ (n : Numbers) (c : PipelineConfig n) (h w : ℕ) where
  -- A visible keypoint lies within the frame, with a confidence that reaches the threshold; a hidden one
  -- has no place.
  pub record IsPlaced (k : Keypoint n) : Type 0 where
    pub unit : in_unit n k.confidence ≡ true
    pub visible :
        k.visible ≡ true
        → (x : n.Number) × (y : n.Number) × (k.x ≡ some x)
          × (k.y ≡ some y)
          × (n.le c.keypoint_threshold k.confidence ≡ true)
          × (n.le (whole n 0) x ≡ true)
          × (n.lt x (whole n w) ≡ true)
          × (n.le (whole n 0) y ≡ true)
          × (n.lt y (whole n h) ≡ true)
    pub hidden : k.visible ≡ false → (k.x ≡ none) × (k.y ≡ none)

  abbrev pub AllPlaced : List (Keypoint n) → Type 0
  AllPlaced [] = Unit
  AllPlaced (k ∷ ks) = IsPlaced k × AllPlaced ks

  keypoint_of-IsPlaced :
      (name : String) (p : Point n) (score : n.Number)
      → in_unit n score ≡ true
      → (make_keypoint n (keypoint_of n name p score (is_visible n c h w p score))
          ≡ ok (keypoint_of n name p score (is_visible n c h w p score)))
        × IsPlaced (keypoint_of n name p score (is_visible n c h w p score))
  unfolding make_keypoint
  keypoint_of-IsPlaced name (x, y) score unit = go (is_visible n c h w (x, y) score) refl
    where
      go :
          (b : Bool)
          → is_visible n c h w (x, y) score ≡ b
          → (make_keypoint n (keypoint_of n name (x, y) score b)
              ≡ ok (keypoint_of n name (x, y) score b))
            × IsPlaced (keypoint_of n name (x, y) score b)
      go true e = (
        rw unit refl,
        record {
          unit = unit;
          visible = λ _. (
            x,
            y,
            refl,
            refl,
            ground arith,
            ground arith,
            ground arith,
            ground arith,
            ground arith,
          );
          hidden = λ f. absurd (ground arith);
        },
      )
      go false e = (
        rw unit refl,
        record { unit = unit; visible = λ f. absurd (ground arith); hidden = λ _. (refl, refl) },
      )

  module _ (m : PoseBackend n) (clips : (x : n.Number) → in_unit n (m.clip x) ≡ true) where
    abbrev PointsRead : List String → Result (List (Keypoint n)) → Type 0
    PointsRead names r =
        (points : List (Keypoint n)) × (r ≡ ok points)
        × (map (λ k. k.name) points ≡ names)
        × AllPlaced points

    read_keypoints-PointsRead :
        (inverse : m.Affine) (names : List String) (xs ys : List (Row n))
        → length xs ≡ length names
        → length ys ≡ length names
        → PointsRead names (read_keypoints n m c h w inverse names xs ys)
    unfolding read_keypoints
    read_keypoints-PointsRead inverse [] xs ys e f = ([], refl, refl, tt)
    read_keypoints-PointsRead inverse (name ∷ names) [] ys e f = absurd (omega (arith, e))
    read_keypoints-PointsRead inverse (name ∷ names) (x ∷ xs) [] e f = absurd (omega (arith, f))
    read_keypoints-PointsRead inverse (name ∷ names) (x ∷ xs) (y ∷ ys) e f =
        let one =
          keypoint_of-IsPlaced name (frame_point n m c inverse x y) (confidence_of n m c x y) (
            clips
              (m.smaller (m.largest (c.input_width * 2) x) (m.largest (c.input_height * 2) y))) in
        let (points, read, named, placed) =
          read_keypoints-PointsRead inverse names xs ys (omega (arith, e)) (omega (arith, f)) in
        (
          read_keypoint n m c h w inverse name x y ∷ points,
          rw (one.0, read) refl,
          rw named refl,
          (one.1, placed),
        )

    -- With the outputs of one request, 17 rows of twice the input's width and height, where NumPy's `clip`
    -- answers between 0 and 1 and the request has a box and a frame of the size `h` by `w`:
    -- `postprocess` does not raise. The pose is that of the request's camera, track and box and has the
    -- 17 keypoints in their order. A visible one lies within the frame and reaches the threshold, and a
    -- hidden one has no place.
    pub postprocess_pose-AllPlaced :
        (inverse : m.Affine) (r : PoseRequest (PoseTarget n)) (xs ys : List (Row n)) (rest : List ℕ)
        → length xs ≡ 17
        → length ys ≡ 17
        → r.content.frame.frame.shape ≡ h ∷ w ∷ rest
        → make_box n (box_from n r.content.bbox_xyxy) ≡ ok (box_from n r.content.bbox_xyxy)
        → (points : List (Keypoint n)) × (postprocess_pose n m c
              (cube (c.input_width * 2) (xs ∷ []) ∷ cube (c.input_height * 2) (ys ∷ []) ∷ [])
              inverse
              r
            ≡ ok (record {
              camera_id = r.content.camera_id;
              track_id = r.content.track_id;
              bbox = box_from n r.content.bbox_xyxy;
              keypoints = points;
            }))
          × (map (λ k. k.name) points ≡ keypoint_names)
          × AllPlaced points
    unfolding postprocess_pose
    postprocess_pose-AllPlaced inverse r xs ys rest x17 y17 shape box =
        let (points, read, named, placed) =
          read_keypoints-PointsRead inverse keypoint_names xs ys x17 y17 in
        let wide : eqb (c.input_width * 2) (c.input_width * 2) ≡ true = ground arith in
        let high : eqb (c.input_height * 2) (c.input_height * 2) ≡ true = ground arith in
        (points, rw (x17, y17, wide, high, shape, read, box) refl, named, placed)
