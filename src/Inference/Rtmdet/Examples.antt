-- ===== src/Inference/Rtmdet/Examples.antt =====
-- A backend that sees in every image one person, whose box depends on the image, and one car.
use computer_vision.Common.{
  ℕ, zero, suc, ◌*◌, ◌/◌, ◌≤◌, ◌≡◌, refl, true, false, some, List, [], ◌∷◌, map, length, get_elem?,
  take, drop, eqb, arith, thousandths, thousandths-IsOrdered,
}
use computer_vision.Errors.{ok}
use computer_vision.Capture.LatestFrame.{FramePacket}
use computer_vision.Vision.{Detection, make_box, make_detection}
use computer_vision.Inference.Tensors.{Row, matrix, cube}
use computer_vision.Inference.Rtmdet.{
  PipelineConfig, LetterboxTransform, Backend, postprocess, infer_frames, read_row, read_rows,
}
use computer_vision.Inference.Rtmdet.Boxed.{AllInFrame, postprocess-AllInFrame}
use computer_vision.Inference.Rtmdet.Mapped.{AnswersEach, infer_frames-takes_one}

-- A row of its five elements.
abbrev row_of : List ℕ → Row thousandths
row_of [] j = 0
row_of (x ∷ xs) zero = x
row_of (x ∷ xs) (suc j) = row_of xs j

abbrev rows_for : ℕ → List (Row thousandths)
rows_for x =
    row_of (1000 * x ∷ 2000 ∷ 9000 ∷ 8000 ∷ 900 ∷ [])
    ∷ row_of (1000 ∷ 2000 ∷ 9000 ∷ 8000 ∷ 800 ∷ [])
    ∷ []

-- The second row is labelled as something else.
abbrev labels_for : ℕ → Row thousandths
labels_for x = row_of (0 ∷ 2000 ∷ [])

abbrev backend : Backend thousandths
backend = record {
  Input = ℕ;
  round = λ x. x / 1000;
  letterbox = λ image w h. length image.bytes;
  is_person = λ label. eqb label 0;
  infer = λ inputs. ok (cube 5 (map rows_for inputs) ∷ matrix 2 (map labels_for inputs) ∷ []);
}

abbrev configured : PipelineConfig thousandths
configured = record {
  output_format = some "mmdeploy-dets-labels";
  input_height = 320;
  input_width = 320;
  score_threshold = 350;
  keypoint_threshold = 300;
}

abbrev transform : LetterboxTransform thousandths
transform = record { scale = 500; original_width = 12; original_height = 10 }

postprocess-AllInFrame_example :
    (ds : List (Detection thousandths)) × (postprocess thousandths backend configured
        (cube 5 (rows_for 1 ∷ []) ∷ matrix 2 (labels_for 1 ∷ []) ∷ [])
        transform
      ≡ ok ds)
    × AllInFrame thousandths configured transform ds
    × (length ds ≤ 2)
postprocess-AllInFrame_example =
    postprocess-AllInFrame thousandths thousandths-IsOrdered backend configured transform
      (rows_for 1) (labels_for 1) (refl, (refl, tt))

-- The box is scaled and cut at the frame's edges.
postprocess_one :
    postprocess thousandths backend configured
      (cube 5 (rows_for 1 ∷ []) ∷ matrix 2 (labels_for 1 ∷ []) ∷ [])
      transform
    ≡ ok (
        record {
          bbox = record { x1 = 2000; y1 = 4000; x2 = 12000; y2 = 10000 };
          score = 900;
          class_id = 0;
          class_name = "person";
        }
        ∷ [])
unfolding postprocess read_rows read_row make_box make_detection
postprocess_one = refl

take-drop-map {ℓ} :
    {A : Type ℓ} (f : ℕ → A) (xs : List ℕ) (i x : ℕ)
    → get_elem? xs i ≡ some x
    → take 1 (drop i (map f xs)) ≡ f x ∷ []
take-drop-map f [] i x e = absurd (ground arith)
take-drop-map f (y ∷ xs) zero x e = ground arith
take-drop-map f (y ∷ xs) (suc i) x e = take-drop-map f xs i x e

length-rows {ℓ} : {A : Type ℓ} (f : ℕ → A) (xs : List ℕ) → length (map f xs) ≡ length xs
length-rows f [] = refl
length-rows f (x ∷ xs) = omega (arith, length-rows f xs)

backend-AnswersEach : (inputs : List ℕ) → AnswersEach thousandths backend inputs
backend-AnswersEach inputs = record {
  outputs = cube 5 (map rows_for inputs) ∷ matrix 2 (map labels_for inputs) ∷ [];
  answered = refl;
  sized = length-rows rows_for inputs;
  each = λ i x found.
      rw (take-drop-map rows_for inputs i x found, take-drop-map labels_for inputs i x found) refl;
}

abbrev frame_of : List ℕ → FramePacket
frame_of bytes = record {
  camera_id = "c1";
  frame_id = 1;
  captured_at_unix_ns = 0;
  captured_at_monotonic_ns = 0;
  frame = record { is_uint8 = true; shape = 10 ∷ 12 ∷ 3 ∷ []; bytes = bytes };
}

infer_frames-takes_one_example :
    infer_frames thousandths backend true configured (frame_of (1 ∷ []) ∷ frame_of [] ∷ [])
    ≡ infer_frames thousandths backend false configured (frame_of (1 ∷ []) ∷ frame_of [] ∷ [])
infer_frames-takes_one_example =
    infer_frames-takes_one thousandths backend configured (frame_of (1 ∷ []) ∷ frame_of [] ∷ [])
      backend-AnswersEach
