-- ===== src/Inference/Yolo/Nothing.antt =====
-- What becomes of the model's detections.
use computer_vision.Common.{
  ℕ, ◌≡◌, refl, ap, String, Option, none, some, List, [], ◌∷◌, map, get_elem?, Numbers,
}
use computer_vision.Errors.{Error, Result, ok, err, ◌>>=◌}
use computer_vision.Alert.Classifier.{ViolationClassifier, classify, classify_from}
use computer_vision.Inference.Tensors.{Tensor, vector, matrix, cube, other}
use computer_vision.Inference.Yolo.{
  ModelDetection, Frame, image, tensor, YoloBackend, ModelManager, Candidate, factors, detection_at,
  detections_at, candidates_of, suppressed, postprocess, detect, or_nothing, worker_objects,
  detected, with_frame, run_detector,
}

module _ (n : Numbers) where
  -- A call that answers no detection: it raises, or its list is empty.
  abbrev AnswersNone : Result (List (ModelDetection n)) → Type 0
  AnswersNone (ok ds) = ds ≡ []
  AnswersNone (err e) = Unit

  AnswersNone-or_nothing :
      (m : YoloBackend n) (r : Result (List (ModelDetection n)))
      → AnswersNone r
      → or_nothing n m r ≡ []
  AnswersNone-or_nothing m (ok ds) h = h
  AnswersNone-or_nothing m (err e) h = refl

  AnswersNone->>= {ℓ} :
      {A : Type ℓ} (r : Result A) (f : A → Result (List (ModelDetection n)))
      → ((x : A) → AnswersNone (f x))
      → AnswersNone (r >>= f)
  AnswersNone->>= (ok x) f h = h x
  AnswersNone->>= (err e) f h = tt

  -- The first detection that is made raises, whether its index is in range or not.
  detections_at-AnswersNone :
      (candidates : List (Candidate n)) (indices : List ℕ)
      → AnswersNone (detections_at n candidates indices)
  unfolding detections_at
  detections_at-AnswersNone candidates [] = refl
  detections_at-AnswersNone candidates (i ∷ indices) = go (get_elem? candidates i)
    where
      go :
          (c : Option (Candidate n))
          → AnswersNone (
              detection_at n c >>= λ d.
              detections_at n candidates indices >>= λ rest. ok (d ∷ rest))
      go none = tt
      go (some c) = tt

  module _ (m : YoloBackend n) (mm : ModelManager n) where
    suppressed-AnswersNone : (cs : List (Candidate n)) → AnswersNone (suppressed n m mm cs)
    suppressed-AnswersNone [] = refl
    suppressed-AnswersNone (c ∷ cs) =
        AnswersNone->>=
          (m.nms (map (λ k. k.bbox) (c ∷ cs)) (map (λ k. k.score) (c ∷ cs)) mm.conf_threshold
            mm.nms_threshold)
          (detections_at n (c ∷ cs)) (detections_at-AnswersNone (c ∷ cs))

    postprocess-AnswersNone :
        (outputs : List (Tensor n)) (shape : Option (ℕ × ℕ))
        → AnswersNone (postprocess n m mm outputs shape)
    unfolding postprocess
    postprocess-AnswersNone [] shape = tt
    postprocess-AnswersNone (cube columns [] ∷ outputs) shape = tt
    postprocess-AnswersNone (cube columns (rows ∷ planes) ∷ outputs) shape =
        AnswersNone->>= (candidates_of n m mm (factors n mm shape) rows columns [])
          (suppressed n m mm) suppressed-AnswersNone
    postprocess-AnswersNone (vector k row ∷ outputs) shape = tt
    postprocess-AnswersNone (matrix columns rows ∷ outputs) shape = tt
    postprocess-AnswersNone (other k ∷ outputs) shape = tt

    detect-AnswersNone : (frame : Frame n m.Image m.Input) → AnswersNone (detect n m mm frame)
    unfolding detect
    detect-AnswersNone (image h w frame) =
        AnswersNone->>= (m.run (m.to_tensor frame))
          (λ outputs. postprocess n m mm outputs (some (h, w)))
          (λ outputs. postprocess-AnswersNone outputs (some (h, w)))
    detect-AnswersNone (tensor input) =
        AnswersNone->>= (m.run input) (λ outputs. postprocess n m mm outputs none)
          (λ outputs. postprocess-AnswersNone outputs none)

    detected-objects :
        (camera_id : String) (now : ℕ) (r : Result (List (ModelDetection n)))
        → AnswersNone r
        → (detected n m camera_id now r).objects ≡ []
    detected-objects camera_id now (ok ds) h =
        ap (map (λ d. record { bbox = d.bbox; cls = d.cls_name; conf = d.conf })) h
    detected-objects camera_id now (err e) h = refl

    with_frame-objects :
        (camera_id : String) (now : ℕ) (r : Result (Option (ℕ × ℕ × m.Image)))
        → (with_frame n m mm camera_id now r).objects ≡ []
    with_frame-objects camera_id now (err e) = refl
    with_frame-objects camera_id now (ok none) = refl
    with_frame-objects camera_id now (ok (some (h, w, frame))) =
        detected-objects camera_id now (detect n m mm (tensor (m.to_tensor frame)))
          (detect-AnswersNone (tensor (m.to_tensor frame)))

    -- Whatever the session, `NMSBoxes` and the decoding of images answer, and for every frame: the result
    -- that the worker writes has no object, the result of the detector on a JPEG image has none either,
    -- and the classifier finds no violation in it. Where the indices of `NMSBoxes` start with one of a
    -- candidate, the making of the detections raises `AttributeError`.
    pub detect-nothing :
        (c : ViolationClassifier n) (h w : ℕ) (frame : m.Image) (jpeg : List ℕ) (camera_id : String)
        (now : ℕ) (candidates : List (Candidate n)) (candidate : Candidate n) (i : ℕ)
        (indices : List ℕ)
        → get_elem? candidates i ≡ some candidate
        → (worker_objects n m mm h w frame ≡ [])
          × ((run_detector n m mm jpeg camera_id now).objects ≡ [])
          × (classify n c (run_detector n m mm jpeg camera_id now) ≡ [])
          × (detections_at n candidates (i ∷ indices) ≡ err Error.attribute_error)
    unfolding worker_objects run_detector classify classify_from detections_at
    detect-nothing c h w frame jpeg camera_id now candidates candidate i indices here =
        let none_found = with_frame-objects camera_id now (m.decode jpeg) in
        (
          rw
              (AnswersNone-or_nothing m (detect n m mm (image h w frame))
                (detect-AnswersNone (image h w frame)))
              refl,
          none_found,
          rw none_found refl,
          rw here refl,
        )
