-- ===== src/Inference/Rtmdet/Mapped.antt =====
-- `infer_frames` on a backend that takes one image at a time, and on one that takes a batch.
use computer_vision.Common.{
  ℕ, suc, ◌+◌, ◌≡◌, refl, ap, ◌∙◌, inl, inr, true, false, some, List, [], ◌∷◌, map, length,
  get_elem?, eqb, ltb, arith, Bool-cases, Numbers,
}
use computer_vision.Errors.{Result, ok, err, ◌>>=◌}
use computer_vision.Capture.LatestFrame.{FramePacket}
use computer_vision.Inference.Tensors.{Tensor, first_size, slices}
use computer_vision.Inference.Rtmdet.{
  PipelineConfig, LetterboxTransform, Backend, preprocess_all, infer_each, split_outputs, mapped,
  infer_prepared, infer_frames,
}

module _ (n : Numbers) (m : Backend n) where
  abbrev pub first_of : List (Tensor n) → ℕ
  first_of [] = 0
  first_of (output ∷ outputs) = first_size n output

  -- The images do not influence one another: what a call answers for one of several images is what it
  -- answers for that image alone.
  pub record AnswersEach (inputs : List m.Input) : Type 0 where
    pub outputs : List (Tensor n)
    pub answered : m.infer inputs ≡ ok outputs
    pub sized : first_of outputs ≡ length inputs
    pub each :
        (i : ℕ) (x : m.Input)
        → get_elem? inputs i ≡ some x
        → m.infer (x ∷ []) ≡ ok (slices n i outputs)

  length-inputs :
      (items : List (m.Input × LetterboxTransform n))
      → length (map (λ item. item.0) items) ≡ length items
  length-inputs [] = refl
  length-inputs (item ∷ items) = ap suc (length-inputs items)

  infer_each-split_outputs :
      (c : PipelineConfig n) (i : ℕ) (outputs : List (Tensor n))
      (items : List (m.Input × LetterboxTransform n))
      → ((j : ℕ) (x : m.Input)
          → get_elem? (map (λ item. item.0) items) j ≡ some x
          → m.infer (x ∷ []) ≡ ok (slices n (i + j) outputs))
      → infer_each n m c items ≡ split_outputs n m c i outputs items
  unfolding infer_each split_outputs
  infer_each-split_outputs c i outputs [] each = refl
  infer_each-split_outputs c i outputs (item ∷ items) each =
      let first : m.infer (item.0 ∷ []) ≡ ok (slices n i outputs) =
        each 0 item.0 refl ∙ ap (λ k. ok (slices n k outputs)) (add_zero i) in
      rw
        (
          first,
          infer_each-split_outputs c (suc i) outputs items
              (λ j x e. each (suc j) x e ∙ ap (λ k. ok (slices n k outputs)) (add_suc i j)),
        )
        refl
    where
      add_zero : (k : ℕ) → k + 0 ≡ k
      add_zero k = omega arith

      add_suc : (k j : ℕ) → k + suc j ≡ suc k + j
      add_suc k j = omega arith

  infer_each-mapped :
      (c : PipelineConfig n) (items : List (m.Input × LetterboxTransform n))
      (a : AnswersEach (map (λ item. item.0) items))
      → ltb 1 (length items) ≡ true
      → infer_each n m c items ≡ (m.infer (map (λ item. item.0) items) >>= mapped n m c items)
  infer_each-mapped c items a several = go a.outputs refl
    where
      same_slices :
          (j : ℕ) (outputs : List (Tensor n))
          → a.outputs ≡ outputs
          → ok (slices n j a.outputs) ≡ ok (slices n (0 + j) outputs)
      same_slices j outputs e =
          ap (λ os. ok (slices n j os)) e ∙ ap (λ k. ok (slices n k outputs)) (zero_add j)
        where
          zero_add : (k : ℕ) → k ≡ 0 + k
          zero_add k = omega arith

      go :
          (outputs : List (Tensor n))
          → a.outputs ≡ outputs
          → infer_each n m c items ≡ (m.infer (map (λ item. item.0) items) >>= mapped n m c items)
      go [] e = absurd (ground (arith, ap first_of e, a.sized, length-inputs items))
      go (output ∷ outputs) e =
          let sized : eqb (first_size n output) (length items) ≡ true =
            ground (arith, ap first_of e, a.sized, length-inputs items) in
          infer_each-split_outputs c 0 (output ∷ outputs) items
            (λ j x found. a.each j x found ∙ same_slices j (output ∷ outputs) e)
          ∙ rw (a.answered, e, sized) refl

  infer_prepared-takes_one :
      (c : PipelineConfig n) (items : List (m.Input × LetterboxTransform n))
      → ((inputs : List m.Input) → AnswersEach inputs)
      → infer_prepared n m true c items ≡ infer_prepared n m false c items
  infer_prepared-takes_one c items each = elim (Bool-cases (ltb 1 (length items))) [
    | inl several ↦
        rw several (infer_each-mapped c items (each (map (λ item. item.0) items)) several)
    | inr few ↦ rw few refl
  ]

  bind-takes_one :
      (c : PipelineConfig n) (r : Result (List (m.Input × LetterboxTransform n)))
      → ((inputs : List m.Input) → AnswersEach inputs)
      → (r >>= infer_prepared n m true c) ≡ (r >>= infer_prepared n m false c)
  bind-takes_one c (ok items) each = infer_prepared-takes_one c items each
  bind-takes_one c (err e) each = refl

  -- Where what the backend answers for one of several images is what it answers for that image alone: an
  -- input shape that starts with 1, for which the backend is called once for each frame, makes no
  -- difference to what `infer_frames` answers or raises.
  pub infer_frames-takes_one :
      (c : PipelineConfig n) (frames : List FramePacket)
      → ((inputs : List m.Input) → AnswersEach inputs)
      → infer_frames n m true c frames ≡ infer_frames n m false c frames
  unfolding infer_frames
  infer_frames-takes_one c [] each = refl
  infer_frames-takes_one c (p ∷ frames) each =
      bind-takes_one c (preprocess_all n m c (p ∷ frames)) each
