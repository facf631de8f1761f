-- ===== src/Inference/Rtmdet/Boxed.antt =====
-- What the detector makes of well-formed outputs: boxes within the frame.
use mathlib.Core.Bool.{◌||◌}
use computer_vision.Common.{
  ℕ, suc, ◌≤◌, ◌≡◌, refl, inl, inr, String, true, false, not, Option, none, some, List, [], ◌∷◌,
  length, eqb, arith, Numbers, whole, max_of, IsOrdered, Bool-cases,
}
use computer_vision.Errors.{Result, ok}
use computer_vision.Vision.{BoundingBox, Detection, make_box, make_detection, in_unit}
use computer_vision.Inference.Tensors.{Row, matrix, cube}
use computer_vision.Inference.Rtmdet.{
  PipelineConfig, LetterboxTransform, Backend, clamp, box_of, detection_of, checked, read_row,
  read_rows, postprocess,
}

module _ (n : Numbers) where
  -- A person's box of positive extent within the frame, whose score is not below the threshold.
  pub record IsInFrame (c : PipelineConfig n) (t : LetterboxTransform n) (d : Detection n)
      : Type 0 where
    pub left : n.le (whole n 0) d.bbox.x1 ≡ true
    pub wide : n.lt d.bbox.x1 d.bbox.x2 ≡ true
    pub right : n.le d.bbox.x2 (whole n t.original_width) ≡ true
    pub top : n.le (whole n 0) d.bbox.y1 ≡ true
    pub high : n.lt d.bbox.y1 d.bbox.y2 ≡ true
    pub bottom : n.le d.bbox.y2 (whole n t.original_height) ≡ true
    pub score : n.lt d.score c.score_threshold ≡ false
    pub unit : in_unit n d.score ≡ true
    pub class_id : d.class_id ≡ 0
    pub class_name : ◌≡◌ {A = String} d.class_name "person"

  abbrev pub AllInFrame : PipelineConfig n → LetterboxTransform n → List (Detection n) → Type 0
  AllInFrame c t [] = Unit
  AllInFrame c t (d ∷ ds) = IsInFrame c t d × AllInFrame c t ds

  abbrev FoundInFrame : PipelineConfig n → LetterboxTransform n → Option (Detection n) → Type 0
  FoundInFrame c t none = Unit
  FoundInFrame c t (some d) = IsInFrame c t d

  module _ (o : IsOrdered n) where
    clamp-low : (limit : ℕ) (x : n.Number) → n.le (whole n 0) (clamp n limit x) ≡ true
    clamp-low limit x = elim (Bool-cases (n.lt (whole n limit) (max_of n x (whole n 0)))) [
      | inl beyond ↦ rw beyond (o.whole_le limit)
      | inr within ↦ rw within (elim (Bool-cases (n.lt x (whole n 0))) [
        | inl below ↦ rw below (o.le_refl (whole n 0))
        | inr above ↦ rw above (o.le_of_not_lt x (whole n 0) above)
      ])
    ]

    clamp-high : (limit : ℕ) (x : n.Number) → n.le (clamp n limit x) (whole n limit) ≡ true
    clamp-high limit x = elim (Bool-cases (n.lt (whole n limit) (max_of n x (whole n 0)))) [
      | inl beyond ↦ rw beyond (o.le_refl (whole n limit))
      | inr within ↦ rw within (o.le_of_not_lt (whole n limit) (max_of n x (whole n 0)) within)
    ]

    checked-eq :
        (b : BoundingBox n) (score : n.Number)
        → n.lt b.x1 b.x2 ≡ true
        → n.lt b.y1 b.y2 ≡ true
        → in_unit n score ≡ true
        → checked n b score ≡ ok (some (detection_of n b score))
    unfolding make_box make_detection
    checked-eq b score wide high unit =
        let narrow : n.lt b.x2 b.x1 ≡ false = o.not_lt_of_lt b.x1 b.x2 wide in
        let low : n.lt b.y2 b.y1 ≡ false = o.not_lt_of_lt b.y1 b.y2 high in
        rw (narrow, low, unit) refl

    module _ (m : Backend n) (c : PipelineConfig n) (t : LetterboxTransform n) where
      -- A row, whose score is within 0 and 1, is left out or gives a box within the frame.
      read_row-FoundInFrame :
          (row : Row n) (label : n.Number)
          → in_unit n (row 4) ≡ true
          → (found : Option (Detection n)) × (read_row n m c t row label ≡ ok found)
            × FoundInFrame c t found
      unfolding read_row
      read_row-FoundInFrame row label unit =
          elim (Bool-cases (not (m.is_person label) || n.lt (row 4) c.score_threshold)) [
            | inl skipped ↦ (none, rw skipped refl, tt)
            | inr taken ↦
                let b = box_of n t row in
                elim (Bool-cases (n.le b.x2 b.x1 || n.le b.y2 b.y1)) [
                  | inl empty ↦ (none, rw (taken, empty) refl, tt)
                  | inr extent ↦
                      let wide : n.lt b.x1 b.x2 ≡ true = o.lt_of_not_le b.x2 b.x1 (ground arith) in
                      let high : n.lt b.y1 b.y2 ≡ true = o.lt_of_not_le b.y2 b.y1 (ground arith) in
                      (
                        some (detection_of n b (row 4)),
                        rw (taken, extent) (checked-eq b (row 4) wide high unit),
                        record {
                          left = clamp-low t.original_width (n.div (row 0) t.scale);
                          wide = wide;
                          right = clamp-high t.original_width (n.div (row 2) t.scale);
                          top = clamp-low t.original_height (n.div (row 1) t.scale);
                          high = high;
                          bottom = clamp-high t.original_height (n.div (row 3) t.scale);
                          score = ground arith;
                          unit = unit;
                          class_id = refl;
                          class_name = refl;
                        },
                      )
                ]
          ]

      abbrev RowsRead : ℕ → Result (List (Detection n)) → Type 0
      RowsRead most r =
          (ds : List (Detection n)) × (r ≡ ok ds) × AllInFrame c t ds × (length ds ≤ most)

      -- The scores of the rows, in their fifth column, are within 0 and 1.
      abbrev pub AllScored : List (Row n) → Type 0
      AllScored [] = Unit
      AllScored (row ∷ rows) = (in_unit n (row 4) ≡ true) × AllScored rows

      read_rows-RowsRead :
          (i : ℕ) (rows : List (Row n)) (labels : Row n)
          → AllScored rows
          → RowsRead (length rows) (read_rows n m c t i rows labels)
      unfolding read_rows
      read_rows-RowsRead i [] labels unit = ([], refl, tt, omega arith)
      read_rows-RowsRead i (row ∷ rows) labels unit =
          joined (read_row-FoundInFrame row (labels i) unit.0)
            (read_rows-RowsRead (suc i) rows labels unit.1)
        where
          joined :
              ((found : Option (Detection n)) × (read_row n m c t row (labels i) ≡ ok found)
                × FoundInFrame c t found)
              → RowsRead (length rows) (read_rows n m c t (suc i) rows labels)
              → RowsRead (suc (length rows)) (read_rows n m c t i (row ∷ rows) labels)
          joined (none, e, _) (ds, e', all, short) = (ds, rw (e, e') refl, all, omega arith)
          joined (some d, e, one) (ds, e', all, short) =
              (d ∷ ds, rw (e, e') refl, (one, all), omega arith)

      -- With the outputs of one frame, five columns to a row and as many labels as rows, whose scores are
      -- within 0 and 1, and with an order of numbers that has no NaN: `postprocess` does not raise. It
      -- answers no more persons than rows, each with a box of positive extent within the original frame
      -- and a score that is not below the threshold, whatever the backend has put into the rows else.
      pub postprocess-AllInFrame :
          (rows : List (Row n)) (labels : Row n)
          → AllScored rows
          → (ds : List (Detection n)) × (postprocess n m c
                (cube 5 (rows ∷ []) ∷ matrix (length rows) (labels ∷ []) ∷ [])
                t
              ≡ ok ds)
            × AllInFrame c t ds
            × (length ds ≤ length rows)
      unfolding postprocess
      postprocess-AllInFrame rows labels unit =
          let same : eqb (length rows) (length rows) ≡ true = ground arith in
          let (ds, e, all, short) = read_rows-RowsRead 0 rows labels unit in
          (ds, rw (same, e) refl, all, short)
