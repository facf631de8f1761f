-- ===== src/Alert/Classifier/Fall.antt =====
-- When the fall score is high enough for a `FALL`.
use mathlib.Core.Path.{subst}
use mathlib.Core.Bool.{◌&&◌, ◌||◌}
use computer_vision.Common.{
  ℕ, ◌+◌, ◌≤◌, ◌≡◌, refl, ap, ◌∙◌, inl, inr, Bool, true, false, List, [], ◌∷◌, arith, eqb, ltb,
  Numbers, if◌then◌else◌, Bool-cases,
}
use computer_vision.Alert.Roi.{BBox}
use computer_vision.Alert.Classifier.{
  Keypoint, is_wide, is_squat, is_posed, head_is_below, head_is_near, shoulders_are_below,
  hundredths, add_aspect, add_head, add_shoulders, total_score, compute_fall_score,
}

abbrev AllExact : Numbers → List (ℕ × ℕ) → Type 0
AllExact n [] = Unit
AllExact n (p ∷ ps) =
    (n.add (hundredths n p.0) (hundredths n p.1) ≡ hundredths n (p.0 + p.1)) × AllExact n ps

-- The sums that the score may take.
abbrev pub score_sums : List (ℕ × ℕ)
score_sums =
    (0, 40)
    ∷ (0, 20)
    ∷ (0, 35)
    ∷ (0, 15)
    ∷ (0, 25)
    ∷ (40, 35)
    ∷ (40, 15)
    ∷ (40, 25)
    ∷ (20, 35)
    ∷ (20, 15)
    ∷ (20, 25)
    ∷ (35, 25)
    ∷ (15, 25)
    ∷ (75, 25)
    ∷ (55, 25)
    ∷ []

-- What holds of a double: these sums of literals are the literals of the sums, and literals of up to
-- three digits, two of them after the point, compare as their digits do.
pub record HasExactScores (n : Numbers) : Type 0 where
  pub sums : AllExact n score_sums
  pub compares : (a b : ℕ) → a ≤ 100 → b ≤ 100 → n.lt (hundredths n a) (hundredths n b) ≡ ltb a b

abbrev has_pair : ℕ → ℕ → List (ℕ × ℕ) → Bool
has_pair a b [] = false
has_pair a b (p ∷ ps) = eqb p.0 a && eqb p.1 b || has_pair a b ps

AllExact-pair :
    (n : Numbers) (a b : ℕ) (ps : List (ℕ × ℕ))
    → AllExact n ps
    → has_pair a b ps ≡ true
    → n.add (hundredths n a) (hundredths n b) ≡ hundredths n (a + b)
AllExact-pair n a b [] h m = absurd (ground arith)
AllExact-pair n a b (p ∷ ps) h m = elim (Bool-cases (eqb p.0 a && eqb p.1 b)) [
  | inl here ↦
      let first : p.0 ≡ a = ground arith in
      let second : p.1 ≡ b = ground arith in
      subst (λ x. n.add (hundredths n x) (hundredths n b) ≡ hundredths n (x + b)) first
        (subst (λ y. n.add (hundredths n p.0) (hundredths n y) ≡ hundredths n (p.0 + y)) second h.0)
  | inr other ↦ AllExact-pair n a b ps h.1 (ground arith)
]

abbrev aspect_points : Bool → Bool → ℕ
aspect_points true _ = 40
aspect_points false true = 20
aspect_points false false = 0

abbrev head_points : Bool → Bool → ℕ
head_points true _ = 35
head_points false true = 15
head_points false false = 0

abbrev shoulder_points : Bool → ℕ
shoulder_points true = 25
shoulder_points false = 0

module _ (n : Numbers) (exact : HasExactScores n) where
  above :
      (k : ℕ)
      → k ≤ 100
      → n.lt
          (hundredths n 60)
          (if n.lt (hundredths n 100) (hundredths n k) then hundredths n 100 else hundredths n k)
        ≡ ltb 60 k
  above k h =
      rw (exact.compares 100 k (omega arith) h)
        (ground (arith, exact.compares 60 k (omega arith) h))

  exact_sum :
      (a b : ℕ)
      → has_pair a b score_sums ≡ true
      → n.add (hundredths n a) (hundredths n b) ≡ hundredths n (a + b)
  exact_sum a b h = AllExact-pair n a b score_sums exact.sums h

  add_aspect-points :
      (wide squat : Bool)
      → add_aspect n wide squat (hundredths n 0) ≡ hundredths n (aspect_points wide squat)
  add_aspect-points true _ = exact_sum 0 40 refl
  add_aspect-points false true = exact_sum 0 20 refl
  add_aspect-points false false = refl

  add_head-points :
      (wide squat head near : Bool)
      → add_head n head near (hundredths n (aspect_points wide squat))
        ≡ hundredths n (aspect_points wide squat + head_points head near)
  add_head-points true _ true _ = exact_sum 40 35 refl
  add_head-points true _ false true = exact_sum 40 15 refl
  add_head-points true _ false false = refl
  add_head-points false true true _ = exact_sum 20 35 refl
  add_head-points false true false true = exact_sum 20 15 refl
  add_head-points false true false false = refl
  add_head-points false false true _ = exact_sum 0 35 refl
  add_head-points false false false true = exact_sum 0 15 refl
  add_head-points false false false false = refl

  add_shoulders-points :
      (wide squat head near shoulders : Bool)
      → add_shoulders n shoulders (hundredths n (aspect_points wide squat + head_points head near))
        ≡ hundredths n
            (aspect_points wide squat + head_points head near + shoulder_points shoulders)
  add_shoulders-points wide squat head near false = ap (hundredths n) (omega arith)
  add_shoulders-points true _ true _ true = exact_sum 75 25 refl
  add_shoulders-points true _ false true true = exact_sum 55 25 refl
  add_shoulders-points true _ false false true = exact_sum 40 25 refl
  add_shoulders-points false true true _ true = exact_sum 55 25 refl
  add_shoulders-points false true false true true = exact_sum 35 25 refl
  add_shoulders-points false true false false true = exact_sum 20 25 refl
  add_shoulders-points false false true _ true = exact_sum 35 25 refl
  add_shoulders-points false false false true true = exact_sum 15 25 refl
  add_shoulders-points false false false false true = exact_sum 0 25 refl

  total_score-above :
      (wide squat posed head near shoulders : Bool)
      → n.lt (hundredths n 60) (total_score n wide squat posed head near shoulders)
        ≡ (posed && (wide && (head || shoulders) || squat && head && shoulders))
  total_score-above wide squat false head near shoulders =
      rw (add_aspect-points wide squat)
        (above (aspect_points wide squat) (ground arith) ∙ ground arith)
  total_score-above wide squat true head near shoulders =
      rw
        (
          add_aspect-points wide squat,
          add_head-points wide squat head near,
          add_shoulders-points wide squat head near shoulders,
        )
        (above (aspect_points wide squat + head_points head near + shoulder_points shoulders)
            (ground arith)
          ∙ ground arith)

  -- For numbers in which the sums that the score may take are exact to two digits, a person's score is
  -- above 0.6 exactly if 17 keypoints are there and the box is either wider than 1.2
  -- times its height with the head or the shoulders below the hips, or wider than 0.9 times its height
  -- with both below. Whether the head is near to the hips makes no difference.
  pub compute_fall_score-above :
      (b : BBox n.Number) (ks : List (Keypoint n))
      → n.lt (hundredths n 60) (compute_fall_score n b ks) ≡ (
          is_posed n ks
          && (is_wide n b && (head_is_below n ks || shoulders_are_below n ks)
              || is_squat n b && head_is_below n ks && shoulders_are_below n ks))
  unfolding compute_fall_score
  compute_fall_score-above b ks =
      total_score-above (is_wide n b) (is_squat n b) (is_posed n ks) (head_is_below n ks)
        (head_is_near n ks) (shoulders_are_below n ks)
