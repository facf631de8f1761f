-- ===== src/Alert/Classifier/Counts.antt =====
-- How many violations of each type `classify` reports, and for which persons.
use mathlib.Core.Bool.{◌&&◌}
use computer_vision.Common.{
  ℕ, suc, ◌+◌, ◌≡◌, refl, ap, ◌∙◌, inl, inr, String, Bool, true, false, not, Option, none, some,
  get_elem?, Option-cases, List, [], ◌∷◌, ◌++◌, arith, ◌==◌, text_key, Numbers, if◌then◌else◌,
}
use computer_vision.Alert.Roi.{BBox}
use computer_vision.Alert.Pipeline.{Violation}
use computer_vision.Alert.Classifier.{
  DetectedObject, DetectionResult, ViolationClassifier, any, keep, is_empty, iou, Keypoint,
  compute_fall_score, is_lower_boot, of_class, overlaps, has_boot, keypoints_of, is_fallen,
  violation, unless, classify_from, classify,
}

module _ {F : Type 0} where
  -- The violations of a type.
  abbrev pub count : String → List (Violation F) → ℕ
  count type [] = 0
  count type (v ∷ vs) = if v.violation_type == type then suc (count type vs) else count type vs

module _ (n : Numbers) where
  -- The persons that pass a test, which reads their index too.
  abbrev pub count_persons : (ℕ → DetectedObject n → Bool) → ℕ → List (DetectedObject n) → ℕ
  count_persons test i [] = 0
  count_persons test i (p ∷ ps) =
      if test i p then suc (count_persons test (suc i) ps) else count_persons test (suc i) ps

  module _ (c : ViolationClassifier n) (r : DetectionResult n) where
    abbrev has_no_helmet : ℕ → DetectedObject n → Bool
    has_no_helmet i p = not (any (overlaps n p.bbox) (of_class n c "helmet" r.objects))

    abbrev has_no_vest : ℕ → DetectedObject n → Bool
    has_no_vest i p = not (any (overlaps n p.bbox) (of_class n c "vest" r.objects))

    abbrev has_no_boot : ℕ → DetectedObject n → Bool
    has_no_boot i p = not (has_boot n p.bbox (of_class n c "boot" r.objects))

    abbrev has_fallen : ℕ → DetectedObject n → Bool
    has_fallen i p = is_fallen n p.bbox (keypoints_of n r.keypoints i)

    -- An object of a class whose confidence reaches the threshold.
    abbrev pub is_seen : String → DetectedObject n → Bool
    is_seen name o = o.cls == name && n.le c.confidence_threshold o.conf

    -- The overlap of a box with an object is more than 0.1.
    abbrev pub touches : BBox n.Number → DetectedObject n → Bool
    touches b o = n.lt (n.decimal 1 1) (iou n b o.bbox)

    -- The top of an object is below the upper 0.66 of the box.
    abbrev pub lies_low : BBox n.Number → DetectedObject n → Bool
    lies_low b o = n.le (n.add b.y1 (n.mul (n.sub b.y2 b.y1) (n.decimal 66 2))) o.bbox.y1

    -- No object that is seen as a helmet or a vest touches the person.
    abbrev pub lacks : String → ℕ → DetectedObject n → Bool
    lacks name i p = not (any (λ o. is_seen name o && touches p.bbox o) r.objects)

    abbrev pub lacks_boot : ℕ → DetectedObject n → Bool
    lacks_boot i p =
        not (any (λ o. is_seen "boot" o && (lies_low p.bbox o && touches p.bbox o)) r.objects)

    -- The person has keypoints, and their score is above 0.60.
    abbrev pub scores_fall : BBox n.Number → List (Keypoint n) → Bool
    scores_fall b [] = false
    scores_fall b (k ∷ ks) = n.lt (n.decimal 60 2) (compute_fall_score n b (k ∷ ks))

    abbrev pub fell_at : Option (List (List (Keypoint n))) → ℕ → DetectedObject n → Bool
    fell_at none i p = false
    fell_at (some all) i p = elim (get_elem? all i) [
      | none ↦ false
      | some ks ↦ scores_fall p.bbox ks
    ]

    abbrev pub fell : ℕ → DetectedObject n → Bool
    fell i p = fell_at r.keypoints i p

    count-unless :
        (type name severity : String) (b : BBox n.Number) (test : Bool)
        (rest : List (Violation n.Number))
        → count type (unless n test (violation n r b name severity) ++ rest)
          ≡ (if name == type && not test then suc (count type rest) else count type rest)
    count-unless type name severity b true rest = ground arith
    count-unless type name severity b false rest = ground arith

    -- The count of one type in the violations of one person and of those after it.
    count-person :
        (type : String) (b : BBox n.Number) (helmet vest boot standing : Bool)
        (rest : List (Violation n.Number))
        → count type (
            unless n helmet (violation n r b "NO_HELMET" "HIGH")
            ++ unless n vest (violation n r b "NO_VEST" "MEDIUM")
            ++ unless n boot (violation n r b "NO_BOOT" "MEDIUM")
            ++ unless n standing (violation n r b "FALL" "HIGH")
            ++ rest)
          ≡ (if "NO_HELMET" == type && not helmet then 1 else 0)
            + (if "NO_VEST" == type && not vest then 1 else 0)
            + (if "NO_BOOT" == type && not boot then 1 else 0)
            + (if "FALL" == type && not standing then 1 else 0)
            + count type rest
    count-person type b helmet vest boot standing rest =
        let fall = unless n standing (violation n r b "FALL" "HIGH") ++ rest in
        let boots = unless n boot (violation n r b "NO_BOOT" "MEDIUM") ++ fall in
        let vests = unless n vest (violation n r b "NO_VEST" "MEDIUM") ++ boots in
        ground (
          arith,
          count-unless type "NO_HELMET" "HIGH" b helmet vests,
          count-unless type "NO_VEST" "MEDIUM" b vest boots,
          count-unless type "NO_BOOT" "MEDIUM" b boot fall,
          count-unless type "FALL" "HIGH" b standing rest,
        )

    count-classify_from_cons :
        (type : String) (i : ℕ) (p : DetectedObject n) (ps : List (DetectedObject n))
        → count type (classify_from n c r i (p ∷ ps))
          ≡ (if "NO_HELMET" == type && has_no_helmet i p then 1 else 0)
            + (if "NO_VEST" == type && has_no_vest i p then 1 else 0)
            + (if "NO_BOOT" == type && has_no_boot i p then 1 else 0)
            + (if "FALL" == type && not (not (has_fallen i p)) then 1 else 0)
            + count type (classify_from n c r (suc i) ps)
    unfolding classify_from
    count-classify_from_cons type i p ps =
        count-person type p.bbox (any (overlaps n p.bbox) (of_class n c "helmet" r.objects))
          (any (overlaps n p.bbox) (of_class n c "vest" r.objects))
          (has_boot n p.bbox (of_class n c "boot" r.objects)) (not (has_fallen i p))
          (classify_from n c r (suc i) ps)

    one_more : (b : Bool) (m k : ℕ) → m ≡ k → (if b then 1 else 0) + m ≡ (if b then suc k else k)
    one_more b m k h = ground arith

    count-classify_from_helmet :
        (i : ℕ) (ps : List (DetectedObject n))
        → count "NO_HELMET" (classify_from n c r i ps) ≡ count_persons has_no_helmet i ps
    unfolding classify_from
    count-classify_from_helmet i [] = refl
    count-classify_from_helmet i (p ∷ ps) =
        count-classify_from_cons "NO_HELMET" i p ps
        ∙ ground (arith, one_more (has_no_helmet i p) _ _ (count-classify_from_helmet (suc i) ps))

    count-classify_from_vest :
        (i : ℕ) (ps : List (DetectedObject n))
        → count "NO_VEST" (classify_from n c r i ps) ≡ count_persons has_no_vest i ps
    unfolding classify_from
    count-classify_from_vest i [] = refl
    count-classify_from_vest i (p ∷ ps) =
        count-classify_from_cons "NO_VEST" i p ps
        ∙ ground (arith, one_more (has_no_vest i p) _ _ (count-classify_from_vest (suc i) ps))

    count-classify_from_boot :
        (i : ℕ) (ps : List (DetectedObject n))
        → count "NO_BOOT" (classify_from n c r i ps) ≡ count_persons has_no_boot i ps
    unfolding classify_from
    count-classify_from_boot i [] = refl
    count-classify_from_boot i (p ∷ ps) =
        count-classify_from_cons "NO_BOOT" i p ps
        ∙ ground (arith, one_more (has_no_boot i p) _ _ (count-classify_from_boot (suc i) ps))

    count-classify_from_fall :
        (i : ℕ) (ps : List (DetectedObject n))
        → count "FALL" (classify_from n c r i ps) ≡ count_persons has_fallen i ps
    unfolding classify_from
    count-classify_from_fall i [] = refl
    count-classify_from_fall i (p ∷ ps) =
        count-classify_from_cons "FALL" i p ps
        ∙ ground (arith, one_more (has_fallen i p) _ _ (count-classify_from_fall (suc i) ps))

    -- The code's tests against these.
    any-keep :
        (f g : DetectedObject n → Bool) (os : List (DetectedObject n))
        → any f (keep g os) ≡ any (λ o. g o && f o) os
    any-keep f g [] = refl
    any-keep f g (o ∷ os) = ground (arith, any-keep f g os)

    keep-any :
        (f g : DetectedObject n → Bool) (os : List (DetectedObject n))
        → not (is_empty (keep f (keep g os))) ≡ any (λ o. g o && f o) os
    keep-any f g [] = refl
    keep-any f g (o ∷ os) = ground (arith, keep-any f g os)

    fallen_eq : (b : BBox n.Number) (ks : List (Keypoint n)) → is_fallen n b ks ≡ scores_fall b ks
    fallen_eq b [] = refl
    fallen_eq b (k ∷ ks) = refl

    fell_eq :
        (all : Option (List (List (Keypoint n)))) (i : ℕ) (p : DetectedObject n)
        → is_fallen n p.bbox (keypoints_of n all i) ≡ fell_at all i p
    fell_eq none i p = refl
    fell_eq (some all) i p = elim (Option-cases (get_elem? all i)) [
      | inl e ↦ rw (keypoints_of, fell_at, e) refl
      | inr (ks, e) ↦ rw (keypoints_of, fell_at, e) (fallen_eq p.bbox ks)
    ]

    count_persons_eq :
        (f g : ℕ → DetectedObject n → Bool)
        → ((i : ℕ) (p : DetectedObject n) → f i p ≡ g i p)
        → (i : ℕ) (ps : List (DetectedObject n)) → count_persons f i ps ≡ count_persons g i ps
    count_persons_eq f g h i [] = refl
    count_persons_eq f g h i (p ∷ ps) = ground (arith, h i p, count_persons_eq f g h (suc i) ps)

    abbrev pub persons : List (DetectedObject n)
    persons = keep (is_seen "person") r.objects

    -- The violations of each type are as many as the persons seen whom it concerns, where an object is seen
    -- if its confidence reaches the threshold: those whose box no helmet, no vest, or no boot with its top
    -- in the lower third overlaps by more than 0.1, and those whose keypoints score more than 0.60.
    pub count-classify :
        (count "NO_HELMET" (classify n c r) ≡ count_persons (lacks "helmet") 0 persons)
        × (count "NO_VEST" (classify n c r) ≡ count_persons (lacks "vest") 0 persons)
        × (count "NO_BOOT" (classify n c r) ≡ count_persons lacks_boot 0 persons)
        × (count "FALL" (classify n c r) ≡ count_persons fell 0 persons)
    unfolding classify
    count-classify = (
      count-classify_from_helmet 0 persons
          ∙ count_persons_eq has_no_helmet (lacks "helmet")
              (λ i p. ap not (any-keep (overlaps n p.bbox) (is_seen "helmet") r.objects)) 0 persons,
      count-classify_from_vest 0 persons
          ∙ count_persons_eq has_no_vest (lacks "vest")
              (λ i p. ap not (any-keep (overlaps n p.bbox) (is_seen "vest") r.objects)) 0 persons,
      count-classify_from_boot 0 persons
          ∙ count_persons_eq has_no_boot lacks_boot
              (λ i p. ap not (keep-any (is_lower_boot n p.bbox) (is_seen "boot") r.objects)) 0
              persons,
      count-classify_from_fall 0 persons
          ∙ count_persons_eq has_fallen fell (λ i p. fell_eq r.keypoints i p) 0 persons,
    )
