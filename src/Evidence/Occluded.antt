-- ===== src/Evidence/Occluded.antt =====
-- From the keypoints of a pose to what a rule can say of it: body_regions.py, and then evidence.py.
use mathlib.Core.Path.{subst}
use mathlib.Core.Bool.{◌&&◌, ◌||◌}
use computer_vision.Common.{
  ◌≡◌, refl, ap, ◌∙◌, inl, inr, String, Bool, false, not, Option, none, some, List, [], ◌∷◌, arith,
  lookup, text_key, Numbers, Bool-cases,
}
use computer_vision.Errors.{Result, ok, err}
use computer_vision.Vision.{is_none, PoseResult}
use computer_vision.Evidence.{
  Shapes, EvidenceKind, head, torso, feet, upper_body, EvidenceRegion, RoiIntersection, make_region,
  cons_region, add_region, unless_empty, upper_of, head_of, torso_of, feet_of,
  pose_evidence_regions, roi_polygon_pixels,
}
use computer_vision.Evidence.Rules.{
  is_bare_head, is_vest, is_shoes, is_body, rule_evidence_kinds, RuleRoiEvidence, relevant,
  intersect_all, judged, on_polygon, with_regions, evaluate_rule_roi,
}

module _ (n : Numbers) (s : Shapes n) where
  abbrev pub has_kind : (EvidenceKind → Bool) → List (EvidenceRegion n s) → Bool
  has_kind allowed [] = false
  has_kind allowed (r ∷ rs) = allowed r.kind || has_kind allowed rs

  -- If the regions are built, one of them has an allowed kind or none has, as said.
  abbrev Supports : (EvidenceKind → Bool) → Bool → Result (List (EvidenceRegion n s)) → Type 0
  Supports allowed b (err e) = Unit
  Supports allowed b (ok regions) = has_kind allowed regions ≡ b

  Supports-cons_region :
      (allowed : EvidenceKind → Bool) (b : Bool) (r : EvidenceRegion n s)
      (rest : Result (List (EvidenceRegion n s)))
      → Supports allowed b rest
      → Supports allowed (allowed r.kind || b) (cons_region n s (ok r) rest)
  Supports-cons_region allowed b r (err e) h = tt
  Supports-cons_region allowed b r (ok rs) h = ap (λ c. allowed r.kind || c) h

  Supports-add_region :
      (allowed : EvidenceKind → Bool) (k : EvidenceKind) (b : Bool) (o : Option s.Shape)
      (rest : Result (List (EvidenceRegion n s)))
      → Supports allowed b rest
      → Supports allowed (allowed k && not (is_none o) || b) (add_region n s k o rest)
  unfolding make_region
  Supports-add_region allowed k b none rest h =
      subst (λ c. Supports allowed c rest) (ground arith) h
  Supports-add_region allowed k b (some g) rest h =
      elim (Bool-cases (s.is_empty g || not (s.is_valid g))) [
        | inl bad ↦ rw bad tt
        | inr good ↦ rw good (
            subst
              (λ c.
                Supports allowed c
                  (cons_region n s (ok (record { kind = k; geometry = g; source = "pose" })) rest))
              (ground arith)
              (Supports-cons_region allowed b (record { kind = k; geometry = g; source = "pose" })
                rest h))
      ]

  abbrev pub has : Option s.Shape → Bool
  has o = not (is_none o)

  -- Which of the four entries has an allowed kind.
  abbrev any_allowed :
      (EvidenceKind → Bool)
      → Option s.Shape
      → Option s.Shape
      → Option s.Shape
      → Option s.Shape
      → Bool
  any_allowed allowed h t f u =
      allowed head && has h
      || (allowed torso && has t
          || (allowed feet && has f || (allowed upper_body && has u || false)))

  abbrev built_regions :
      Option s.Shape
      → Option s.Shape
      → Option s.Shape
      → Option s.Shape
      → Result (List (EvidenceRegion n s))
  built_regions h t f u =
      add_region n s head h
        (add_region n s torso t (add_region n s feet f (add_region n s upper_body u (ok []))))

  Supports-built_regions :
      (allowed : EvidenceKind → Bool) (h t f u : Option s.Shape)
      → Supports allowed (any_allowed allowed h t f u) (built_regions h t f u)
  Supports-built_regions allowed h t f u =
      let last = add_region n s upper_body u (ok []) in
      let later = add_region n s feet f last in
      let has_last = allowed upper_body && has u || false in
      let has_later = allowed feet && has f || has_last in
      Supports-add_region allowed head (allowed torso && has t || has_later) h
        (add_region n s torso t later)
        (Supports-add_region allowed torso has_later t later (
          Supports-add_region allowed feet has_last f last
            (Supports-add_region allowed upper_body false u (ok []) refl)))

  Supports-pose :
      (allowed : EvidenceKind → Bool) (pose : PoseResult n)
      → Supports allowed
          (any_allowed allowed
            (unless_empty n s (head_of n s pose))
            (unless_empty n s (torso_of n s pose))
            (feet_of n s pose)
            (upper_of n s (head_of n s pose) (torso_of n s pose)))
          (pose_evidence_regions n s pose)
  unfolding pose_evidence_regions
  Supports-pose allowed pose =
      Supports-built_regions allowed (unless_empty n s (head_of n s pose))
        (unless_empty n s (torso_of n s pose)) (feet_of n s pose)
        (upper_of n s (head_of n s pose) (torso_of n s pose))

  -- The rule can say nothing of a violation.
  abbrev pub is_unverifiable : Result (RuleRoiEvidence n s) → Bool
  is_unverifiable (err e) = false
  is_unverifiable (ok e) = not e.verifiable

  is_unverifiable-on_polygon :
      (rule : String) (minimum : n.Number) (regions : List (EvidenceRegion n s))
      (polygon : Result s.Shape)
      → is_unverifiable (on_polygon n s rule minimum regions polygon) ≡ false
  is_unverifiable-on_polygon rule minimum regions (err e) = refl
  is_unverifiable-on_polygon rule minimum regions (ok p) = go (intersect_all n s p minimum regions)
    where
      go : (xs : Result (List (RoiIntersection n s))) → is_unverifiable (judged n s rule xs) ≡ false
      go (err e) = refl
      go (ok xs) = refl

  is_unverifiable-relevant :
      (rule : String) (roi : List (n.Number × n.Number)) (width height minimum : n.Number)
      (allowed : EvidenceKind → Bool) (regions : List (EvidenceRegion n s))
      → is_unverifiable
          (with_regions n s rule roi width height minimum (relevant n s allowed regions))
        ≡ not (has_kind allowed regions)
  is_unverifiable-relevant rule roi width height minimum allowed [] = refl
  is_unverifiable-relevant rule roi width height minimum allowed (r ∷ rs) =
      elim (Bool-cases (allowed r.kind)) [
        | inl e ↦ rw e (
            is_unverifiable-on_polygon rule minimum (r ∷ relevant n s allowed rs)
              (roi_polygon_pixels n s roi width height))
        | inr e ↦ rw e (is_unverifiable-relevant rule roi width height minimum allowed rs)
      ]

  module _ (pose : PoseResult n) (regions : List (EvidenceRegion n s))
      (built : pose_evidence_regions n s pose ≡ ok regions) (roi : List (n.Number × n.Number))
      (width height minimum : n.Number) where
    supported :
        (allowed : EvidenceKind → Bool)
        → has_kind allowed regions
          ≡ any_allowed allowed
              (unless_empty n s (head_of n s pose))
              (unless_empty n s (torso_of n s pose))
              (feet_of n s pose)
              (upper_of n s (head_of n s pose) (torso_of n s pose))
    supported allowed = subst (Supports allowed _) built (Supports-pose allowed pose)

    either_part : (h t : Option s.Shape) → has (upper_of n s h t) ≡ (has h || has t)
    either_part none none = refl
    either_part none (some t) = refl
    either_part (some h) none = refl
    either_part (some h) (some t) = refl

    -- On the evidence of a pose, where it is built without an error, whatever the region of interest and the frame are, a missing helmet is
    -- unverifiable exactly if the pose shows no head, a missing vest if it shows no torso, missing shoes
    -- if it shows no feet, and a fall if it shows neither a head nor a torso.
    pub evaluate_rule_roi-pose :
        (is_unverifiable (evaluate_rule_roi n s "no_helmet" roi width height regions minimum)
          ≡ not (has (unless_empty n s (head_of n s pose))))
        × (is_unverifiable (evaluate_rule_roi n s "no_vest" roi width height regions minimum)
            ≡ not (has (unless_empty n s (torso_of n s pose))))
        × (is_unverifiable (evaluate_rule_roi n s "no_shoes" roi width height regions minimum)
            ≡ not (has (feet_of n s pose)))
        × (is_unverifiable (evaluate_rule_roi n s "fall" roi width height regions minimum)
            ≡ not (has (head_of n s pose) || has (torso_of n s pose)))
    unfolding evaluate_rule_roi rule_evidence_kinds lookup
    evaluate_rule_roi-pose = (
      is_unverifiable-relevant "no_helmet" roi width height minimum is_bare_head regions
          ∙ ap not (supported is_bare_head)
          ∙ ground arith,
      is_unverifiable-relevant "no_vest" roi width height minimum is_vest regions
          ∙ ap not (supported is_vest)
          ∙ ground arith,
      is_unverifiable-relevant "no_shoes" roi width height minimum is_shoes regions
          ∙ ap not (supported is_shoes)
          ∙ ground arith,
      is_unverifiable-relevant "fall" roi width height minimum is_body regions
          ∙ ap not (supported is_body)
          ∙ ground (arith, either_part (head_of n s pose) (torso_of n s pose)),
    )
