-- ===== src/Evidence/Matched.antt =====
-- When `evaluate_rule_roi` answers, and when it says that the evidence lies in the region of interest.
use mathlib.Core.Bool.{◌&&◌, ◌||◌}
use computer_vision.Common.{
  ◌≡◌, refl, ap, ◌∙◌, inl, inr, String, Bool, true, false, some, List, [], ◌∷◌, lookup, text_key,
  Numbers, whole, Bool-cases,
}
use computer_vision.Errors.{Result, ok, err}
use computer_vision.Evidence.{
  Shapes, EvidenceKind, EvidenceRegion, RoiIntersection, overlap_ratio, intersect_evidence,
  roi_polygon_pixels,
}
use computer_vision.Evidence.Rules.{
  rule_evidence_kinds, RuleRoiEvidence, relevant, intersect_all, any_intersects, judged,
  with_regions, with_kinds, evaluate_rule_roi,
}
use computer_vision.Evidence.Occluded.{has_kind}

module _ (n : Numbers) (s : Shapes n) where
  -- The region shares an area with the polygon, and at least that part of itself.
  abbrev pub meets : s.Shape → n.Number → EvidenceRegion n s → Bool
  meets polygon minimum r =
      let shared : n.Number = s.shape_area (s.intersection polygon r.geometry) in
      n.lt (whole n 0) shared && n.le minimum (overlap_ratio n s shared (s.shape_area r.geometry))

  abbrev pub any_meets :
      (EvidenceKind → Bool) → s.Shape → n.Number → List (EvidenceRegion n s) → Bool
  any_meets allowed polygon minimum [] = false
  any_meets allowed polygon minimum (r ∷ rs) =
      allowed r.kind && meets polygon minimum r || any_meets allowed polygon minimum rs

  -- The intersections of a list of regions, none of which raises.
  record Intersected (polygon : s.Shape) (minimum : n.Number)
      (o : Result (List (RoiIntersection n s))) (b : Bool) : Type 0 where
    found : List (RoiIntersection n s)
    returned : o ≡ ok found
    some_meets : any_intersects n s found ≡ b

  abbrev has_some : List (EvidenceRegion n s) → Bool
  has_some [] = false
  has_some (r ∷ rs) = true

  has_some-relevant :
      (allowed : EvidenceKind → Bool) (regions : List (EvidenceRegion n s))
      → has_some (relevant n s allowed regions) ≡ has_kind n s allowed regions
  has_some-relevant allowed [] = refl
  has_some-relevant allowed (r ∷ rs) = elim (Bool-cases (allowed r.kind)) [
    | inl e ↦ rw e refl
    | inr e ↦ rw e (has_some-relevant allowed rs)
  ]

  abbrev any_found : Result (List (RoiIntersection n s)) → Bool
  any_found (err e) = false
  any_found (ok xs) = any_intersects n s xs

  abbrev answer : String → Bool → Bool → List (RoiIntersection n s) → RuleRoiEvidence n s
  answer rule verifiable matched xs = record {
    rule = rule;
    verifiable = verifiable;
    matched = matched;
    intersections = xs;
  }

  with_regions-answer :
      (rule : String) (roi : List (n.Number × n.Number)) (width height minimum : n.Number)
      (polygon : s.Shape) (regions : List (EvidenceRegion n s)) (b : Bool)
      → roi_polygon_pixels n s roi width height ≡ ok polygon
      → Intersected polygon minimum (intersect_all n s polygon minimum regions) b
      → (xs : List (RoiIntersection n s)) × (with_regions n s rule roi width height minimum regions
          ≡ ok (answer rule (has_some regions) b xs))
  unfolding intersect_all
  with_regions-answer rule roi width height minimum polygon [] b sound h =
      ([], ap (λ m. ok (answer rule false m [])) (ap any_found h.returned ∙ h.some_meets))
  with_regions-answer rule roi width height minimum polygon (r ∷ rs) b sound h = (
    h.found,
    rw sound
        (ap (judged n s rule) h.returned ∙ ap (λ m. ok (answer rule true m h.found)) h.some_meets),
  )

  module _ (minimum : n.Number)
      (within : (n.le (whole n 0) minimum && n.le minimum (whole n 1)) ≡ true) where
    intersect_all-Intersected :
        (polygon : s.Shape) (allowed : EvidenceKind → Bool) (regions : List (EvidenceRegion n s))
        → Intersected polygon minimum
            (intersect_all n s polygon minimum (relevant n s allowed regions))
            (any_meets allowed polygon minimum regions)
    unfolding intersect_all intersect_evidence
    intersect_all-Intersected polygon allowed [] = record {
      found = [];
      returned = refl;
      some_meets = refl;
    }
    intersect_all-Intersected polygon allowed (r ∷ rs) =
        let rest = intersect_all-Intersected polygon allowed rs in
        elim (Bool-cases (allowed r.kind)) [
          | inl e ↦
              rw (e, within, rest.returned)
                (record {
                  found =
                      record {
                        intersects = meets polygon minimum r;
                        intersection_area = s.shape_area (s.intersection polygon r.geometry);
                        evidence_overlap_ratio =
                            overlap_ratio n s (s.shape_area (s.intersection polygon r.geometry))
                              (s.shape_area r.geometry);
                      }
                      ∷ rest.found;
                  returned = refl;
                  some_meets = ap (λ b. meets polygon minimum r || b) rest.some_meets;
                })
          | inr e ↦ rw e rest
        ]

    -- For a known rule, a sound polygon and a minimum within 0 and 1, `evaluate_rule_roi` answers: it can
    -- be verified if a region has a kind of the rule, and it matches if such a region shares an area with
    -- the polygon, and at least the minimum part of its own.
    pub evaluate_rule_roi-matched :
        (rule : String) (allowed : EvidenceKind → Bool) (roi : List (n.Number × n.Number))
        (width height : n.Number) (polygon : s.Shape) (regions : List (EvidenceRegion n s))
        → lookup rule rule_evidence_kinds ≡ some allowed
        → roi_polygon_pixels n s roi width height ≡ ok polygon
        → (xs : List (RoiIntersection n s)) × (evaluate_rule_roi n s rule roi width height regions
              minimum
            ≡ ok (record {
              rule = rule;
              verifiable = has_kind n s allowed regions;
              matched = any_meets allowed polygon minimum regions;
              intersections = xs;
            }))
    unfolding evaluate_rule_roi
    evaluate_rule_roi-matched rule allowed roi width height polygon regions known sound =
        let (xs, e) =
          with_regions-answer rule roi width height minimum polygon (relevant n s allowed regions)
            (any_meets allowed polygon minimum regions) sound
            (intersect_all-Intersected polygon allowed regions) in
        (
          xs,
          ap (with_kinds n s rule roi width height regions minimum) known
              ∙ e
              ∙ ap (λ k. ok (answer rule k (any_meets allowed polygon minimum regions) xs))
                  (has_some-relevant allowed regions),
        )
