-- ===== src/Evidence/Rules.antt =====
-- edge_runtime/analytics/roi/evidence.py: which evidence each rule reads, and what it comes to.
use mathlib.Core.Bool.{◌||◌}
use computer_vision.Common.{
  String, Bool, true, false, Option, none, some, List, [], ◌∷◌, Dict, lookup, text_key, Numbers,
  if◌then◌else◌,
}
use computer_vision.Errors.{Error, Result, ok, err}
use computer_vision.Evidence.{
  Shapes, EvidenceKind, head, torso, feet, upper_body, person, bare_head_detection,
  no_vest_detection, no_shoes_detection, EvidenceRegion, RoiIntersection, intersect_evidence,
  roi_polygon_pixels,
}

-- `RULE_EVIDENCE_KINDS`: the kinds of a rule, as the test of being one of them.
abbrev pub is_bare_head : EvidenceKind → Bool
is_bare_head head = true
is_bare_head bare_head_detection = true
is_bare_head _ = false

abbrev pub is_vest : EvidenceKind → Bool
is_vest torso = true
is_vest no_vest_detection = true
is_vest _ = false

abbrev pub is_shoes : EvidenceKind → Bool
is_shoes feet = true
is_shoes no_shoes_detection = true
is_shoes _ = false

abbrev pub is_body : EvidenceKind → Bool
is_body upper_body = true
is_body person = true
is_body _ = false

unfoldable pub rule_evidence_kinds : Dict String (EvidenceKind → Bool)
rule_evidence_kinds =
    ("no_helmet", is_bare_head)
    ∷ ("no_vest", is_vest)
    ∷ ("no_shoes", is_shoes)
    ∷ ("fall", is_body)
    ∷ []

module _ (n : Numbers) (s : Shapes n) where
  pub record RuleRoiEvidence : Type 0 where
    pub rule : String
    pub verifiable : Bool
    pub matched : Bool
    pub intersections : List (RoiIntersection n s)

  abbrev pub relevant :
      (EvidenceKind → Bool) → List (EvidenceRegion n s) → List (EvidenceRegion n s)
  relevant allowed [] = []
  relevant allowed (r ∷ rs) =
      if allowed r.kind then r ∷ relevant allowed rs else relevant allowed rs

  abbrev pub cons_intersection :
      Result (RoiIntersection n s)
      → Result (List (RoiIntersection n s))
      → Result (List (RoiIntersection n s))
  cons_intersection (err e) rest = err e
  cons_intersection (ok x) (err e) = err e
  cons_intersection (ok x) (ok xs) = ok (x ∷ xs)

  unfoldable pub intersect_all :
      s.Shape → n.Number → List (EvidenceRegion n s) → Result (List (RoiIntersection n s))
  intersect_all polygon minimum [] = ok []
  intersect_all polygon minimum (r ∷ rs) =
      cons_intersection (intersect_evidence n s polygon r minimum)
        (intersect_all polygon minimum rs)

  abbrev pub any_intersects : List (RoiIntersection n s) → Bool
  any_intersects [] = false
  any_intersects (x ∷ xs) = x.intersects || any_intersects xs

  abbrev pub judged : String → Result (List (RoiIntersection n s)) → Result RuleRoiEvidence
  judged rule (err e) = err e
  judged rule (ok xs) =
      ok
        (record { rule = rule; verifiable = true; matched = any_intersects xs; intersections = xs })

  abbrev pub on_polygon :
      String → n.Number → List (EvidenceRegion n s) → Result s.Shape → Result RuleRoiEvidence
  on_polygon rule minimum regions (err e) = err e
  on_polygon rule minimum regions (ok polygon) = judged rule (intersect_all polygon minimum regions)

  abbrev pub unverifiable : String → RuleRoiEvidence
  unverifiable rule = record {
    rule = rule;
    verifiable = false;
    matched = false;
    intersections = [];
  }

  abbrev pub with_regions :
      String
      → List (n.Number × n.Number)
      → n.Number
      → n.Number
      → n.Number
      → List (EvidenceRegion n s)
      → Result RuleRoiEvidence
  with_regions rule roi width height minimum [] = ok (unverifiable rule)
  with_regions rule roi width height minimum (r ∷ rs) =
      on_polygon rule minimum (r ∷ rs) (roi_polygon_pixels n s roi width height)

  abbrev pub with_kinds :
      String
      → List (n.Number × n.Number)
      → n.Number
      → n.Number
      → List (EvidenceRegion n s)
      → n.Number
      → Option (EvidenceKind → Bool)
      → Result RuleRoiEvidence
  with_kinds rule roi width height regions minimum none = err Error.key_error
  with_kinds rule roi width height regions minimum (some allowed) =
      with_regions rule roi width height minimum (relevant allowed regions)

  unfoldable pub evaluate_rule_roi :
      String
      → List (n.Number × n.Number)
      → n.Number
      → n.Number
      → List (EvidenceRegion n s)
      → n.Number
      → Result RuleRoiEvidence
  evaluate_rule_roi rule roi width height regions minimum =
      with_kinds rule roi width height regions minimum (lookup rule rule_evidence_kinds)
