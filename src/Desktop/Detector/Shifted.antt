-- ===== src/Desktop/Detector/Shifted.antt =====
-- What `detect_roi` answers.
use computer_vision.Common.{ℕ, ◌≡◌, String, false, some, List, [], ◌∷◌, get_elem?, Numbers}
use computer_vision.Errors.{Result, ok, err}
use computer_vision.Alert.Classifier.{DetectedObject}
use computer_vision.Desktop.Detector.{Candidate, conf_threshold}

module _ (n : Numbers) where
  -- The score of the first class in a list of scores of which that class has the greatest.
  abbrev pub IsFirst : (List n.Number → ℕ) → n.Number → Type 0
  IsFirst argmax score =
      (scores : List n.Number) × (argmax scores ≡ 0) × (get_elem? scores 0 ≡ some score)

module _ (n : Numbers) (argmax : List n.Number → ℕ) where
  -- A person, as the model sees it, whose score is not below the threshold.
  abbrev pub IsPerson : DetectedObject n → Type 0
  IsPerson o =
      (◌≡◌ {A = String} o.cls "person")
      × (n.lt o.conf (conf_threshold n) ≡ false)
      × IsFirst n argmax o.conf

  abbrev pub AllPersons : List (DetectedObject n) → Type 0
  AllPersons [] = Unit
  AllPersons (o ∷ os) = IsPerson o × AllPersons os

  abbrev pub AnswersPersons : Result (List (DetectedObject n)) → Type 0
  AnswersPersons (ok os) = AllPersons os
  AnswersPersons (err e) = Unit

  abbrev IsAbove : Candidate n → Type 0
  IsAbove c = (n.lt c.score (conf_threshold n) ≡ false) × IsFirst n argmax c.score

  abbrev AllAbove : List (Candidate n) → Type 0
  AllAbove [] = Unit
  AllAbove (c ∷ cs) = IsAbove c × AllAbove cs

  abbrev AnswersAbove : Result (List (Candidate n)) → Type 0
  AnswersAbove (ok cs) = AllAbove cs
  AnswersAbove (err e) = Unit
