-- ===== src/Desktop/Ppe/Checked.antt =====
-- On which frames persons are checked, and what a checker without models reports.
use computer_vision.Common.{
  ℕ, suc, ◌+◌, ◌%◌, ◌≡◌, refl, sym, inl, inr, false, String, none, some, List, [], ◌∷◌, eqb,
  text_key, lookup, Numbers, whole, if◌then◌else◌, Bool-cases,
}
use computer_vision.Errors.{ok}
use computer_vision.Vision.{BoundingBox}
use computer_vision.Desktop.Ppe.{
  class_names, make_classifier, make_ppe_manager, Frame, PpeClassifier, predict, PpeManager,
  classify_all, make_checker, PpeReport, check_persons, process_persons,
}

module _ (n : Numbers) (Picture : Type 0) (argmax : List n.Number → ℕ)
    (trunc : n.Number → n.Number) where
  abbrev no_model : String → List String → PpeClassifier n Picture
  no_model item names = record { item = item; names = names; session = none }

  abbrev no_models : PpeManager n Picture argmax
  no_models = record {
    helmet = no_model "helmet" ("NO_HELMET" ∷ "HELMET" ∷ []);
    vest = no_model "vest" ("NO_VEST" ∷ "VEST" ∷ []);
    boot = no_model "boot" ("NO_BOOT" ∷ "BOOT" ∷ []);
  }

  -- Every item missing, for every person from the index `i` on.
  abbrev pub all_missing : ℕ → List (BoundingBox n) → List (PpeReport n Picture argmax)
  all_missing i [] = []
  all_missing i (b ∷ bs) =
      record {
        person_idx = i;
        bbox = b;
        violations = "NO_HELMET" ∷ "NO_VEST" ∷ "NO_BOOT" ∷ [];
        ppe = ("NO_HELMET", whole n 0) ∷ ("NO_VEST", whole n 0) ∷ ("NO_BOOT", whole n 0) ∷ [];
      }
      ∷ all_missing (suc i) bs

  check_persons-no_models :
      (frame : Frame n Picture) (i : ℕ) (bs : List (BoundingBox n))
      → check_persons n Picture argmax trunc no_models frame i bs ≡ some (all_missing i bs)
  unfolding check_persons classify_all predict
  check_persons-no_models frame i [] = refl
  check_persons-no_models frame i (b ∷ bs) = rw (check_persons-no_models frame (suc i) bs) refl

  -- What the constructor makes of no file.
  no_models-made :
      (m : PpeManager n Picture argmax)
      → make_ppe_manager n Picture argmax none none none ≡ ok m
      → no_models ≡ m
  unfolding make_ppe_manager make_classifier class_names lookup
  no_models-made m e = cc

  -- With the manager that the constructor makes without the files of the models, whose items it calls
  -- disabled then, every person of every third frame is reported without a helmet, a vest and boots; the other frames are reported empty.
  pub process_persons-no_models :
      (m : PpeManager n Picture argmax) (frame_counter : ℕ) (frame : Frame n Picture)
      (persons : List (BoundingBox n))
      → make_ppe_manager n Picture argmax none none none ≡ ok m
      → (process_persons n Picture argmax trunc
          (record (make_checker n Picture argmax m) { frame_counter = frame_counter })
          frame
          persons
          false).1
        ≡ some (if eqb ((frame_counter + 1) % 3) 0 then all_missing 0 persons else [])
  unfolding process_persons
  process_persons-no_models m frame_counter frame persons made =
      elim (Bool-cases (eqb ((frame_counter + 1) % 3) 0)) [
        | inl e ↦ rw (e, sym (no_models-made m made)) (check_persons-no_models frame 0 persons)
        | inr e ↦ rw e refl
      ]
