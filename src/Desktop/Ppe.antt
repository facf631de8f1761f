-- ===== src/Desktop/Ppe.antt =====
-- gpu/classifier.py and gpu/ppe_checker.py: protective equipment, by a classifier for each item on the
-- part of a person's box where it is worn. The session of ONNX Runtime, with the resizing before it, and
-- NumPy's `argmax` are parameters, and so is `int` on numbers: the `int` of NaN or of an infinity, which
-- raises, is not modelled. A crop is the window of the frame that it
-- shows, or none for the black picture. Printing is left out.
pub mod Windows
pub mod Checked
mod Examples
use Prim.Native.String.{slice}
use mathlib.Core.Bool.{◌&&◌, ◌||◌}
use computer_vision.Common.{
  ℕ, suc, ◌+◌, ◌%◌, String, Bool, true, false, not, Option, none, some, List, [], ◌∷◌, get_elem?,
  is_empty, eqb, ◌==◌, text_key, Dict, lookup, Numbers, whole, max_of, min_of, if◌then◌else◌,
}
use computer_vision.Errors.{Error, Result, ok, err}
use computer_vision.Vision.{BoundingBox}

unfoldable pub class_names : Dict String (List String)
class_names =
    ("helmet", "NO_HELMET" ∷ "HELMET" ∷ [])
    ∷ ("vest", "NO_VEST" ∷ "VEST" ∷ [])
    ∷ ("boot", "NO_BOOT" ∷ "BOOT" ∷ [])
    ∷ []

module _ (n : Numbers) where
  pub record Window : Type 0 where
    pub top : n.Number
    pub bottom : n.Number
    pub left : n.Number
    pub right : n.Number

  pub record Frame (Picture : Type 0) : Type 0 where
    pub picture : Picture
    pub tall : n.Number
    pub wide : n.Number

module _ (n : Numbers) (trunc : n.Number → n.Number) where
  -- `y1 + int(h * ratio)`
  abbrev pub row_at : BoundingBox n → n.Number → n.Number
  row_at b ratio = n.add (trunc b.y1) (trunc (n.mul (n.sub (trunc b.y2) (trunc b.y1)) ratio))

module _ (n : Numbers) (trunc : n.Number → n.Number) {Picture : Type 0} where
  -- The end of each crop: the rows from `top` to `bottom`, as far as they lie in the frame.
  unfoldable pub crop : Frame n Picture → n.Number → n.Number → BoundingBox n → Option (Window n)
  crop frame top bottom b =
      let cy1 = max_of n (whole n 0) top in
      let cy2 = min_of n frame.tall bottom in
      let cx1 = max_of n (whole n 0) (trunc b.x1) in
      let cx2 = min_of n frame.wide (trunc b.x2) in
      if n.le cy2 cy1 || n.le cx2 cx1
      then none
      else some (record { top = cy1; bottom = cy2; left = cx1; right = cx2 })

  abbrev pub crop_head : Frame n Picture → BoundingBox n → Option (Window n)
  crop_head frame b = crop frame (trunc b.y1) (row_at n trunc b (n.decimal 2 1)) b

  abbrev pub crop_torso : Frame n Picture → BoundingBox n → Option (Window n)
  crop_torso frame b =
      crop frame (row_at n trunc b (n.decimal 2 1)) (row_at n trunc b (n.decimal 7 1)) b

  abbrev pub crop_feet : Frame n Picture → BoundingBox n → Option (Window n)
  crop_feet frame b = crop frame (row_at n trunc b (n.decimal 85 2)) (trunc b.y2) b

module _ (n : Numbers) (Picture : Type 0) where
  -- The probabilities that the model answers for a crop.
  abbrev pub Session : Type 0
  Session = Picture → Option (Window n) → List n.Number

  pub record PpeClassifier : Type 0 where
    pub item : String
    pub names : List String
    pub session : Option Session

  -- `__init__`, where the session is the one of the model's file, if there is the file.
  unfoldable pub make_classifier : String → Option Session → Result PpeClassifier
  make_classifier item session = elim (lookup item class_names) [
    | none ↦ err Error.value_error
    | some names ↦ ok (record { item = item; names = names; session = session })
  ]

  module _ (argmax : List n.Number → ℕ) where
    -- A class or a probability that is not there is an `IndexError`.
    abbrev pub labelled : Option String → Option n.Number → Option (String × n.Number)
    labelled (some name) (some p) = some (name, p)
    labelled (some name) none = none
    labelled none p = none

    abbrev pub named : List String → List n.Number → Option (String × n.Number)
    named names probs = labelled (get_elem? names (argmax probs)) (get_elem? probs (argmax probs))

    unfoldable pub predict :
        PpeClassifier → Picture → Option (Window n) → Option (String × n.Number)
    predict c picture window = elim c.session [
      | none ↦ labelled (get_elem? c.names 0) (some (whole n 0))
      | some run ↦ named c.names (run picture window)
    ]

    pub record PpeManager : Type 0 where
      pub helmet : PpeClassifier
      pub vest : PpeClassifier
      pub boot : PpeClassifier

    abbrev pub manager_of :
        Result PpeClassifier → Result PpeClassifier → Result PpeClassifier → Result PpeManager
    manager_of (ok h) (ok v) (ok b) = ok (record { helmet = h; vest = v; boot = b })
    manager_of (ok h) (ok v) (err e) = err e
    manager_of (ok h) (err e) b = err e
    manager_of (err e) v b = err e

    -- `PPEManager()`, on the sessions of the models whose files are there.
    unfoldable pub make_ppe_manager : (helmet vest boot : Option Session) → Result PpeManager
    make_ppe_manager helmet vest boot =
        manager_of (make_classifier "helmet" helmet) (make_classifier "vest" vest)
          (make_classifier "boot" boot)

    -- The items' labels, in the order of the dictionary.
    abbrev pub all_labels :
        Option (String × n.Number)
        → Option (String × n.Number)
        → Option (String × n.Number)
        → Option (List (String × n.Number))
    all_labels (some h) (some v) (some b) = some (h ∷ v ∷ b ∷ [])
    all_labels (some h) (some v) none = none
    all_labels (some h) none b = none
    all_labels none v b = none

    unfoldable pub classify_all :
        PpeManager
        → Picture
        → Option (Window n)
        → Option (Window n)
        → Option (Window n)
        → Option (List (String × n.Number))
    classify_all m picture head torso feet =
        all_labels (predict m.helmet picture head) (predict m.vest picture torso)
          (predict m.boot picture feet)

    pub record PpeChecker : Type 0 where
      pub ppe : PpeManager
      pub frame_counter : ℕ
      pub classify_every_n : ℕ

    -- `PPEChecker(ppe_manager)`
    abbrev pub make_checker : PpeManager → PpeChecker
    make_checker m = record { ppe = m; frame_counter = 0; classify_every_n = 3 }

    pub record PpeReport : Type 0 where
      pub person_idx : ℕ
      pub bbox : BoundingBox n
      pub violations : List String
      pub ppe : List (String × n.Number)

    -- `label.startswith("NO_")`
    abbrev pub is_violation : String → Bool
    is_violation label = slice label 0 3 == "NO_"

    abbrev pub violations_of : List (String × n.Number) → List String
    violations_of [] = []
    violations_of (r ∷ rs) = if is_violation r.0 then r.0 ∷ violations_of rs else violations_of rs

    -- One person's labels before the reports on the later persons.
    abbrev pub add_report :
        ℕ
        → BoundingBox n
        → Option (List (String × n.Number))
        → Option (List PpeReport)
        → Option (List PpeReport)
    add_report i b (some labels) (some rest) = some (
        if is_empty (violations_of labels)
        then rest
        else record { person_idx = i; bbox = b; violations = violations_of labels; ppe = labels }
          ∷ rest)
    add_report i b (some labels) none = none
    add_report i b none rest = none

    module _ (trunc : n.Number → n.Number) where
      unfoldable pub check_persons :
          PpeManager → Frame n Picture → ℕ → List (BoundingBox n) → Option (List PpeReport)
      check_persons m frame i [] = some []
      check_persons m frame i (b ∷ bs) =
          add_report i b
            (classify_all m frame.picture (crop_head n trunc frame b) (crop_torso n trunc frame b)
              (crop_feet n trunc frame b))
            (check_persons m frame (suc i) bs)

      -- `process_persons`, on the boxes of the persons.
      unfoldable pub process_persons :
          PpeChecker
          → Frame n Picture
          → List (BoundingBox n)
          → Bool
          → PpeChecker × Option (List PpeReport)
      process_persons c frame persons force_classify =
          let counter : ℕ = c.frame_counter + 1 in
          (
            record c { frame_counter = counter },
            if force_classify || eqb (counter % c.classify_every_n) 0
                then check_persons c.ppe frame 0 persons
                else some [],
          )
