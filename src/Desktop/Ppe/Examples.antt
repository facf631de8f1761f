-- ===== src/Desktop/Ppe/Examples.antt =====
-- A person at the edge of a frame of 640 by 480, with numbers in thousandths.
use computer_vision.Common.{
  ℕ, ◌*◌, ◌/◌, ◌≡◌, refl, false, none, some, List, [], ◌∷◌, thousandths, lookup, text_key,
  if◌then◌else◌, eqb, ◌+◌, ◌%◌,
}
use computer_vision.Errors.{ok}
use computer_vision.Vision.{BoundingBox}
use computer_vision.Desktop.Ppe.{
  Frame, crop, crop_feet, class_names, make_classifier, PpeManager, make_ppe_manager, make_checker,
  process_persons,
}
use computer_vision.Desktop.Ppe.Checked.{all_missing, process_persons-no_models}

abbrev trunc : ℕ → ℕ
trunc x = x / 1000 * 1000

abbrev frame : Frame thousandths Unit
frame = record { picture = tt; tall = 480000; wide = 640000 }

abbrev at_edge : BoundingBox thousandths
at_edge = record { x1 = 600500; y1 = 300000; x2 = 700000; y2 = 500000 }

crop_feet_run :
    crop_feet thousandths trunc frame at_edge
    ≡ some (record { top = 470000; bottom = 480000; left = 600000; right = 640000 })
unfolding crop
crop_feet_run = refl

abbrev first_index : List ℕ → ℕ
first_index _ = 0

abbrev without_files : PpeManager thousandths Unit first_index
without_files = record {
  helmet = record { item = "helmet"; names = "NO_HELMET" ∷ "HELMET" ∷ []; session = none };
  vest = record { item = "vest"; names = "NO_VEST" ∷ "VEST" ∷ []; session = none };
  boot = record { item = "boot"; names = "NO_BOOT" ∷ "BOOT" ∷ []; session = none };
}

without_files_made : make_ppe_manager thousandths Unit first_index none none none ≡ ok without_files
unfolding make_ppe_manager make_classifier class_names lookup
without_files_made = refl

process_persons-no_models_example :
    (process_persons thousandths Unit first_index trunc
      (record (make_checker thousandths Unit first_index without_files) { frame_counter = 2 })
      frame
      (at_edge ∷ [])
      false).1
    ≡ some (
        if eqb ((2 + 1) % 3) 0
        then all_missing thousandths Unit first_index trunc 0 (at_edge ∷ [])
        else [])
process_persons-no_models_example =
    process_persons-no_models thousandths Unit first_index trunc without_files 2 frame
      (at_edge ∷ []) without_files_made
