-- ===== src/Desktop/Cameras/Examples.antt =====
-- The second camera's thread, with no zone and no file of a model.
use computer_vision.Common.{
  ℕ, ◌*◌, ◌≤◌, refl, String, true, false, none, List, [], ◌∷◌, thousandths, arith,
}
use computer_vision.Alert.Classifier.{DetectedObject}
use computer_vision.Desktop.Zones.Examples.{maths}
use computer_vision.Desktop.Detector.Examples.{session, detector}
use computer_vision.Desktop.Ppe.{PpeClassifier}
use computer_vision.Desktop.Cameras.{Received, timed_out, undecodable, decoded, Motion}
use computer_vision.Desktop.Cameras.Sparse.{Tally, run, IsSparse, run-IsSparse}

abbrev address : DetectedObject thousandths → ℕ
address person = 7

abbrev motion : Motion thousandths maths session address
motion = record {
  Gray = Unit;
  Picture = Unit;
  gray = λ frame. tt;
  difference = λ before after. 40000;
  boxed = λ frame. record { picture = tt; tall = 100000; wide = 100000 };
  argmax = λ scores. 0;
}

abbrev disabled : String → List String → PpeClassifier thousandths Unit
disabled item names = record { item = item; names = names; session = none }

abbrev started : Tally thousandths maths session address motion
started = record {
  thread = record {
    detector = detector;
    roi_checker = record { rois = []; frame_size = none };
    ppe_checker = record {
      ppe = record {
        helmet = disabled "helmet" ("NO_HELMET" ∷ "HELMET" ∷ []);
        vest = disabled "vest" ("NO_VEST" ∷ "VEST" ∷ []);
        boot = disabled "boot" ("NO_BOOT" ∷ "BOOT" ∷ []);
      };
      frame_counter = 0;
      classify_every_n = 3;
    };
    disconnected = false;
    frame_skip = 3;
    frame_count = 0;
    previous = none;
    model_ok = true;
  };
  frames = 0;
  multiples = 0;
}

started-IsSparse : IsSparse thousandths maths session address motion started
started-IsSparse = record {
  skip = refl;
  every = refl;
  frames = refl;
  detected = omega arith;
  multiples = refl;
}

abbrev seen : List (Received thousandths (ℕ × ℕ))
seen = decoded (100, 100) ∷ timed_out ∷ decoded (100, 100) ∷ undecodable ∷ decoded (100, 100) ∷ []

seen-IsSparse :
    IsSparse thousandths maths session address motion
      (run thousandths maths session address motion seen started)
    × (9 * (run thousandths maths session address motion seen started).multiples
        ≤ (run thousandths maths session address motion seen started).frames)
seen-IsSparse = run-IsSparse thousandths maths session address motion seen started started-IsSparse
