-- ===== src/Desktop/Cameras.antt =====
-- gpu/cam1_thread.py and gpu/cam2_thread.py: the loops of the two camera threads. A turn answers the
-- thread after it, the signals that it has emitted, and whether an exception has left the loop, which
-- ends the thread. The detector's session, the motion between two frames and the address of a person's
-- object are parameters. Sockets and drawing are left out.
pub mod Sparse
mod Examples
use computer_vision.Common.{
  ℕ, suc, ◌+◌, ◌%◌, String, Bool, true, false, not, Option, none, some, List, [], ◌∷◌, ◌++◌, map,
  eqb, Numbers, whole, if◌then◌else◌,
}
use computer_vision.Errors.{Result, ok, err, ◌>>=◌}
use computer_vision.Vision.{BoundingBox}
use computer_vision.Alert.Roi.{BBox}
use computer_vision.Alert.Classifier.{DetectedObject, width}
use computer_vision.Desktop.Alerts.{Alert}
use computer_vision.Desktop.Zones.{Point, Roi, Maths, RoiChecker, get_bounds, check_person, reload}
use computer_vision.Desktop.Detector.{Session, YoloDetector, detect_roi}
use computer_vision.Desktop.Ppe.{Frame as PpeFrame, PpeChecker, PpeReport, process_persons}

-- What a frame is shown with.
pub data Shown : Type 0 where
  disconnected offline plain overlaid : Shown

module _ (n : Numbers) where
  pub data Signal : Type 0 where
    frame_ready : Shown → Signal
    alert : Alert n.Number → Signal

  -- What the socket and the decoding of the image answer in a turn.
  pub data Received (Frame : Type 0) : Type 0 where
    timed_out undecodable : Received Frame
    decoded : Frame → Received Frame

  pub record Cam1 : Type 0 where
    pub detector : YoloDetector n
    pub roi_checker : RoiChecker n
    pub disconnected : Bool
    pub frame_skip : ℕ
    pub frame_count : ℕ

  module _ (maths : Maths n) (m : Session n) (address : DetectedObject n → ℕ) where
    -- The rows of the persons' feet.
    abbrev pub foot_point : BBox n.Number → Point n
    foot_point b = (n.add b.x1 (n.div (width n b) (whole n 2)), b.y2)

    abbrev pub zone_alert : DetectedObject n → Roi n → Alert n.Number
    zone_alert person zone = record {
      violation_type = some "PERSON_IN_ZONE";
      zone_name = some zone.zone_name;
      person_idx = some (address person);
      bbox = some person.bbox;
    }

    -- The loop over the persons.
    unfoldable pub zone_alerts :
        RoiChecker n → List (DetectedObject n) → Result (List (Alert n.Number))
    zone_alerts checker [] = ok []
    zone_alerts checker (person ∷ persons) = do
      zones ← check_person n maths checker (foot_point person.bbox)
      rest ← zone_alerts checker persons
      ok (map (zone_alert person) zones ++ rest)

    -- `get_bounds` and `detect_roi`.
    abbrev pub detect_persons :
        YoloDetector n → RoiChecker n → m.Frame → Result (List (DetectedObject n))
    detect_persons d checker frame = do
      bounds ← get_bounds n maths checker
      detect_roi n m d frame bounds

    abbrev pub emit_alerts : List (Alert n.Number) → List Signal
    emit_alerts = map alert

    abbrev pub cam1_detected : Cam1 → Result (List (Alert n.Number)) → Cam1 × List Signal × Bool
    cam1_detected s (err e) = (s, [], true)
    cam1_detected s (ok alerts) = (s, frame_ready overlaid ∷ emit_alerts alerts, false)

    abbrev pub cam1_frame : Cam1 → m.Frame → Cam1 × List Signal × Bool
    cam1_frame s frame =
        if not (eqb (s.frame_count % s.frame_skip) 0)
        then (s, frame_ready plain ∷ [], false)
        else cam1_detected s
            (detect_persons s.detector s.roi_checker frame >>= zone_alerts s.roi_checker)

    -- The first timeout is shown, the later ones are not.
    abbrev pub cam1_lost : Bool → Cam1 → Cam1 × List Signal × Bool
    cam1_lost true s = (s, [], false)
    cam1_lost false s =
        (record s { disconnected = true }, frame_ready Shown.disconnected ∷ [], false)

    -- One turn of `Cam1Thread.run`.
    unfoldable pub cam1_turn : Cam1 → Received m.Frame → Cam1 × List Signal × Bool
    cam1_turn s timed_out = cam1_lost s.disconnected s
    cam1_turn s undecodable = (record s { disconnected = false }, [], false)
    cam1_turn s (decoded frame) =
        cam1_frame (record s { disconnected = false; frame_count = s.frame_count + 1 }) frame

    -- `gray` blurs a frame, `difference` is the mean difference of two, `boxed` a frame as the
    -- classifiers of protective equipment see it, and `argmax` NumPy's.
    pub record Motion : Type 1 where
      pub Gray : Type 0
      pub Picture : Type 0
      pub gray : m.Frame → Gray
      pub difference : Gray → Gray → n.Number
      pub boxed : m.Frame → PpeFrame n Picture
      pub argmax : List n.Number → ℕ

    module _ (v : Motion) where
      pub record Cam2 : Type 0 where
        pub detector : YoloDetector n
        pub roi_checker : RoiChecker n
        pub ppe_checker : PpeChecker n v.Picture v.argmax
        pub disconnected : Bool
        pub frame_skip : ℕ
        pub frame_count : ℕ
        pub previous : Option v.Gray
        pub model_ok : Bool

      abbrev pub update_rois : List (Roi n) → Cam2 → Cam2
      update_rois rois s = record s { roi_checker = reload n rois s.roi_checker }

      abbrev pub moved : Option v.Gray → v.Gray → Bool
      moved none gray = true
      moved (some before) gray = n.lt (n.decimal 300 1) (v.difference before gray)

      abbrev pub box_like : DetectedObject n → BoundingBox n
      box_like o = record { x1 = o.bbox.x1; y1 = o.bbox.y1; x2 = o.bbox.x2; y2 = o.bbox.y2 }

      abbrev pub ppe_alert : PpeReport n v.Picture v.argmax → String → Alert n.Number
      ppe_alert r violation = record {
        violation_type = some violation;
        zone_name = some "";
        person_idx = some r.person_idx;
        bbox = some (record { x1 = r.bbox.x1; y1 = r.bbox.y1; x2 = r.bbox.x2; y2 = r.bbox.y2 });
      }

      abbrev pub ppe_alerts : List (PpeReport n v.Picture v.argmax) → List (Alert n.Number)
      ppe_alerts [] = []
      ppe_alerts (r ∷ rs) = map (ppe_alert r) r.violations ++ ppe_alerts rs

      -- From the reports on, where `none` is an exception.
      abbrev pub cam2_reported :
          Cam2
          → List (Alert n.Number)
          → Option (List (PpeReport n v.Picture v.argmax))
          → Cam2 × List Signal × Bool
      cam2_reported s zones none = (s, [], true)
      cam2_reported s zones (some reports) =
          (s, frame_ready overlaid ∷ emit_alerts (zones ++ ppe_alerts reports), false)

      -- From the protective equipment on.
      abbrev pub cam2_checked :
          Cam2
          → List (Alert n.Number)
          → PpeChecker n v.Picture v.argmax × Option (List (PpeReport n v.Picture v.argmax))
          → Cam2 × List Signal × Bool
      cam2_checked s zones (checker, reports) =
          cam2_reported (record s { ppe_checker = checker }) zones reports

      abbrev pub cam2_zones :
          Cam2
          → m.Frame
          → List (DetectedObject n)
          → Result (List (Alert n.Number))
          → Cam2 × List Signal × Bool
      cam2_zones s frame persons (err e) = (s, [], true)
      cam2_zones s frame persons (ok zones) = cam2_checked s zones (
          process_persons n v.Picture v.argmax maths.truncate s.ppe_checker (v.boxed frame)
            (map box_like persons) false)

      -- The `try` around the detection: the first failure is shown, the later ones are not.
      abbrev pub cam2_detected :
          Cam2 → m.Frame → Result (List (DetectedObject n)) → Cam2 × List Signal × Bool
      cam2_detected s frame (err e) = (
        record s { model_ok = false },
        if s.model_ok then frame_ready offline ∷ [] else [],
        false,
      )
      cam2_detected s frame (ok persons) =
          cam2_zones (record s { model_ok = true }) frame persons
            (zone_alerts s.roi_checker persons)

      abbrev pub cam2_moved : Bool → Cam2 → m.Frame → Cam2 × List Signal × Bool
      cam2_moved false s frame = (s, frame_ready plain ∷ [], false)
      cam2_moved true s frame =
          cam2_detected s frame (detect_persons s.detector s.roi_checker frame)

      abbrev pub cam2_frame : Bool → Cam2 → m.Frame → Cam2 × List Signal × Bool
      cam2_frame true s frame = (s, frame_ready plain ∷ [], false)
      cam2_frame false s frame =
          cam2_moved (moved s.previous (v.gray frame)) (record s { previous = some (v.gray frame) })
            frame

      -- The first timeout is shown, the later ones are not.
      abbrev pub cam2_lost : Bool → Cam2 → Cam2 × List Signal × Bool
      cam2_lost true s = (s, [], false)
      cam2_lost false s =
          (record s { disconnected = true }, frame_ready Shown.disconnected ∷ [], false)

      -- One turn of `Cam2Thread.run`.
      unfoldable pub cam2_turn : Cam2 → Received m.Frame → Cam2 × List Signal × Bool
      cam2_turn s timed_out = cam2_lost s.disconnected s
      cam2_turn s undecodable = (record s { disconnected = false }, [], false)
      cam2_turn s (decoded frame) =
          cam2_frame (not (eqb ((s.frame_count + 1) % s.frame_skip) 0))
            (record s { disconnected = false; frame_count = s.frame_count + 1 }) frame
