-- ===== src/Tracking/Manager.antt =====
-- `PerCameraTrackerManager` of edge_runtime/tracking/manager.py: one tracker to a camera. A repeated
-- camera, like a camera without a name, is a `ValueError` of the constructor.
pub mod Isolation
use computer_vision.Common.{
  ℕ, String, Bool, true, false, Option, none, some, List, [], ◌∷◌, Dict, lookup, insert, contains,
  ◌==◌, text_key, Numbers, if◌then◌else◌,
}
use computer_vision.Vision.{Detection, TrackedDetection}
use computer_vision.Tracking.Kalman.{Arrays}
use computer_vision.Tracking.Tracker.{ByteTracker, make_tracker, update}

-- `len(ids) != len(set(ids))`
abbrev pub has_text : String → List String → Bool
has_text c [] = false
has_text c (d ∷ ds) = if d == c then true else has_text c ds

abbrev pub has_repeat : List String → Bool
has_repeat [] = false
has_repeat (c ∷ cs) = if has_text c cs then true else has_repeat cs

module _ (n : Numbers) (a : Arrays n) where
  pub record TrackerManager : Type 0 where
    pub trackers : Dict String (ByteTracker n a)

  pub record TrackerOptions : Type 0 where
    pub track_threshold : n.Number
    pub low_threshold : n.Number
    pub match_iou_threshold : n.Number
    pub track_buffer : ℕ

  -- `ByteTracker(camera_id, **tracker_options)`
  abbrev pub tracker_of : TrackerOptions → String → Option (ByteTracker n a)
  tracker_of o c =
      make_tracker n a c o.track_threshold o.low_threshold o.match_iou_threshold o.track_buffer

  abbrev pub add_tracker :
      String
      → Option (ByteTracker n a)
      → Option (Dict String (ByteTracker n a))
      → Option (Dict String (ByteTracker n a))
  add_tracker c (some s) (some rest) = some ((c, s) ∷ rest)
  add_tracker c none rest = none
  add_tracker c (some s) none = none

  unfoldable pub make_trackers :
      TrackerOptions → List String → Option (Dict String (ByteTracker n a))
  make_trackers o [] = some []
  make_trackers o (c ∷ cs) = add_tracker c (tracker_of o c) (make_trackers o cs)

  abbrev pub manager_of : Option (Dict String (ByteTracker n a)) → Option TrackerManager
  manager_of none = none
  manager_of (some trackers) = some (record { trackers = trackers })

  unfoldable pub make_manager : TrackerOptions → List String → Option TrackerManager
  make_manager o cs = if has_repeat cs then none else manager_of (make_trackers o cs)

  -- What `update` ends with: a `KeyError`, the `IndexError` of the tracker, or the tracked detections.
  pub data Updated : Type 0 where
    unknown_camera index_error : Updated
    updated : TrackerManager → List (TrackedDetection n) → Updated

  abbrev pub store_tracker :
      String → TrackerManager → Option (ByteTracker n a × List (TrackedDetection n)) → Updated
  store_tracker c m none = index_error
  store_tracker c m (some r) = updated (record { trackers = insert c r.0 m.trackers }) r.1

  abbrev pub update_known :
      (List (List n.Number) → List (ℕ × ℕ))
      → String
      → List (Detection n)
      → TrackerManager
      → Option (ByteTracker n a)
      → Updated
  update_known assign c ds m none = unknown_camera
  update_known assign c ds m (some s) = store_tracker c m (update n a assign s ds)

  unfoldable pub update_camera :
      (List (List n.Number) → List (ℕ × ℕ)) → String → List (Detection n) → TrackerManager → Updated
  update_camera assign c ds m = update_known assign c ds m (lookup c m.trackers)
