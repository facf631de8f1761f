-- ===== src/Alert/Pipeline.antt =====
-- `AlertPipeline.process` of alert/__init__.py and `Dispatcher.dispatch` of alert/dispatcher.py, on the
-- violations that the classifier found. The database is a parameter of each dispatch: the new row's id,
-- or an error. Writing the thumbnail has no effect on the rest; its path does. A broadcast does not
-- raise here.
pub mod Dispatched
pub mod Suppressed
use computer_vision.Common.{
  ℕ, String, Bool, true, false, Option, none, some, List, [], ◌∷◌, ◌++◌, length, if◌then◌else◌,
}
use computer_vision.Errors.{Error, Result, ok, err}
use computer_vision.Alert.Cooldown.{CooldownManager, should_alert}
use computer_vision.Alert.Roi.{BBox, Geometry, RoiMatcher, is_in_roi}

pub record Violation (F : Type 0) : Type 0 where
  pub id : Option ℕ
  pub camera_id : String
  pub violation_type : String
  pub severity : String
  pub bbox : BBox F
  pub thumbnail_path : String
  pub timestamp : ℕ

-- `rows` are the violations that the database took, `messages` those that were broadcast.
pub record Dispatcher (F : Type 0) : Type 0 where
  pub has_manager : Bool
  pub rows : List (Violation F)
  pub messages : List (Violation F)

module _ {F : Type 0} where
  unfoldable pub dispatch :
      Dispatcher F → Violation F → String → Result ℕ → Dispatcher F × Result (Violation F)
  dispatch d v path (err e) = (d, err e)
  dispatch d v path (ok id) =
      let v' = record v { thumbnail_path = path; id = some id } in
      (
        record d {
          rows = d.rows ++ v' ∷ [];
          messages = if d.has_manager then d.messages ++ v' ∷ [] else d.messages;
        },
        ok v',
      )

-- What the rest of the world answers while one violation is processed.
pub record Moment : Type 0 where
  pub get_roi : String → Option String
  pub now : ℕ
  pub thumbnail_path : String
  pub inserted : Result ℕ

module _ (g : Geometry) where
  pub record AlertPipeline : Type 0 where
    pub roi : RoiMatcher g
    pub cooldown : CooldownManager
    pub dispatcher : Dispatcher g.Coordinate

  abbrev pub dispatched_one :
      AlertPipeline
      → Dispatcher g.Coordinate × Result (Violation g.Coordinate)
      → AlertPipeline × Result (Option (Violation g.Coordinate))
  dispatched_one p (d, ok v) = (record p { dispatcher = d }, ok (some v))
  dispatched_one p (d, err e) = (record p { dispatcher = d }, err e)

  -- After the cool-down: the dispatch.
  abbrev pub after_cooldown :
      AlertPipeline
      → Violation g.Coordinate
      → Moment
      → CooldownManager × Bool
      → AlertPipeline × Result (Option (Violation g.Coordinate))
  after_cooldown p v m (cooldown, false) = (record p { cooldown = cooldown }, ok none)
  after_cooldown p v m (cooldown, true) =
      dispatched_one (record p { cooldown = cooldown })
        (dispatch p.dispatcher v m.thumbnail_path m.inserted)

  -- After the region: the cool-down.
  abbrev pub after_roi :
      AlertPipeline
      → Violation g.Coordinate
      → Moment
      → RoiMatcher g × Result Bool
      → AlertPipeline × Result (Option (Violation g.Coordinate))
  after_roi p v m (roi, err e) = (record p { roi = roi }, err e)
  after_roi p v m (roi, ok false) = (record p { roi = roi }, ok none)
  after_roi p v m (roi, ok true) =
      after_cooldown (record p { roi = roi }) v m
        (should_alert p.cooldown v.camera_id v.violation_type m.now)

  -- One turn of the loop: the violation as it was dispatched, if it was.
  unfoldable pub handle :
      AlertPipeline
      → Violation g.Coordinate
      → Moment
      → AlertPipeline × Result (Option (Violation g.Coordinate))
  handle p v m = after_roi p v m (is_in_roi g m.get_roi p.roi v.camera_id v.bbox)

  abbrev pub add_dispatched :
      List (Violation g.Coordinate)
      → Option (Violation g.Coordinate)
      → List (Violation g.Coordinate)
  add_dispatched vs none = vs
  add_dispatched vs (some v) = vs ++ v ∷ []

  unfoldable pub process :
      AlertPipeline
      → (ℕ → Moment)
      → List (Violation g.Coordinate)
      → List (Violation g.Coordinate)
      → AlertPipeline × Result (List (Violation g.Coordinate))
  process p moments [] dispatched = (p, ok dispatched)
  process p moments (v ∷ violations) dispatched =
      let (p', result) = handle p v (moments (length violations)) in
      elim result [
        | err e ↦ (p', err e)
        | ok one ↦ process p' moments violations (add_dispatched dispatched one)
      ]
