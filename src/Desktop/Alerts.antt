-- ===== src/Desktop/Alerts.antt =====
-- gpu/alert_manager.py: `CooldownManager` and `AlertManager`. Times are in microseconds. The database and
-- the picture of an alert are arguments; the callback is the list of its calls.
pub mod Timers
pub mod Fired
mod Examples
use mathlib.Core.Bool.{◌&&◌, ◌||◌}
use computer_vision.Common.{
  ℕ, ◌+◌, String, Bool, true, false, not, Option, none, some, List, [], ◌∷◌, ◌++◌, leb, ◌==◌,
  text_key, number_key, pair_key, Dict, lookup, insert, if◌then◌else◌,
}
use computer_vision.Errors.{Error, Result, ok, err}
use computer_vision.Alert.Roi.{BBox}

-- Zone, person and type of an alert.
abbrev pub AlertKey : Type 0
AlertKey = (String × ℕ) × String

pub record CooldownManager : Type 0 where
  pub default_cooldown : ℕ
  pub timers : Dict AlertKey ℕ

abbrev pub time_or_zero : Option ℕ → ℕ
time_or_zero none = 0
time_or_zero (some t) = t

unfoldable pub can_alert : ℕ → AlertKey → CooldownManager → CooldownManager × Bool
can_alert now key s =
    if leb (time_or_zero (lookup key s.timers) + s.default_cooldown) now
    then (record s { timers = insert key now s.timers }, true)
    else (s, false)

-- The entries of an alert's dictionary that are read, each of which may be missing.
pub record Alert (F : Type 0) : Type 0 where
  pub violation_type : Option String
  pub zone_name : Option String
  pub person_idx : Option ℕ
  pub bbox : Option (BBox F)

-- What the rest of the world answers while one alert is processed: `saved` is what the database answers,
-- `callback_error` what the callback raises, if it is called.
pub record Answers : Type 0 where
  pub now : ℕ
  pub thumbnail_path : String
  pub saved : Result String
  pub callback_error : Option Error

pub record Row (F : Type 0) : Type 0 where
  pub id : String
  pub camera_id : String
  pub violation_type : String
  pub severity : String
  pub zone_name : String
  pub person_idx : ℕ
  pub bbox : Option (BBox F)
  pub thumbnail_path : String

-- `rows` are the violations that the database took, `calls` those that the callback was told of.
pub record AlertManager (F : Type 0) : Type 0 where
  pub has_callback : Bool
  pub cooldown : CooldownManager
  pub rows : List (Row F)
  pub calls : List (Row F)

abbrev pub text_or : String → Option String → String
text_or other none = other
text_or other (some t) = t

abbrev pub add_id : Option String → Result (List String) → Result (List String)
add_id none rest = rest
add_id (some id) (ok ids) = ok (id ∷ ids)
add_id (some id) (err e) = err e

-- `if self._callback: self._callback(...)`, and the fired id.
abbrev pub notified : Bool → Option Error → String → Result (Option String)
notified true (some e) id = err e
notified true none id = ok (some id)
notified false c id = ok (some id)

module _ {F : Type 0} where
  abbrev pub type_of : Alert F → String
  type_of a = text_or "PERSON_IN_ZONE" a.violation_type

  abbrev pub zone_of : Alert F → String
  zone_of a = text_or "" a.zone_name

  -- `zone or camera_id`
  abbrev pub alert_key : String → Alert F → AlertKey
  alert_key camera_id a =
      ((if zone_of a == "" then camera_id else zone_of a, time_or_zero a.person_idx), type_of a)

  abbrev pub thumbnail : Bool → Option (BBox F) → String → String
  thumbnail has_frame none path = ""
  thumbnail has_frame (some b) path = if has_frame then path else ""

  abbrev pub row_of : String → Bool → Alert F → String → String → Row F
  row_of camera_id has_frame a path id = record {
    id = id;
    camera_id = camera_id;
    violation_type = type_of a;
    severity = if type_of a == "PERSON_IN_ZONE" then "HIGH" else "MEDIUM";
    zone_name = zone_of a;
    person_idx = time_or_zero a.person_idx;
    bbox = a.bbox;
    thumbnail_path = thumbnail has_frame a.bbox path;
  }

  abbrev pub saved_row :
      AlertManager F
      → (String → Row F)
      → Option Error
      → Result String
      → AlertManager F × Result (Option String)
  saved_row s row c (err e) = (s, err e)
  saved_row s row c (ok id) = (
    record s {
      rows = s.rows ++ row id ∷ [];
      calls = if s.has_callback then s.calls ++ row id ∷ [] else s.calls;
    },
    notified s.has_callback c id,
  )

  -- What follows the cool-down: the row, the callback and the fired id.
  unfoldable pub fire :
      String → Bool → Alert F → Answers → AlertManager F → AlertManager F × Result (Option String)
  fire camera_id has_frame a w s =
      saved_row s (row_of camera_id has_frame a w.thumbnail_path) w.callback_error w.saved

  abbrev pub after_cooldown :
      String
      → Bool
      → Alert F
      → Answers
      → AlertManager F
      → CooldownManager × Bool
      → AlertManager F × Result (Option String)
  after_cooldown camera_id has_frame a w s (c, true) =
      fire camera_id has_frame a w (record s { cooldown = c })
  after_cooldown camera_id has_frame a w s (c, false) = (record s { cooldown = c }, ok none)

  -- One turn of the loop; a forced alert does not ask the cool-down.
  unfoldable pub process_one :
      String
      → Bool
      → Bool
      → Alert F
      → Answers
      → AlertManager F
      → AlertManager F × Result (Option String)
  process_one camera_id has_frame force a w s =
      if force
      then fire camera_id has_frame a w s
      else after_cooldown camera_id has_frame a w s
          (can_alert w.now (alert_key camera_id a) s.cooldown)

  -- The rest of the loop, which an exception leaves out.
  abbrev pub join :
      AlertManager F × Result (Option String)
      → AlertManager F × Result (List String)
      → AlertManager F × Result (List String)
  join (s, err e) rest = (s, err e)
  join (s, ok id) (s', ids) = (s', add_id id ids)

  unfoldable pub process_violations :
      String
      → Bool
      → Bool
      → List (Alert F × Answers)
      → AlertManager F
      → AlertManager F × Result (List String)
  process_violations camera_id has_frame force [] s = (s, ok [])
  process_violations camera_id has_frame force (a ∷ rest) s =
      let one = process_one camera_id has_frame force a.0 a.1 s in
      join one (process_violations camera_id has_frame force rest one.0)
