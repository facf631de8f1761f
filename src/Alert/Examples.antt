-- ===== src/Alert/Examples.antt =====
-- The alert pipeline on a small picture: runs, and the theorems of Roi and Pipeline applied.
use mathlib.Core.Bool.{false≢true}
use computer_vision.Common.{
  ℕ, ◌+◌, ◌/◌, ◌≡◌, ◌≢◌, refl, String, true, false, Option, none, some, List, [], ◌∷◌, arith, ltb,
  lookup, insert, text_key,
}
use computer_vision.Errors.{Error, ok, err}
use computer_vision.Alert.Cooldown.{should_alert}
use computer_vision.Alert.Roi.{
  BBox, Geometry, RoiMatcher, load_polygon, get_polygon, judge, is_in_roi,
}
use computer_vision.Alert.Pipeline.{Violation, dispatch, Moment, AlertPipeline, handle, process}
use computer_vision.Alert.Pipeline.Dispatched.{Recorded, taken, process-Recorded}
use computer_vision.Alert.Pipeline.Suppressed.{handle_suppressed}

-- A polygon is its points, and what it contains is left of its width.
abbrev picture : Geometry
picture = record {
  Coordinate = ℕ;
  middle = λ a b. (a + b) / 2;
  Polygon = ℕ;
  polygon = λ _. ok 10;
  contains = λ width p. ltb p.0 width;
  touches = λ _ _. false;
  loads = λ _. ok ((0 ∷ 0 ∷ []) ∷ (10 ∷ 0 ∷ []) ∷ (10 ∷ 9 ∷ []) ∷ []);
}

abbrev left_box : BBox ℕ
left_box = record { x1 = 1; y1 = 1; x2 = 3; y2 = 5 }

abbrev right_box : BBox ℕ
right_box = record { x1 = 20; y1 = 1; x2 = 22; y2 = 5 }

-- Every camera has a polygon, and none has one.
abbrev drawn : String → Option String
drawn _ = some "[[0,0],[10,0],[10,9]]"

abbrev bare : String → Option String
bare _ = none

abbrev matcher : RoiMatcher picture
matcher = record { cache = [] }

is_in_roi-right : (is_in_roi picture drawn matcher "gate" right_box).1 ≡ ok false
unfolding is_in_roi get_polygon load_polygon judge lookup
is_in_roi-right = refl

abbrev known : RoiMatcher picture
known = record { cache = ("gate", some 10) ∷ ("yard", none) ∷ [] }

gate≢yard : ◌≢◌ {A = String} "gate" "yard"
gate≢yard e = false≢true ((text_key.same_iff "gate" "yard").1 e)

abbrev pipeline : AlertPipeline picture
pipeline = record {
  roi = matcher;
  cooldown = record { cooldown = 5000000; last_alert = [] };
  dispatcher = record { has_manager = true; rows = []; messages = [] };
}

abbrev no_vest : Violation ℕ
no_vest = record {
  id = none;
  camera_id = "gate";
  violation_type = "NO_VEST";
  severity = "MEDIUM";
  bbox = left_box;
  thumbnail_path = "";
  timestamp = 900000;
}

abbrev moment : Moment
moment = record {
  get_roi = drawn;
  now = 1000000;
  thumbnail_path = "data/thumbnails/gate.jpg";
  inserted = ok 1;
}

-- The second violation is outside of the region, the third within the cool-down of the first.
abbrev found : List (Violation ℕ)
found = no_vest ∷ record no_vest { bbox = right_box } ∷ no_vest ∷ []

process-found :
    (process picture pipeline (λ _. moment) found []).1
    ≡ ok (record no_vest { id = some 1; thumbnail_path = "data/thumbnails/gate.jpg" } ∷ [])
unfolding process handle dispatch should_alert is_in_roi get_polygon load_polygon judge lookup
    insert
process-found = refl

process-Recorded_example :
    Recorded picture pipeline []
      (taken picture pipeline (λ _. moment) found)
      (process picture pipeline (λ _. moment) found [])
process-Recorded_example = process-Recorded picture pipeline (λ _. moment) found []

abbrev locked_database : Moment
locked_database = record moment { inserted = err Error.runtime_error }

handle_suppressed_example :
    ((handle picture pipeline no_vest locked_database).1 ≡ err Error.runtime_error)
    × ((handle picture
          (handle picture pipeline no_vest locked_database).0
          no_vest
          (record moment { now = 2000000 })).0.dispatcher.rows
        ≡ [])
unfolding should_alert is_in_roi get_polygon load_polygon judge lookup
handle_suppressed_example =
    handle_suppressed picture pipeline no_vest locked_database (record moment { now = 2000000 })
      Error.runtime_error refl refl refl (omega arith)
