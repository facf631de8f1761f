-- ===== src/Desktop/Alerts/Examples.antt =====
-- Alerts of two persons in one zone, ten seconds apart.
use computer_vision.Common.{
  ℕ, ◌≡◌, refl, String, true, false, none, some, [], ◌∷◌, lookup, insert, text_key, number_key,
  pair_key,
}
use computer_vision.Errors.{ok}
use computer_vision.Desktop.Alerts.{
  AlertKey, CooldownManager, can_alert, Alert, Answers, AlertManager, fire, process_one,
  process_violations,
}
use computer_vision.Desktop.Alerts.Fired.{expected, Fired, process_violations-Fired}

abbrev first_person : AlertKey
first_person = (("yard", 0), "NO_VEST")

abbrev second_person : AlertKey
second_person = (("yard", 1), "NO_VEST")

abbrev half_minute : CooldownManager
half_minute = record { default_cooldown = 30000000; timers = [] }

allowed_first : (can_alert 40000000 first_person half_minute).1 ≡ true
unfolding can_alert lookup
allowed_first = refl

abbrev vest_of : ℕ → Alert ℕ
vest_of i = record {
  violation_type = some "NO_VEST";
  zone_name = some "yard";
  person_idx = some i;
  bbox = none;
}

abbrev answers : String → Answers
answers id = record { now = 40000000; thumbnail_path = ""; saved = ok id; callback_error = none }

abbrev quiet : AlertManager ℕ
quiet = record { has_callback = true; cooldown = half_minute; rows = []; calls = [] }

-- The second alert of the first person is within the cool-down.
three_alerts :
    (process_violations "c1" false false
      ((vest_of 0, answers "a") ∷ (vest_of 0, answers "b") ∷ (vest_of 1, answers "c") ∷ [])
      quiet).1
    ≡ ok ("a" ∷ "c" ∷ [])
unfolding process_violations process_one can_alert fire lookup insert
three_alerts = refl

process_violations-Fired_example :
    Fired quiet
      (expected "c1" false false true
        ((vest_of 0, answers "a") ∷ (vest_of 1, answers "c") ∷ [])
        half_minute)
      (process_violations "c1" false false
        ((vest_of 0, answers "a") ∷ (vest_of 1, answers "c") ∷ [])
        quiet)
process_violations-Fired_example =
    process_violations-Fired "c1" false false
      ((vest_of 0, answers "a") ∷ (vest_of 1, answers "c") ∷ []) quiet
