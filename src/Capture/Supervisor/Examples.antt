-- ===== src/Capture/Supervisor/Examples.antt =====
-- Two cameras under the watchdog, of which one is hung.
use computer_vision.Common.{
  ℕ, ◌≡◌, refl, ◌⊎◌, String, true, none, some, List, [], ◌∷◌, Dict, lookup, text_key,
}
use computer_vision.Capture.Health.{CameraState, new_health, snapshot}
use computer_vision.Capture.Supervisor.{
  CameraRuntime, Answer, new_worker, restart_worker, watch_one, watch,
}
use computer_vision.Capture.Supervisor.Watching.{Watched, lookup-watch}
use computer_vision.Capture.Supervisor.Hung.{Turn}

abbrev second : ℕ
second = 1000000000

-- A process started after one second, whose last frame is of the time `at`.
abbrev camera_at : ℕ → CameraRuntime
camera_at at = record {
  worker = record (new_worker 2000) {
    has_process = true;
    process_alive = true;
    started_monotonic_ns = 1000000000;
  };
  health = record new_health { state = CameraState.running; captured = 7; last_mono = at };
}

abbrev ends : ℕ → Answer
ends now = record { ended = true; started_at = now }

abbrev cameras : Dict String CameraRuntime
cameras = ("gate", camera_at 5000000000) ∷ ("yard", camera_at 9000000000) ∷ []

lookup-watch_example :
    ((lookup "yard" cameras ≡ none)
      × (lookup "yard" (watch 10000000000 (λ c. ends 10000000000) cameras) ≡ none))
    ⊎ ((r : CameraRuntime) × (lookup "yard" cameras ≡ some r)
        × ((r' : CameraRuntime) × (lookup "yard" (watch 10000000000 (λ c. ends 10000000000) cameras)
              ≡ some r')
            × Watched 10000000000 (ends 10000000000) r r'))
lookup-watch_example = lookup-watch 10000000000 (λ c. ends 10000000000) cameras "yard"

-- The gate is restarted, and the yard is not.
gate_restarted :
    watch 10000000000 (λ c. ends 10000000000) cameras
    ≡ ("gate", restart_worker (ends 10000000000) (camera_at 5000000000))
      ∷ ("yard", camera_at 9000000000)
      ∷ []
unfolding watch watch_one snapshot
gate_restarted = refl

abbrev turn_at : ℕ → Turn
turn_at now = record { now = now; answer = ends now; shows = CameraState.running }

abbrev three_turns : List Turn
three_turns = turn_at 10000000000 ∷ turn_at 11000000000 ∷ turn_at 12000000000 ∷ []
