-- ===== src/Alert/Cooldown/Examples.antt =====
-- The cool-down of five seconds: a run, and the theorem of this folder applied.
use computer_vision.Common.{◌≡◌, refl, List, [], ◌∷◌, lookup, insert, remove}
use computer_vision.Alert.Cooldown.{
  CooldownManager, should_alert, reset_for_camera, keys_to_remove, remove_keys,
}
use computer_vision.Alert.Cooldown.Spacing.{
  Call, check, reset_camera_call, forget, IsSpaced, run, run-IsSpaced,
}

abbrev empty : CooldownManager
empty = record { cooldown = 5000000; last_alert = [] }

-- The second check comes too early, the fourth follows a reset of its camera.
abbrev calls : List Call
calls =
    check "gate" "NO_VEST" 1000000
    ∷ check "gate" "NO_VEST" 2000000
    ∷ check "yard" "NO_VEST" 2500000
    ∷ reset_camera_call "gate"
    ∷ check "gate" "NO_VEST" 3000000
    ∷ check "yard" "NO_VEST" 7500000
    ∷ []

run-calls :
    (run empty [] calls).1
    ≡ (("yard", "NO_VEST"), 7500000)
      ∷ (("gate", "NO_VEST"), 3000000)
      ∷ (("yard", "NO_VEST"), 2500000)
      ∷ []
unfolding run should_alert reset_for_camera keys_to_remove remove_keys forget lookup insert remove
run-calls = refl

run-IsSpaced_example : IsSpaced (run empty [] calls).0 (run empty [] calls).1
run-IsSpaced_example = run-IsSpaced empty [] calls (record { tracks = λ _. refl; spaced = tt })
