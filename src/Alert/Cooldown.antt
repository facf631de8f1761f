-- ===== src/Alert/Cooldown.antt =====
-- `CooldownManager` of alert/cooldown.py. `datetime.now()` is an argument, in microseconds, and so is
-- the cool-down; a clock that was set back makes the elapsed time negative, which is below it.
pub mod Spacing
mod Examples
use computer_vision.Common.{
  ℕ, ◌+◌, String, Bool, true, false, Option, none, some, List, [], ◌∷◌, map, ltb, not, Dict, keys,
  lookup, insert, remove, ◌==◌, text_key, pair_key, if◌then◌else◌,
}

pub record CooldownManager : Type 0 where
  pub cooldown : ℕ
  pub last_alert : Dict (String × String) ℕ

unfoldable pub should_alert : CooldownManager → String → String → ℕ → CooldownManager × Bool
should_alert s camera_id violation_type now =
    let key : String × String = (camera_id, violation_type) in
    let alerted : CooldownManager × Bool =
      (record s { last_alert = insert key now s.last_alert }, true) in
    elim (lookup key s.last_alert) [
      | none ↦ alerted
      | some last ↦ if ltb now (last + s.cooldown) then (s, false) else alerted
    ]

unfoldable pub reset : CooldownManager → CooldownManager
reset s = record s { last_alert = [] }

-- `[k for k in self._last_alert if k[0] == camera_id]`
unfoldable pub keys_to_remove : String → List (String × String) → List (String × String)
keys_to_remove camera_id [] = []
keys_to_remove camera_id (k ∷ ks) =
    let rest = keys_to_remove camera_id ks in if k.0 == camera_id then k ∷ rest else rest

-- The loop of `del`, on keys that are there.
unfoldable pub remove_keys :
    List (String × String) → Dict (String × String) ℕ → Dict (String × String) ℕ
remove_keys [] d = d
remove_keys (k ∷ ks) d = remove_keys ks (remove k d)

unfoldable pub reset_for_camera : CooldownManager → String → CooldownManager
reset_for_camera s camera_id = record s {
  last_alert = remove_keys (keys_to_remove camera_id (keys s.last_alert)) s.last_alert;
}
