-- ===== src/Desktop/Alerts/Timers.antt =====
-- The cool-down of one key among the alerts of others.
use computer_vision.Common.{
  ℕ, ◌+◌, ◌≡◌, refl, sym, ◌∙◌, inl, inr, Bool, true, false, some, List, [], ◌∷◌, leb, ◌==◌,
  text_key, number_key, pair_key, lookup, lookup-insert, same_self, arith, if◌then◌else◌,
  Bool-cases,
}
use computer_vision.Desktop.Alerts.{AlertKey, CooldownManager, time_or_zero, can_alert}

-- The calls of `can_alert` for other alerts, with their times.
abbrev pub run : List (ℕ × AlertKey) → CooldownManager → CooldownManager
run [] s = s
run (c ∷ calls) s = run calls (can_alert c.0 c.1 s).0

abbrev pub all_other : AlertKey → List (ℕ × AlertKey) → Bool
all_other key [] = true
all_other key (c ∷ calls) = if c.1 == key then false else all_other key calls

can_alert-keeps :
    (now : ℕ) (other key : AlertKey) (s : CooldownManager)
    → (other == key) ≡ false
    → ((can_alert now other s).0.default_cooldown ≡ s.default_cooldown)
      × (lookup key (can_alert now other s).0.timers ≡ lookup key s.timers)
unfolding can_alert
can_alert-keeps now other key s e =
    elim (Bool-cases (leb (time_or_zero (lookup other s.timers) + s.default_cooldown) now)) [
      | inl due ↦ rw due (refl, lookup-insert other key now s.timers ∙ rw e refl)
      | inr early ↦ rw early (refl, refl)
    ]

run-keeps :
    (calls : List (ℕ × AlertKey)) (key : AlertKey) (s : CooldownManager)
    → all_other key calls ≡ true
    → ((run calls s).default_cooldown ≡ s.default_cooldown)
      × (lookup key (run calls s).timers ≡ lookup key s.timers)
run-keeps [] key s h = (refl, refl)
run-keeps (c ∷ calls) key s h =
    let kept = can_alert-keeps c.0 c.1 key s (ground arith) in
    let rest = run-keeps calls key (can_alert c.0 c.1 s).0 (ground arith) in
    (rest.0 ∙ kept.0, rest.1 ∙ kept.1)

can_alert-answer :
    (now : ℕ) (key : AlertKey) (s : CooldownManager)
    → (can_alert now key s).1 ≡ leb (time_or_zero (lookup key s.timers) + s.default_cooldown) now
unfolding can_alert
can_alert-answer now key s =
    elim (Bool-cases (leb (time_or_zero (lookup key s.timers) + s.default_cooldown) now)) [
      | inl due ↦ rw due refl
      | inr early ↦ rw early refl
    ]

can_alert-allowed :
    (now : ℕ) (key : AlertKey) (s : CooldownManager)
    → (can_alert now key s).1 ≡ true
    → ((can_alert now key s).0.default_cooldown ≡ s.default_cooldown)
      × (lookup key (can_alert now key s).0.timers ≡ some now)
unfolding can_alert
can_alert-allowed now key s h =
    let due : leb (time_or_zero (lookup key s.timers) + s.default_cooldown) now ≡ true =
      sym (can_alert-answer now key s) ∙ h in
    rw due (refl, lookup-insert key key now s.timers ∙ rw (same_self key) refl)

-- Once an alert was allowed, it is allowed again exactly when the cool-down has passed since then,
-- whatever the alerts of other zones, persons and types were in between.
pub can_alert-again :
    (now later : ℕ) (key : AlertKey) (calls : List (ℕ × AlertKey)) (s : CooldownManager)
    → (can_alert now key s).1 ≡ true
    → all_other key calls ≡ true
    → (can_alert later key (run calls (can_alert now key s).0)).1
      ≡ leb (now + s.default_cooldown) later
can_alert-again now later key calls s allowed others =
    let first = can_alert-allowed now key s allowed in
    let rest = run-keeps calls key (can_alert now key s).0 others in
    can_alert-answer later key (run calls (can_alert now key s).0)
    ∙ rw (rest.1 ∙ first.1, rest.0 ∙ first.0) refl
