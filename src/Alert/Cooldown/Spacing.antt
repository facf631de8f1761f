-- ===== src/Alert/Cooldown/Spacing.antt =====
-- The alerts of one camera and violation type, through checks and resets in any order.
use mathlib.Core.Bool.{◌&&◌}
use native.Mathlib.Decide.{dec_lt}
use computer_vision.Common.{
  ℕ, ◌+◌, ◌≤◌, ◌<◌, ◌≡◌, refl, sym, ◌∙◌, inl, inr, String, Bool, true, false, Option, none, some,
  List, [], ◌∷◌, arith, Dict, keys, lookup, lookup-insert, lookup-remove, insert, contains, remove,
  ◌==◌, text_key, pair_key, if◌then◌else◌, Bool-cases, Option-cases,
}
use computer_vision.Alert.Cooldown.{
  CooldownManager, should_alert, reset, keys_to_remove, remove_keys, reset_for_camera,
}

pub data Call : Type 0 where
  check : String → String → ℕ → Call
  reset_call : Call
  reset_camera_call : String → Call

-- The alerts that fired, newest first.
abbrev pub History : Type 0
History = Dict (String × String) ℕ

unfoldable pub forget : String → History → History
forget c [] = []
forget c (e ∷ h) = let rest = forget c h in if e.0.0 == c then rest else e ∷ rest

abbrev pub fired : Bool → String × String → ℕ → History → History
fired true k now h = (k, now) ∷ h
fired false k now h = h

-- The manager after the calls, and the alerts that fired since their camera was last reset.
unfoldable pub run : CooldownManager → History → List Call → CooldownManager × History
run s h [] = (s, h)
run s h (check c t now ∷ calls) =
    let (s', alert) = should_alert s c t now in run s' (fired alert (c, t) now h) calls
run s h (reset_call ∷ calls) = run (reset s) [] calls
run s h (reset_camera_call c ∷ calls) = run (reset_for_camera s c) (forget c h) calls

abbrev pub Later : ℕ → Option ℕ → ℕ → Type 0
Later cooldown none now = Unit
Later cooldown (some last) now = last + cooldown ≤ now

-- Each alert is later than the one before it of the same camera and type by the cool-down.
abbrev pub AllSpaced : ℕ → History → Type 0
AllSpaced cooldown [] = Unit
AllSpaced cooldown (e ∷ h) = Later cooldown (lookup e.0 h) e.1 × AllSpaced cooldown h

pub record IsSpaced (s : CooldownManager) (h : History) : Type 0 where
  pub tracks : (k : String × String) → lookup k s.last_alert ≡ lookup k h
  pub spaced : AllSpaced s.cooldown h

lookup-forget :
    (c : String) (k : String × String) (h : History)
    → lookup k (forget c h) ≡ (if k.0 == c then none else lookup k h)
unfolding lookup forget
lookup-forget c k [] = ground arith
lookup-forget c k (e ∷ h) = ground (
  arith,
  lookup-forget c k h,
  text_key.same_iff e.0.0 k.0,
  text_key.same_iff e.0.0 c,
  text_key.same_iff k.0 c,
)

AllSpaced-forget : (n : ℕ) (c : String) (h : History) → AllSpaced n h → AllSpaced n (forget c h)
unfolding forget
AllSpaced-forget n c [] v = tt
AllSpaced-forget n c (e ∷ h) v = elim (Bool-cases (e.0.0 == c)) [
  | inl same ↦ rw same (AllSpaced-forget n c h v.1)
  | inr other ↦ rw other (rw (lookup-forget c e.0 h, other) v.0, AllSpaced-forget n c h v.1)
]

abbrev member : String × String → List (String × String) → Bool
member k [] = false
member k (j ∷ ks) = if j == k then true else member k ks

member-keys :
    (k : String × String) (d : Dict (String × String) ℕ) → member k (keys d) ≡ contains k d
unfolding contains lookup
member-keys k [] = refl
member-keys k (e ∷ d) = ground (arith, member-keys k d)

lookup-remove_keys :
    (c : String) (k : String × String) (ks : List (String × String)) (d : Dict (String × String) ℕ)
    → lookup k (remove_keys (keys_to_remove c ks) d)
      ≡ (if k.0 == c && member k ks then none else lookup k d)
unfolding remove_keys keys_to_remove
lookup-remove_keys c k [] d = ground arith
lookup-remove_keys c k (j ∷ ks) d = ground (
  arith,
  lookup-remove_keys c k ks d,
  lookup-remove_keys c k ks (remove j d),
  lookup-remove j k d,
  (pair_key {A = String} {B = String}).same_iff j k,
)

lookup-reset_for_camera :
    (s : CooldownManager) (c : String) (k : String × String)
    → lookup k (reset_for_camera s c).last_alert
      ≡ (if k.0 == c then none else lookup k s.last_alert)
unfolding reset_for_camera contains
lookup-reset_for_camera s c k =
    ground
      (arith, lookup-remove_keys c k (keys s.last_alert) s.last_alert, member-keys k s.last_alert)

reset_for_camera-spaced :
    (s : CooldownManager) (c : String) (h : History)
    → AllSpaced s.cooldown h
    → AllSpaced (reset_for_camera s c).cooldown h
unfolding reset_for_camera
reset_for_camera-spaced s c h v = v

alerted-IsSpaced :
    (s : CooldownManager) (h : History) (k : String × String) (now : ℕ)
    → Later s.cooldown (lookup k h) now
    → IsSpaced s h
    → IsSpaced (record s { last_alert = insert k now s.last_alert }) ((k, now) ∷ h)
unfolding lookup
alerted-IsSpaced s h k now later v = record {
  tracks = λ j. ground (arith, lookup-insert k j now s.last_alert, v.tracks j);
  spaced = (later, v.spaced);
}

should_alert_first :
    (s : CooldownManager) (c t : String) (now : ℕ)
    → lookup (c, t) s.last_alert ≡ none
    → should_alert s c t now ≡ (record s { last_alert = insert (c, t) now s.last_alert }, true)
unfolding should_alert
should_alert_first s c t now first = ground arith

pub should_alert_early :
    (s : CooldownManager) (c t : String) (now last : ℕ)
    → lookup (c, t) s.last_alert ≡ some last
    → now < last + s.cooldown
    → should_alert s c t now ≡ (s, false)
unfolding should_alert
should_alert_early s c t now last found early = ground arith

should_alert_due :
    (s : CooldownManager) (c t : String) (now last : ℕ)
    → lookup (c, t) s.last_alert ≡ some last
    → last + s.cooldown ≤ now
    → should_alert s c t now ≡ (record s { last_alert = insert (c, t) now s.last_alert }, true)
unfolding should_alert
should_alert_due s c t now last found due = ground arith

should_alert-IsSpaced :
    (s : CooldownManager) (h : History) (c t : String) (now : ℕ)
    → IsSpaced s h
    → IsSpaced (should_alert s c t now).0 (fired (should_alert s c t now).1 (c, t) now h)
should_alert-IsSpaced s h c t now v =
    let k : String × String = (c, t) in
    elim (Option-cases (lookup k s.last_alert)) [
      | inl first ↦
          rw (should_alert_first s c t now first)
            (alerted-IsSpaced s h k now (rw (sym (v.tracks k) ∙ first) tt) v)
      | inr (last, found) ↦ elim (dec_lt now (last + s.cooldown)) [
        | yes early ↦ rw (should_alert_early s c t now last found early) v
        | no due ↦
            let later : last + s.cooldown ≤ now = omega arith in
            rw (should_alert_due s c t now last found later)
              (alerted-IsSpaced s h k now (rw (sym (v.tracks k) ∙ found) later) v)
      ]
    ]

-- Between resets of its camera, an alert of one camera and violation type never fires before the
-- cool-down is over since the last one, whatever the clock shows: through checks, resets and resets
-- of one camera in any order, every alert is later than the previous one of its key by the cool-down,
-- and the manager remembers the last alert of every key.
pub run-IsSpaced :
    (s : CooldownManager) (h : History) (calls : List Call)
    → IsSpaced s h
    → IsSpaced (run s h calls).0 (run s h calls).1
unfolding run reset
run-IsSpaced s h [] v = v
run-IsSpaced s h (check c t now ∷ calls) v =
    run-IsSpaced (should_alert s c t now).0 (fired (should_alert s c t now).1 (c, t) now h) calls
      (should_alert-IsSpaced s h c t now v)
run-IsSpaced s h (reset_call ∷ calls) v =
    run-IsSpaced (reset s) [] calls (record { tracks = λ k. refl; spaced = tt })
run-IsSpaced s h (reset_camera_call c ∷ calls) v =
    run-IsSpaced (reset_for_camera s c) (forget c h) calls (record {
      tracks = λ k. ground (arith, lookup-reset_for_camera s c k, lookup-forget c k h, v.tracks k);
      spaced = reset_for_camera-spaced s c (forget c h) (AllSpaced-forget s.cooldown c h v.spaced);
    })
