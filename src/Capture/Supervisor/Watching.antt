-- ===== src/Capture/Supervisor/Watching.antt =====
-- What the watchdog does to one camera, whatever the others are.
use mathlib.Core.Bool.{◌&&◌, ◌||◌}
use computer_vision.Common.{
  ℕ, ◌+◌, ◌*◌, ◌<◌, ◌≡◌, ◌≢◌, arith, refl, ap, ◌⊎◌, inl, inr, String, Bool, true, false, not, none,
  some, [], ◌∷◌, Dict, lookup, ◌==◌, text_key, if◌then◌else◌, Bool-cases,
}
use computer_vision.Capture.Health.{CameraState, snapshot}
use computer_vision.Capture.Supervisor.{
  CameraRuntime, Answer, is_alive, is_disconnected, is_late, restart_worker, watch_one, watch,
}

-- The tests of `watch_one` as one.
abbrev pub needs_restart : ℕ → CameraRuntime → Bool
needs_restart now r =
    not (is_alive r.worker) || not (is_disconnected r.health.state) && is_late now r

one_test :
    (alive gone late : Bool) (x y : CameraRuntime)
    → (if not alive then x else if gone then y else if late then x else y)
      ≡ (if not alive || not gone && late then x else y)
one_test false gone late x y = refl
one_test true true late x y = refl
one_test true false late x y = refl

pub watch_one-restarts :
    (now : ℕ) (a : Answer) (r : CameraRuntime)
    → watch_one now a r ≡ (if needs_restart now r then restart_worker a r else r)
unfolding watch_one snapshot
watch_one-restarts now a r =
    one_test (is_alive r.worker) (is_disconnected r.health.state) (is_late now r)
      (restart_worker a r) r

-- There is no process, or it has ended.
abbrev pub IsGone : CameraRuntime → Type 0
IsGone r = (r.worker.has_process ≡ false) ⊎ (r.worker.process_alive ≡ false)

-- A time that is known is longer ago than the camera's timeout.
abbrev pub HasExpired : ℕ → CameraRuntime → ℕ → Type 0
HasExpired now r since = (0 < since) × (since + r.worker.read_timeout_ms * 1000000 < now)

-- The last frame is too long ago, or where there was none yet, the start of the process.
abbrev pub IsOverdue : ℕ → CameraRuntime → Type 0
IsOverdue now r =
    HasExpired now r r.health.last_mono
    ⊎ ((r.health.last_mono ≡ 0) × HasExpired now r r.worker.started_monotonic_ns)

abbrev pub NeedsRestart : ℕ → CameraRuntime → Type 0
NeedsRestart now r = IsGone r ⊎ ((r.health.state ≢ CameraState.disconnected) × IsOverdue now r)

disconnected_iff :
    (s : CameraState)
    → (is_disconnected s ≡ true → s ≡ CameraState.disconnected)
      × (is_disconnected s ≡ false → s ≢ CameraState.disconnected)
disconnected_iff CameraState.disconnected = (λ e. refl, λ e f. cc)
disconnected_iff CameraState.disabled = (λ e. cc, λ e f. cc)
disconnected_iff CameraState.starting = (λ e. cc, λ e f. cc)
disconnected_iff CameraState.running = (λ e. cc, λ e f. cc)
disconnected_iff CameraState.degraded = (λ e. cc, λ e f. cc)
disconnected_iff CameraState.stopped = (λ e. cc, λ e f. cc)

IsOverdue-is_late :
    (now : ℕ) (r : CameraRuntime)
    → (is_late now r ≡ true → IsOverdue now r) × (is_late now r ≡ false → ¬ IsOverdue now r)
IsOverdue-is_late now r = (λ e. ground arith, λ e f. ground arith)

IsGone-is_alive :
    (w : CameraRuntime)
    → (is_alive w.worker ≡ false → IsGone w) × (is_alive w.worker ≡ true → ¬ IsGone w)
IsGone-is_alive w = (λ e. ground arith, λ e f. ground arith)

-- What a turn does to one camera.
abbrev pub Watched : ℕ → Answer → CameraRuntime → CameraRuntime → Type 0
Watched now a r r' =
    (NeedsRestart now r × (r' ≡ restart_worker a r)) ⊎ (¬ NeedsRestart now r × (r' ≡ r))

watch_one-Watched : (now : ℕ) (a : Answer) (r : CameraRuntime) → Watched now a r (watch_one now a r)
watch_one-Watched now a r =
    let e = watch_one-restarts now a r in
    elim (Bool-cases (is_alive r.worker)) [
      | inr gone ↦ inl (inl ((IsGone-is_alive r).0 gone), rw (e, gone) refl)
      | inl alive ↦ elim (Bool-cases (is_disconnected r.health.state)) [
        | inl lost ↦ inr (
          λ k. elim k [
            | inl gone ↦ (IsGone-is_alive r).1 alive gone
            | inr k ↦ k.0 ((disconnected_iff r.health.state).0 lost)
          ],
          rw (e, alive, lost) refl,
        )
        | inr near ↦ elim (Bool-cases (is_late now r)) [
          | inl late ↦ inl (
            inr ((disconnected_iff r.health.state).1 near, (IsOverdue-is_late now r).0 late),
            rw (e, alive, near, late) refl,
          )
          | inr fine ↦ inr (
            λ k. elim k [
              | inl gone ↦ (IsGone-is_alive r).1 alive gone
              | inr k ↦ (IsOverdue-is_late now r).1 fine k.1
            ],
            rw (e, alive, near, fine) refl,
          )
        ]
      ]
    ]

-- A turn of the watchdog restarts a camera exactly if its process is gone, or its state is not
-- disconnected and the last frame is longer ago than its timeout, where the start of the process counts
-- if there was no frame yet; and else leaves it as it is. The other cameras make no difference, and no
-- camera appears or disappears.
pub lookup-watch :
    (now : ℕ) (answers : String → Answer) (cameras : Dict String CameraRuntime) (c : String)
    → ((lookup c cameras ≡ none) × (lookup c (watch now answers cameras) ≡ none))
      ⊎ ((r : CameraRuntime) × (lookup c cameras ≡ some r)
          × ((r' : CameraRuntime) × (lookup c (watch now answers cameras) ≡ some r')
              × Watched now (answers c) r r'))
unfolding watch lookup
lookup-watch now answers [] c = inl (refl, refl)
lookup-watch now answers (entry ∷ cameras) c = elim (Bool-cases (entry.0 == c)) [
  | inl same ↦
      let e : entry.0 ≡ c = (text_key.same_iff entry.0 c).0 same in
      rw same (
        inr (
          entry.1,
          refl,
          (
            watch_one now (answers c) entry.1,
            ap (λ d. some (watch_one now (answers d) entry.1)) e,
            watch_one-Watched now (answers c) entry.1,
          ),
        ))
  | inr other ↦ rw other (lookup-watch now answers cameras c)
]
