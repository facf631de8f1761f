-- ===== src/Capture/Worker/Ends.antt =====
-- How the capture process ends: by the stop flag, or by a delay that cannot be computed.
use native.Mathlib.Nat.{pow-le-pow_right, pow-suc, one-le-pow}
use computer_vision.Common.{
  ℕ, zero, suc, ◌+◌, ◌^◌, ◌≤◌, ◌<◌, ◌≡◌, refl, ap, ◌∙◌, ◌⊎◌, inl, inr, List, [], ◌∷◌, arith, leb,
  if◌then◌else◌,
}
use computer_vision.Errors.{Error, ok, err}
use computer_vision.Capture.Health.{CameraState, CameraHealth}
use computer_vision.Capture.Reconnect.{float_limit, float_pow, next_delay_ms}
use computer_vision.Capture.Worker.{
  Phase, opening, reading, returned, crashed, Worker, Event, stop, open_failed, consume, step, run,
}

-- A camera that cannot be opened `n` times in a row.
abbrev pub failing : ℕ → List Event
failing zero = []
failing (suc n) = open_failed ∷ failing n

below_limit : (k : ℕ) → k < 1024 → 2 ^ k < float_limit
below_limit k h =
    let top : 2 ^ suc k ≤ 2 ^ 1024 = pow-le-pow_right {n = 2} (omega arith) h in
    omega (arith, pow-suc 2 k, one-le-pow k 2 (omega arith))

float_pow-lt : (k : ℕ) → k < 1024 → float_pow 2 k ≡ ok (2 ^ k)
unfolding float_pow
float_pow-lt k h = let small = below_limit k h in ground arith

le_cases : (k : ℕ) → k ≤ 1024 → (k < 1024) ⊎ (k ≡ 1024)
le_cases k h = omega arith

float_pow-top : float_pow 2 1024 ≡ err Error.overflow_error
unfolding float_pow
float_pow-top = refl

step-crashed :
    (w : Worker) (e : Error) → w.phase ≡ crashed e → (step w w.phase open_failed).phase ≡ crashed e
unfolding step
step-crashed w e p = ground arith

run-crashed :
    (w : Worker) (e : Error) (n : ℕ) → w.phase ≡ crashed e → (run w (failing n)).phase ≡ crashed e
unfolding run
run-crashed w e zero p = p
run-crashed w e (suc n) p = run-crashed (step w w.phase open_failed) e n (step-crashed w e p)

-- Opening has failed `k` times in a row.
record IsRetrying (w : Worker) (k : ℕ) : Type 0 where
  phase : w.phase ≡ opening
  multiplier : w.policy.config.multiplier ≡ 2
  attempts : w.policy.attempts ≡ k

step-IsRetrying :
    (w : Worker) (k : ℕ)
    → IsRetrying w k
    → k < 1024
    → IsRetrying (step w w.phase open_failed) (suc k)
unfolding step next_delay_ms
step-IsRetrying w k r h = ground (arith, float_pow-lt k h)

step-top :
    (w : Worker)
    → IsRetrying w 1024
    → (step w w.phase open_failed).phase ≡ crashed Error.overflow_error
unfolding step next_delay_ms
step-top w r = ground (arith, float_pow-top)

run-IsRetrying :
    (w : Worker) (n k : ℕ)
    → IsRetrying w k
    → k ≤ 1024
    → (run w (failing n)).phase
      ≡ (if leb (k + n) 1024 then opening else crashed Error.overflow_error)
unfolding run
run-IsRetrying w zero k r le = ground (arith, r.phase)
run-IsRetrying w (suc n) k r le = elim (le_cases k le) [
  | inl more ↦ ground (
    arith,
    run-IsRetrying (step w w.phase open_failed) n (suc k) (step-IsRetrying w k r more) more,
  )
  | inr top ↦ ground (
    arith,
    run-crashed (step w w.phase open_failed) Error.overflow_error n
        (step-top w (ground (arith, r))),
  )
]

-- With the default multiplier 2.0, a capture process whose camera cannot be opened keeps trying for
-- 1024 failures in a row; at the next one `OverflowError` ends it, and it stays ended.
pub run-failing :
    (w : Worker) (n : ℕ)
    → w.phase ≡ opening
    → w.policy.config.multiplier ≡ 2
    → w.policy.attempts ≡ 0
    → (run w (failing n)).phase ≡ (if leb n 1024 then opening else crashed Error.overflow_error)
run-failing w n p m a =
    ground (
      arith,
      run-IsRetrying w n 0 (record { phase = p; multiplier = m; attempts = a }) (omega arith),
    )

step-returned :
    (w : Worker) (phase : Phase) (e : Event)
    → phase ≡ returned
    → w.phase ≡ returned
    → ((step w phase e).phase ≡ returned) × ((step w phase e).health ≡ w.health)
unfolding step
step-returned w phase (consume after m now) q p = (p, refl)
step-returned w opening e q p = cc
step-returned w (reading f s) e q p = cc
step-returned w _ e q p = (p, refl)

run-returned :
    (w : Worker) (events : List Event)
    → w.phase ≡ returned
    → ((run w events).phase ≡ returned) × ((run w events).health ≡ w.health)
unfolding run
run-returned w [] p = (p, refl)
run-returned w (e ∷ events) p =
    let (q, same) = step-returned w w.phase e p p in
    let (r, still) = run-returned (step w w.phase e) events q in (r, still ∙ same)

step-stop :
    (w : Worker) (phase : Phase)
    → (phase ≡ opening) ⊎ ((f : ℕ) × (s : ℕ) × (phase ≡ reading f s))
    → ((step w phase stop).phase ≡ returned)
      × ((step w phase stop).health.state ≡ CameraState.stopped)
unfolding step
step-stop w phase h = ground arith

-- The stop flag, seen by either loop test, ends the process with its camera shown as stopped, and
-- whatever happens afterwards, it stays ended and shown as stopped.
pub run-stop :
    (w : Worker) (events : List Event)
    → (w.phase ≡ opening) ⊎ ((f : ℕ) × (s : ℕ) × (w.phase ≡ reading f s))
    → ((run w (stop ∷ events)).phase ≡ returned)
      × ((run w (stop ∷ events)).health.state ≡ CameraState.stopped)
unfolding run
run-stop w events h =
    let (ended, shown) = step-stop w w.phase h in
    let (still, same) = run-returned (step w w.phase stop) events ended in
    (still, ap (λ (c : CameraHealth). c.state) same ∙ shown)
