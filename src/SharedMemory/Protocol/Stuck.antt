-- ===== src/SharedMemory/Protocol/Stuck.antt =====
-- What becomes of a slot whose result was overwritten before P1 read it.
use computer_vision.Common.{
  ℕ, ◌+◌, ◌<◌, ◌^◌, ◌≡◌, ◌≢◌, refl, sym, ap, ◌∙◌, inl, inr, Option, none, some, List, [], ◌∷◌,
  arith, length, Option-cases,
}
use computer_vision.Errors.{Result, ok, err}
use computer_vision.SharedMemory.Words.{natural, get_i32}
use computer_vision.SharedMemory.{
  Slot, slot_a, slot_b, number, Frame, Segments, state, free, filled, locked, pick_free,
  find_filled, acquire, release, write_result, read_result,
}
use computer_vision.SharedMemory.Protocol.{
  System, Event, capture, collect, take_frame, finish, capture_step, slot_of, overlay, hold,
  take_step, finish_step, collect_step, step, run,
}
use computer_vision.SharedMemory.Protocol.Untouched.{
  set_state-SameResult, state-set_state_ne, write_result-SameSlot, write_result-words,
}
use computer_vision.SharedMemory.Protocol.Steps.{
  take_step_busy, take_step_idle, take_step_holds, finish_step_idle, finish_step_writes,
  read_result-some, collect_step-none, collect_step-some, slot_of-some, collect_step_lost,
  sequence-step-le,
}
use computer_vision.SharedMemory.Protocol.Coherence.{
  sequence, Apart, Unread, SameLocked, ne_of_state, pick_free_state, find_filled_state,
  write_frame-SameLocked, SameLocked-set_state, ne_locked, locking,
}

-- Slot `i` is locked, P2 is not working on it, and the last result is about the other slot.
pub record IsStuck (y : System) (i : Slot) : Type 0 where
  pub status : state y.segments i ≡ locked
  pub apart : Apart y.worker i
  pub target : get_i32 y.segments.control 20 ≢ natural (number i)

IsStuck-SameLocked :
    (y : System) (t : Segments) (i : Slot)
    → SameLocked y.segments t
    → IsStuck y i
    → IsStuck (record y { segments = t }) i
IsStuck-SameLocked y t i k v = record {
  status = (k.slot i v.status).status ∙ v.status;
  apart = v.apart;
  target = rw (k.result.target) v.target;
}

number_injective : (i j : Slot) → number i ≡ number j → i ≡ j
number_injective slot_a slot_a e = refl
number_injective slot_a slot_b e = absurd (omega arith)
number_injective slot_b slot_a e = absurd (omega arith)
number_injective slot_b slot_b e = refl

natural_injective : (m n : ℕ) → natural m ≡ natural n → m ≡ n
natural_injective m n e = cc

capture_step-IsStuck :
    (y : System) (f : Frame) (i : Slot) → IsStuck y i → IsStuck (capture_step y f) i
unfolding capture_step
capture_step-IsStuck y f i v = elim (Option-cases (pick_free y.segments)) [
  | inl full ↦ rw (full, capture_step) v
  | inr (j, picked) ↦
      rw (picked, capture_step)
        (IsStuck-SameLocked y _ i
          (write_frame-SameLocked y.segments j f (pick_free_state y.segments j picked)) v)
]

hold-IsStuck :
    (y : System) (i j : Slot) (r : Result (Option Frame))
    → state y.segments j ≡ filled
    → IsStuck y i
    → IsStuck (hold (record y { segments = acquire y.segments j }) j r) i
unfolding hold acquire release
hold-IsStuck y i j (err e) p v = IsStuck-SameLocked y _ i (locking y.segments j p) v
hold-IsStuck y i j (ok none) p v =
    IsStuck-SameLocked y _ i
      (SameLocked-set_state y.segments _ j free (locking y.segments j p) (ne_locked y.segments j p))
      v
hold-IsStuck y i j (ok (some f)) p v =
    let now = IsStuck-SameLocked y _ i (locking y.segments j p) v in
    record {
      status = now.status;
      apart = ne_of_state y.segments j i filled locked p v.status (omega arith);
      target = now.target;
    }

take_step-IsStuck : (y : System) (i : Slot) → IsStuck y i → IsStuck (take_step y) i
take_step-IsStuck y i v = elim (Option-cases y.worker) [
  | inr (p, busy) ↦ rw (take_step_busy y p busy) v
  | inl idle ↦ elim (Option-cases (find_filled y.segments)) [
    | inl empty ↦ rw (take_step_idle y idle empty) v
    | inr (j, found) ↦
        rw (take_step_holds y j idle found)
          (hold-IsStuck y i j _ (find_filled_state y.segments j found) v)
  ]
]

Apart-of :
    (w : Option (Slot × Frame)) (i j : Slot) (f : Frame) → w ≡ some (j, f) → Apart w i → j ≢ i
Apart-of none i j f e a = cc
Apart-of (some (k, g)) i j f e a = λ q. a (let same : k ≡ j = cc in same ∙ q)

-- The result of another slot `j` is written.
written-IsStuck :
    (y : System) (text : List ℕ) (i j : Slot) (f : Frame)
    → j ≢ i
    → state y.segments i ≡ locked
    → sequence y.segments + 1 < 2 ^ 64
    → IsStuck
        (record y {
          segments = (write_result y.segments text j).0;
          worker = none;
          answered = some f;
        })
        i
written-IsStuck y text i j f apart status room =
    let (target, _, _) = write_result-words y.segments text j room in
    record {
      status = (write_result-SameSlot y.segments text j i).status ∙ status;
      apart = tt;
      target = λ e. apart (number_injective j i (natural_injective _ _ (sym target ∙ e)));
    }

finish_step-IsStuck :
    (y : System) (text : List ℕ) (i : Slot)
    → sequence y.segments + 1 < 2 ^ 64
    → IsStuck y i
    → IsStuck (finish_step y text) i
finish_step-IsStuck y text i room v = elim (Option-cases y.worker) [
  | inl idle ↦ rw (finish_step_idle y text idle) v
  | inr ((j, f), busy) ↦
      rw (finish_step_writes y text j f busy)
        (written-IsStuck y text i j f (Apart-of y.worker i j f busy v.apart) v.status room)
]

overlay-IsStuck :
    (y : System) (i j : Slot) (r : Result (Option Frame))
    → j ≢ i
    → IsStuck y i
    → IsStuck (overlay y j r) i
unfolding overlay release
overlay-IsStuck y i j (err e) apart v = v
overlay-IsStuck y i j (ok none) apart v = record {
  status = state-set_state_ne y.segments j i free apart ∙ v.status;
  apart = v.apart;
  target = rw ((set_state-SameResult y.segments j free).target) v.target;
}
overlay-IsStuck y i j (ok (some f)) apart v = record {
  status = state-set_state_ne y.segments j i free apart ∙ v.status;
  apart = v.apart;
  target = rw ((set_state-SameResult y.segments j free).target) v.target;
}

module _ {J : Type 0} (loads : List ℕ → Option J) where
  collect_step-IsStuck : (y : System) (i : Slot) → IsStuck y i → IsStuck (collect_step loads y) i
  collect_step-IsStuck y i v =
      elim (Option-cases (read_result loads y.segments y.last_result_seq).1) [
        | inl nothing ↦
            rw (collect_step-none loads y nothing)
              (record { status = v.status; apart = v.apart; target = v.target })
        | inr ((j, t), found) ↦ elim (Option-cases (slot_of t)) [
          | inl lost ↦
              rw (collect_step_lost loads y j t found lost)
                (record { status = v.status; apart = v.apart; target = v.target })
          | inr (k, named) ↦
              let (target, _) = read_result-some loads y.segments y.last_result_seq j t found in
              rw (collect_step-some loads y j t k found named) (
                overlay-IsStuck (record y { last_result_seq = sequence y.segments }) i k _
                  (λ e.
                    v.target (sym target ∙ slot_of-some t k named ∙ ap (λ s. natural (number s)) e))
                  (record { status = v.status; apart = v.apart; target = v.target }))
        ]
      ]

  step-IsStuck :
      (y : System) (e : Event) (i : Slot)
      → sequence y.segments + 1 < 2 ^ 64
      → IsStuck y i
      → IsStuck (step loads y e) i
  unfolding step
  step-IsStuck y (capture f) i room v = capture_step-IsStuck y f i v
  step-IsStuck y collect i room v = collect_step-IsStuck y i v
  step-IsStuck y take_frame i room v = take_step-IsStuck y i v
  step-IsStuck y (finish text) i room v = finish_step-IsStuck y text i room v

  run-IsStuck :
      (y : System) (events : List Event) (i : Slot)
      → sequence y.segments + length events < 2 ^ 64
      → IsStuck y i
      → IsStuck (run loads y events) i
  unfolding run
  run-IsStuck y [] i room v = v
  run-IsStuck y (e ∷ events) i room v =
      run-IsStuck (step loads y e) events i
        (omega (arith, sequence-step-le loads y e (omega arith)))
        (step-IsStuck y e i (omega arith) v)

  -- If P2 finishes a result for one slot while P1 has not read the result for the other, that other
  -- slot stays locked through every later step of both processes: it is never free again.
  pub run-finish_unread :
      (y : System) (u : Unread y) (j : Slot) (g : Frame) (text : List ℕ) (events : List Event)
      → y.worker ≡ some (j, g)
      → sequence y.segments + 1 + length events < 2 ^ 64
      → state (run loads y (finish text ∷ events)).segments u.slot ≡ locked
  unfolding run step
  run-finish_unread y u j g text events busy room =
      let stuck =
        written-IsStuck y text u.slot j g (Apart-of y.worker u.slot j g busy u.apart) u.status
          (omega arith) in
      let start : IsStuck (finish_step y text) u.slot =
        rw (finish_step_writes y text j g busy) stuck in
      (run-IsStuck (finish_step y text) events u.slot
        (omega (arith, sequence-step-le loads y (finish text) (omega arith))) start).status
