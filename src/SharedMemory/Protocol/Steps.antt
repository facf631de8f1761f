-- ===== src/SharedMemory/Protocol/Steps.antt =====
-- Each step of the two processes as an equation, one for each way that it can go, and how far it moves
-- the result's sequence number.
use computer_vision.Common.{
  ℕ, ◌+◌, ◌≤◌, ◌<◌, ◌^◌, ◌≡◌, ◌≢◌, refl, ◌∙◌, inl, inr, Option, none, some, List, arith,
  Option-cases,
}
use computer_vision.Errors.{Result, ok, err}
use computer_vision.SharedMemory.Words.{Integer, natural, minus_one_minus, get_i32}
use computer_vision.SharedMemory.{
  Slot, slot_a, slot_b, number, Frame, Segments, free, locked, pick_free, find_filled, acquire,
  release, read_frame, write_result, read_result,
}
use computer_vision.SharedMemory.Protocol.{
  System, Event, capture, collect, take_frame, finish, capture_step, slot_of, overlay, hold,
  take_step, finish_step, collect_step, step,
}
use computer_vision.SharedMemory.Protocol.Untouched.{
  set_state-SameResult, write_frame-SameResult, write_result-words,
}
use computer_vision.SharedMemory.Protocol.Coherence.{sequence}

pub take_step_busy : (y : System) (p : Slot × Frame) → y.worker ≡ some p → take_step y ≡ y
unfolding take_step
take_step_busy y p e = ground arith

pub take_step_idle :
    (y : System) → y.worker ≡ none → find_filled y.segments ≡ none → take_step y ≡ y
unfolding take_step
take_step_idle y e n = ground arith

pub take_step_holds :
    (y : System) (i : Slot)
    → y.worker ≡ none
    → find_filled y.segments ≡ some i
    → take_step y
      ≡ hold (record y { segments = acquire y.segments i }) i (read_frame (acquire y.segments i) i)
unfolding take_step
take_step_holds y i e n = ground arith

pub finish_step_idle : (y : System) (text : List ℕ) → y.worker ≡ none → finish_step y text ≡ y
unfolding finish_step
finish_step_idle y text e = ground arith

pub finish_step_writes :
    (y : System) (text : List ℕ) (i : Slot) (f : Frame)
    → y.worker ≡ some (i, f)
    → finish_step y text
      ≡ record y { segments = (write_result y.segments text i).0; worker = none; answered = some f }
unfolding finish_step
finish_step_writes y text i f e = ground arith

pub slot_of-number : (i : Slot) → slot_of (natural (number i)) ≡ some i
unfolding slot_of
slot_of-number slot_a = refl
slot_of-number slot_b = refl

pub slot_of-some : (t : Integer) (i : Slot) → slot_of t ≡ some i → t ≡ natural (number i)
unfolding slot_of
slot_of-some (natural n) slot_a e = ground arith
slot_of-some (natural n) slot_b e = ground arith
slot_of-some (minus_one_minus n) i e = cc

module _ {J : Type 0} (loads : List ℕ → Option J) where
  pub read_result_last : (s : Segments) (last : ℕ) → (read_result loads s last).0 ≡ sequence s
  unfolding read_result
  read_result_last s last = ground arith

  pub read_result-some :
      (s : Segments) (last : ℕ) (j : J) (t : Integer)
      → (read_result loads s last).1 ≡ some (j, t)
      → (t ≡ get_i32 s.control 20) × (sequence s ≢ last)
  unfolding read_result
  read_result-some s last j t e = (ground arith, λ q. ground arith)

  pub collect_step-none :
      (y : System)
      → (read_result loads y.segments y.last_result_seq).1 ≡ none
      → collect_step loads y ≡ record y { last_result_seq = sequence y.segments }
  unfolding collect_step
  collect_step-none y e = ground (arith, read_result_last y.segments y.last_result_seq)

  pub collect_step_lost :
      (y : System) (j : J) (t : Integer)
      → (read_result loads y.segments y.last_result_seq).1 ≡ some (j, t)
      → slot_of t ≡ none
      → collect_step loads y ≡ record y { last_result_seq = sequence y.segments }
  unfolding collect_step
  collect_step_lost y j t e q = ground (arith, read_result_last y.segments y.last_result_seq)

  pub collect_step-some :
      (y : System) (j : J) (t : Integer) (i : Slot)
      → (read_result loads y.segments y.last_result_seq).1 ≡ some (j, t)
      → slot_of t ≡ some i
      → collect_step loads y
        ≡ overlay (record y { last_result_seq = sequence y.segments }) i (read_frame y.segments i)
  unfolding collect_step
  collect_step-some y j t i e q = ground (arith, read_result_last y.segments y.last_result_seq)

-- The result's sequence number moves by at most one in a step.
sequence-capture_step :
    (y : System) (f : Frame) → sequence (capture_step y f).segments ≡ sequence y.segments
unfolding capture_step
sequence-capture_step y f = elim (Option-cases (pick_free y.segments)) [
  | inl full ↦ rw (full, capture_step)
  | inr (i, picked) ↦ rw (picked, capture_step) ((write_frame-SameResult y.segments i f).sequence)
]

sequence-hold :
    (y : System) (i : Slot) (r : Result (Option Frame))
    → sequence (hold y i r).segments ≡ sequence y.segments
unfolding hold release
sequence-hold y i (err e) = refl
sequence-hold y i (ok none) = (set_state-SameResult y.segments i free).sequence
sequence-hold y i (ok (some f)) = refl

sequence-overlay :
    (y : System) (i : Slot) (r : Result (Option Frame))
    → sequence (overlay y i r).segments ≡ sequence y.segments
unfolding overlay release
sequence-overlay y i (err e) = refl
sequence-overlay y i (ok none) = (set_state-SameResult y.segments i free).sequence
sequence-overlay y i (ok (some f)) = (set_state-SameResult y.segments i free).sequence

sequence-take_step : (y : System) → sequence (take_step y).segments ≡ sequence y.segments
unfolding acquire
sequence-take_step y = elim (Option-cases y.worker) [
  | inr (p, busy) ↦ rw (take_step_busy y p busy)
  | inl idle ↦ elim (Option-cases (find_filled y.segments)) [
    | inl empty ↦ rw (take_step_idle y idle empty)
    | inr (i, found) ↦
        rw (take_step_holds y i idle found)
          (sequence-hold _ i _ ∙ (set_state-SameResult y.segments i locked).sequence)
  ]
]

sequence-finish_step :
    (y : System) (text : List ℕ)
    → sequence y.segments + 1 < 2 ^ 64
    → sequence (finish_step y text).segments ≤ sequence y.segments + 1
sequence-finish_step y text room = elim (Option-cases y.worker) [
  | inl idle ↦ rw (finish_step_idle y text idle) (omega arith)
  | inr ((i, f), busy) ↦
      let (_, next, _) = write_result-words y.segments text i room in
      rw (finish_step_writes y text i f busy) (omega arith)
]

module _ {J : Type 0} (loads : List ℕ → Option J) where
  sequence-collect_step :
      (y : System) → sequence (collect_step loads y).segments ≡ sequence y.segments
  sequence-collect_step y = elim (Option-cases (read_result loads y.segments y.last_result_seq).1) [
    | inl nothing ↦ rw (collect_step-none loads y nothing)
    | inr ((j, t), found) ↦ elim (Option-cases (slot_of t)) [
      | inl lost ↦ rw (collect_step_lost loads y j t found lost)
      | inr (i, named) ↦ rw (collect_step-some loads y j t i found named) (sequence-overlay _ i _)
    ]
  ]

  pub sequence-step-le :
      (y : System) (e : Event)
      → sequence y.segments + 1 < 2 ^ 64
      → sequence (step loads y e).segments ≤ sequence y.segments + 1
  unfolding step
  sequence-step-le y (capture f) room = omega (arith, sequence-capture_step y f)
  sequence-step-le y collect room = omega (arith, sequence-collect_step y)
  sequence-step-le y take_frame room = omega (arith, sequence-take_step y)
  sequence-step-le y (finish text) room = sequence-finish_step y text room
