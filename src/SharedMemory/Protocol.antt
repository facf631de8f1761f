-- ===== src/SharedMemory/Protocol.antt =====
-- The two processes on one `FrameBuffer`: `_handle_frame` of edge/capture_loop.py, whose writing and
-- collecting halves are two steps here, and `InferenceWorker.step` of inference/inference_worker.py,
-- split where it waits for the model. Each reading or writing of a frame or of a result is one step here,
-- although the code takes no lock: Reading has P1's reading of a result in two steps, with P2's steps
-- between them, and Torn the result that is written there. Encoding, previews and alerts do not touch the segments.
pub mod Untouched
pub mod Coherence
pub mod Steps
pub mod Overlay
pub mod Stuck
pub mod Reading
use computer_vision.Common.{ℕ, Bool, Option, none, some, List, [], ◌∷◌, true, false, eqb}
use computer_vision.Errors.{Result, ok, err}
use computer_vision.SharedMemory.Words.{Integer, natural, minus_one_minus}
use computer_vision.SharedMemory.{
  Slot, slot_a, slot_b, Frame, Segments, pick_free, find_filled, acquire, release, write_frame,
  read_frame, write_result, read_result,
}

-- `worker` is the slot that P2 has locked with the frame that it read; `answered` is the frame of the
-- last result that P2 wrote; `shown` has each frame that P1 drew a result on, with the frame that the
-- result was computed from.
pub record System : Type 0 where
  pub segments : Segments
  pub last_result_seq : ℕ
  pub worker : Option (Slot × Frame)
  pub answered : Option Frame
  pub shown : List (Frame × Option Frame)

pub data Event : Type 0 where
  capture : Frame → Event
  collect : Event
  take_frame : Event
  finish : List ℕ → Event

-- P1, first half: write the current frame to a free slot; a `ValueError` ends only this frame.
unfoldable pub capture_step : System → Frame → System
capture_step y frame = elim (pick_free y.segments) [
  | none ↦ y
  | some i ↦ record y { segments = (write_frame y.segments i frame).0 }
]

-- `result_buf in (0, 1)`
unfoldable pub slot_of : Integer → Option Slot
slot_of (natural n) = elim (eqb n 0) [
  | true ↦ some slot_a
  | false ↦ elim (eqb n 1) [ true ↦ some slot_b | false ↦ none ]
]
slot_of (minus_one_minus n) = none

-- P1, second half, once a result for slot `i` was read: draw on the exact frame, release the slot.
unfoldable pub overlay : System → Slot → Result (Option Frame) → System
overlay y i (err e) = y
overlay y i (ok none) = record y { segments = release y.segments i }
overlay y i (ok (some frame)) = record y {
  segments = release y.segments i;
  shown = (frame, y.answered) ∷ y.shown;
}

-- P2, up to the model: lock a filled slot and read it. An error ends the worker's thread.
unfoldable pub hold : System → Slot → Result (Option Frame) → System
hold y i (err e) = y
hold y i (ok none) = record y { segments = release y.segments i }
hold y i (ok (some frame)) = record y { worker = some (i, frame) }

unfoldable pub take_step : System → System
take_step y = elim y.worker [
  | some _ ↦ y
  | none ↦ elim (find_filled y.segments) [
    | none ↦ y
    | some i ↦
        let taken = acquire y.segments i in
        hold (record y { segments = taken }) i (read_frame taken i)
  ]
]

-- P2, after the model: publish the result for the slot that it holds.
unfoldable pub finish_step : System → List ℕ → System
finish_step y text = elim y.worker [
  | none ↦ y
  | some (i, frame) ↦ record y {
    segments = (write_result y.segments text i).0;
    worker = none;
    answered = some frame;
  }
]

module _ {J : Type 0} (loads : List ℕ → Option J) where
  unfoldable pub collect_step : System → System
  unfolding slot_of
  collect_step y =
      let (last, payload) = read_result loads y.segments y.last_result_seq in
      let y' = record y { last_result_seq = last } in
      elim payload [
        | none ↦ y'
        | some (_, target) ↦ elim (slot_of target) [
          | none ↦ y'
          | some i ↦ overlay y' i (read_frame y'.segments i)
        ]
      ]

  unfoldable pub step : System → Event → System
  step y (capture frame) = capture_step y frame
  step y collect = collect_step y
  step y take_frame = take_step y
  step y (finish text) = finish_step y text

  unfoldable pub run : System → List Event → System
  run y [] = y
  run y (e ∷ events) = run (step y e) events
