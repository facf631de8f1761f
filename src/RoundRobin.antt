-- ===== src/RoundRobin.antt =====
-- inference/scheduler.py: frames of several cameras, polled in turn. Every public method holds the
-- lock, so each is one function on the state. A queue is a `deque(maxlen=5)`.
pub mod Validity
pub mod Turns
pub mod Fairness
mod Examples
use computer_vision.Common.{
  ℕ, zero, suc, ◌+◌, ◌%◌, String, Bool, true, false, Option, none, some, List, [], ◌∷◌, ◌++◌,
  length, get_elem?, drop, ltb, Dict, lookup, insert, contains, text_key, if◌then◌else◌,
}

abbrev pub maxlen : ℕ
maxlen = 5

module _ {ℓ} {F : Type ℓ} where
  -- `deque.append` on a bounded deque drops from the left.
  unfoldable pub push : List F → F → List F
  push queue frame =
      if ltb (length queue) maxlen then queue ++ frame ∷ [] else drop 1 queue ++ frame ∷ []

pub record Scheduler {ℓ} (F : Type ℓ) : Type ℓ where
  pub queues : Dict String (List F)
  pub order : List String
  pub index : ℕ

module _ {ℓ} {F : Type ℓ} where
  abbrev pub empty : Scheduler F
  empty = record { queues = []; order = []; index = 0 }

  unfoldable pub register_camera : Scheduler F → String → Scheduler F
  register_camera s camera_id =
      if contains camera_id s.queues
      then s
      else record s { queues = insert camera_id [] s.queues; order = s.order ++ camera_id ∷ [] }

  -- A queue that is not there is a `KeyError`; `register_camera` has just put it there.
  unfoldable pub queue_of : Scheduler F → String → List F
  queue_of s camera_id = elim (lookup camera_id s.queues) [ none ↦ [] | some queue ↦ queue ]

  unfoldable pub add_frame : Scheduler F → String → F → Scheduler F
  add_frame s camera_id frame =
      let s' = register_camera s camera_id in
      record s' { queues = insert camera_id (push (queue_of s' camera_id) frame) s'.queues }

  abbrev pub advance : Scheduler F → Scheduler F
  advance s = record s { index = (s.index + 1) % length s.order }

  -- The loop of `poll`, on the rounds left. An index past the end is an `IndexError`, `none` here.
  unfoldable pub poll_loop : ℕ → Scheduler F → Scheduler F × Option (Option (String × F))
  poll_loop zero s = (s, some none)
  poll_loop (suc rounds) s = elim (get_elem? s.order s.index) [
    | none ↦ (s, none)
    | some camera_id ↦ elim (queue_of s camera_id) [
      | [] ↦ poll_loop rounds (advance s)
      | frame ∷ rest ↦ (
        record (advance s) { queues = insert camera_id rest s.queues },
        some (some (camera_id, frame)),
      )
    ]
  ]

  unfoldable pub poll : Scheduler F → Scheduler F × Option (Option (String × F))
  poll s = poll_loop (length s.order) s

  unfoldable pub camera_count : Scheduler F → ℕ
  camera_count s = length s.order
