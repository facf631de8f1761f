-- ===== src/SharedMemory/Protocol/Reading.antt =====
-- `read_result` of shared/memory.py in two steps, since P1 takes no lock: the number and the text of the
-- result, and then the slot that it is about, with which the caller in edge/capture_loop.py goes on. P2
-- takes its steps at any time.
use mathlib.Core.Bool.{◌&&◌}
use computer_vision.Common.{
  ℕ, ◌+◌, ◌<◌, ◌^◌, ◌≡◌, refl, sym, ap, ◌∙◌, inl, inr, Bool, true, false, not, Option, none, some,
  List, [], ◌∷◌, arith, length, Option-cases,
}
use computer_vision.Errors.{Result, ok, err}
use computer_vision.SharedMemory.Words.{Integer, get_i32, get_u64}
use computer_vision.SharedMemory.{
  Slot, slot_a, slot_b, Frame, Segments, set_state, acquire, release, find_filled, read_frame,
  read_result,
}
use computer_vision.SharedMemory.Protocol.{
  System, Event, capture, collect, take_frame, finish, slot_of, overlay, hold, take_step,
  finish_step, collect_step, step,
}
use computer_vision.SharedMemory.Protocol.Steps.{
  take_step_busy, take_step_idle, take_step_holds, read_result-some, sequence-step-le,
}
use computer_vision.SharedMemory.Protocol.Coherence.{sequence, IsCoherent}
use computer_vision.SharedMemory.Protocol.Overlay.{step-IsCoherent}

-- The caller of `read_result`, on the slot number that it was given.
abbrev pub placed : System → Integer → System
placed y target = elim (slot_of target) [
  | none ↦ y
  | some i ↦ overlay y i (read_frame y.segments i)
]

pub data ReadEvent : Type 0 where
  at_once : Event → ReadEvent
  look : ReadEvent
  resume : ReadEvent

module _ {J : Type 0} (loads : List ℕ → Option J) where
  -- What P1 has read of a result, until it reads the slot number.
  abbrev pub Pending : Type 0
  Pending = Option (ℕ × Option (J × Integer))

  pub record Reading : Type 0 where
    pub system : System
    pub pending : Pending

  abbrev pub finish_reading : System → ℕ × Option (J × Integer) → System
  finish_reading y (last, none) = record y { last_result_seq = last }
  finish_reading y (last, some (data', _)) =
      placed (record y { last_result_seq = last }) (get_i32 y.segments.control 20)

  abbrev pub resume_step : Reading → Pending → Reading
  resume_step r none = r
  resume_step r (some p) = record { system = finish_reading r.system p; pending = none }

  abbrev pub look_step : Reading → Pending → Reading
  look_step r none = record r {
    pending = some (read_result loads r.system.segments r.system.last_result_seq);
  }
  look_step r (some p) = r

  -- P1 has one thread: it does nothing else while it reads a result.
  abbrev pub whole_step : Reading → Pending → Event → Reading
  whole_step r none e = record r { system = step loads r.system e }
  whole_step r (some p) (capture frame) = r
  whole_step r (some p) collect = r
  whole_step r (some p) take_frame = record r { system = take_step r.system }
  whole_step r (some p) (finish text) = record r { system = finish_step r.system text }

  abbrev pub read_step : Reading → ReadEvent → Reading
  read_step r (at_once e) = whole_step r r.pending e
  read_step r look = look_step r r.pending
  read_step r resume = resume_step r r.pending

  abbrev pub read_run : Reading → List ReadEvent → Reading
  read_run r [] = r
  read_run r (e ∷ events) = read_run (read_step r e) events

  -- P2 writes no result between P1's two steps.
  abbrev pub is_quiet : Bool → List ReadEvent → Bool
  is_quiet reading [] = true
  is_quiet reading (look ∷ events) = is_quiet true events
  is_quiet reading (resume ∷ events) = is_quiet false events
  is_quiet reading (at_once (finish text) ∷ events) = not reading && is_quiet reading events
  is_quiet reading (at_once (capture frame) ∷ events) = is_quiet reading events
  is_quiet reading (at_once collect ∷ events) = is_quiet reading events
  is_quiet reading (at_once take_frame ∷ events) = is_quiet reading events

  set_state-read_result :
      (s : Segments) (i : Slot) (v last : ℕ)
      → read_result loads (set_state s i v) last ≡ read_result loads s last
  unfolding set_state read_result get_u64 get_i32
  set_state-read_result s slot_a v last = refl
  set_state-read_result s slot_b v last = refl

  abbrev seen : System → ℕ × Option (J × Integer)
  seen y = read_result loads y.segments y.last_result_seq

  hold-seen : (y : System) (i : Slot) (r : Result (Option Frame)) → seen (hold y i r) ≡ seen y
  unfolding hold release
  hold-seen y i (err e) = refl
  hold-seen y i (ok none) = set_state-read_result y.segments i _ y.last_result_seq
  hold-seen y i (ok (some f)) = refl

  take_step-seen : (y : System) → seen (take_step y) ≡ seen y
  unfolding acquire
  take_step-seen y = elim (Option-cases y.worker) [
    | inr (p, busy) ↦ rw (take_step_busy y p busy) refl
    | inl idle ↦ elim (Option-cases (find_filled y.segments)) [
      | inl empty ↦ rw (take_step_idle y idle empty) refl
      | inr (i, found) ↦
          rw (take_step_holds y i idle found)
            (hold-seen _ i _ ∙ set_state-read_result y.segments i _ y.last_result_seq)
    ]
  ]

  -- The caller on the slot number of the reading itself.
  abbrev placed_read : System → ℕ × Option (J × Integer) → System
  placed_read y (last, none) = record y { last_result_seq = last }
  placed_read y (last, some (j, target)) = placed (record y { last_result_seq = last }) target

  collect_step-eq : (y : System) → collect_step loads y ≡ placed_read y (seen y)
  unfolding collect_step
  collect_step-eq y = ground arith

  -- Where nothing of it has changed, the rest of the reading makes the whole of it.
  finish_reading-seen :
      (y : System) (p : ℕ × Option (J × Integer))
      → seen y ≡ p
      → finish_reading y p ≡ collect_step loads y
  finish_reading-seen y (last, none) e = sym (collect_step-eq y ∙ ap (placed_read y) e)
  finish_reading-seen y (last, some (j, t)) e =
      let (target, _) = read_result-some loads y.segments y.last_result_seq j t (ap (λ q. q.1) e) in
      ap (placed (record y { last_result_seq = last })) (sym target)
      ∙ sym (collect_step-eq y ∙ ap (placed_read y) e)

  abbrev Fits : System → Pending → Type 0
  Fits y none = Unit
  Fits y (some p) = seen y ≡ p

  is_quiet-rest :
      (reading : Bool) (e : Event) (events : List ReadEvent)
      → is_quiet reading (at_once e ∷ events) ≡ true
      → is_quiet reading events ≡ true
  is_quiet-rest reading (capture frame) events q = q
  is_quiet-rest reading collect events q = q
  is_quiet-rest reading take_frame events q = q
  is_quiet-rest false (finish text) events q = q
  is_quiet-rest true (finish text) events q = absurd cc

  -- While P1 reads, which is what `reading` says.
  read_from :
      (events : List ReadEvent) (y : System) (p : Pending) (reading : Bool)
      → IsCoherent y
      → Fits y p
      → (reading ≡ false → p ≡ none)
      → is_quiet reading events ≡ true
      → sequence y.segments + length events < 2 ^ 64
      → IsCoherent (read_run (record { system = y; pending = p }) events).system
  unfolding step
  read_from [] y p reading v fits idle q room = v
  read_from (look ∷ events) y none reading v fits idle q room =
      read_from events y (some (seen y)) true v refl (λ e. absurd cc) q (omega arith)
  read_from (look ∷ events) y (some p) reading v fits idle q room =
      read_from events y (some p) true v fits (λ e. absurd cc) q (omega arith)
  read_from (resume ∷ events) y none reading v fits idle q room =
      read_from events y none false v tt (λ e. refl) q (omega arith)
  read_from (resume ∷ events) y (some p) reading v fits idle q room =
      let same = finish_reading-seen y p fits in
      let more = sequence-step-le loads y collect (omega arith) in
      read_from events (finish_reading y p) none false
        (rw same (step-IsCoherent loads y collect (omega arith) v)) tt (λ e. refl) q
        (rw same (omega (arith, more)))
  read_from (at_once e ∷ events) y none reading v fits idle q room =
      let more = sequence-step-le loads y e (omega arith) in
      read_from events (step loads y e) none reading (step-IsCoherent loads y e (omega arith) v) tt
        (λ e. refl) (is_quiet-rest reading e events q) (omega (arith, more))
  read_from (at_once (capture frame) ∷ events) y (some p) reading v fits idle q room =
      read_from events y (some p) reading v fits idle q (omega arith)
  read_from (at_once collect ∷ events) y (some p) reading v fits idle q room =
      read_from events y (some p) reading v fits idle q (omega arith)
  read_from (at_once take_frame ∷ events) y (some p) reading v fits idle q room =
      let more = sequence-step-le loads y take_frame (omega arith) in
      read_from events (take_step y) (some p) reading
        (step-IsCoherent loads y take_frame (omega arith) v) (take_step-seen y ∙ fits) idle q
        (omega (arith, more))
  read_from (at_once (finish text) ∷ events) y (some p) false v fits idle q room =
      let n = idle refl in absurd cc
  read_from (at_once (finish text) ∷ events) y (some p) true v fits idle q room = absurd cc

  -- From a coherent system, in whatever order the two processes take their steps, and whatever the texts
  -- and frames are, where P1 reads a result in two steps, every other reading and writing is one, and P2 may
  -- take a frame but writes no result between the two: P2's slot stays locked with the frame it read, an
  -- unread result names a locked slot with the frame that it is about, and every frame that P1 drew a result
  -- on is the frame that the result was computed from. There are fewer steps than the 64-bit sequence word
  -- has room for.
  pub read_run-IsCoherent :
      (y : System) (events : List ReadEvent)
      → IsCoherent y
      → is_quiet false events ≡ true
      → sequence y.segments + length events < 2 ^ 64
      → IsCoherent (read_run (record { system = y; pending = none }) events).system
  read_run-IsCoherent y events v q room = read_from events y none false v tt (λ e. refl) q room
