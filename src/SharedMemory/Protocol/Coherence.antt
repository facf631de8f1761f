-- ===== src/SharedMemory/Protocol/Coherence.antt =====
-- What links the two processes at every moment: the slots that are locked, the frame that P2 works on,
-- and the result that P1 has not read.
use computer_vision.Common.{
  ℕ, ◌≤◌, ◌≡◌, ◌≢◌, refl, sym, ap, ◌∙◌, ◌⊎◌, inl, inr, Option, none, some, List, [], ◌∷◌, arith,
}
use computer_vision.Errors.{ok}
use computer_vision.SharedMemory.Words.{natural, get_u64, get_i32}
use computer_vision.SharedMemory.{
  Slot, number, Frame, Segments, state, free, filled, locked, set_state, pick_free, find_filled,
  write_frame, read_frame,
}
use computer_vision.SharedMemory.Protocol.{System}
use computer_vision.SharedMemory.Protocol.Untouched.{
  SameResult, SameSlot, set_state-SameResult, set_state-read_frame, state-set_state_ne,
  write_frame-SameResult, write_frame-SameSlot,
}

abbrev pub sequence : Segments → ℕ
sequence s = get_u64 s.control 24

-- P2's slot is locked and holds the frame that P2 read.
abbrev pub WorkerFits : Segments → Option (Slot × Frame) → Type 0
WorkerFits s none = Unit
WorkerFits s (some (i, f)) = (state s i ≡ locked) × (read_frame s i ≡ ok (some f))

abbrev pub Apart : Option (Slot × Frame) → Slot → Type 0
Apart none i = Unit
Apart (some (j, f)) i = j ≢ i

-- A result that P1 has not read names a locked slot that still holds the frame it is about.
pub record Unread (y : System) : Type 0 where
  pub slot : Slot
  pub frame : Frame
  pub target : get_i32 y.segments.control 20 ≡ natural (number slot)
  pub status : state y.segments slot ≡ locked
  pub holds : read_frame y.segments slot ≡ ok (some frame)
  pub about : y.answered ≡ some frame
  pub apart : Apart y.worker slot

abbrev pub AllExact : List (Frame × Option Frame) → Type 0
AllExact [] = Unit
AllExact ((drawn, source) ∷ rest) = (source ≡ some drawn) × AllExact rest

pub record IsCoherent (y : System) : Type 0 where
  pub working : WorkerFits y.segments y.worker
  pub read_le : y.last_result_seq ≤ sequence y.segments
  pub unread : (sequence y.segments ≡ y.last_result_seq) ⊎ Unread y
  pub exact : AllExact y.shown

-- Segments that differ in slots that are not locked, and not in the words about the result.
pub record SameLocked (s t : Segments) : Type 0 where
  pub result : SameResult s t
  pub slot : (j : Slot) → state s j ≡ locked → SameSlot s t j

pub WorkerFits-SameLocked :
    (s t : Segments) (w : Option (Slot × Frame)) → SameLocked s t → WorkerFits s w → WorkerFits t w
WorkerFits-SameLocked s t none k h = tt
WorkerFits-SameLocked s t (some (i, f)) k h =
    let same = k.slot i h.0 in (same.status ∙ h.0, same.frame ∙ h.1)

pub IsCoherent-SameLocked :
    (y : System) (t : Segments)
    → SameLocked y.segments t
    → IsCoherent y
    → IsCoherent (record y { segments = t })
IsCoherent-SameLocked y t k v = record {
  working = WorkerFits-SameLocked y.segments t y.worker k v.working;
  read_le = rw k.result.sequence v.read_le;
  unread = elim v.unread [
    | inl done ↦ inl (k.result.sequence ∙ done)
    | inr u ↦ inr (record {
      slot = u.slot;
      frame = u.frame;
      target = k.result.target ∙ u.target;
      status = (k.slot u.slot u.status).status ∙ u.status;
      holds = (k.slot u.slot u.status).frame ∙ u.holds;
      about = u.about;
      apart = u.apart;
    })
  ];
  exact = v.exact;
}

pub ne_of_state :
    (s : Segments) (i j : Slot) (v w : ℕ) → state s i ≡ v → state s j ≡ w → v ≢ w → i ≢ j
ne_of_state s i j v w p q h e = h (sym p ∙ ap (state s) e ∙ q)

pub pick_free_state : (s : Segments) (i : Slot) → pick_free s ≡ some i → state s i ≡ free
unfolding pick_free
pick_free_state s i e = ground arith

pub find_filled_state : (s : Segments) (i : Slot) → find_filled s ≡ some i → state s i ≡ filled
unfolding find_filled
find_filled_state s i e = ground arith

pub write_frame-SameLocked :
    (s : Segments) (i : Slot) (f : Frame) → state s i ≡ free → SameLocked s (write_frame s i f).0
write_frame-SameLocked s i f p = record {
  result = write_frame-SameResult s i f;
  slot = λ j q. write_frame-SameSlot s i j f (ne_of_state s i j free locked p q (omega arith));
}

pub SameLocked-refl : (s : Segments) → SameLocked s s
SameLocked-refl s = record {
  result = record { target = refl; sequence = refl };
  slot = λ j q. record { status = refl; frame = refl };
}

-- A slot that was not locked at first may change its state as often as it likes.
pub SameLocked-set_state :
    (s t : Segments) (i : Slot) (v : ℕ)
    → SameLocked s t
    → state s i ≢ locked
    → SameLocked s (set_state t i v)
SameLocked-set_state s t i v k p =
    let same = set_state-SameResult t i v in
    record {
      result = record {
        target = same.target ∙ k.result.target;
        sequence = same.sequence ∙ k.result.sequence;
      };
      slot = λ j q. record {
        status = state-set_state_ne t i j v (λ e. p (ap (state s) e ∙ q)) ∙ (k.slot j q).status;
        frame = set_state-read_frame t i j v ∙ (k.slot j q).frame;
      };
    }

pub ne_locked : (s : Segments) (i : Slot) → state s i ≡ filled → state s i ≢ locked
ne_locked s i p = omega arith

pub locking : (s : Segments) (i : Slot) → state s i ≡ filled → SameLocked s (set_state s i locked)
locking s i p = SameLocked-set_state s s i locked (SameLocked-refl s) (ne_locked s i p)
