-- ===== src/SharedMemory/Protocol/Untouched.antt =====
-- What an operation on one slot leaves alone: the other slot, and the words about the result.
use computer_vision.Common.{ℕ, ◌≡◌, ◌≢◌, refl, arith, ◌+◌, ◌<◌, ◌^◌, List}
use computer_vision.Errors.{ok}
use computer_vision.SharedMemory.Words.{
  natural, Control, get_u64, get_i32, set_i32, set_u64, store_word, get_u64-store_word,
}
use computer_vision.SharedMemory.{
  Slot, slot_a, slot_b, number, Frame, Segments, state, set_state, write_frame, read_frame,
  write_result,
}

-- The words that tell P1 about the last result.
pub record SameResult (s t : Segments) : Type 0 where
  pub target : get_i32 t.control 20 ≡ get_i32 s.control 20
  pub sequence : get_u64 t.control 24 ≡ get_u64 s.control 24

pub record SameSlot (s t : Segments) (j : Slot) : Type 0 where
  pub status : state t j ≡ state s j
  pub frame : read_frame t j ≡ read_frame s j

pub set_state-SameResult : (s : Segments) (i : Slot) (v : ℕ) → SameResult s (set_state s i v)
unfolding set_state get_i32 get_u64
set_state-SameResult s slot_a v = record { target = refl; sequence = refl }
set_state-SameResult s slot_b v = record { target = refl; sequence = refl }

pub set_state-read_frame :
    (s : Segments) (i j : Slot) (v : ℕ) → read_frame (set_state s i v) j ≡ read_frame s j
unfolding set_state read_frame get_i32
set_state-read_frame s slot_a slot_a v = refl
set_state-read_frame s slot_a slot_b v = refl
set_state-read_frame s slot_b slot_a v = refl
set_state-read_frame s slot_b slot_b v = refl

pub state-set_state_self : (s : Segments) (i : Slot) (v : ℕ) → state (set_state s i v) i ≡ v
unfolding set_state
state-set_state_self s slot_a v = refl
state-set_state_self s slot_b v = refl

pub state-set_state_ne :
    (s : Segments) (i j : Slot) (v : ℕ) → i ≢ j → state (set_state s i v) j ≡ state s j
unfolding set_state
state-set_state_ne s slot_a slot_a v h = absurd (h refl)
state-set_state_ne s slot_a slot_b v h = refl
state-set_state_ne s slot_b slot_a v h = refl
state-set_state_ne s slot_b slot_b v h = absurd (h refl)

pub write_frame-SameResult :
    (s : Segments) (i : Slot) (f : Frame) → SameResult s (write_frame s i f).0
unfolding write_frame get_i32 get_u64 set_i32
write_frame-SameResult s slot_a f = ground arith
write_frame-SameResult s slot_b f = ground arith

pub write_frame-SameSlot :
    (s : Segments) (i j : Slot) (f : Frame) → i ≢ j → SameSlot s (write_frame s i f).0 j
unfolding write_frame read_frame get_i32 set_i32
write_frame-SameSlot s slot_a slot_a f h = absurd (h refl)
write_frame-SameSlot s slot_a slot_b f h = ground arith
write_frame-SameSlot s slot_b slot_a f h = ground arith
write_frame-SameSlot s slot_b slot_b f h = absurd (h refl)

pub write_result-SameSlot :
    (s : Segments) (text : List ℕ) (i j : Slot) → SameSlot s (write_result s text i).0 j
unfolding write_result read_frame get_i32 set_i32 set_u64
write_result-SameSlot s text slot_a slot_a = ground arith
write_result-SameSlot s text slot_a slot_b = ground arith
write_result-SameSlot s text slot_b slot_a = ground arith
write_result-SameSlot s text slot_b slot_b = ground arith

result_words :
    (c : Control) (n : ℕ)
    → n < 2
    → (get_i32 (store_word 8 (store_word 4 c 20 n) 24 (get_u64 c 24 + 1)) 20 ≡ natural n)
      × (get_u64 (store_word 4 c 20 n) 24 ≡ get_u64 c 24)
unfolding get_i32 get_u64 store_word
result_words c n h = ground arith

pub write_result-words :
    (s : Segments) (text : List ℕ) (i : Slot)
    → get_u64 s.control 24 + 1 < 2 ^ 64
    → (get_i32 (write_result s text i).0.control 20 ≡ natural (number i))
      × (get_u64 (write_result s text i).0.control 24 ≡ get_u64 s.control 24 + 1)
      × ((write_result s text i).1 ≡ ok tt)
unfolding write_result set_i32 set_u64
write_result-words s text slot_a h =
    let (t, q) = result_words s.control 0 (omega arith) in
    ground (arith, get_u64-store_word (store_word 4 s.control 20 0) 24 (get_u64 s.control 24 + 1) h)
write_result-words s text slot_b h =
    let (t, q) = result_words s.control 1 (omega arith) in
    ground (arith, get_u64-store_word (store_word 4 s.control 20 1) 24 (get_u64 s.control 24 + 1) h)
