-- ===== src/SharedMemory/Attach.antt =====
-- A second process that attaches to the segments. shared/memory.py means to set them up only if they
-- are fresh, and tells that by the frame counter at offset 32, which no operation ever writes.
use computer_vision.Common.{◌≡◌, refl, ◌∙◌, none, some, arith, true, eqb, eqb_iff}
use computer_vision.SharedMemory.Words.{Control, get_u64, set_i32, set_u64, store_word}
use computer_vision.SharedMemory.{
  Slot, slot_a, slot_b, Frame, Segments, attach, pick_free, find_filled, write_frame, free, state,
}

counter-write_frame :
    (s : Segments) (i : Slot) (f : Frame)
    → get_u64 (write_frame s i f).0.control 32 ≡ get_u64 s.control 32
unfolding write_frame get_u64 set_i32
counter-write_frame s slot_a f = ground arith
counter-write_frame s slot_b f = ground arith

-- Eight zero bytes, below a word that is stored behind them.
zero_word : (c : Control) → get_u64 (store_word 8 (store_word 8 c 24 0) 32 0) 24 ≡ 0
unfolding get_u64 store_word
zero_word c = refl

attach_clears :
    (s : Segments)
    → get_u64 s.control 32 ≡ 0
    → (state (attach s).0 slot_a ≡ free)
      × (state (attach s).0 slot_b ≡ free)
      × (get_u64 (attach s).0.control 24 ≡ 0)
unfolding attach set_i32 set_u64
attach_clears s h =
    let fresh : eqb (get_u64 s.control 32) 0 ≡ true = (eqb_iff (get_u64 s.control 32) 0).1 h in
    (rw fresh, rw fresh, rw fresh (zero_word _))

-- A process that attaches after P1 has written a frame to segments that were set up afresh discards
-- that frame: both slots are free again, no frame is found, and no result has been written.
pub attach-write_frame :
    (s : Segments) (i : Slot) (f : Frame)
    → get_u64 s.control 32 ≡ 0
    → (state (attach (write_frame s i f).0).0 slot_a ≡ free)
      × (state (attach (write_frame s i f).0).0 slot_b ≡ free)
      × (find_filled (attach (write_frame s i f).0).0 ≡ none)
      × (pick_free (attach (write_frame s i f).0).0 ≡ some slot_a)
      × (get_u64 (attach (write_frame s i f).0).0.control 24 ≡ 0)
unfolding find_filled pick_free
attach-write_frame s i f h =
    let (a, b, q) = attach_clears (write_frame s i f).0 (counter-write_frame s i f ∙ h) in
    (a, b, ground arith, ground arith, q)
