-- ===== src/SharedMemory/Examples.antt =====
-- The two processes on frames of one or two pixels: runs, and the theorems of this folder applied.
use computer_vision.Common.{
  ℕ, zero, suc, ◌+◌, ◌≡◌, refl, inl, Option, none, some, List, [], ◌∷◌, arith, length, take,
}
use computer_vision.SharedMemory.Words.{natural, blank, get_u64, get_i32, set_u64, set_i32}
use computer_vision.SharedMemory.{
  free, state, slot_a, slot_b, Frame, Segments, state, locked, attach, pick_free, find_filled,
  write_frame, read_frame, read_shape, write_result, read_result, parse_result, acquire, release,
  result_size,
}
use computer_vision.SharedMemory.Results.{read_result-write_result}
use computer_vision.SharedMemory.Torn.{read_between, read_between-write_result}
use computer_vision.SharedMemory.Attach.{attach-write_frame}
use computer_vision.SharedMemory.Protocol.{
  System, Event, capture, collect, take_frame, finish, hold, overlay, capture_step, take_step,
  finish_step, collect_step, step, run,
}
use computer_vision.SharedMemory.Protocol.Coherence.{IsCoherent, Unread}
use computer_vision.SharedMemory.Protocol.Reading.{
  ReadEvent, at_once, look, resume, read_run, read_run-IsCoherent,
}
use computer_vision.SharedMemory.Protocol.Stuck.{run-finish_unread}

abbrev zeros : ℕ → List ℕ
zeros zero = []
zeros (suc n) = 0 ∷ zeros n

-- Slots of two pixels, and a result area of its real size.
abbrev fresh : Segments
fresh = record {
  max_width = 2;
  max_height = 1;
  control = blank;
  frame_a = zeros 6;
  frame_b = zeros 6;
  result = zeros 8;
}

abbrev first : Frame
first = record { height = 1; width = 1; pixels = 1 ∷ 2 ∷ 3 ∷ [] }

abbrev second : Frame
second = record { height = 1; width = 2; pixels = 4 ∷ 5 ∷ 6 ∷ 7 ∷ 8 ∷ 9 ∷ [] }

abbrev text : List ℕ
text = b'{' ∷ b'1' ∷ b'}' ∷ []

-- `loads` for these runs: the bytes themselves.
abbrev bytes : List ℕ → Option (List ℕ)
bytes b = some b

abbrev idle : System
idle = record { segments = fresh; last_result_seq = 0; worker = none; answered = none; shown = [] }

attach-write_frame_example :
    (state (attach (write_frame fresh slot_a first).0).0 slot_a ≡ free)
    × (state (attach (write_frame fresh slot_a first).0).0 slot_b ≡ free)
    × (find_filled (attach (write_frame fresh slot_a first).0).0 ≡ none)
    × (pick_free (attach (write_frame fresh slot_a first).0).0 ≡ some slot_a)
    × (get_u64 (attach (write_frame fresh slot_a first).0).0.control 24 ≡ 0)
unfolding get_u64
attach-write_frame_example = attach-write_frame fresh slot_a first refl

-- All that the protocol computes with.
protocol : Unit {0}
unfolding run step capture_step take_step finish_step collect_step hold overlay pick_free
    find_filled acquire release write_frame read_frame read_shape write_result read_result
    parse_result set_i32 set_u64 get_i32 get_u64
protocol = tt

-- One round: a frame is written, taken, answered, and drawn on.
abbrev round : List Event
round = capture first ∷ take_frame ∷ finish text ∷ collect ∷ []

run-round : (run bytes idle round).shown ≡ (first, some first) ∷ []
unfolding protocol
run-round = refl

idle-IsCoherent : IsCoherent idle
unfolding get_u64
idle-IsCoherent = record { working = tt; read_le = omega arith; unread = inl refl; exact = tt }

-- P2 has answered the frame in the first slot, and works on the second.
abbrev crowded : System
crowded =
    run bytes idle (capture first ∷ take_frame ∷ finish text ∷ capture second ∷ take_frame ∷ [])

slot_b≢slot_a : ¬ (slot_b ≡ slot_a)
slot_b≢slot_a e = cc

crowded-Unread : Unread crowded
unfolding protocol
crowded-Unread = record {
  slot = slot_a;
  frame = first;
  target = refl;
  status = refl;
  holds = refl;
  about = refl;
  apart = λ e. slot_b≢slot_a e;
}

run-finish_unread_example :
    state (run bytes crowded (finish text ∷ collect ∷ collect ∷ round)).segments slot_a ≡ locked
unfolding protocol crowded-Unread
run-finish_unread_example =
    run-finish_unread bytes crowded crowded-Unread slot_b second text (collect ∷ collect ∷ round)
      refl (omega arith)

-- A result area of its real size.
wide : List ℕ
wide = zeros 8192

length-zeros : (n : ℕ) → length (zeros n) ≡ n
length-zeros zero = refl
length-zeros (suc n) = omega (arith, length-zeros n)

length-wide : length wide ≡ result_size
unfolding wide
length-wide = length-zeros 8192

abbrev real : Segments
real = record fresh { result = wide }

read_result-write_result_example :
    (read_result bytes (write_result real text slot_b).0 0
      ≡ (get_u64 real.control 24 + 1, some (take 8191 text, natural 1)))
    × (read_result bytes (write_result real text slot_b).0 (get_u64 real.control 24 + 1)
        ≡ (get_u64 real.control 24 + 1, none))
unfolding get_u64
read_result-write_result_example =
    read_result-write_result bytes real text slot_b 0 (omega arith) (omega arith) length-wide
      (omega arith) (omega arith)

abbrev answered_first : Segments
answered_first = (write_result real text slot_a).0

abbrev answered_both : Segments
answered_both = (write_result answered_first text slot_b).0

read_between-write_result_example :
    (read_between bytes answered_first answered_both 0
      ≡ (get_u64 real.control 24 + 1, some (take 8191 text, natural 1)))
    × (read_result bytes answered_both (get_u64 real.control 24 + 1)
        ≡ (get_u64 real.control 24 + 2, some (take 8191 text, natural 1)))
unfolding get_u64
read_between-write_result_example =
    read_between-write_result bytes real text text slot_a slot_b 0 (take 8191 text) (omega arith)
      (omega arith) (omega arith) (omega arith) length-wide (omega arith) (omega arith) refl

-- P2 takes the next frame while P1 reads the result on the first.
abbrev read_slowly : List ReadEvent
read_slowly =
    at_once (capture first)
    ∷ at_once take_frame
    ∷ at_once (finish text)
    ∷ at_once (capture second)
    ∷ look
    ∷ at_once take_frame
    ∷ resume
    ∷ []

read_slowly_shown :
    (read_run bytes (record { system = idle; pending = none }) read_slowly).system.shown
    ≡ (first, some first) ∷ []
unfolding protocol
read_slowly_shown = refl

read_run-IsCoherent_example :
    IsCoherent (read_run bytes (record { system = idle; pending = none }) read_slowly).system
unfolding get_u64
read_run-IsCoherent_example =
    read_run-IsCoherent bytes idle read_slowly idle-IsCoherent refl (omega arith)
