-- ===== src/Capture/LatestFrame/Examples.antt =====
-- The slot at concrete frames: tests, and the theorems of this folder applied.
use computer_vision.Common.{◌≡◌, refl, true, none, some, List, [], ◌∷◌, arith}
use computer_vision.Errors.{Error, ok, err}
use computer_vision.Capture.LatestFrame.{
  Array, FramePacket, LatestFrameBuffer, Stamps, zeros, init, publish, read_latest, stamp_or,
}
use computer_vision.Capture.LatestFrame.Validity.{IsValid, init-IsValid}
use computer_vision.Capture.LatestFrame.Delivery.{Accepts, packet_of, read_latest-publish}
use computer_vision.Capture.LatestFrame.Accounting.{
  Channel, Call, publish_call, poll_call, IsAccounted, step, run, run-IsAccounted,
}

-- A slot of 4 by 2 pixels.
abbrev slot : LatestFrameBuffer
slot = record {
  camera_id = "gate";
  max_width = 4;
  max_height = 2;
  cells = zeros 24;
  sequence = 0;
  consumed_sequence = 0;
  unix_ns = 0;
  monotonic_ns = 0;
  height = 0;
  width = 0;
  dropped = 0;
  stale = 0;
}

abbrev pixel : Array
pixel = record { is_uint8 = true; shape = 1 ∷ 1 ∷ 3 ∷ []; bytes = 7 ∷ 8 ∷ 9 ∷ [] }

abbrev stamps : Stamps
stamps = record { unix = none; monotonic = some 5000; time_ns = 77; monotonic_ns = 6000 }

init-slot : init "gate" 4 2 ≡ ok slot
unfolding init
init-slot = refl

init-zero : init "gate" 0 2 ≡ err Error.value_error
unfolding init
init-zero = refl

too_wide : (publish slot (record pixel { shape = 1 ∷ 5 ∷ 3 ∷ [] }) stamps).1 ≡ err Error.value_error
unfolding publish
too_wide = refl

not_bgr : (publish slot (record pixel { shape = 1 ∷ 1 ∷ 4 ∷ [] }) stamps).1 ≡ err Error.value_error
unfolding publish
not_bgr = refl

slot-IsValid : IsValid slot
slot-IsValid = init-IsValid "gate" 4 2 slot init-slot

pixel-Accepts : Accepts slot pixel
pixel-Accepts = record {
  height = 1;
  width = 1;
  is_uint8 = refl;
  shape = refl;
  bytes = refl;
  height_fits = omega arith;
  width_fits = omega arith;
}

read_latest-publish_example :
    (read_latest (publish slot pixel stamps).0 0 (some 500) 9000).1
    ≡ some (packet_of slot pixel stamps)
unfolding stamp_or
read_latest-publish_example =
    read_latest-publish slot pixel stamps 0 500 9000 pixel-Accepts (omega arith) (omega arith)
      (omega arith)

abbrev filled : LatestFrameBuffer
filled = record slot {
  cells = 7 ∷ 8 ∷ 9 ∷ zeros 21;
  sequence = 1;
  monotonic_ns = 5000;
  height = 1;
  width = 1;
}

abbrev first : FramePacket
first = record {
  camera_id = "gate";
  frame_id = 1;
  captured_at_unix_ns = 0;
  captured_at_monotonic_ns = 5000;
  frame = pixel;
}

read-filled : (read_latest filled 0 (some 500) 9000).1 ≡ some first
unfolding read_latest
read-filled = refl

abbrev quiet : Channel
quiet = record { buffer = slot; last_sequence = 0; delivered = 0 }

-- Two frames of which the first is overwritten, one that is refused, and two looks.
abbrev calls : List Call
calls =
    publish_call pixel stamps
    ∷ publish_call pixel stamps
    ∷ publish_call (record pixel { shape = [] }) stamps
    ∷ poll_call 500 9000
    ∷ poll_call 500 9000
    ∷ []

run-calls :
    ((run quiet calls).delivered ≡ 1)
    × ((run quiet calls).buffer.dropped ≡ 1)
    × ((run quiet calls).buffer.sequence ≡ 2)
unfolding run step publish read_latest
run-calls = (refl, refl, refl)

quiet-IsAccounted : IsAccounted quiet
quiet-IsAccounted = record {
  in_word = omega arith;
  remembers = refl;
  consumed_le = omega arith;
  total = refl;
}

run-IsAccounted_example : IsAccounted (run quiet calls)
run-IsAccounted_example = run-IsAccounted quiet calls quiet-IsAccounted (omega arith)
