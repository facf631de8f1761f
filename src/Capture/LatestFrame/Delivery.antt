-- ===== src/Capture/LatestFrame/Delivery.antt =====
-- What `read_latest` hands to the consumer, and when it hands it nothing.
use computer_vision.Common.{
  ℕ, ◌+◌, ◌*◌, ◌%◌, ◌≤◌, ◌<◌, ◌≡◌, ap, ◌∙◌, true, Option, none, some, List, [], ◌∷◌, ◌++◌, arith,
  length, take, take-append, drop,
}
use computer_vision.Errors.{ok}
use computer_vision.Capture.LatestFrame.{
  u64, Array, FramePacket, LatestFrameBuffer, Stamps, publish, stamp_or, store_frame, read_latest,
  packet, age_ns,
}

-- A frame that `publish` accepts: a uint8 H×W×3 array within the buffer's dimensions.
pub record Accepts (b : LatestFrameBuffer) (frame : Array) : Type 0 where
  pub height : ℕ
  pub width : ℕ
  pub is_uint8 : frame.is_uint8 ≡ true
  pub shape : frame.shape ≡ height ∷ width ∷ 3 ∷ []
  pub bytes : length frame.bytes ≡ height * width * 3
  pub height_fits : height ≤ b.max_height
  pub width_fits : width ≤ b.max_width

-- The packet that describes `frame`, with the stamps that `publish` recorded.
abbrev pub packet_of : LatestFrameBuffer → Array → Stamps → FramePacket
packet_of b frame t = record {
  camera_id = b.camera_id;
  frame_id = b.sequence + 1;
  captured_at_unix_ns = stamp_or t.unix t.time_ns % u64;
  captured_at_monotonic_ns = stamp_or t.monotonic t.monotonic_ns % u64;
  frame = frame;
}

abbrev stored :
    (b : LatestFrameBuffer) (frame : Array) → Accepts b frame → Stamps → LatestFrameBuffer
stored b frame a t =
    store_frame b frame.bytes a.height a.width (stamp_or t.unix t.time_ns)
      (stamp_or t.monotonic t.monotonic_ns)

publish_accepted :
    (b : LatestFrameBuffer) (frame : Array) (t : Stamps) (a : Accepts b frame)
    → publish b frame t ≡ (stored b frame a t, ok ((b.sequence + 1) % u64))
unfolding publish
publish_accepted b frame t a = ground (arith, a.is_uint8, a.shape, a.height_fits, a.width_fits)

take-prefix : (n : ℕ) (bytes rest : List ℕ) → length bytes ≡ n → take n (bytes ++ rest) ≡ bytes
take-prefix n bytes rest e = rw (← e) (take-append bytes rest)

packet-stored :
    (b : LatestFrameBuffer) (frame : Array) (t : Stamps) (a : Accepts b frame)
    → b.sequence + 1 < u64
    → packet (stored b frame a t) ≡ packet_of b frame t
unfolding packet store_frame
packet-stored b frame t a room = ground (
  arith,
  take-prefix (a.height * a.width * 3) frame.bytes (drop (length frame.bytes) b.cells) a.bytes,
  a.is_uint8,
  a.shape,
)

read_stored :
    (b : LatestFrameBuffer) (after max_age now : ℕ)
    → 0 < b.sequence
    → after < b.sequence
    → now ≤ b.monotonic_ns + max_age * 1000000
    → (read_latest b after (some max_age) now).1 ≡ some (packet b)
unfolding read_latest
read_stored b after max_age now p q r = ground arith

-- After an accepted frame is published, a consumer that has not seen it is handed a packet with
-- exactly that frame, the next sequence number and the recorded stamps, as long as the frame's age
-- is within the limit. The sequence number stays within its 64-bit word.
pub read_latest-publish :
    (b : LatestFrameBuffer) (frame : Array) (t : Stamps) (after max_age now : ℕ)
    → Accepts b frame
    → b.sequence + 1 < u64
    → after ≤ b.sequence
    → now ≤ stamp_or t.monotonic t.monotonic_ns % u64 + max_age * 1000000
    → (read_latest (publish b frame t).0 after (some max_age) now).1 ≡ some (packet_of b frame t)
unfolding store_frame
read_latest-publish b frame t after max_age now a room seen fresh =
    rw (publish_accepted b frame t a) (
      read_stored (stored b frame a t) after max_age now (ground arith) (ground arith) fresh
      ∙ ap some (packet-stored b frame t a room))

-- A packet is newer than all that the consumer has seen, is not older than the limit, and is
-- handed out once: asking again after it, at any later time and with any limit, gives nothing and
-- leaves the buffer as it is.
pub read_latest_once :
    (b : LatestFrameBuffer) (after max_age now : ℕ) (p : FramePacket)
    → (read_latest b after (some max_age) now).1 ≡ some p
    → (after < p.frame_id)
      × (age_ns p now ≤ max_age * 1000000)
      × ((limit : Option ℕ) (later : ℕ)
          → read_latest (read_latest b after (some max_age) now).0 p.frame_id limit later
            ≡ ((read_latest b after (some max_age) now).0, none))
unfolding read_latest age_ns
read_latest_once b after max_age now p e = (ground arith, ground arith, λ limit later. ground arith)
