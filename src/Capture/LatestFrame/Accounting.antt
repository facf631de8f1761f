-- ===== src/Capture/LatestFrame/Accounting.antt =====
-- What becomes of each published frame. A consumer that remembers the last sequence number it was shown,
-- as `SharedInferenceScheduler._collect_batch` does, and a producer share one buffer.
use computer_vision.Common.{
  ℕ, ◌+◌, ◌≤◌, ◌<◌, ◌≡◌, Bool, Option, none, some, List, [], ◌∷◌, arith, length, ltb, if◌then◌else◌,
}
use computer_vision.Capture.LatestFrame.{
  u64, Array, FramePacket, LatestFrameBuffer, Stamps, publish, read_latest,
}

-- `delivered` counts the packets that the consumer was handed.
pub record Channel : Type 0 where
  pub buffer : LatestFrameBuffer
  pub last_sequence : ℕ
  pub delivered : ℕ

pub data Call : Type 0 where
  publish_call : Array → Stamps → Call
  poll_call : (max_age_ms now : ℕ) → Call

after_read : Channel → LatestFrameBuffer → Option FramePacket → Channel
after_read c b none = record {
  buffer = b;
  last_sequence = if ltb c.buffer.stale b.stale then b.sequence else c.last_sequence;
  delivered = c.delivered;
}
after_read c b (some p) = record {
  buffer = b;
  last_sequence = p.frame_id;
  delivered = c.delivered + 1;
}

-- One look at a camera's buffer: `before_stale`, `read_latest`, and the new last sequence number. The code
-- takes the buffer's lock for each of the four; here no publish comes between them.
unfoldable pub poll : Channel → ℕ → ℕ → Channel
unfolding after_read
poll c max_age_ms now =
    let (b, result) = read_latest c.buffer c.last_sequence (some max_age_ms) now in
    after_read c b result

unfoldable pub step : Channel → Call → Channel
unfolding poll
step c (publish_call frame t) = record c { buffer = (publish c.buffer frame t).0 }
step c (poll_call max_age_ms now) = poll c max_age_ms now

unfoldable pub run : Channel → List Call → Channel
run c [] = c
run c (call ∷ calls) = run (step c call) calls

abbrev pub pending : LatestFrameBuffer → ℕ
pending b = if ltb b.consumed_sequence b.sequence then 1 else 0

-- Every sequence number given out is dropped, stale, delivered or still in the slot.
pub record IsAccounted (c : Channel) : Type 0 where
  pub in_word : c.buffer.sequence < u64
  pub remembers : c.last_sequence ≡ c.buffer.consumed_sequence
  pub consumed_le : c.buffer.consumed_sequence ≤ c.buffer.sequence
  pub total : c.buffer.sequence ≡ c.buffer.dropped + c.buffer.stale + c.delivered + pending c.buffer

publish_shape-IsAccounted :
    (c : Channel) (u : Bool) (shape bytes : List ℕ) (t : Stamps)
    → IsAccounted c
    → c.buffer.sequence + 1 < u64
    → IsAccounted (step c (publish_call (record { is_uint8 = u; shape = shape; bytes = bytes }) t))
unfolding step publish
publish_shape-IsAccounted c u (h ∷ w ∷ k ∷ []) bytes t v room = ground arith
publish_shape-IsAccounted c u shape bytes t v room = v

poll-IsAccounted : (c : Channel) (m now : ℕ) → IsAccounted c → IsAccounted (poll c m now)
unfolding poll read_latest
poll-IsAccounted c m now v = ground arith

sequence-publish_shape :
    (b : LatestFrameBuffer) (u : Bool) (shape bytes : List ℕ) (t : Stamps)
    → b.sequence + 1 < u64
    → (publish b (record { is_uint8 = u; shape = shape; bytes = bytes }) t).0.sequence
      ≤ b.sequence + 1
unfolding publish
sequence-publish_shape b u (h ∷ w ∷ k ∷ []) bytes t room = ground arith
sequence-publish_shape b u shape bytes t room = omega arith

sequence-poll : (c : Channel) (m now : ℕ) → (poll c m now).buffer.sequence ≡ c.buffer.sequence
unfolding poll read_latest
sequence-poll c m now = ground arith

-- From any accounted channel, through any calls in any order, valid frames or not, every sequence
-- number that was given out is counted once: as dropped, as stale, as delivered, or as the frame in
-- the slot. The calls are fewer than the 64-bit sequence word has room for.
pub run-IsAccounted :
    (c : Channel) (calls : List Call)
    → IsAccounted c
    → c.buffer.sequence + length calls < u64
    → IsAccounted (run c calls)
unfolding run step
run-IsAccounted c [] v room = v
run-IsAccounted c (publish_call f t ∷ calls) v room =
    run-IsAccounted (step c (publish_call f t)) calls
      (publish_shape-IsAccounted c f.is_uint8 f.shape f.bytes t v (omega arith))
      (omega (arith, sequence-publish_shape c.buffer f.is_uint8 f.shape f.bytes t (omega arith)))
run-IsAccounted c (poll_call m now ∷ calls) v room =
    run-IsAccounted (poll c m now) calls (poll-IsAccounted c m now v)
      (omega (arith, sequence-poll c m now))
