-- ===== src/Capture/LatestFrame.antt =====
-- edge_runtime/capture/latest_frame_buffer.py: one shared frame slot. Each method holds the lock for
-- its whole critical section, so a method is one function from state to state. The clocks
-- (`time.time_ns`, `time.monotonic_ns`) are arguments. `Value("Q")` is a 64-bit unsigned word.
pub mod Validity
pub mod Delivery
pub mod Accounting
mod Examples
use computer_vision.Common.{
  ℕ, zero, suc, ◌+◌, ◌-◌, ◌*◌, ◌%◌, ◌^◌, String, Bool, true, false, not, ◌||◌, Option, none, some,
  List, [], ◌∷◌, length, take, write_prefix, ltb, leb, eqb, if◌then◌else◌,
}
use computer_vision.Errors.{Error, Result, ok, err}

abbrev pub u64 : ℕ
u64 = 2 ^ 64

-- A NumPy array: its element type, its shape, and its bytes in C order.
pub record Array : Type 0 where
  pub is_uint8 : Bool
  pub shape : List ℕ
  pub bytes : List ℕ

pub record FramePacket : Type 0 where
  pub camera_id : String
  pub frame_id : ℕ
  pub captured_at_unix_ns : ℕ
  pub captured_at_monotonic_ns : ℕ
  pub frame : Array

-- `age_ms`, in nanoseconds; subtraction on ℕ is `max(0, …)`.
unfoldable pub age_ns : FramePacket → ℕ → ℕ
age_ns p now = now - p.captured_at_monotonic_ns

pub record LatestFrameBuffer : Type 0 where
  pub camera_id : String
  pub max_width : ℕ
  pub max_height : ℕ
  pub cells : List ℕ
  pub sequence : ℕ
  pub consumed_sequence : ℕ
  pub unix_ns : ℕ
  pub monotonic_ns : ℕ
  pub height : ℕ
  pub width : ℕ
  pub dropped : ℕ
  pub stale : ℕ

abbrev pub zeros : ℕ → List ℕ
zeros zero = []
zeros (suc n) = 0 ∷ zeros n

-- `__init__`
unfoldable pub init : String → ℕ → ℕ → Result LatestFrameBuffer
init camera_id max_width max_height =
    if leb max_width 0 || leb max_height 0
    then err Error.value_error
    else ok (record {
      camera_id = camera_id;
      max_width = max_width;
      max_height = max_height;
      cells = zeros (max_width * max_height * 3);
      sequence = 0;
      consumed_sequence = 0;
      unix_ns = 0;
      monotonic_ns = 0;
      height = 0;
      width = 0;
      dropped = 0;
      stale = 0;
    })

-- `value or clock()`: a missing stamp, and the stamp 0, take the clock's value.
unfoldable pub stamp_or : Option ℕ → ℕ → ℕ
stamp_or none clock = clock
stamp_or (some t) clock = if eqb t 0 then clock else t

-- The critical section of `publish`, for a frame that passed its checks.
unfoldable pub store_frame : LatestFrameBuffer → List ℕ → ℕ → ℕ → ℕ → ℕ → LatestFrameBuffer
store_frame b bytes height width unix_ns monotonic_ns = record b {
  dropped = if ltb b.consumed_sequence b.sequence then (b.dropped + 1) % u64 else b.dropped;
  cells = write_prefix bytes b.cells;
  height = height;
  width = width;
  unix_ns = unix_ns % u64;
  monotonic_ns = monotonic_ns % u64;
  sequence = (b.sequence + 1) % u64;
}

-- What the caller of `publish` passes, and what the clocks show during the call.
pub record Stamps : Type 0 where
  pub unix : Option ℕ
  pub monotonic : Option ℕ
  pub time_ns : ℕ
  pub monotonic_ns : ℕ

unfoldable pub publish : LatestFrameBuffer → Array → Stamps → LatestFrameBuffer × Result ℕ
unfolding stamp_or store_frame
publish b frame t = elim frame.shape [
  | height ∷ width ∷ channels ∷ [] ↦
      if not frame.is_uint8 || not (eqb channels 3)
      then (b, err Error.value_error)
      else if ltb b.max_width width || ltb b.max_height height
      then (b, err Error.value_error)
      else let b' =
          store_frame b frame.bytes height width (stamp_or t.unix t.time_ns)
            (stamp_or t.monotonic t.monotonic_ns) in
        (b', ok b'.sequence)
  | _ ↦ (b, err Error.value_error)
]

-- `max_age_ms is not None and age_ms > max_age_ms`, for a limit in whole milliseconds.
unfoldable pub is_stale : LatestFrameBuffer → Option ℕ → ℕ → Bool
is_stale b none now = false
is_stale b (some max_age_ms) now = ltb (b.monotonic_ns + max_age_ms * 1000000) now

unfoldable pub packet : LatestFrameBuffer → FramePacket
packet b = record {
  camera_id = b.camera_id;
  frame_id = b.sequence;
  captured_at_unix_ns = b.unix_ns;
  captured_at_monotonic_ns = b.monotonic_ns;
  frame = record {
    is_uint8 = true;
    shape = b.height ∷ b.width ∷ 3 ∷ [];
    bytes = take (b.height * b.width * 3) b.cells;
  };
}

unfoldable pub read_latest :
    LatestFrameBuffer → ℕ → Option ℕ → ℕ → LatestFrameBuffer × Option FramePacket
unfolding is_stale packet
read_latest b after_sequence max_age_ms now =
    if eqb b.sequence 0 || leb b.sequence after_sequence
    then (b, none)
    else if is_stale b max_age_ms now
    then (record b { stale = (b.stale + 1) % u64; consumed_sequence = b.sequence }, none)
    else (record b { consumed_sequence = b.sequence }, some (packet b))
